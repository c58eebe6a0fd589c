-- ===== src/Session/Run.antt =====
-- Asynchronous code of a tab as a state monad. A step may await: then whatever else the tab and
-- the server do meanwhile is part of the step, and arrives as a changed `Tab`. The number beside
-- the result counts the HTTP requests sent; `never` is code that awaits what never comes, and
-- `out_of_fuel` is a model's artefact.
use mystic_auth.Prelude.{ℕ, ◌+◌, ◌≤◌, Option, none, some, arith}
use mystic_auth.Session.{Tab}

pub data Run (A : Type 0) : Type 0 where
  out_of_fuel never : Run A
  ran : A → Tab → ℕ → Run A

abbrev pub M : Type 0 → Type 0
M A = Tab → Run A

abbrev pub charge : {A : Type 0} → ℕ → Run A → Run A
charge n out_of_fuel = out_of_fuel
charge n never = never
charge n (ran a t k) = ran a t (n + k)

abbrev pub after : {A B : Type 0} → Run A → (A → M B) → Run B
after out_of_fuel f = out_of_fuel
after never f = never
after (ran a t n) f = charge n (f a t)

infixl 5 ◌>>=◌ ◌>>◌
abbrev pub ◌>>=◌ : {A B : Type 0} → M A → (A → M B) → M B
◌>>=◌ m f t = after (m t) f

abbrev pub ◌>>◌ : {B : Type 0} → M (Unit {0}) → M B → M B
m >> k = m >>= λ _. k

abbrev pub pure : {A : Type 0} → A → M A
pure a t = ran a t 0

abbrev pub get : M Tab
get t = ran t t 0

-- A wait that ends with a result and the tab of that time, or never.
abbrev pub awaited : {A : Type 0} → Option (A × Tab) → Run A
awaited none = never
awaited (some (a, t)) = ran a t 0

abbrev pub modify : (Tab → Tab) → M (Unit {0})
modify f t = ran tt (f t) 0

-- The run ends, and what it sent together with the price of its result is at most `b` requests.
abbrev pub Pays : {A : Type 0} → (A → ℕ) → ℕ → Run A → Type 0
Pays price b out_of_fuel = ⊥
Pays price b never = ⊥
Pays price b (ran a t n) = n + price a ≤ b

abbrev pub free : {A : Type 0} → A → ℕ
free a = 0

-- The run ends, having sent at most `b` requests.
abbrev pub Within : {A : Type 0} → ℕ → Run A → Type 0
Within b r = Pays free b r

-- Where the run ends, its result and the tab satisfy `P`.
abbrev pub Ensures : {A : Type 0} → (A → Tab → Type 0) → Run A → Type 0
Ensures P out_of_fuel = Unit
Ensures P never = Unit
Ensures P (ran a t n) = P a t

module _ {B : Type 0} where
  pub Pays-charge :
      (price : B → ℕ) (n b : ℕ) (r : Run B) → Pays price b r → Pays price (n + b) (charge n r)
  Pays-charge price n b out_of_fuel h = h
  Pays-charge price n b never h = h
  Pays-charge price n b (ran a t k) h = omega arith

  -- For a step that sends nothing.
  pub Pays-charge_zero :
      (price : B → ℕ) (b : ℕ) (r : Run B) → Pays price b r → Pays price b (charge 0 r)
  Pays-charge_zero price b out_of_fuel h = h
  Pays-charge_zero price b never h = h
  Pays-charge_zero price b (ran a t k) h = omega arith

  pub Pays-mono : (price : B → ℕ) (b c : ℕ) (r : Run B) → b ≤ c → Pays price b r → Pays price c r
  Pays-mono price b c out_of_fuel le h = h
  Pays-mono price b c never le h = h
  Pays-mono price b c (ran a t k) le h = omega arith

  -- A flat price can be paid after any bounded run.
  pub Pays-flat : (k b : ℕ) (r : Run B) → Within b r → Pays (λ a. k) (b + k) r
  Pays-flat k b out_of_fuel h = h
  Pays-flat k b never h = h
  Pays-flat k b (ran a t n) h = omega arith

  Ensures-charge : (P : B → Tab → Type 0) (n : ℕ) (r : Run B) → Ensures P r → Ensures P (charge n r)
  Ensures-charge P n out_of_fuel h = h
  Ensures-charge P n never h = h
  Ensures-charge P n (ran a t k) h = h

module _ {A B : Type 0} where
  -- The price of a result is what the rest of the code may send.
  pub Pays-after :
      (price : A → ℕ) (price' : B → ℕ) (b : ℕ) (r : Run A) (f : A → M B)
      → Pays price b r
      → ((a : A) (t : Tab) → Pays price' (price a) (f a t))
      → Pays price' b (after r f)
  Pays-after price price' b out_of_fuel f h k = h
  Pays-after price price' b never f h k = h
  Pays-after price price' b (ran a t n) f h k =
      Pays-mono price' (n + price a) b (charge n (f a t)) h
        (Pays-charge price' n (price a) (f a t) (k a t))

  pub Pays-after_ensured :
      (P : A → Tab → Type 0) (price : A → ℕ) (price' : B → ℕ) (b : ℕ) (r : Run A) (f : A → M B)
      → Ensures P r
      → Pays price b r
      → ((a : A) (t : Tab) → P a t → Pays price' (price a) (f a t))
      → Pays price' b (after r f)
  Pays-after_ensured P price price' b out_of_fuel f p h k = h
  Pays-after_ensured P price price' b never f p h k = h
  Pays-after_ensured P price price' b (ran a t n) f p h k =
      Pays-mono price' (n + price a) b (charge n (f a t)) h
        (Pays-charge price' n (price a) (f a t) (k a t p))

  pub Ensures-after :
      (P : B → Tab → Type 0) (r : Run A) (f : A → M B)
      → ((a : A) (t : Tab) → Ensures P (f a t))
      → Ensures P (after r f)
  Ensures-after P out_of_fuel f k = tt
  Ensures-after P never f k = tt
  Ensures-after P (ran a t n) f k = Ensures-charge P n (f a t) (k a t)
