-- ===== src/Prelude/Members.antt =====
-- Membership by what holds of the elements, and how `All` goes through the array methods.
use Prim.Native.Nat.{ℕ, zero, suc}
use mathlib.Core.Path.{◌≡◌, refl}
use mathlib.Core.Bool.{Bool, true, false, not}
use mathlib.Core.Logic.{inl, inr}
use mathlib.Core.List.{List, [], ◌∷◌, ◌++◌, map}
use native.Mathlib.Omega.{arith}
use mystic_auth.Prelude.Tests.{Bool-cases}
use mystic_auth.Prelude.Lists.{any, filter, take, for_each, All}

-- `x` is an element: what holds of it holds of some element.
abbrev pub In {ℓ} : {A : Type ℓ} → List A → A → Type ℓ
In {A} xs x = (k : A → Bool) → k x ≡ true → any k xs ≡ true

module _ {ℓ κ} {A : Type ℓ} where
  pub All-mono : (P Q : A → Type κ) → ((x : A) → P x → Q x) → (xs : List A) → All P xs → All Q xs
  All-mono P Q f [] h = tt
  All-mono P Q f (x ∷ xs) h = (f x h.0, All-mono P Q f xs h.1)

  pub All-append : (P : A → Type κ) (xs ys : List A) → All P xs → All P ys → All P (xs ++ ys)
  All-append P [] ys h k = k
  All-append P (x ∷ xs) ys h k = (h.0, All-append P xs ys h.1 k)

  pub All-take : (P : A → Type κ) (n : ℕ) (xs : List A) → All P xs → All P (take n xs)
  All-take P zero xs h = tt
  All-take P (suc n) [] h = tt
  All-take P (suc n) (x ∷ xs) h = (h.0, All-take P n xs h.1)

  -- What is asked of the elements that pass may rely on their passing.
  pub All-filter :
      (P Q : A → Type κ) (q : A → Bool)
      → ((x : A) → P x → q x ≡ true → Q x)
      → (xs : List A) → All P xs
      → All Q (filter q xs)
  All-filter P Q q f [] h = tt
  All-filter P Q q f (x ∷ xs) h = elim (Bool-cases (q x)) [
    | inl e ↦ rw e (f x h.0 e, All-filter P Q q f xs h.1)
    | inr e ↦ rw e (All-filter P Q q f xs h.1)
  ]

  pub for_each_keeps {μ ν} :
      {S : Type μ} (P : A → Type κ) (I : S → Type ν) (body : A → S → S)
      → ((x : A) (s : S) → P x → I s → I (body x s))
      → (xs : List A) (s : S) → All P xs
      → I s
      → I (for_each body xs s)
  for_each_keeps P I body keep [] s h i = i
  for_each_keeps P I body keep (x ∷ xs) s h i =
      for_each_keeps P I body keep xs (body x s) h.1 (keep x s h.0 i)

module _ {ℓ κ μ} {A : Type ℓ} {B : Type κ} (P : B → Type μ) (f : A → B) where
  pub All-map : (xs : List A) → All (λ x. P (f x)) xs → All P (map f xs)
  All-map [] h = tt
  All-map (x ∷ xs) h = (h.0, All-map xs h.1)

module _ {ℓ} {A : Type ℓ} where
  In-below :
      (whole xs : List A)
      → ((k : A → Bool) → any k xs ≡ true → any k whole ≡ true)
      → All (In whole) xs
  In-below whole [] f = tt
  In-below whole (x ∷ xs) f =
      (λ k h. f k (rw h refl), In-below whole xs (λ k h. f k (ground (arith, h))))

  -- The elements of a list are in it.
  pub All-In : (xs : List A) → All (In xs) xs
  All-In xs = In-below xs xs (λ k h. h)

  pub All-any :
      (p : A → Bool) (xs : List A) → any (λ x. not (p x)) xs ≡ false → All (λ x. p x ≡ true) xs
  All-any p [] h = tt
  All-any p (x ∷ xs) h = (ground arith, All-any p xs (ground arith))

  pub any-All :
      (p : A → Bool) (xs : List A) → All (λ x. p x ≡ true) xs → any (λ x. not (p x)) xs ≡ false
  any-All p [] h = refl
  any-All p (x ∷ xs) h = ground (arith, h.0, any-All p xs h.1)
