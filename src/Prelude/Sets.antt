-- ===== src/Prelude/Sets.antt =====
-- JavaScript's `Set`: an insertion-ordered list with no element twice.
use mathlib.Core.Path.{◌≡◌, refl}
use mathlib.Core.Bool.{Bool, false, ◌&&◌, ◌||◌, not}
use mathlib.Core.List.{List, [], ◌∷◌, ◌++◌}
use native.Mathlib.Omega.{arith}
use mystic_auth.Prelude.Tests.{if◌then◌else◌}
use mystic_auth.Prelude.Keys.{Eq, ◌==◌, ==_iff}
use mystic_auth.Prelude.Lists.{filter}

module _ {ℓ} {A : Type ℓ} ⦃e : Eq A⦄ where
  -- `has`, and `includes` on an array.
  abbrev pub has : List A → A → Bool
  has [] a = false
  has (x ∷ xs) a = x == a || has xs a

  unfoldable pub add : List A → A → List A
  add s a = if has s a then s else s ++ a ∷ []

  unfoldable pub delete : List A → A → List A
  delete [] a = []
  delete (x ∷ xs) a = if x == a then delete xs a else x ∷ delete xs a

  abbrev pub add_all : List A → List A → List A
  add_all s [] = s
  add_all s (a ∷ bs) = add_all (add s a) bs

  abbrev pub delete_all : List A → List A → List A
  delete_all s [] = s
  delete_all s (a ∷ bs) = delete_all (delete s a) bs

  abbrev pub Unique : List A → Type 0
  Unique [] = Unit
  Unique (x ∷ xs) = (has xs x ≡ false) × Unique xs

  pub has-append : (xs ys : List A) (a : A) → has (xs ++ ys) a ≡ (has xs a || has ys a)
  has-append [] ys a = refl
  has-append (x ∷ xs) ys a = ground (arith, has-append xs ys a)

  pub has-filter : (p : A → Bool) (xs : List A) (a : A) → has (filter p xs) a ≡ (has xs a && p a)
  has-filter p [] a = refl
  has-filter p (x ∷ xs) a = ground (arith, has-filter p xs a, ==_iff x a)

  pub has-add : (s : List A) (a b : A) → has (add s a) b ≡ (has s b || a == b)
  unfolding add
  has-add s a b = ground (arith, has-append s (a ∷ []) b, ==_iff a b)

  pub has-delete : (s : List A) (a b : A) → has (delete s a) b ≡ (has s b && not (a == b))
  unfolding delete
  has-delete [] a b = refl
  has-delete (x ∷ xs) a b = ground (arith, has-delete xs a b, ==_iff x a, ==_iff a b, ==_iff x b)

  pub has-add_all : (s bs : List A) (b : A) → has (add_all s bs) b ≡ (has s b || has bs b)
  has-add_all s [] b = ground arith
  has-add_all s (a ∷ bs) b = ground (arith, has-add_all (add s a) bs b, has-add s a b)

  pub has-delete_all :
      (s bs : List A) (b : A) → has (delete_all s bs) b ≡ (has s b && not (has bs b))
  has-delete_all s [] b = ground arith
  has-delete_all s (a ∷ bs) b = ground (arith, has-delete_all (delete s a) bs b, has-delete s a b)

  Unique-concat : (xs : List A) (a : A) → Unique xs → has xs a ≡ false → Unique (xs ++ a ∷ [])
  Unique-concat [] a u h = (refl, tt)
  Unique-concat (x ∷ xs) a u h =
      ground (arith, has-append xs (a ∷ []) x, Unique-concat xs a, ==_iff x a, ==_iff a x)

  pub add-Unique : (s : List A) (a : A) → Unique s → Unique (add s a)
  unfolding add
  add-Unique s a u = ground (arith, Unique-concat s a)
