-- ===== src/Prelude/Sorting.antt =====
-- JavaScript's `sort` with a comparator: stable, here by insertion.
use mathlib.Core.Path.{◌≡◌, refl}
use mathlib.Core.Logic.{◌⊎◌, inl, inr}
use mathlib.Core.Bool.{Bool, true, false, ◌&&◌}
use mathlib.Core.List.{List, [], ◌∷◌}
use native.Mathlib.Omega.{arith}
use mystic_auth.Prelude.Tests.{if◌then◌else◌, Bool-cases}
use mystic_auth.Prelude.Lists.{All, filter}

-- A comparison of texts that is total and transitive, as `localeCompare(...) <= 0` is.
pub record Order (K : Type 0) : Type 0 where
  pub le : K → K → Bool
  pub le_total : (j k : K) → (le j k ≡ true) ⊎ (le k j ≡ true)
  pub le_trans : (i j k : K) → le i j ≡ true → le j k ≡ true → le i k ≡ true

module _ {K A : Type 0} (o : Order K) (key : A → K) where
  abbrev pub insert : A → List A → List A
  insert x [] = x ∷ []
  insert x (y ∷ ys) = if o.le (key x) (key y) then x ∷ (y ∷ ys) else y ∷ insert x ys

  unfoldable pub sort_by : List A → List A
  sort_by [] = []
  sort_by (x ∷ xs) = insert x (sort_by xs)

  abbrev pub IsSorted : List A → Type 0
  IsSorted [] = Unit
  IsSorted (x ∷ xs) = All (λ y. o.le (key x) (key y) ≡ true) xs × IsSorted xs

  -- The elements whose key is neither before nor after `k`.
  abbrev pub ties : K → A → Bool
  ties k x = o.le (key x) k && o.le k (key x)

  All-insert : (P : A → Type 0) (x : A) (ys : List A) → P x → All P ys → All P (insert x ys)
  All-insert P x [] p h = (p, tt)
  All-insert P x (y ∷ ys) p h = elim (Bool-cases (o.le (key x) (key y))) [
    | inl before ↦ rw before (p, h)
    | inr after ↦ rw after (h.0, All-insert P x ys p h.1)
  ]

  widen :
      (x y : A) (ys : List A)
      → o.le (key x) (key y) ≡ true
      → All (λ z. o.le (key y) (key z) ≡ true) ys
      → All (λ z. o.le (key x) (key z) ≡ true) ys
  widen x y [] e h = tt
  widen x y (z ∷ ys) e h = (o.le_trans (key x) (key y) (key z) e h.0, widen x y ys e h.1)

  insert-IsSorted : (x : A) (ys : List A) → IsSorted ys → IsSorted (insert x ys)
  insert-IsSorted x [] h = (tt, tt)
  insert-IsSorted x (y ∷ ys) h = elim (Bool-cases (o.le (key x) (key y))) [
    | inl before ↦ rw before ((before, widen x y ys before h.0), h)
    | inr after ↦ rw after (
      All-insert (λ z. o.le (key y) (key z) ≡ true) x ys (turned x y after) h.0,
      insert-IsSorted x ys h.1,
    )
  ]
    where
      turned : (x y : A) → o.le (key x) (key y) ≡ false → o.le (key y) (key x) ≡ true
      turned x y e = ground (arith, o.le_total (key x) (key y))

  pub sort_by-IsSorted : (xs : List A) → IsSorted (sort_by xs)
  unfolding sort_by
  sort_by-IsSorted [] = tt
  sort_by-IsSorted (x ∷ xs) = insert-IsSorted x (sort_by xs) (sort_by-IsSorted xs)

  filter-ties-insert :
      (k : K) (q : A → Bool) (x : A) (ys : List A)
      → filter (λ y. ties k y && q y) (insert x ys) ≡ filter (λ y. ties k y && q y) (x ∷ ys)
  filter-ties-insert k q x [] = refl
  filter-ties-insert k q x (y ∷ ys) =
      ground (arith, filter-ties-insert k q x ys, o.le_trans (key x) k (key y))

  -- Sorting keeps the elements, and the order of those with the same key.
  pub filter-ties-sort_by :
      (k : K) (q : A → Bool) (xs : List A)
      → filter (λ y. ties k y && q y) (sort_by xs) ≡ filter (λ y. ties k y && q y) xs
  unfolding sort_by
  filter-ties-sort_by k q [] = refl
  filter-ties-sort_by k q (x ∷ xs) =
      ground (arith, filter-ties-insert k q x (sort_by xs), filter-ties-sort_by k q xs)

  pub All-sort_by : (P : A → Type 0) (xs : List A) → All P xs → All P (sort_by xs)
  unfolding sort_by
  All-sort_by P [] h = tt
  All-sort_by P (x ∷ xs) h = All-insert P x (sort_by xs) h.0 (All-sort_by P xs h.1)
