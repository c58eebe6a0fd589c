-- ===== src/Prelude/Maps.antt =====
-- JavaScript's `Map` as an insertion-ordered association list, with the "get, else set" step that
-- the grouping loops of the program share.
use mathlib.Core.Path.{◌≡◌, refl}
use mathlib.Core.Option.{Option, none, some}
use mathlib.Core.List.{List, [], ◌∷◌}
use native.Mathlib.Omega.{arith}
use mystic_auth.Prelude.Tests.{if◌then◌else◌}
use mystic_auth.Prelude.Keys.{Eq, ◌==◌, ==_iff}
use mystic_auth.Prelude.Sets.{add}

abbrev pub changed {ℓ} : {V : Type ℓ} → (V → V) → V → Option V → V
changed change fresh none = fresh
changed change fresh (some v) = change v

module _ {ℓ κ} {K : Type ℓ} {V : Type κ} where
  abbrev pub keys : List (K × V) → List K
  keys [] = []
  keys ((k, v) ∷ m) = k ∷ keys m

  abbrev pub values : List (K × V) → List V
  values [] = []
  values ((k, v) ∷ m) = v ∷ values m

module _ {ℓ κ} {K : Type ℓ} {V : Type κ} ⦃e : Eq K⦄ where
  unfoldable pub lookup : K → List (K × V) → Option V
  lookup k [] = none
  lookup k ((j, v) ∷ m) = if j == k then some v else lookup k m

  -- `existing ? change(existing) : map.set(key, fresh)`; a new key goes to the end.
  unfoldable pub upsert : K → (V → V) → V → List (K × V) → List (K × V)
  upsert k change fresh [] = (k, fresh) ∷ []
  upsert k change fresh ((j, v) ∷ m) =
      if j == k then (j, change v) ∷ m else (j, v) ∷ upsert k change fresh m

  pub keys-upsert :
      (k : K) (change : V → V) (fresh : V) (m : List (K × V))
      → keys (upsert k change fresh m) ≡ add (keys m) k
  unfolding upsert add
  keys-upsert k change fresh [] = refl
  keys-upsert k change fresh ((j, v) ∷ m) = ground (arith, keys-upsert k change fresh m)

  pub lookup-upsert :
      (k j : K) (change : V → V) (fresh : V) (m : List (K × V))
      → lookup j (upsert k change fresh m)
        ≡ (if k == j then some (changed change fresh (lookup j m)) else lookup j m)
  unfolding lookup upsert
  lookup-upsert k j change fresh [] = ground arith
  lookup-upsert k j change fresh ((i, v) ∷ m) =
      ground (arith, lookup-upsert k j change fresh m, ==_iff i k, ==_iff i j, ==_iff k j)
