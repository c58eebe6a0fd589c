-- ===== src/Prelude/Texts.antt =====
-- What the source asks of texts.
use Prim.Native.Nat.{ℕ}
use Prim.Native.Char.{code}
use Prim.Native.String
use Prim.Native.String.{String}
use mathlib.Core.Path.{◌≡◌, sym, ap, ◌∙◌}
use mathlib.Core.Bool.{Bool, true, ◌||◌}
use mathlib.Core.Logic.{inl, inr}
use mathlib.Core.List.{List, [], ◌∷◌, map}
use native.Mathlib.Omega.{arith}
use text.Mathlib.Text.{starts_with}
use text.Mathlib.TextEquality.{starts_with_iff}
use text.Mathlib.TextLemmas.{append_assoc, append-nil, nil-append, cons-append}
use mystic_auth.Prelude.Tests.{nat_eq, Bool-cases, if◌then◌else◌}
use mystic_auth.Prelude.Lists.{any}

infixr 65 ◌<>◌
abbrev pub ◌<>◌ : String → String → String
s <> t = String.◌++◌ s t

-- `includes` of a text.
unfoldable pub includes : String → String → Bool
includes String.[] part = starts_with "" part
includes (String.◌∷◌ c s) part = starts_with (String.◌∷◌ c s) part || includes s part

-- `join`: the first text as it is, and each further one behind the separator.
abbrev pub behind_each : String → List String → String
behind_each separator [] = ""
behind_each separator (s ∷ ss) = separator <> (s <> behind_each separator ss)

unfoldable pub join_by : String → List String → String
join_by separator [] = ""
join_by separator (s ∷ ss) = s <> behind_each separator ss

-- `split` at a character.
abbrev pub split_from : ℕ → String → String → List String
split_from separator part String.[] = part ∷ []
split_from separator part (String.◌∷◌ c s) =
    let closed = split_from separator "" s in
    let longer = split_from separator (part <> String.◌∷◌ c "") s in
    if nat_eq (code c) separator then part ∷ closed else longer

unfoldable pub split_at : ℕ → String → List String
split_at separator s = split_from separator "" s

starts_with-append :
    (s t part : String) → starts_with s part ≡ true → starts_with (s <> t) part ≡ true
starts_with-append s t part h =
    let (u, e) = (starts_with_iff s part).0 h in
    (starts_with_iff (s <> t) part).1 (u <> t, sym (append_assoc part u t) ∙ ap (λ v. v <> t) e)

includes_of_starts_with : (s part : String) → starts_with s part ≡ true → includes s part ≡ true
unfolding includes
includes_of_starts_with String.[] part h = h
includes_of_starts_with (String.◌∷◌ c s) part h = ground arith

pub includes-append_left :
    (s t part : String) → includes s part ≡ true → includes (s <> t) part ≡ true
unfolding includes
includes-append_left String.[] t part h =
    includes_of_starts_with (String.[] <> t) part (starts_with-append String.[] t part h)
includes-append_left (String.◌∷◌ c s) t part h =
    rw (cons-append c s t) (elim (Bool-cases (starts_with (String.◌∷◌ c s) part)) [
      | inl e ↦
          includes_of_starts_with (String.◌∷◌ c (s <> t)) part
            (rw (← cons-append c s t) (starts_with-append (String.◌∷◌ c s) t part e))
      | inr e ↦ ground (arith, includes-append_left s t part)
    ])

pub includes-append_right :
    (s t part : String) → includes t part ≡ true → includes (s <> t) part ≡ true
unfolding includes
includes-append_right String.[] t part h = rw nil-append h
includes-append_right (String.◌∷◌ c s) t part h =
    rw (cons-append c s t) (ground (arith, includes-append_right s t part))

includes-behind_each :
    (separator part : String) (ss : List String)
    → any (λ s. includes s part) ss ≡ true
    → includes (behind_each separator ss) part ≡ true
includes-behind_each separator part (s ∷ ss) h =
    includes-append_right separator (s <> behind_each separator ss) part
      (elim (Bool-cases (includes s part)) [
        | inl e ↦ includes-append_left s (behind_each separator ss) part e
        | inr e ↦
            includes-append_right s (behind_each separator ss) part
              (includes-behind_each separator part ss (ground arith))
      ])
includes-behind_each separator part [] h = ground arith

-- What one of the joined texts includes, the whole includes.
pub includes-join_by :
    (separator part : String) (ss : List String)
    → any (λ s. includes s part) ss ≡ true
    → includes (join_by separator ss) part ≡ true
unfolding join_by
includes-join_by separator part [] h = ground arith
includes-join_by separator part (s ∷ ss) h = elim (Bool-cases (includes s part)) [
  | inl e ↦ includes-append_left s (behind_each separator ss) part e
  | inr e ↦
      includes-append_right s (behind_each separator ss) part
        (includes-behind_each separator part ss (ground arith))
]

-- `toLowerCase`, as Unicode defines it: lower text stays as it is, and a space is a boundary that no
-- rule looks across.
pub record LowerCase : Type 0 where
  pub lower : String → String
  pub lower_idem : (s : String) → lower (lower s) ≡ lower s
  pub lower_nil : lower "" ≡ ""
  pub lower_space : (s t : String) → lower (s <> (" " <> t)) ≡ lower s <> (" " <> lower t)

module _ (c : LowerCase) where
  open c use {lower, lower_nil, lower_space}

  lower-behind_each :
      (s : String) (ss : List String)
      → lower (s <> behind_each " " ss) ≡ lower s <> behind_each " " (map lower ss)
  lower-behind_each s [] = ap lower (append-nil s) ∙ sym (append-nil (lower s))
  lower-behind_each s (t ∷ ss) =
      lower_space s (t <> behind_each " " ss)
      ∙ ap (λ v. lower s <> (" " <> v)) (lower-behind_each t ss)

  pub lower-join_by : (ss : List String) → lower (join_by " " ss) ≡ join_by " " (map lower ss)
  unfolding join_by
  lower-join_by [] = lower_nil
  lower-join_by (s ∷ ss) = lower-behind_each s ss
