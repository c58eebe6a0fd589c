-- ===== src/Policies/EffectiveGrants/Wildcards.antt =====
-- `dedupeAgainstWildcards` and `isSubsumedByWildcard` of effectiveGrants.ts: the two agree, and
-- what is dropped stays covered.
use mathlib.Core.Path.{subst}
use mathlib.Core.Bool.{and_self}
use mystic_auth.Prelude.{
  any-filter, any_congr, ap, String, Bool, true, false, not, ◌&&◌, ◌||◌, ◌≡◌, refl, ◌∙◌, sym, List,
  [], ◌∷◌, map, String_eq, ◌==◌, ==_iff, any, filter, filter-filter, filter_congr, has, has-add_all,
  arith, Bool-cases, inl, inr,
}
use mystic_auth.Policies.EffectiveGrants.{
  GrantLike, is_wildcard, dedupe_against_wildcards, is_subsumed_by_wildcard,
}

-- The wildcard grant of an action, among the source.
abbrev wildcard_of : {S : Type 0} ⦃k : GrantLike S⦄ → String → S → Bool
wildcard_of ⦃k⦄ a g = k.action_of g == a && is_wildcard g

has-wildcard_actions :
    {S : Type 0} ⦃k : GrantLike S⦄ (src : List S) (a : String)
    → has (map k.action_of (filter is_wildcard src)) a ≡ any (wildcard_of a) src
has-wildcard_actions ⦃k⦄ [] a = refl
has-wildcard_actions ⦃k⦄ (g ∷ src) a = elim (Bool-cases (k.resource_type_of g == "*")) [
  | inl e ↦ rw e (ground (arith, has-wildcard_actions src a))
  | inr e ↦ rw e (ground (arith, has-wildcard_actions src a))
]

module _ {T S : Type 0} ⦃l : GrantLike T⦄ ⦃k : GrantLike S⦄ where
  -- A grant is kept exactly when `isSubsumedByWildcard` does not drop it, in the list's order.
  dedupe_against_wildcards-eq-filter :
      (grants : List T) (src : List S)
      → dedupe_against_wildcards grants src
        ≡ filter (λ g. not (is_subsumed_by_wildcard g src)) grants
  unfolding dedupe_against_wildcards is_subsumed_by_wildcard
  dedupe_against_wildcards-eq-filter grants src =
      filter_congr _ _
        (λ g. ground (
          arith,
          has-add_all [] (map k.action_of (filter is_wildcard src)) (l.action_of g),
          has-wildcard_actions src (l.action_of g),
        ))
        grants

module _ {T : Type 0} ⦃l : GrantLike T⦄ where
  -- Whether a grant covers an action on a resource type: as an exact entry or as a wildcard.
  abbrev pub covers_pair : String → String → T → Bool
  covers_pair a r g = l.action_of g == a && (l.resource_type_of g == r || is_wildcard g)

  abbrev kept : List T → T → Bool
  kept src g = not (is_subsumed_by_wildcard g src)

  kept-wildcard : (src : List T) (g : T) → is_wildcard g ≡ true → kept src g ≡ true
  unfolding is_subsumed_by_wildcard
  kept-wildcard src g e = rw e

  any-wildcard-kept :
      (src xs : List T) (a r : String)
      → any (wildcard_of a) xs ≡ true
      → any (λ g. kept src g && covers_pair a r g) xs ≡ true
  any-wildcard-kept src [] a r h = cc
  any-wildcard-kept src (g ∷ xs) a r h =
      ground (arith, any-wildcard-kept src xs a r, kept-wildcard src g)

  any-wildcard-covers :
      (xs : List T) (a r : String) → any (wildcard_of a) xs ≡ true → any (covers_pair a r) xs ≡ true
  any-wildcard-covers [] a r h = cc
  any-wildcard-covers (g ∷ xs) a r h = ground (arith, any-wildcard-covers xs a r)

  kept_without_wildcard :
      (src : List T) (a r : String)
      → any (wildcard_of a) src ≡ false
      → (g : T) → (kept src g && covers_pair a r g) ≡ covers_pair a r g
  unfolding is_subsumed_by_wildcard
  kept_without_wildcard src a r h g = elim (Bool-cases (l.action_of g == a)) [
    | inl same ↦
        rw
          (subst (λ x. any (wildcard_of x) src ≡ false) (sym ((==_iff (l.action_of g) a).0 same)) h)
          (ground arith)
    | inr other ↦ rw other (ground arith)
  ]

  -- Dropping the subsumed grants of a list loses no coverage: an action on a resource type is
  -- covered by the remaining grants exactly when it was covered before.
  pub covers-dedupe_against_wildcards :
      (grants : List T) (a r : String)
      → any (covers_pair a r) (dedupe_against_wildcards grants grants)
        ≡ any (covers_pair a r) grants
  covers-dedupe_against_wildcards grants a r =
      ap (any (covers_pair a r)) (dedupe_against_wildcards-eq-filter grants grants)
      ∙ any-filter (covers_pair a r) (kept grants) grants
      ∙ elim (Bool-cases (any (wildcard_of a) grants)) [
        | inl w ↦ any-wildcard-kept grants grants a r w ∙ sym (any-wildcard-covers grants a r w)
        | inr w ↦ any_congr _ _ (kept_without_wildcard grants a r w) grants
      ]

  wildcard_of-kept :
      (src : List T) (a : String) (g : T) → (kept src g && wildcard_of a g) ≡ wildcard_of a g
  wildcard_of-kept src a g = ground (arith, kept-wildcard src g)

  subsumed-dedupe :
      (src : List T) (g : T)
      → is_subsumed_by_wildcard g (filter (kept src) src) ≡ is_subsumed_by_wildcard g src
  unfolding is_subsumed_by_wildcard
  subsumed-dedupe src g = ground (
    arith,
    any-filter (wildcard_of (l.action_of g)) (kept src) src,
    any_congr _ _ (wildcard_of-kept src (l.action_of g)) src,
  )

  -- Deduplicating a list a second time, against itself, changes nothing.
  dedupe_against_wildcards_idempotent :
      (grants : List T)
      → dedupe_against_wildcards
          (dedupe_against_wildcards grants grants)
          (dedupe_against_wildcards grants grants)
        ≡ dedupe_against_wildcards grants grants
  dedupe_against_wildcards_idempotent grants =
      let e = dedupe_against_wildcards-eq-filter grants grants in
      dedupe_against_wildcards-eq-filter _ _
      ∙ ap (λ xs. filter (kept xs) xs) e
      ∙ filter_congr _ _ (λ g. ap not (subsumed-dedupe grants g)) (filter (kept grants) grants)
      ∙ filter-filter (kept grants) (kept grants) grants
      ∙ filter_congr _ _ (λ g. and_self _) grants
      ∙ sym e
