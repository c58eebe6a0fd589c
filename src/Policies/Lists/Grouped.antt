-- ===== src/Policies/Lists/Grouped.antt =====
-- The groups of `groupPoliciesByResourceType` of policyListHelpers.ts.
use mathlib.Core.Path.{subst}
use mystic_auth.Prelude.{
  String, true, ◌≡◌, sym, ap, ◌∙◌, some, get_or, List, [], ◌∷◌, map, filter, ◌==◌, String_eq,
  ==_iff, ==_refl, All, Unique, has, add, add_all, add-Unique, keys, lookup, Order, sort_by,
  IsSorted, sort_by-IsSorted, All-sort_by, arith,
}
use mystic_auth.Policies.{PolicyRead}
use mystic_auth.Policies.EffectiveGrants.{group_by_resource_type}
use mystic_auth.Policies.EffectiveGrants.Groups.{
  keys-group_by_resource_type, lookup-group_by_resource_type,
}
use mystic_auth.Policies.Lists.{sort_group, group_policies_by_resource_type}

add_all-Unique : (ks js : List String) → Unique ks → Unique (add_all ks js)
add_all-Unique ks [] u = u
add_all-Unique ks (j ∷ js) u = add_all-Unique (add ks j) js (add-Unique ks j u)

module _ {V : Type 0} where
  -- An entry is what is found under its key, where no key stands twice.
  entries_found :
      (m : List (String × V))
      → Unique (keys m)
      → All (λ e. (has (keys m) e.0 ≡ true) × (lookup e.0 m ≡ some e.1)) m
  unfolding lookup
  entries_found [] u = tt
  entries_found ((k, v) ∷ m) u =
      ((ground (arith, ==_refl k), rw (==_refl k)), later m (entries_found m u.1))
    where
      later :
          (es : List (String × V))
          → All (λ e. (has (keys m) e.0 ≡ true) × (lookup e.0 m ≡ some e.1)) es
          → All (λ e. (has (k ∷ keys m) e.0 ≡ true) × (lookup e.0 ((k, v) ∷ m) ≡ some e.1)) es
      later [] h = tt
      later (e ∷ es) h =
          ((ground (arith, h.0.0), ground (arith, h.0.0, h.0.1, u.0, ==_iff k e.0)), later es h.1)

-- A group holds the policies of its resource type, all of them, sorted by name.
abbrev pub IsGroupOf : Order String → List PolicyRead → String × List PolicyRead → Type 0
IsGroupOf o ps g =
    (g.1 ≡ sort_by o (λ p. p.name) (filter (λ p. p.resource_type == g.0) ps))
    × IsSorted o (λ p. p.name) g.1

module _ (o : Order String) (ps : List PolicyRead) where
  abbrev unsorted : List (String × List PolicyRead)
  unsorted = group_by_resource_type (λ p. p.resource_type) ps

  groups_unsorted :
      (gs : List (String × List PolicyRead))
      → All (λ g. (has (keys unsorted) g.0 ≡ true) × (lookup g.0 unsorted ≡ some g.1)) gs
      → All (λ g. g.1 ≡ filter (λ p. p.resource_type == g.0) ps) gs
  groups_unsorted [] h = tt
  groups_unsorted (g ∷ gs) h = (
    ap (λ v. get_or v []) (sym h.0.1) ∙ lookup-group_by_resource_type (λ p. p.resource_type) ps g.0,
    groups_unsorted gs h.1,
  )

  groups_sorted :
      (gs : List (String × List PolicyRead))
      → All (λ g. g.1 ≡ filter (λ p. p.resource_type == g.0) ps) gs
      → All (IsGroupOf o ps) (map (sort_group o) gs)
  groups_sorted [] h = tt
  groups_sorted (g ∷ gs) h = (
    (ap (sort_by o (λ p. p.name)) h.0, sort_by-IsSorted o (λ p. p.name) g.1),
    groups_sorted gs h.1,
  )

  sort_group-All :
      (k : String) (gs : List (String × List PolicyRead))
      → All (λ (g : String × List PolicyRead). o.le k g.0 ≡ true) gs
      → All (λ (g : String × List PolicyRead). o.le k g.0 ≡ true) (map (sort_group o) gs)
  sort_group-All k [] h = tt
  sort_group-All k (g ∷ gs) h = (h.0, sort_group-All k gs h.1)

  sort_group-IsSorted :
      (gs : List (String × List PolicyRead))
      → IsSorted o (λ (g : String × List PolicyRead). g.0) gs
      → IsSorted o (λ (g : String × List PolicyRead). g.0) (map (sort_group o) gs)
  sort_group-IsSorted [] h = tt
  sort_group-IsSorted (g ∷ gs) h = (sort_group-All g.0 gs h.0, sort_group-IsSorted gs h.1)

  -- The groups are sorted by resource type, and each holds exactly the policies of its resource
  -- type, sorted by name.
  group_policies_by_resource_type-IsSorted :
      IsSorted o (λ g. g.0) (group_policies_by_resource_type o ps)
      × All (IsGroupOf o ps) (group_policies_by_resource_type o ps)
  unfolding group_policies_by_resource_type
  group_policies_by_resource_type-IsSorted =
      let found = entries_found unsorted (
        subst Unique (sym (keys-group_by_resource_type (λ p. p.resource_type) ps))
          (add_all-Unique [] (map (λ p. p.resource_type) ps) tt)) in
      (
        sort_group-IsSorted (sort_by o (λ g. g.0) unsorted)
            (sort_by-IsSorted o (λ g. g.0) unsorted),
        groups_sorted (sort_by o (λ g. g.0) unsorted) (
            All-sort_by o (λ g. g.0) (λ g. g.1 ≡ filter (λ p. p.resource_type == g.0) ps) unsorted
              (groups_unsorted unsorted found)),
      )
