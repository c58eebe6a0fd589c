-- ===== src/Policies/EffectiveGrants/Groups.antt =====
-- `groupByResourceType` of effectiveGrants.ts: which groups there are, in which order, and what
-- each one holds.
use mathlib.Core.List.{append-nil, append_assoc}
use mystic_auth.Prelude.{
  String, ◌≡◌, refl, ◌∙◌, sym, ap, List, [], ◌∷◌, ◌++◌, map, get_or, String_eq, ◌==◌, filter,
  add_all, keys, keys-upsert, lookup, upsert, lookup-upsert, arith, Bool-cases, inl, inr,
}
use mystic_auth.Policies.EffectiveGrants.{group_from, group_by_resource_type}

module _ {T : Type 0} (resource_type_of : T → String) where
  keys-group_from :
      (m : List (String × List T)) (xs : List T)
      → keys (group_from resource_type_of m xs) ≡ add_all (keys m) (map resource_type_of xs)
  unfolding group_from
  keys-group_from m [] = refl
  keys-group_from m (x ∷ xs) =
      keys-group_from (upsert (resource_type_of x) (λ group. group ++ x ∷ []) (x ∷ []) m) xs
      ∙ ap (λ ks. add_all ks (map resource_type_of xs)) (keys-upsert _ _ _ m)

  -- The groups are those of the resource types that occur, in the order of first occurrence.
  pub keys-group_by_resource_type :
      (xs : List T)
      → keys (group_by_resource_type resource_type_of xs) ≡ add_all [] (map resource_type_of xs)
  unfolding group_by_resource_type
  keys-group_by_resource_type xs = keys-group_from [] xs

  abbrev of_type : String → List T → List T
  of_type r xs = filter (λ x. resource_type_of x == r) xs

  group-upsert :
      (r : String) (x : T) (m : List (String × List T))
      → get_or (lookup r (upsert (resource_type_of x) (λ group. group ++ x ∷ []) (x ∷ []) m)) []
        ≡ get_or (lookup r m) [] ++ of_type r (x ∷ [])
  group-upsert r x m =
      ap (λ o. get_or o []) (lookup-upsert (resource_type_of x) r _ _ m)
      ∙ ground (arith, append-nil (get_or (lookup r m) []))

  of_type-cons :
      (r : String) (x : T) (xs : List T) → of_type r (x ∷ []) ++ of_type r xs ≡ of_type r (x ∷ xs)
  of_type-cons r x xs = elim (Bool-cases (resource_type_of x == r)) [ inl e ↦ rw e | inr e ↦ rw e ]

  group-group_from :
      (r : String) (m : List (String × List T)) (xs : List T)
      → get_or (lookup r (group_from resource_type_of m xs)) []
        ≡ get_or (lookup r m) [] ++ of_type r xs
  unfolding group_from
  group-group_from r m [] = sym (append-nil _)
  group-group_from r m (x ∷ xs) =
      group-group_from r (upsert (resource_type_of x) (λ group. group ++ x ∷ []) (x ∷ []) m) xs
      ∙ ap (λ g. g ++ of_type r xs) (group-upsert r x m)
      ∙ append_assoc (get_or (lookup r m) []) (of_type r (x ∷ [])) (of_type r xs)
      ∙ ap (λ ys. get_or (lookup r m) [] ++ ys) (of_type-cons r x xs)

  -- The group of a resource type holds the items of that type, all of them, in their order.
  pub lookup-group_by_resource_type :
      (xs : List T) (r : String)
      → get_or (lookup r (group_by_resource_type resource_type_of xs)) []
        ≡ filter (λ x. resource_type_of x == r) xs
  unfolding group_by_resource_type lookup
  lookup-group_by_resource_type xs r = group-group_from r [] xs
