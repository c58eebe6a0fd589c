-- ===== src/Users/AccessRows/Merged.antt =====
-- Which policies the access dialog of userAccessDialogRows.ts lists.
use mystic_auth.Prelude.{
  String, ◌≡◌, refl, ap, ◌∙◌, Option, none, some, get_or, List, [], ◌∷◌, ◌++◌, map, ◌==◌, String_eq,
  add_all, keys, keys-upsert, lookup, lookup-upsert, upsert, if◌then◌else◌, arith,
}
use mystic_auth.Policies.{PolicyRead}
use mystic_auth.Users.AccessRows.{UserAccessState, by_name, merged_policies}

-- The last policy of a name, or `found` where there is none.
abbrev pub last_named : String → Option PolicyRead → List PolicyRead → Option PolicyRead
last_named name found [] = found
last_named name found (p ∷ ps) = last_named name (if p.name == name then some p else found) ps

keys-by_name :
    (m : List (String × PolicyRead)) (ps : List PolicyRead)
    → keys (by_name m ps) ≡ add_all (keys m) (map (λ p. p.name) ps)
unfolding by_name
keys-by_name m [] = refl
keys-by_name m (p ∷ ps) =
    keys-by_name (upsert p.name (λ old. p) p m) ps
    ∙ ap (λ ks. add_all ks (map (λ p. p.name) ps)) (keys-upsert p.name (λ old. p) p m)

lookup-by_name :
    (name : String) (m : List (String × PolicyRead)) (ps : List PolicyRead)
    → lookup name (by_name m ps) ≡ last_named name (lookup name m) ps
unfolding by_name
lookup-by_name name m [] = refl
lookup-by_name name m (p ∷ ps) =
    lookup-by_name name (upsert p.name (λ old. p) p m) ps
    ∙ ap (λ found. last_named name found ps)
        (lookup-upsert p.name name (λ old. p) p m ∙ ground arith)

-- The dialog lists each policy name once, in the order of first occurrence among the assigned and
-- then all policies, and under a name the last policy of that name, so the full list's version
-- where it has one.
merged_policies-last :
    (s : UserAccessState) (name : String)
    → let both = s.assigned_policies ++ get_or s.all_policies [] in
      (keys (merged_policies s) ≡ add_all [] (map (λ p. p.name) both))
      × (lookup name (merged_policies s) ≡ last_named name none both)
unfolding merged_policies lookup
merged_policies-last s name =
    let both = s.assigned_policies ++ get_or s.all_policies [] in
    (keys-by_name [] both, lookup-by_name name [] both)
