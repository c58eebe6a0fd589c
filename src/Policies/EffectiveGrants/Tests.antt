-- ===== src/Policies/EffectiveGrants/Tests.antt =====
-- Examples for the effective grants of effectiveGrants.ts.
use mystic_auth.Prelude.{true, ◌≡◌, refl, none, List, [], ◌∷◌, String_eq, add, any, arith, Unique}
use mystic_auth.Policies.{PolicyRead, Grant}
use mystic_auth.Policies.EffectiveGrants.{
  Grant_like, grant_key, build_effective_grant_key_set, has_effective_grant, add_actions,
  policy_adds_nothing_new, dedupe_against_wildcards, build_effective_grants_with_source,
}
use mystic_auth.Policies.EffectiveGrants.Keys.{NoColon}
use mystic_auth.Policies.EffectiveGrants.Coverage.{
  PlainGrants, covers, covers-adds_nothing_new, build_effective_grant_key_set-Unique,
}
use mystic_auth.Policies.EffectiveGrants.Wildcards.{covers_pair, covers-dedupe_against_wildcards}
use mystic_auth.Policies.EffectiveGrants.Provenance.{names_of, direct_of}
use mystic_auth.Policies.EffectiveGrants.Pairs.{
  pair_entry, pair_entry-build_effective_grants_with_source,
}

abbrev readers : PolicyRead
readers = record {
  id = 1;
  name = "readers";
  description = none;
  actions = "users:read" ∷ "users:list" ∷ [];
  resource_type = "users";
  is_active = true;
  created_by = none;
}

abbrev list_everything : Grant
list_everything = record { action = "users:list"; resource_type = "*" }

abbrev list_users : Grant
list_users = record { action = "users:list"; resource_type = "users" }

abbrev list_clients : Grant
list_clients = record { action = "users:list"; resource_type = "clients" }

abbrev listers : PolicyRead
listers = record {
  id = 2;
  name = "listers";
  description = none;
  actions = "users:list" ∷ [];
  resource_type = "clients";
  is_active = true;
  created_by = none;
}

abbrev held : List Grant
held = list_users ∷ list_everything ∷ []

plain_users : NoColon "users"
plain_users = (omega arith, (omega arith, (omega arith, (omega arith, (omega arith, tt)))))

plain_clients : NoColon "clients"
plain_clients = (
  omega arith,
  (omega arith, (omega arith, (omega arith, (omega arith, (omega arith, (omega arith, tt)))))),
)

plain_held : PlainGrants held
plain_held = (plain_users, ((omega arith, tt), tt))

adds_nothing :
    policy_adds_nothing_new listers (build_effective_grant_key_set (readers ∷ []) held) ≡ true
unfolding policy_adds_nothing_new build_effective_grant_key_set has_effective_grant add add_actions
    grant_key
adds_nothing = refl

dropped_by_wildcard :
    dedupe_against_wildcards (list_users ∷ list_everything ∷ list_clients ∷ []) held
    ≡ list_everything ∷ []
unfolding dedupe_against_wildcards add
dropped_by_wildcard = refl

adds_nothing_new_example :
    covers (listers ∷ readers ∷ []) held "users:list" "clients"
    ≡ covers (readers ∷ []) held "users:list" "clients"
adds_nothing_new_example =
    covers-adds_nothing_new (readers ∷ []) held listers "users:list" "clients" (plain_users, tt)
      plain_held plain_clients adds_nothing

key_set-Unique_example : Unique (build_effective_grant_key_set (readers ∷ readers ∷ []) held)
key_set-Unique_example = build_effective_grant_key_set-Unique (readers ∷ readers ∷ []) held

covers-dedupe_example :
    any (covers_pair "users:list" "clients") (dedupe_against_wildcards held held)
    ≡ any (covers_pair "users:list" "clients") held
covers-dedupe_example = covers-dedupe_against_wildcards held "users:list" "clients"

provenance_example :
    let shown = build_effective_grants_with_source (readers ∷ listers ∷ []) held in
    (names_of (pair_entry "users:list" "users" shown) ≡ "readers" ∷ [])
    × (direct_of (pair_entry "users:list" "users" shown) ≡ true)
provenance_example =
    pair_entry-build_effective_grants_with_source (readers ∷ listers ∷ []) held "users:list" "users"
      (plain_users, (plain_clients, tt)) plain_held plain_users
