-- ===== src/Policies/Bulk/Tests.antt =====
-- Examples for the bulk mutations: a backend that counts the items it has handled.
use mystic_auth.Prelude.{
  ℕ, suc, ◌≤◌, ◌≡◌, refl, List, [], ◌∷◌, map, String, String_eq, true, false, none, some, length,
  All, arith,
}
use mystic_auth.Api.{other_error, Translations}
use mystic_auth.Session.{Tab, loaded}
use mystic_auth.Policies.Bulk.{
  BulkItem, BulkResponse, success, policy_item, grant_item, role_item, chunk, chunk_from,
  bulk_assign_policies, bulk_remove_policies, bulk_assign_permissions, bulk_remove_permissions,
  bulk_update_role, selected_actions, SelectedAction, run_chunked_bulk,
}
use mystic_auth.Policies.Bulk.Chunks.{chunk-All}
use mystic_auth.Policies.Bulk.Batches.{Backend, answer, served_as, items_for}
use mystic_auth.Policies.Bulk.Mutations.{bulk_mutations-served_as}

abbrev email_of : BulkItem → String
email_of (policy_item email name) = email
email_of (grant_item email action resource_type conditions) = email
email_of (role_item email role) = email

abbrev counting : Backend ℕ ℕ
counting = record {
  serve = λ path item w. (
    record { user_email = email_of item; identifier = path; status = success; error = none },
    suc w,
  );
  succeeds = λ r. true;
  fails = λ r. false;
  too_many = other_error;
}

abbrev plain : Translations ℕ
plain = record { exists = λ key. false; translate = λ key params. key }

abbrev emails : List String
emails = "a@x.org" ∷ "b@x.org" ∷ "a@x.org" ∷ []

chunks_of_two : chunk emails 2 ≡ ("a@x.org" ∷ "b@x.org" ∷ []) ∷ ("a@x.org" ∷ []) ∷ []
unfolding chunk chunk_from
chunks_of_two = refl

two_policies :
    (bulk_assign_policies plain (answer counting) emails none (some ("p" ∷ "q" ∷ [])) 0).1 ≡ 6
unfolding bulk_assign_policies run_chunked_bulk chunk chunk_from
two_policies = refl

chunk-All_example : All (λ c. (1 ≤ length c) × (length c ≤ 2)) (chunk emails 2)
chunk-All_example = chunk-All emails 2 (omega arith)

bulk_mutations-served_as_example :
    (bulk_assign_policies plain (answer counting) emails (some "read") (some ("p" ∷ [])) 0
      ≡ served_as counting "/authorization/bulk/policies/assign"
          (items_for counting (λ name e. policy_item e name) emails ("p" ∷ []))
          0)
    × (bulk_remove_policies plain (answer counting) emails (some "read") (some ("p" ∷ [])) 0
        ≡ served_as counting "/authorization/bulk/policies/remove"
            (items_for counting (λ name e. policy_item e name) emails ("p" ∷ []))
            0)
    × (bulk_assign_permissions plain
          (answer counting)
          emails
          (some "read")
          none
          (some "users")
          none
          0
        ≡ served_as counting "/authorization/bulk/permissions/assign"
            (items_for counting
              (λ (a : SelectedAction) e. grant_item e a.action a.resource_type none)
              emails
              (selected_actions none (some "read") (some "users")))
            0)
    × (bulk_remove_permissions plain (answer counting) emails (some "read") none (some "users") 0
        ≡ served_as counting "/authorization/bulk/permissions/remove"
            (items_for counting
              (λ (a : SelectedAction) e. grant_item e a.action a.resource_type none)
              emails
              (selected_actions none (some "read") (some "users")))
            0)
    × (bulk_update_role plain (answer counting) emails "admin" 0
        ≡ served_as counting "/authorization/bulk/users/role"
            (map (λ e. role_item e "admin") emails)
            0)
bulk_mutations-served_as_example =
    bulk_mutations-served_as counting plain emails (some "read") (some "users") (some ("p" ∷ []))
      none none "admin" 0

abbrev own_change : BulkResponse
own_change = record {
  results =
      record { user_email = "a@x.org"; identifier = "p"; status = success; error = none } ∷ [];
  success_count = 1;
  error_count = 0;
}

abbrev signed_in_tab : Tab
signed_in_tab = record (loaded 7000) { auth = record (loaded 7000).auth { email = some "a@x.org" } }
