-- ===== src/Policies/Bulk.antt =====
-- frontend/src/mystic_auth/policies/queries/bulkAssignmentMutations.ts and the requests of
-- api/bulk_assignment_api.ts. The backend is a parameter: what it answers to a request, and its
-- state after it. Conditions of a grant are a text, the JSON of the object. `Date.now()` and the
-- query client are those of the tab.
pub mod Chunks
pub mod Batches
pub mod Mutations
pub mod Settled
mod Tests
use mystic_auth.Prelude.{
  ℕ, zero, suc, ◌+◌, ◌-◌, String, Bool, true, false, Option, none, some, get_or, List, [], ◌∷◌,
  ◌++◌, map, ◌==◌, String_eq, ltb, length, take, drop, has, add, add_all, if◌then◌else◌, Result,
  rejected, resolved, Async, and_then, wrap_rejection,
}
use mystic_auth.Api.{Failure, Translations, extract_api_error_message}
use mystic_auth.Session.{
  Tab, QueryKey, command, invalidate, current_user, users, permission_catalog_usage, my_policies,
  my_permissions, user_policies, user_permissions,
}
use mystic_auth.Session.Guards.{mark_self_permission_mutation}

pub data ItemStatus : Type 0 where
  success already_held error : ItemStatus

pub record BulkItemResult : Type 0 where
  pub user_email : String
  pub identifier : String
  pub status : ItemStatus
  pub error : Option String

pub record BulkResponse : Type 0 where
  pub results : List BulkItemResult
  pub success_count : ℕ
  pub error_count : ℕ

-- One element of a request's `items`.
pub data BulkItem : Type 0 where
  policy_item : String → String → BulkItem
  grant_item : String → String → String → Option String → BulkItem
  role_item : String → String → BulkItem

abbrev pub empty_response : BulkResponse
empty_response = record { results = []; success_count = 0; error_count = 0 }

-- `{ action: string; resourceType: string }`
pub record SelectedAction : Type 0 where
  pub action : String
  pub resource_type : String

unfoldable pub distinct_emails : BulkResponse → List String
distinct_emails response = add_all [] (map (λ r. r.user_email) response.results)

unfoldable pub invalidate_self_if_included : List String → Bool → Tab → Tab
unfolding mark_self_permission_mutation
invalidate_self_if_included emails marks_permission_change t =
    if has emails (get_or t.auth.email "")
    then record (command (invalidate current_user) t) {
      last_self_mutation_at =
          if marks_permission_change
          then mark_self_permission_mutation t.now t.last_self_mutation_at
          else t.last_self_mutation_at;
    }
    else t

abbrev pub bulk_request_chunk_size : ℕ
bulk_request_chunk_size = 200

-- The loop of `chunk` from `i`, on fuel; a chunk of size 1 or more moves `i` on.
unfoldable pub chunk_from : {T : Type 0} → ℕ → ℕ → List T → ℕ → List (List T)
chunk_from zero i items size = []
chunk_from (suc fuel) i items size =
    let rest = chunk_from fuel (i + size) items size in
    if ltb i (length items) then take (i + size - i) (drop i items) ∷ rest else []

unfoldable pub chunk : {T : Type 0} → List T → ℕ → List (List T)
unfolding chunk_from
chunk items size = chunk_from (length items) 0 items size

abbrev pub merge : BulkResponse → BulkResponse → BulkResponse
merge merged response = record {
  results = merged.results ++ response.results;
  success_count = merged.success_count + response.success_count;
  error_count = merged.error_count + response.error_count;
}

module _ {W E : Type 0} where
  -- The loop of `runChunkedBulk`.
  abbrev pub run_chunks :
      (List String → Async W E BulkResponse)
      → List (List String)
      → BulkResponse
      → Async W E BulkResponse
  run_chunks call [] merged w = (resolved merged, w)
  run_chunks call (c ∷ cs) merged w =
      and_then (call c) (λ response. run_chunks call cs (merge merged response)) w

  unfoldable pub run_chunked_bulk :
      List String → (List String → Async W E BulkResponse) → Async W E BulkResponse
  unfolding chunk
  run_chunked_bulk user_emails call =
      run_chunks call (chunk user_emails bulk_request_chunk_size) empty_response

  -- The loop over the policies or the actions of a mutation.
  abbrev pub run_selected :
      {S : Type 0} → (S → Async W E BulkResponse) → List S → BulkResponse → Async W E BulkResponse
  run_selected run [] merged w = (resolved merged, w)
  run_selected run (s ∷ selected) merged w =
      and_then (run s) (λ result. run_selected run selected (merge merged result)) w

-- `policyNames ?? (policyName ? [policyName] : [])`
abbrev pub selected_names : Option (List String) → Option String → List String
selected_names (some names) name = names
selected_names none none = []
selected_names none (some name) = if name == "" then [] else name ∷ []

-- `actions ?? (action && resourceType ? [{ action, resourceType }] : [])`
abbrev pub selected_action : String → String → List SelectedAction
selected_action action resource_type =
    if action == ""
    then []
    else (if resource_type == ""
        then []
        else record { action = action; resource_type = resource_type } ∷ [])

abbrev pub selected_actions :
    Option (List SelectedAction) → Option String → Option String → List SelectedAction
selected_actions (some actions) action resource_type = actions
selected_actions none action resource_type =
    selected_action (get_or action "") (get_or resource_type "")

-- `wrapError(action)`: the message of the error that is thrown.
abbrev pub wrap_error : {Params : Type 0} → Translations Params → String → Failure Params → String
wrap_error translations action failure = extract_api_error_message translations failure action

module _ {W Params : Type 0} (translations : Translations Params)
    (post : String → List BulkItem → Async W (Failure Params) BulkResponse) where
  abbrev pub bulk_assign_policies_api : List String → String → Async W (Failure Params) BulkResponse
  bulk_assign_policies_api user_emails policy_name =
      post "/authorization/bulk/policies/assign" (map (λ e. policy_item e policy_name) user_emails)

  abbrev pub bulk_remove_policies_api : List String → String → Async W (Failure Params) BulkResponse
  bulk_remove_policies_api user_emails policy_name =
      post "/authorization/bulk/policies/remove" (map (λ e. policy_item e policy_name) user_emails)

  abbrev pub bulk_assign_permissions_api :
      List String → String → String → Option String → Async W (Failure Params) BulkResponse
  bulk_assign_permissions_api user_emails action resource_type conditions =
      post "/authorization/bulk/permissions/assign"
        (map (λ e. grant_item e action resource_type conditions) user_emails)

  abbrev pub bulk_remove_permissions_api :
      List String → String → String → Async W (Failure Params) BulkResponse
  bulk_remove_permissions_api user_emails action resource_type =
      post "/authorization/bulk/permissions/remove"
        (map (λ e. grant_item e action resource_type none) user_emails)

  abbrev pub bulk_update_role_api : List String → String → Async W (Failure Params) BulkResponse
  bulk_update_role_api user_emails role =
      post "/authorization/bulk/users/role" (map (λ e. role_item e role) user_emails)

  unfoldable pub bulk_assign_policies :
      List String → Option String → Option (List String) → Async W String BulkResponse
  bulk_assign_policies user_emails policy_name policy_names w =
      wrap_rejection (wrap_error translations "Failed to bulk-assign policy") (
        run_selected
          (λ name. run_chunked_bulk user_emails (λ emails. bulk_assign_policies_api emails name))
          (selected_names policy_names policy_name) empty_response w)

  unfoldable pub bulk_remove_policies :
      List String → Option String → Option (List String) → Async W String BulkResponse
  bulk_remove_policies user_emails policy_name policy_names w =
      wrap_rejection (wrap_error translations "Failed to bulk-remove policy") (
        run_selected
          (λ name. run_chunked_bulk user_emails (λ emails. bulk_remove_policies_api emails name))
          (selected_names policy_names policy_name) empty_response w)

  unfoldable pub bulk_assign_permissions :
      List String
      → Option String
      → Option (List SelectedAction)
      → Option String
      → Option String
      → Async W String BulkResponse
  bulk_assign_permissions user_emails action actions resource_type conditions w =
      wrap_rejection (wrap_error translations "Failed to bulk-grant permission") (
        run_selected
          (λ (item : SelectedAction). run_chunked_bulk user_emails (λ emails.
            bulk_assign_permissions_api emails item.action item.resource_type conditions))
          (selected_actions actions action resource_type) empty_response w)

  unfoldable pub bulk_remove_permissions :
      List String
      → Option String
      → Option (List SelectedAction)
      → Option String
      → Async W String BulkResponse
  bulk_remove_permissions user_emails action actions resource_type w =
      wrap_rejection (wrap_error translations "Failed to bulk-revoke permission") (
        run_selected
          (λ (item : SelectedAction).
            run_chunked_bulk user_emails
              (λ emails. bulk_remove_permissions_api emails item.action item.resource_type))
          (selected_actions actions action resource_type) empty_response w)

  unfoldable pub bulk_update_role : List String → String → Async W String BulkResponse
  bulk_update_role user_emails role w =
      wrap_rejection (wrap_error translations "Failed to bulk-update role")
        (run_chunked_bulk user_emails (λ emails. bulk_update_role_api emails role) w)
