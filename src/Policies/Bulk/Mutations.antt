-- ===== src/Policies/Bulk/Mutations.antt =====
-- The five mutations of bulkAssignmentMutations.ts against such a backend.
use mystic_auth.Prelude.{◌≡◌, ap, List, map, String, Option, none, wrap_rejection}
use mystic_auth.Api.{Translations}
use mystic_auth.Policies.Bulk.{
  SelectedAction, policy_item, grant_item, role_item, selected_names, selected_actions, wrap_error,
  bulk_assign_policies, bulk_remove_policies, bulk_assign_permissions, bulk_remove_permissions,
  bulk_update_role,
}
use mystic_auth.Policies.Bulk.Batches.{
  Backend, answer, served_as, items_for, run_selected_bulk-served, run_chunked_bulk-served,
}

-- Against a backend that handles items one after the other and rejects a request of more than 200,
-- each of the five mutations resolves, for any number of users, and has the answer and the effect
-- of handling every user for the first policy or action, then every user for the next.
pub bulk_mutations-served_as :
    {W Params : Type 0} (backend : Backend W Params) (translations : Translations Params)
    (user_emails : List String) (one another : Option String) (names : Option (List String))
    (actions : Option (List SelectedAction)) (conditions : Option String) (role : String) (w : W)
    → let post = answer backend in
      (bulk_assign_policies translations post user_emails one names w
        ≡ served_as backend "/authorization/bulk/policies/assign"
            (items_for backend
              (λ name e. policy_item e name)
              user_emails
              (selected_names names one))
            w)
      × (bulk_remove_policies translations post user_emails one names w
          ≡ served_as backend "/authorization/bulk/policies/remove"
              (items_for backend
                (λ name e. policy_item e name)
                user_emails
                (selected_names names one))
              w)
      × (bulk_assign_permissions translations post user_emails one actions another conditions w
          ≡ served_as backend "/authorization/bulk/permissions/assign"
              (items_for backend
                (λ (a : SelectedAction) e. grant_item e a.action a.resource_type conditions)
                user_emails
                (selected_actions actions one another))
              w)
      × (bulk_remove_permissions translations post user_emails one actions another w
          ≡ served_as backend "/authorization/bulk/permissions/remove"
              (items_for backend
                (λ (a : SelectedAction) e. grant_item e a.action a.resource_type none)
                user_emails
                (selected_actions actions one another))
              w)
      × (bulk_update_role translations post user_emails role w
          ≡ served_as backend "/authorization/bulk/users/role"
              (map (λ e. role_item e role) user_emails)
              w)
unfolding bulk_assign_policies bulk_remove_policies bulk_assign_permissions bulk_remove_permissions
    bulk_update_role
bulk_mutations-served_as backend translations user_emails one another names actions conditions role
      w =
    (
      ap (wrap_rejection (wrap_error translations "Failed to bulk-assign policy")) (
          run_selected_bulk-served backend "/authorization/bulk/policies/assign"
            (λ name e. policy_item e name) user_emails (selected_names names one) w),
      ap (wrap_rejection (wrap_error translations "Failed to bulk-remove policy")) (
          run_selected_bulk-served backend "/authorization/bulk/policies/remove"
            (λ name e. policy_item e name) user_emails (selected_names names one) w),
      ap (wrap_rejection (wrap_error translations "Failed to bulk-grant permission")) (
          run_selected_bulk-served backend "/authorization/bulk/permissions/assign"
            (λ (a : SelectedAction) e. grant_item e a.action a.resource_type conditions) user_emails
            (selected_actions actions one another) w),
      ap (wrap_rejection (wrap_error translations "Failed to bulk-revoke permission")) (
          run_selected_bulk-served backend "/authorization/bulk/permissions/remove"
            (λ (a : SelectedAction) e. grant_item e a.action a.resource_type none) user_emails
            (selected_actions actions one another) w),
      ap (wrap_rejection (wrap_error translations "Failed to bulk-update role")) (
          run_chunked_bulk-served backend "/authorization/bulk/users/role" (λ e. role_item e role)
            user_emails w),
    )
