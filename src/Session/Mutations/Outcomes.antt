-- ===== src/Session/Mutations/Outcomes.antt =====
-- What a rejected mutation leaves, for the mutations of policies, permissions, users, rate limits and
-- sessions one by one, and of the deletion of one's own account: those without a handler for errors.
use mathlib.Core.Path.{subst}
use mystic_auth.Prelude.{
  ℕ, String, Option, none, some, ◌≡◌, refl, Result, rejected, resolved, Async, continue_with,
  wrap_rejection,
}
use mystic_auth.Api.{Failure}
use mystic_auth.Session.{Tab}
use mystic_auth.Session.Mutations.{
  Service, Request, create_policy_api, update_policy_api, delete_policy_api, rollback_policy_api,
  assign_policy_api, revoke_policy_api, revoke_policy_action_api, grant_permission_api,
  revoke_permission_api, delete_user_api, purge_user_api, reactivate_user_api, update_user_role_api,
  reset_rate_limit_api, revoke_session_api, delete_my_account_api, confirm_delete_my_account_api,
  on_success, attempt, attempt_void, message, failed_end_session, use_create_policy,
  use_update_policy, use_delete_policy, use_rollback_policy, use_assign_policy, use_revoke_policy,
  use_revoke_policy_action, use_grant_permission, use_revoke_permission, use_delete_user,
  use_purge_user, use_reactivate_user, use_update_user_role, use_reset_rate_limit,
  use_revoke_session, use_delete_my_account, use_confirm_delete_my_account,
}

pub data Mutation (Payload : Type 0) : Type 0 where
  create_policy : Payload → Mutation Payload
  update_policy : String → Payload → Mutation Payload
  delete_policy : String → Option String → Mutation Payload
  rollback_policy : String → ℕ → Option String → Mutation Payload
  assign_policy : String → String → Mutation Payload
  revoke_policy : String → String → Mutation Payload
  revoke_policy_action : String → String → String → Mutation Payload
  grant_permission : String → Payload → Mutation Payload
  revoke_permission : String → String → String → Mutation Payload
  delete_user : String → Mutation Payload
  purge_user : String → Mutation Payload
  reactivate_user : String → Mutation Payload
  update_user_role : String → String → Mutation Payload
  reset_rate_limit : String → Mutation Payload
  revoke_session : ℕ → Mutation Payload
  delete_my_account : Payload → Mutation Payload
  confirm_delete_my_account : Payload → Mutation Payload

abbrev pub request_of : {Payload : Type 0} → Mutation Payload → Request Payload
request_of (create_policy payload) = create_policy_api payload
request_of (update_policy policy_name payload) = update_policy_api policy_name payload
request_of (delete_policy policy_name reason) = delete_policy_api policy_name reason
request_of (rollback_policy policy_name history_id reason) =
    rollback_policy_api policy_name history_id reason
request_of (assign_policy user_email policy_name) = assign_policy_api user_email policy_name
request_of (revoke_policy user_email policy_name) = revoke_policy_api user_email policy_name
request_of (revoke_policy_action user_email policy_name action) =
    revoke_policy_action_api user_email policy_name action
request_of (grant_permission user_email payload) = grant_permission_api user_email payload
request_of (revoke_permission user_email action resource_type) =
    revoke_permission_api user_email action resource_type
request_of (delete_user user_email) = delete_user_api user_email
request_of (purge_user user_email) = purge_user_api user_email
request_of (reactivate_user user_email) = reactivate_user_api user_email
request_of (update_user_role user_email role) = update_user_role_api user_email role
request_of (reset_rate_limit key) = reset_rate_limit_api key
request_of (revoke_session session_id) = revoke_session_api session_id
request_of (delete_my_account payload) = delete_my_account_api payload
request_of (confirm_delete_my_account payload) = confirm_delete_my_account_api payload

module _ {Params Payload Reply : Type 0} (service : Service Params Payload Reply) where
  abbrev pub fallback_of : Mutation Payload → String
  fallback_of (create_policy payload) = "Failed to create policy"
  fallback_of (update_policy policy_name payload) = "Failed to update policy"
  fallback_of (delete_policy policy_name reason) = "Failed to delete policy"
  fallback_of (rollback_policy policy_name history_id reason) = "Failed to roll back policy"
  fallback_of (assign_policy user_email policy_name) = "Failed to assign policy"
  fallback_of (revoke_policy user_email policy_name) = "Failed to revoke policy"
  fallback_of (revoke_policy_action user_email policy_name action) = "Failed to revoke action"
  fallback_of (grant_permission user_email payload) = "Failed to grant permission"
  fallback_of (revoke_permission user_email action resource_type) = "Failed to revoke permission"
  fallback_of (delete_user user_email) = "Failed to delete user"
  fallback_of (purge_user user_email) = "Failed to permanently remove user"
  fallback_of (reactivate_user user_email) = "Failed to reactivate user"
  fallback_of (update_user_role user_email role) = "Failed to update role"
  fallback_of (reset_rate_limit key) = "Failed to reset rate limit"
  fallback_of (revoke_session session_id) = (failed_end_session service)
  fallback_of (delete_my_account payload) = "Failed to delete account"
  fallback_of (confirm_delete_my_account payload) = "Account deletion confirmation failed"

  unfoldable pub run_mutation : Mutation Payload → Async Tab String (Option Reply)
  unfolding use_create_policy use_update_policy use_delete_policy use_rollback_policy
      use_assign_policy use_revoke_policy use_revoke_policy_action use_grant_permission
      use_revoke_permission use_delete_user use_purge_user use_reactivate_user use_update_user_role
      use_reset_rate_limit use_revoke_session use_delete_my_account use_confirm_delete_my_account
  run_mutation (create_policy payload) = use_create_policy service payload
  run_mutation (update_policy policy_name payload) = use_update_policy service policy_name payload
  run_mutation (delete_policy policy_name reason) = use_delete_policy service policy_name reason
  run_mutation (rollback_policy policy_name history_id reason) =
      use_rollback_policy service policy_name history_id reason
  run_mutation (assign_policy user_email policy_name) =
      use_assign_policy service user_email policy_name
  run_mutation (revoke_policy user_email policy_name) =
      use_revoke_policy service user_email policy_name
  run_mutation (revoke_policy_action user_email policy_name action) =
      use_revoke_policy_action service user_email policy_name action
  run_mutation (grant_permission user_email payload) =
      use_grant_permission service user_email payload
  run_mutation (revoke_permission user_email action resource_type) =
      use_revoke_permission service user_email action resource_type
  run_mutation (delete_user user_email) = use_delete_user service user_email
  run_mutation (purge_user user_email) = use_purge_user service user_email
  run_mutation (reactivate_user user_email) = use_reactivate_user service user_email
  run_mutation (update_user_role user_email role) = use_update_user_role service user_email role
  run_mutation (reset_rate_limit key) = use_reset_rate_limit service key
  run_mutation (revoke_session session_id) = use_revoke_session service session_id
  run_mutation (delete_my_account payload) = use_delete_my_account service payload
  run_mutation (confirm_delete_my_account payload) = use_confirm_delete_my_account service payload

  -- The rejection of a mutation is that of its request, and nothing has been done since.
  abbrev RejectedAs :
      String → Result (Failure Params) Reply × Tab → Result String (Option Reply) × Tab → Type 0
  RejectedAs fallback sent (resolved a, u) = Unit
  RejectedAs fallback sent (rejected text, u) =
      (f : Failure Params) × (sent ≡ (rejected f, u)) × (text ≡ message service fallback f)

  answered-RejectedAs :
      (fallback : String) (handler : Option Reply → Tab → Tab) (answer : Reply → Option Reply)
      (sent : Result (Failure Params) Reply × Tab)
      → RejectedAs fallback sent (
          on_success handler (
            wrap_rejection
              (message service fallback)
              (continue_with (λ data_of w. (resolved (answer data_of), w)) sent)))
  answered-RejectedAs fallback handler answer (rejected f, u) = (f, refl, refl)
  answered-RejectedAs fallback handler answer (resolved reply, u) = tt

  attempt-RejectedAs :
      (fallback : String) (request : Request Payload) (handler : Option Reply → Tab → Tab) (t : Tab)
      → RejectedAs fallback
          (service.send request t)
          (on_success handler (attempt service fallback request t))
  unfolding attempt
  attempt-RejectedAs fallback request handler t =
      answered-RejectedAs fallback handler (λ reply. some reply) (service.send request t)

  attempt_void-RejectedAs :
      (fallback : String) (request : Request Payload) (handler : Option Reply → Tab → Tab) (t : Tab)
      → RejectedAs fallback
          (service.send request t)
          (on_success handler (attempt_void service fallback request t))
  unfolding attempt_void
  attempt_void-RejectedAs fallback request handler t =
      answered-RejectedAs fallback handler (λ reply. none) (service.send request t)

  run_mutation-RejectedAs :
      (m : Mutation Payload) (t : Tab)
      → RejectedAs (fallback_of m) (service.send (request_of m) t) (run_mutation m t)
  unfolding run_mutation
  run_mutation-RejectedAs (create_policy payload) t = attempt-RejectedAs _ _ _ t
  run_mutation-RejectedAs (update_policy policy_name payload) t = attempt-RejectedAs _ _ _ t
  run_mutation-RejectedAs (delete_policy policy_name reason) t = attempt_void-RejectedAs _ _ _ t
  run_mutation-RejectedAs (rollback_policy policy_name history_id reason) t =
      attempt-RejectedAs _ _ _ t
  run_mutation-RejectedAs (assign_policy user_email policy_name) t = attempt-RejectedAs _ _ _ t
  run_mutation-RejectedAs (revoke_policy user_email policy_name) t = attempt-RejectedAs _ _ _ t
  run_mutation-RejectedAs (revoke_policy_action user_email policy_name action) t =
      attempt-RejectedAs _ _ _ t
  run_mutation-RejectedAs (grant_permission user_email payload) t = attempt-RejectedAs _ _ _ t
  run_mutation-RejectedAs (revoke_permission user_email action resource_type) t =
      attempt-RejectedAs _ _ _ t
  run_mutation-RejectedAs (delete_user user_email) t = attempt_void-RejectedAs _ _ _ t
  run_mutation-RejectedAs (purge_user user_email) t = attempt_void-RejectedAs _ _ _ t
  run_mutation-RejectedAs (reactivate_user user_email) t = attempt-RejectedAs _ _ _ t
  run_mutation-RejectedAs (update_user_role user_email role) t = attempt-RejectedAs _ _ _ t
  run_mutation-RejectedAs (reset_rate_limit key) t = attempt_void-RejectedAs _ _ _ t
  run_mutation-RejectedAs (revoke_session session_id) t = attempt-RejectedAs _ _ _ t
  run_mutation-RejectedAs (delete_my_account payload) t = attempt-RejectedAs _ _ _ t
  run_mutation-RejectedAs (confirm_delete_my_account payload) t = attempt-RejectedAs _ _ _ t

  -- When one of these mutations is rejected, of policies, permissions, users, rate limits, a single
  -- session, or the deletion of one's own account, its request was rejected, the mutation itself has
  -- done nothing to the tab, which is as the rejected request left it, and the error shows the message
  -- of that failure or the fallback of the mutation.
  pub run_mutation-rejected :
      (m : Mutation Payload) (t : Tab) (text : String) (u : Tab)
      → run_mutation m t ≡ (rejected text, u)
      → (f : Failure Params) × (service.send (request_of m) t ≡ (rejected f, u))
        × (text ≡ message service (fallback_of m) f)
  run_mutation-rejected m t text u e =
      subst (RejectedAs (fallback_of m) (service.send (request_of m) t)) e
        (run_mutation-RejectedAs m t)
