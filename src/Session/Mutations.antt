-- ===== src/Session/Mutations.antt =====
-- The mutations of the source, request and handlers together: auth/login, auth/logout,
-- auth/logout_all, account_deletion, account_settings, active_sessions, users/queries,
-- policies/queries and rate_limits of frontend/src/mystic_auth. A request takes the tab to an
-- outcome and to the tab of that time, which may have changed meanwhile in any way; the payloads and
-- the data of a response only pass through. `mutate` of the query library runs `onSuccess` after an
-- answer, and `onSettled` after any outcome.
pub mod Outcomes
pub mod Accounts
pub mod Signed
pub mod Revocations
mod Tests
use mystic_auth.Prelude.{
  ℕ, suc, String, Bool, true, false, Option, none, some, get_or, get_elem?, List, [], ◌∷◌, map,
  ◌==◌, ◌<◌, ℕ_eq, leb, Result, rejected, resolved, Async, and_then, wrap_rejection, if◌then◌else◌,
}
use mystic_auth.Api.{
  Failure, axios_error, other_error, ErrorResponse, ErrorBody, Unknown, text, falsy, not_text,
  Translations, translate_error_code, extract_api_error_message,
}
use mystic_auth.Session.AuthStore.{CurrentUserProfile}
use mystic_auth.Session.Guards.{track_session_rotating_request, rotating_request_settled}
use mystic_auth.Session.{Tab, command, invalidate, current_user, sessions, users, rate_limits}
use mystic_auth.Session.Events.{
  clear_my_account_session_caches, login_succeeded, policy_assignment_succeeded,
  revoke_policy_action_succeeded, permission_grant_succeeded, policy_change_succeeded,
  policy_rollback_succeeded,
}

-- A call of the API modules, by the function's name.
pub data Request (Payload : Type 0) : Type 0 where
  create_policy_api : Payload → Request Payload
  update_policy_api : String → Payload → Request Payload
  delete_policy_api : String → Option String → Request Payload
  rollback_policy_api : String → ℕ → Option String → Request Payload
  assign_policy_api : String → String → Request Payload
  revoke_policy_api : String → String → Request Payload
  revoke_policy_action_api : String → String → String → Request Payload
  grant_permission_api : String → Payload → Request Payload
  revoke_permission_api : String → String → String → Request Payload
  delete_user_api : String → Request Payload
  purge_user_api : String → Request Payload
  reactivate_user_api : String → Request Payload
  update_user_role_api : String → String → Request Payload
  revoke_session_api : ℕ → Request Payload
  reset_rate_limit_api : String → Request Payload
  logout_api : Request Payload
  logout_all_api : Request Payload
  delete_my_account_api : Payload → Request Payload
  confirm_delete_my_account_api : Payload → Request Payload
  update_my_account_api : Payload → Request Payload
  login_api : Payload → Request Payload
  get_current_user_api : String → Request Payload
  begin_passkey_authentication_api : Request Payload
  complete_passkey_authentication_api : Payload → Request Payload

-- What the mutations rely on: the API, one request or several at once by `Promise.allSettled`, the
-- browser's passkeys, the query client, and the fields of a payload and of a response that are read.
pub record Service (Params Payload Reply : Type 0) : Type 0 where
  pub translations : Translations Params
  pub login_endpoint : Params
  pub send : Request Payload → Async Tab (Failure Params) Reply
  pub all_settled : List (Request Payload) → Tab → List (Result (Failure Params) Reply) × Tab
  pub start_authentication : Reply → Async Tab (Failure Params) Payload
  pub cancel_current_user_query : Async Tab (Failure Params) (Unit {0})
  pub profile_of : Reply → CurrentUserProfile
  pub confirmation_required : Reply → Bool
  pub changes_password : Payload → Bool

-- `onSuccess` and `onSettled`.
abbrev pub on_success : {E A : Type 0} → (A → Tab → Tab) → Result E A × Tab → Result E A × Tab
on_success handler (rejected e, t) = (rejected e, t)
on_success handler (resolved a, t) = (resolved a, handler a t)

abbrev pub on_settled : {E A : Type 0} → (Tab → Tab) → Result E A × Tab → Result E A × Tab
on_settled handler (outcome, t) = (outcome, handler t)

abbrev pub users_changed : Tab → Tab
users_changed t = command (invalidate users) t

abbrev pub sessions_revoked : Tab → Tab
sessions_revoked t = command (invalidate current_user) (command (invalidate sessions) t)

abbrev pub rate_limit_reset : Tab → Tab
rate_limit_reset t = command (invalidate rate_limits) t

-- One session's outcome of a bulk revocation.
pub data RevokeStatus : Type 0 where
  success error : RevokeStatus

pub record SessionRevokeResult : Type 0 where
  pub session_id : Option ℕ
  pub status : RevokeStatus
  pub error_text : Option String

module _ {Params Payload Reply : Type 0} (service : Service Params Payload Reply) where
  open service use {translations, login_endpoint, send}

  abbrev pub message : String → Failure Params → String
  message fallback failure = extract_api_error_message translations failure fallback

  abbrev pub failed_end_session : String
  failed_end_session = translations.translate "dashboard:activeSessionsCard.failedEndSession" none

  -- `try { return (await request).data } catch (error) { throw new Error(…) }`
  unfoldable pub attempt : String → Request Payload → Async Tab String (Option Reply)
  attempt fallback request t =
      wrap_rejection (message fallback)
        (and_then (send request) (λ data_of w. (resolved (some data_of), w)) t)

  -- The same without an answer: `none` is undefined.
  unfoldable pub attempt_void : String → Request Payload → Async Tab String (Option Reply)
  attempt_void fallback request t =
      wrap_rejection (message fallback)
        (and_then (send request) (λ data_of w. (resolved none, w)) t)

  unfoldable pub use_create_policy : Payload → Async Tab String (Option Reply)
  unfolding attempt policy_change_succeeded
  use_create_policy payload t =
      on_success (λ _. policy_change_succeeded)
        (attempt "Failed to create policy" (create_policy_api payload) t)

  unfoldable pub use_update_policy : String → Payload → Async Tab String (Option Reply)
  unfolding attempt policy_change_succeeded
  use_update_policy policy_name payload t =
      on_success (λ _. policy_change_succeeded)
        (attempt "Failed to update policy" (update_policy_api policy_name payload) t)

  unfoldable pub use_delete_policy : String → Option String → Async Tab String (Option Reply)
  unfolding attempt_void policy_change_succeeded
  use_delete_policy policy_name reason t =
      on_success (λ _. policy_change_succeeded)
        (attempt_void "Failed to delete policy" (delete_policy_api policy_name reason) t)

  unfoldable pub use_rollback_policy : String → ℕ → Option String → Async Tab String (Option Reply)
  unfolding attempt policy_rollback_succeeded
  use_rollback_policy policy_name history_id reason t =
      on_success (λ _. policy_rollback_succeeded policy_name)
        (attempt "Failed to roll back policy" (rollback_policy_api policy_name history_id reason) t)

  unfoldable pub use_assign_policy : String → String → Async Tab String (Option Reply)
  unfolding attempt policy_assignment_succeeded
  use_assign_policy user_email policy_name t =
      on_success (λ _. policy_assignment_succeeded user_email)
        (attempt "Failed to assign policy" (assign_policy_api user_email policy_name) t)

  unfoldable pub use_revoke_policy : String → String → Async Tab String (Option Reply)
  unfolding attempt policy_assignment_succeeded
  use_revoke_policy user_email policy_name t =
      on_success (λ _. policy_assignment_succeeded user_email)
        (attempt "Failed to revoke policy" (revoke_policy_api user_email policy_name) t)

  unfoldable pub use_revoke_policy_action :
      String → String → String → Async Tab String (Option Reply)
  unfolding attempt revoke_policy_action_succeeded
  use_revoke_policy_action user_email policy_name action t =
      on_success (λ _. revoke_policy_action_succeeded user_email)
        (attempt "Failed to revoke action" (revoke_policy_action_api user_email policy_name action)
          t)

  unfoldable pub use_grant_permission : String → Payload → Async Tab String (Option Reply)
  unfolding attempt permission_grant_succeeded
  use_grant_permission user_email payload t =
      on_success (λ _. permission_grant_succeeded user_email)
        (attempt "Failed to grant permission" (grant_permission_api user_email payload) t)

  unfoldable pub use_revoke_permission : String → String → String → Async Tab String (Option Reply)
  unfolding attempt permission_grant_succeeded
  use_revoke_permission user_email action resource_type t =
      on_success (λ _. permission_grant_succeeded user_email)
        (attempt "Failed to revoke permission"
          (revoke_permission_api user_email action resource_type) t)

  unfoldable pub use_delete_user : String → Async Tab String (Option Reply)
  unfolding attempt_void
  use_delete_user user_email t =
      on_success (λ _. users_changed)
        (attempt_void "Failed to delete user" (delete_user_api user_email) t)

  unfoldable pub use_purge_user : String → Async Tab String (Option Reply)
  unfolding attempt_void
  use_purge_user user_email t =
      on_success (λ _. users_changed)
        (attempt_void "Failed to permanently remove user" (purge_user_api user_email) t)

  unfoldable pub use_reactivate_user : String → Async Tab String (Option Reply)
  unfolding attempt
  use_reactivate_user user_email t =
      on_success (λ _. users_changed)
        (attempt "Failed to reactivate user" (reactivate_user_api user_email) t)

  unfoldable pub use_update_user_role : String → String → Async Tab String (Option Reply)
  unfolding attempt
  use_update_user_role user_email role t =
      on_success (λ _. users_changed)
        (attempt "Failed to update role" (update_user_role_api user_email role) t)

  unfoldable pub use_reset_rate_limit : String → Async Tab String (Option Reply)
  unfolding attempt_void
  use_reset_rate_limit key t =
      on_success (λ _. rate_limit_reset)
        (attempt_void "Failed to reset rate limit" (reset_rate_limit_api key) t)

  unfoldable pub use_revoke_session : ℕ → Async Tab String (Option Reply)
  unfolding attempt
  use_revoke_session session_id t =
      on_success (λ _. sessions_revoked)
        (attempt failed_end_session (revoke_session_api session_id) t)

  abbrev pub revoke_result : Option ℕ → Result (Failure Params) Reply → SessionRevokeResult
  revoke_result session_id (resolved reply) = record {
    session_id = session_id;
    status = success;
    error_text = none;
  }
  revoke_result session_id (rejected failure) = record {
    session_id = session_id;
    status = error;
    error_text = some (message failed_end_session failure);
  }

  -- `settled.map((outcome, i) => …)` from place `i`.
  abbrev pub revoke_results :
      List ℕ → ℕ → List (Result (Failure Params) Reply) → List SessionRevokeResult
  revoke_results session_ids i [] = []
  revoke_results session_ids i (outcome ∷ outcomes) =
      revoke_result (get_elem? session_ids i) outcome ∷ revoke_results session_ids (suc i) outcomes

  unfoldable pub use_bulk_revoke_sessions : List ℕ → Async Tab String (List SessionRevokeResult)
  use_bulk_revoke_sessions session_ids t =
      let (settled, w) = service.all_settled (map revoke_session_api session_ids) t in
      on_success (λ _. sessions_revoked) (resolved (revoke_results session_ids 0 settled), w)

  unfoldable pub use_logout : Async Tab String (Option Reply)
  unfolding attempt clear_my_account_session_caches
  use_logout t = on_settled clear_my_account_session_caches (attempt "Logout failed" logout_api t)

  unfoldable pub use_logout_all : Async Tab String (Option Reply)
  unfolding attempt clear_my_account_session_caches
  use_logout_all t =
      on_settled clear_my_account_session_caches
        (attempt "Logout all devices failed" logout_all_api t)

  abbrev pub account_deleted : Option Reply → Tab → Tab
  account_deleted none t = t
  account_deleted (some reply) t =
      if service.confirmation_required reply then t else clear_my_account_session_caches t

  unfoldable pub use_delete_my_account : Payload → Async Tab String (Option Reply)
  unfolding attempt clear_my_account_session_caches
  use_delete_my_account payload t =
      on_success account_deleted
        (attempt "Failed to delete account" (delete_my_account_api payload) t)

  unfoldable pub use_confirm_delete_my_account : Payload → Async Tab String (Option Reply)
  unfolding attempt clear_my_account_session_caches
  use_confirm_delete_my_account payload t =
      on_success (λ _. clear_my_account_session_caches)
        (attempt "Account deletion confirmation failed" (confirm_delete_my_account_api payload) t)
