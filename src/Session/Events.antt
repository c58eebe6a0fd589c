-- ===== src/Session/Events.antt =====
-- What changes the session state of a tab: login (auth/login/useLoginMutation.ts), the end of a
-- session (session_lifecycle/clearMyAccountSessionCaches.ts), pushed events
-- (session_lifecycle/useSessionEventsStream.ts), the mirrored current-user query
-- (auth/current_user/useCurrentUserQuery.ts), and the policy and permission changes of this tab
-- (policies/queries/policyMutations.ts, permissionMutations.ts).
pub mod Coherence
pub mod FailClosed
use mystic_auth.Prelude.{
  ℕ, ◌+◌, String, Bool, true, false, ◌&&◌, Option, none, some, List, [], ◌∷◌, ◌==◌, ltb, String_eq,
  if◌then◌else◌, get_or,
}
use mystic_auth.Session.AuthStore.{
  AuthState, CurrentUserProfile, set_authenticated, set_profile, clear_profile, drop_permissions,
}
use mystic_auth.Session.Guards.{mark_self_permission_mutation, was_self_permission_mutation_recent}
use mystic_auth.Session.{
  QueryKey, current_user, sessions, my_policies, my_permissions, my_authorization_audit_log,
  my_security_audit_log, previous_login, permission_catalog_usage, user_policies, user_permissions,
  policies, policy_history, set_null, remove, invalidate, reset_all, Tab, command, QueryCommand,
  set_profile_data,
}

-- `clearMyAccountSessionCaches`
unfoldable pub clear_my_account_session_caches : Tab → Tab
unfolding set_authenticated
clear_my_account_session_caches t =
    let signed_out = record t { auth = set_authenticated t.now false t.auth } in
    command (remove my_security_audit_log) (
      command (remove my_authorization_audit_log) (
        command (remove my_policies)
          (command (remove sessions) (command (set_null current_user) signed_out))))

-- `onSuccess` of `useLoginMutation`
unfoldable pub login_succeeded : CurrentUserProfile → Tab → Tab
unfolding set_authenticated set_profile
login_succeeded profile t =
    let signed_in = record t { auth = set_authenticated t.now true (set_profile profile t.auth) } in
    command (invalidate my_security_audit_log) (
      command (invalidate my_authorization_audit_log) (
        command (invalidate my_policies)
          (command (invalidate sessions) (command (set_profile_data profile) signed_in))))

-- The `type` of a parsed event; none for a malformed payload.
abbrev is_permissions_changed : Option String → Bool
is_permissions_changed none = false
is_permissions_changed (some type) = type == "permissions_changed"

-- `source.onmessage` of `useSessionEventsStream`
unfoldable pub on_message : Option String → Tab → Tab
unfolding was_self_permission_mutation_recent drop_permissions
on_message type t =
    let (own, last) = was_self_permission_mutation_recent t.now t.last_self_mutation_at in
    let consumed = record t { last_self_mutation_at = last } in
    let dropped = record consumed { auth = drop_permissions consumed.auth } in
    if is_permissions_changed type
    then command reset_all (if own then consumed else dropped)
    else command (invalidate previous_login)
        (command (invalidate sessions) (command (invalidate current_user) t))

-- What the effect of `useAuthSession` reads of the current-user query: `isSuccess`, `data`,
-- `isError`, whether the query's own status is "error", and its `errorUpdatedAt`.
pub record QuerySnapshot : Type 0 where
  pub is_success : Bool
  pub profile : Option CurrentUserProfile
  pub is_error : Bool
  pub status_is_error : Bool
  pub error_updated_at : Option ℕ

abbrev is_stale_error : Option ℕ → ℕ → Bool
is_stale_error none error_updated_at = false
is_stale_error (some authenticated_at) error_updated_at = ltb error_updated_at authenticated_at

abbrev loaded_profile : QuerySnapshot → Option CurrentUserProfile
loaded_profile q = if q.is_success then q.profile else none

-- The effect of `useAuthSession`
unfoldable pub use_auth_session : QuerySnapshot → Tab → Tab
unfolding set_authenticated set_profile clear_profile
use_auth_session q t = elim (loaded_profile q) [
  | some profile ↦ record t {
    auth = set_authenticated t.now true (set_profile profile t.auth);
    brand_color = profile.brand_color;
  }
  | none ↦
      if q.is_error && q.status_is_error
      then if is_stale_error t.auth.authenticated_at (get_or q.error_updated_at 0)
        then t
        else record t {
          auth = set_authenticated t.now false (clear_profile t.auth);
          brand_color = none;
        }
      else t
]

-- `userEmail === useAuthStore.getState().email`
abbrev pub is_own_account : Tab → String → Bool
is_own_account t user_email = elim t.auth.email [ none ↦ false | some email ↦ user_email == email ]

-- The caller changed an account's grants; where it is their own, the self-mutation flag is armed.
abbrev refresh_own_account : String → Tab → Tab
refresh_own_account user_email t =
    let own = record (command (invalidate current_user) t) {
      last_self_mutation_at = mark_self_permission_mutation t.now t.last_self_mutation_at;
    } in
    if is_own_account t user_email then own else t

-- `onSuccess` of `useAssignPolicyMutation` and of `useRevokePolicyMutation`
unfoldable pub policy_assignment_succeeded : String → Tab → Tab
unfolding mark_self_permission_mutation
policy_assignment_succeeded user_email t = refresh_own_account user_email (
    command (invalidate my_policies) (
      command (invalidate (user_policies user_email))
        (command (invalidate permission_catalog_usage) t)))

-- `onSuccess` of `useRevokePolicyActionMutation`
unfoldable pub revoke_policy_action_succeeded : String → Tab → Tab
unfolding mark_self_permission_mutation
revoke_policy_action_succeeded user_email t = refresh_own_account user_email (
    command (invalidate my_permissions) (
      command (invalidate (user_permissions user_email)) (
        command (invalidate my_policies) (
          command (invalidate (user_policies user_email))
            (command (invalidate permission_catalog_usage) t)))))

-- `onSuccess` of `useGrantPermissionMutation` and of `useRevokePermissionMutation`
unfoldable pub permission_grant_succeeded : String → Tab → Tab
unfolding mark_self_permission_mutation
permission_grant_succeeded user_email t = refresh_own_account user_email (
    command (invalidate my_permissions) (
      command (invalidate (user_permissions user_email))
        (command (invalidate permission_catalog_usage) t)))

-- `onSuccess` of the create, update and delete mutations of a policy.
unfoldable pub policy_change_succeeded : Tab → Tab
policy_change_succeeded t =
    command (invalidate policies) (command (invalidate permission_catalog_usage) t)

-- `onSuccess` of `useRollbackPolicyMutation`
unfoldable pub policy_rollback_succeeded : String → Tab → Tab
policy_rollback_succeeded policy_name t =
    command (invalidate (policy_history policy_name))
      (command (invalidate policies) (command (invalidate permission_catalog_usage) t))

pub data Event : Type 0 where
  logged_in : CurrentUserProfile → Event
  session_cleared : Event
  pushed : Option String → Event
  query_settled : QuerySnapshot → Event
  policy_assignment_changed : String → Event
  policy_action_revoked : String → Event
  permission_grant_changed : String → Event
  policy_changed : Event
  policy_rolled_back : String → Event
  -- Time passes: `Date.now()` grows.
  elapsed : ℕ → Event

unfoldable pub step : Event → Tab → Tab
step (logged_in profile) t = login_succeeded profile t
step session_cleared t = clear_my_account_session_caches t
step (pushed type) t = on_message type t
step (query_settled q) t = use_auth_session q t
step (policy_assignment_changed user_email) t = policy_assignment_succeeded user_email t
step (policy_action_revoked user_email) t = revoke_policy_action_succeeded user_email t
step (permission_grant_changed user_email) t = permission_grant_succeeded user_email t
step policy_changed t = policy_change_succeeded t
step (policy_rolled_back policy_name) t = policy_rollback_succeeded policy_name t
step (elapsed ms) t = record t { now = t.now + ms }

unfoldable pub run : List Event → Tab → Tab
run [] t = t
run (e ∷ es) t = run es (step e t)
