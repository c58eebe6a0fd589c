-- ===== src/Api/Requests/Calls.antt =====
-- The requests of api/*.ts whose path names a user, a policy, an action or a counter, as one type of
-- calls, and the endpoints that they are meant for.
use Prim.Native.Nat.{ℕ}
use Prim.Native.String.{String}
use mystic_auth.Prelude.{Option, List, [], ◌∷◌}
use mystic_auth.Api.Requests.{
  HttpRequest, update_user_api, delete_user_api, purge_user_api, reactivate_user_api,
  list_user_passkeys_api, revoke_user_passkey_api, revoke_all_user_passkeys_api,
  update_user_role_api, get_policy_api, update_policy_api, delete_policy_api,
  get_policy_history_api, rollback_policy_api, get_policy_holders_api, assign_policy_api,
  revoke_policy_api, revoke_policy_action_api, get_user_policies_api, grant_permission_api,
  revoke_permission_api, get_user_permissions_api, reset_rate_limit_api,
}

pub data ApiCall (P : Type 0) : Type 0 where
  update_user : String → P → ApiCall P
  delete_user : String → ApiCall P
  purge_user : String → ApiCall P
  reactivate_user : String → ApiCall P
  list_user_passkeys : String → ApiCall P
  revoke_user_passkey : String → ℕ → ApiCall P
  revoke_all_user_passkeys : String → ApiCall P
  update_user_role : String → String → ApiCall P
  get_policy : String → ApiCall P
  update_policy : String → P → ApiCall P
  delete_policy : String → Option String → ApiCall P
  get_policy_history : String → Option ℕ → Option ℕ → ApiCall P
  rollback_policy : String → ℕ → Option String → ApiCall P
  get_policy_holders : String → ApiCall P
  assign_policy : String → String → ApiCall P
  revoke_policy : String → String → ApiCall P
  revoke_policy_action : String → String → String → ApiCall P
  get_user_policies : String → ApiCall P
  grant_permission : String → P → ApiCall P
  revoke_permission : String → String → String → ApiCall P
  get_user_permissions : String → ApiCall P
  reset_rate_limit : String → ApiCall P

-- A segment of an endpoint: a word of the interface, the name of something, or a number.
pub data Segment : Type 0 where
  fixed : String → Segment
  name : String → Segment
  id : ℕ → Segment

module _ {P : Type 0} where
  unfoldable pub request_of : (String → String) → (ℕ → String) → ApiCall P → HttpRequest P
  unfolding update_user_api delete_user_api purge_user_api reactivate_user_api
      list_user_passkeys_api revoke_user_passkey_api revoke_all_user_passkeys_api
      update_user_role_api get_policy_api update_policy_api delete_policy_api get_policy_history_api
      rollback_policy_api get_policy_holders_api assign_policy_api revoke_policy_api
      revoke_policy_action_api get_user_policies_api grant_permission_api revoke_permission_api
      get_user_permissions_api reset_rate_limit_api
  request_of encode number_text (update_user e p) = update_user_api encode number_text e p
  request_of encode number_text (delete_user e) = delete_user_api encode number_text e
  request_of encode number_text (purge_user e) = purge_user_api encode number_text e
  request_of encode number_text (reactivate_user e) = reactivate_user_api encode number_text e
  request_of encode number_text (list_user_passkeys e) = list_user_passkeys_api encode number_text e
  request_of encode number_text (revoke_user_passkey e n) =
      revoke_user_passkey_api encode number_text e n
  request_of encode number_text (revoke_all_user_passkeys e) =
      revoke_all_user_passkeys_api encode number_text e
  request_of encode number_text (update_user_role e role) =
      update_user_role_api encode number_text e role
  request_of encode number_text (get_policy p) = get_policy_api encode number_text p
  request_of encode number_text (update_policy p body) = update_policy_api encode number_text p body
  request_of encode number_text (delete_policy p reason) =
      delete_policy_api encode number_text p reason
  request_of encode number_text (get_policy_history p limit offset) =
      get_policy_history_api encode number_text p limit offset
  request_of encode number_text (rollback_policy p n reason) =
      rollback_policy_api encode number_text p n reason
  request_of encode number_text (get_policy_holders p) = get_policy_holders_api encode number_text p
  request_of encode number_text (assign_policy e p) = assign_policy_api encode number_text e p
  request_of encode number_text (revoke_policy e p) = revoke_policy_api encode number_text e p
  request_of encode number_text (revoke_policy_action e p a) =
      revoke_policy_action_api encode number_text e p a
  request_of encode number_text (get_user_policies e) = get_user_policies_api encode number_text e
  request_of encode number_text (grant_permission e body) =
      grant_permission_api encode number_text e body
  request_of encode number_text (revoke_permission e a r) =
      revoke_permission_api encode number_text e a r
  request_of encode number_text (get_user_permissions e) =
      get_user_permissions_api encode number_text e
  request_of encode number_text (reset_rate_limit key) = reset_rate_limit_api encode number_text key

  unfoldable pub endpoint : ApiCall P → List Segment
  endpoint (update_user e p) = fixed "users" ∷ name e ∷ []
  endpoint (delete_user e) = fixed "users" ∷ name e ∷ []
  endpoint (purge_user e) = fixed "users" ∷ name e ∷ fixed "purge" ∷ []
  endpoint (reactivate_user e) = fixed "users" ∷ name e ∷ fixed "reactivate" ∷ []
  endpoint (list_user_passkeys e) = fixed "users" ∷ name e ∷ fixed "passkeys" ∷ []
  endpoint (revoke_user_passkey e n) = fixed "users" ∷ name e ∷ fixed "passkeys" ∷ id n ∷ []
  endpoint (revoke_all_user_passkeys e) = fixed "users" ∷ name e ∷ fixed "passkeys" ∷ []
  endpoint (update_user_role e role) = fixed "users" ∷ name e ∷ fixed "role" ∷ []
  endpoint (get_policy p) = fixed "authorization" ∷ fixed "policies" ∷ name p ∷ []
  endpoint (update_policy p body) = fixed "authorization" ∷ fixed "policies" ∷ name p ∷ []
  endpoint (delete_policy p reason) = fixed "authorization" ∷ fixed "policies" ∷ name p ∷ []
  endpoint (get_policy_history p limit offset) =
      fixed "authorization" ∷ fixed "policies" ∷ name p ∷ fixed "history" ∷ []
  endpoint (rollback_policy p n reason) =
      fixed "authorization"
      ∷ fixed "policies"
      ∷ name p
      ∷ fixed "history"
      ∷ id n
      ∷ fixed "rollback"
      ∷ []
  endpoint (get_policy_holders p) =
      fixed "authorization" ∷ fixed "policies" ∷ name p ∷ fixed "holders" ∷ []
  endpoint (assign_policy e p) =
      fixed "authorization" ∷ fixed "users" ∷ name e ∷ fixed "policies" ∷ []
  endpoint (revoke_policy e p) =
      fixed "authorization" ∷ fixed "users" ∷ name e ∷ fixed "policies" ∷ name p ∷ []
  endpoint (revoke_policy_action e p a) =
      fixed "authorization"
      ∷ fixed "users"
      ∷ name e
      ∷ fixed "policies"
      ∷ name p
      ∷ fixed "revoke-action"
      ∷ []
  endpoint (get_user_policies e) =
      fixed "authorization" ∷ fixed "users" ∷ name e ∷ fixed "policies" ∷ []
  endpoint (grant_permission e body) =
      fixed "authorization" ∷ fixed "users" ∷ name e ∷ fixed "permissions" ∷ []
  endpoint (revoke_permission e a r) =
      fixed "authorization" ∷ fixed "users" ∷ name e ∷ fixed "permissions" ∷ name a ∷ []
  endpoint (get_user_permissions e) =
      fixed "authorization" ∷ fixed "users" ∷ name e ∷ fixed "permissions" ∷ []
  endpoint (reset_rate_limit key) = fixed "rate-limits" ∷ name key ∷ []
