-- ===== src/Session/Mutations/Accounts.antt =====
-- The two logins (auth/login/useLoginMutation.ts and usePasskeyLoginMutation.ts) and the update of
-- one's own account (account_settings/useUpdateMyAccountMutation.ts).
use mystic_auth.Prelude.{
  ℕ, String, Bool, true, false, not, Option, none, some, get_or, ◌==◌, ℕ_eq, String_eq, leb,
  resolved, Async, and_then, wrap_rejection, if◌then◌else◌,
}
use mystic_auth.Api.{
  Failure, axios_error, other_error, ErrorResponse, ErrorBody, Unknown, text, falsy, not_text,
  body_of, translate_error_code,
}
use mystic_auth.Session.AuthStore.{CurrentUserProfile}
use mystic_auth.Session.Guards.{track_session_rotating_request, rotating_request_settled}
use mystic_auth.Session.{Tab, command, invalidate, current_user}
use mystic_auth.Session.Events.{login_succeeded}
use mystic_auth.Session.Mutations.{
  Service, login_api, get_current_user_api, begin_passkey_authentication_api,
  complete_passkey_authentication_api, update_my_account_api, on_success, message, attempt,
}

abbrev pub is_truthy : Unknown → Bool
is_truthy (text s) = not (s == "")
is_truthy falsy = false
is_truthy not_text = true

module _ {Params Payload Reply : Type 0} (service : Service Params Payload Reply) where
  open service use {
    translations, login_endpoint, send, start_authentication, cancel_current_user_query, profile_of,
    changes_password,
  }

  -- `error.response?.data?.code`
  abbrev pub has_code : Option (ErrorBody Params) → Bool
  has_code none = false
  has_code (some body) = is_truthy body.code

  -- The recovery message for a failure without a code, by its status.
  abbrev pub recovery_message : Option (ErrorResponse Params) → Option String
  recovery_message none = translate_error_code translations (text "NETWORK_ERROR") none
  recovery_message (some response) =
      if response.status == 401
      then translate_error_code translations (text "INVALID_CREDENTIALS") none
      else (if response.status == 429
          then translate_error_code translations (text "TOO_MANY_ATTEMPTS") (some login_endpoint)
          else (if leb 500 response.status
              then translate_error_code translations (text "SERVER_ERROR") none
              else none))

  abbrev pub login_message : Failure Params → String
  login_message other_error = message service "Login failed" other_error
  login_message (axios_error response) =
      let own = message service "Login failed" (axios_error response) in
      if has_code (body_of response) then own else get_or (recovery_message response) own

  abbrev pub get_profile : String → Async Tab (Failure Params) CurrentUserProfile
  get_profile caller =
      and_then (send (get_current_user_api caller)) (λ reply w. (resolved (profile_of reply), w))

  unfoldable pub use_login : Payload → Async Tab String CurrentUserProfile
  unfolding login_succeeded
  use_login payload t = on_success login_succeeded (
      wrap_rejection login_message (
        and_then cancel_current_user_query
          (λ _. and_then (send (login_api payload)) (λ _. get_profile "useLoginMutation")) t))

  unfoldable pub use_passkey_login : Async Tab String CurrentUserProfile
  unfolding login_succeeded
  use_passkey_login t = on_success login_succeeded (
      wrap_rejection (message service "Passkey sign-in failed") (
        and_then cancel_current_user_query
          (λ _. and_then (send begin_passkey_authentication_api) (λ options.
            and_then (start_authentication options) (λ credential.
              and_then (send (complete_passkey_authentication_api credential))
                (λ _. get_profile "usePasskeyLoginMutation"))))
          t))

  abbrev pub tracked_from : Bool → ℕ → Tab → Tab
  tracked_from false request t = t
  tracked_from true request t = record t { guard = track_session_rotating_request request t.guard }

  abbrev pub tracked_until : {A : Type 0} → Bool → ℕ → A × Tab → A × Tab
  tracked_until false request (outcome, t) = (outcome, t)
  tracked_until true request (outcome, t) =
      (outcome, record t { guard = rotating_request_settled t.now request t.guard })

  -- `request` is the promise of the request, which is tracked while it is under way.
  unfoldable pub use_update_my_account : ℕ → Payload → Async Tab String (Option Reply)
  unfolding attempt track_session_rotating_request rotating_request_settled
  use_update_my_account request payload t =
      let tracked = changes_password payload in
      on_success (λ _. command (invalidate current_user))
        (tracked_until tracked request (
          attempt service "Failed to update profile" (update_my_account_api payload)
            (tracked_from tracked request t)))
