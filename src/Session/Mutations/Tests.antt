-- ===== src/Session/Mutations/Tests.antt =====
-- Examples for the mutations: a service that rejects logouts, deletions of policies and the
-- revocation of session 2, and that answers everything else.
use mystic_auth.Prelude.{
  ℕ, String, true, false, ◌≡◌, refl, inl, none, some, [], ◌∷◌, map, ◌==◌, ℕ_eq, Result, rejected,
  resolved, if◌then◌else◌,
}
use mystic_auth.Api.{Failure, other_error, extract_api_error_message}
use mystic_auth.Session.{Tab, loaded}
use mystic_auth.Session.AuthStore.{CurrentUserProfile, set_authenticated, set_profile}
use mystic_auth.Session.Events.{login_succeeded, clear_my_account_session_caches}
use mystic_auth.Session.Interceptor.SignedOut.{IsSignedOut}
use mystic_auth.Session.Mutations.{
  Request, logout_api, delete_policy_api, revoke_session_api, Service, message, use_logout,
  use_logout_all,
}
use mystic_auth.Session.Mutations.Accounts.{use_login}
use mystic_auth.Session.Mutations.Outcomes.{delete_policy, run_mutation, run_mutation-rejected}
use mystic_auth.Session.Mutations.Signed.{
  IsSignedInAs, use_logout-IsSignedOut, use_login-IsSignedInAs,
}

abbrev answer_to : Request String → Result (Failure ℕ) ℕ
answer_to logout_api = rejected other_error
answer_to (delete_policy_api name reason) = rejected other_error
answer_to (revoke_session_api id) = if id == 2 then rejected other_error else resolved 0
answer_to _ = resolved 0

abbrev ada : CurrentUserProfile
ada = record {
  name = "Ada";
  email = "ada@example.com";
  role = none;
  permissions = some ("users:read_own" ∷ []);
  has_password = true;
  brand_color = none;
}

abbrev backend : Service ℕ String ℕ
backend = record {
  translations = record { exists = λ key. false; translate = λ key params. key };
  login_endpoint = 0;
  send = λ request t. (answer_to request, t);
  all_settled = λ requests t. (map answer_to requests, t);
  start_authentication = λ options t. (resolved "credential", t);
  cancel_current_user_query = λ t. (resolved tt, t);
  profile_of = λ reply. ada;
  confirmation_required = λ reply. false;
  changes_password = λ payload. false;
}

abbrev signed_in : Tab
signed_in = record (loaded 1000) {
  auth = set_authenticated 900 true (set_profile ada (loaded 1000).auth);
}

use_logout-IsSignedOut_example :
    IsSignedOut (use_logout backend signed_in).1.auth
    × IsSignedOut (use_logout_all backend signed_in).1.auth
use_logout-IsSignedOut_example = use_logout-IsSignedOut backend signed_in

run_mutation-rejected_example :
    (f : Failure ℕ) × (backend.send (delete_policy_api "reader" none) signed_in
      ≡ (rejected f, signed_in))
    × ("Failed to delete policy" ≡ message backend "Failed to delete policy" f)
unfolding run_mutation extract_api_error_message
run_mutation-rejected_example =
    run_mutation-rejected backend (delete_policy "reader" none) signed_in "Failed to delete policy"
      signed_in refl

abbrev deleted : Tab
deleted = clear_my_account_session_caches signed_in

use_login-IsSignedInAs_example : IsSignedInAs ada (login_succeeded ada (loaded 1000)).auth
unfolding use_login
use_login-IsSignedInAs_example =
    use_login-IsSignedInAs backend "password" (loaded 1000) ada (login_succeeded ada (loaded 1000))
      (inl refl)
