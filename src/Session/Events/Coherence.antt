-- ===== src/Session/Events/Coherence.antt =====
-- The auth store stays coherent whatever happens in the tab: no profile outlives its session, and
-- no permission is held while the list is known to be stale.
use mystic_auth.Prelude.{ℕ, true, ◌≡◌, ◌≢◌, none, some, List, [], ◌∷◌, arith}
use mystic_auth.Session.AuthStore.{AuthState, initial}
use mystic_auth.Session.{Tab, loaded}
use mystic_auth.Session.Events.{
  Event, logged_in, session_cleared, pushed, query_settled, policy_assignment_changed,
  policy_action_revoked, permission_grant_changed, policy_changed, policy_rolled_back, elapsed,
  clear_my_account_session_caches, login_succeeded, on_message, use_auth_session,
  policy_assignment_succeeded, revoke_policy_action_succeeded, permission_grant_succeeded,
  policy_change_succeeded, policy_rollback_succeeded, step, run,
}

pub record IsCoherent (s : AuthState) : Type 0 where
  pub no_profile :
      s.is_authenticated ≢ some true
      → (s.name ≡ none) × (s.email ≡ none) × (s.role ≡ none) × (s.permissions ≡ [])
  pub named : s.is_authenticated ≡ some true → (s.name ≢ none) × (s.email ≢ none)
  pub no_stale_permission : s.permissions_pending ≡ true → s.permissions ≡ []
  pub dated : s.is_authenticated ≡ some true → s.authenticated_at ≢ none
  pub undated : s.is_authenticated ≢ some true → s.authenticated_at ≡ none

pub initial-IsCoherent : IsCoherent initial
initial-IsCoherent = ground arith

pub step-IsCoherent : (e : Event) (t : Tab) → IsCoherent t.auth → IsCoherent (step e t).auth
unfolding step clear_my_account_session_caches login_succeeded on_message use_auth_session
    policy_assignment_succeeded revoke_policy_action_succeeded permission_grant_succeeded
    policy_change_succeeded policy_rollback_succeeded
step-IsCoherent (logged_in profile) t h = ground arith
step-IsCoherent session_cleared t h = ground arith
step-IsCoherent (pushed type) t h = ground arith
step-IsCoherent (query_settled q) t h = ground arith
step-IsCoherent (policy_assignment_changed user_email) t h = ground arith
step-IsCoherent (policy_action_revoked user_email) t h = ground arith
step-IsCoherent (permission_grant_changed user_email) t h = ground arith
step-IsCoherent policy_changed t h = ground arith
step-IsCoherent (policy_rolled_back policy_name) t h = ground arith
step-IsCoherent (elapsed ms) t h = h

run_keeps : (es : List Event) (t : Tab) → IsCoherent t.auth → IsCoherent (run es t).auth
unfolding run
run_keeps [] t h = h
run_keeps (e ∷ es) t h = run_keeps es (step e t) (step-IsCoherent e t h)

-- From a page load on, after any events in any order, the auth store is coherent: unless the user
-- is signed in, it holds no name, email, role, permission or sign-in time; a permission list that
-- awaits a refetch is empty; and a signed-in store has a name, an email and its sign-in time.
pub run-IsCoherent : (es : List Event) (now : ℕ) → IsCoherent (run es (loaded now)).auth
run-IsCoherent es now = run_keeps es (loaded now) initial-IsCoherent
