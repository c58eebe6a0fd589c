-- ===== src/Session/Events/FailClosed.antt =====
-- A pushed change of permissions fails closed, unless it is the echo of this tab's own change.
use mystic_auth.Prelude.{
  ℕ, ◌<◌, String, Bool, true, false, ◌≡◌, none, some, List, [], ◌∷◌, any, has, any-false, All,
  String_eq, arith,
}
use mystic_auth.Authorization.{Action, one, any_of, can}
use mystic_auth.Session.AuthStore.{AuthState}
use mystic_auth.Session.Guards.{was_self_permission_mutation_recent}
use mystic_auth.Session.{Tab}
use mystic_auth.Session.Events.{
  Event, logged_in, session_cleared, pushed, query_settled, policy_assignment_changed,
  policy_action_revoked, permission_grant_changed, policy_changed, policy_rolled_back, elapsed,
  loaded_profile, clear_my_account_session_caches, login_succeeded, on_message, use_auth_session,
  policy_assignment_succeeded, revoke_policy_action_succeeded, permission_grant_succeeded,
  policy_change_succeeded, policy_rollback_succeeded, is_own_account, step, run,
}

-- The event brings a fresh profile: a login, or a current-user query that succeeded.
abbrev pub brings_profile : Event → Bool
brings_profile (logged_in profile) = true
brings_profile (query_settled q) = elim (loaded_profile q) [ none ↦ false | some profile ↦ true ]
brings_profile _ = false

step-keeps-none :
    (e : Event) (t : Tab)
    → brings_profile e ≡ false
    → t.auth.permissions ≡ []
    → (step e t).auth.permissions ≡ []
unfolding step clear_my_account_session_caches login_succeeded on_message use_auth_session
    policy_assignment_succeeded revoke_policy_action_succeeded permission_grant_succeeded
    policy_change_succeeded policy_rollback_succeeded
step-keeps-none (logged_in profile) t b h = cc
step-keeps-none session_cleared t b h = ground arith
step-keeps-none (pushed type) t b h = ground arith
step-keeps-none (query_settled q) t b h = ground arith
step-keeps-none (policy_assignment_changed user_email) t b h = ground arith
step-keeps-none (policy_action_revoked user_email) t b h = ground arith
step-keeps-none (permission_grant_changed user_email) t b h = ground arith
step-keeps-none policy_changed t b h = h
step-keeps-none (policy_rolled_back policy_name) t b h = h
step-keeps-none (elapsed ms) t b h = h

run-keeps-none :
    (es : List Event) (t : Tab)
    → All (λ e. brings_profile e ≡ false) es
    → t.auth.permissions ≡ []
    → (run es t).auth.permissions ≡ []
unfolding run
run-keeps-none [] t b h = h
run-keeps-none (e ∷ es) t (b, bs) h = run-keeps-none es (step e t) bs (step-keeps-none e t b h)

any-has-nothing : (ks bs : List String) → ks ≡ [] → any (λ a. has ks a) bs ≡ false
any-has-nothing ks bs e = rw e (any-false bs)

can_nothing : (s : AuthState) (action : Action) → s.permissions ≡ [] → can s action ≡ false
unfolding can
can_nothing s (one action) h = rw h (ground arith)
can_nothing s (any_of actions) h = ground (arith, any-has-nothing s.permissions actions h)

on_message-drops :
    (t : Tab)
    → (was_self_permission_mutation_recent t.now t.last_self_mutation_at).0 ≡ false
    → (on_message (some "permissions_changed") t).auth.permissions ≡ []
unfolding on_message
on_message-drops t own = ground arith

-- Once the server pushes a permission change that this tab did not just cause, every permission
-- check is refused, and stays refused through any further events, until one brings a fresh profile.
pub permissions_changed-refuses :
    (t : Tab) (es : List Event) (action : Action)
    → (was_self_permission_mutation_recent t.now t.last_self_mutation_at).0 ≡ false
    → All (λ e. brings_profile e ≡ false) es
    → can (run es (on_message (some "permissions_changed") t)).auth action ≡ false
permissions_changed-refuses t es action own quiet =
    can_nothing _ action (run-keeps-none es _ quiet (on_message-drops t own))

-- After a change of one's own policies, the first pushed permission change within five seconds
-- leaves the profile and every permission as they are; a second one, with no own change between,
-- empties the list.
pub self_echo-skipped_once :
    (t : Tab) (user_email : String) (ms later : ℕ)
    → is_own_account t user_email ≡ true
    → ms < 5000
    → let echoed : Tab =
        on_message
          (some "permissions_changed")
          (step (elapsed ms) (policy_assignment_succeeded user_email t)) in
      (echoed.auth ≡ t.auth)
      × ((on_message (some "permissions_changed") (step (elapsed later) echoed)).auth.permissions
          ≡ [])
unfolding step on_message policy_assignment_succeeded
self_echo-skipped_once t user_email ms later own soon = (ground arith, ground arith)
