-- ===== src/Session/Tests.antt =====
-- Examples for the events, the guards and the waiting tabs.
use mystic_auth.Prelude.{ℕ, ◌≡◌, refl, true, false, none, some, [], ◌∷◌, String_eq, ℕ_eq, arith}
use mystic_auth.Authorization.{one, can}
use mystic_auth.Session.AuthStore.{CurrentUserProfile}
use mystic_auth.Session.Guards.{was_self_permission_mutation_recent}
use mystic_auth.Session.{Tab, loaded}
use mystic_auth.Session.Run.{ran}
use mystic_auth.Session.CrossTab.{
  publish_rotation_result, rotation_completed_after, answered, already_rotated, refresh_under_lock,
}
use mystic_auth.Session.CrossTab.Waiters.{one_refresh_serves_waiters}
use mystic_auth.Session.Events.{
  logged_in, pushed, elapsed, on_message, policy_assignment_succeeded, step, run,
}
use mystic_auth.Session.Events.Coherence.{IsCoherent, run-IsCoherent}
use mystic_auth.Session.Events.FailClosed.{permissions_changed-refuses, self_echo-skipped_once}

abbrev refreshed : Tab
refreshed = record (loaded 7) { rotation_result = some (record { epoch = 1; success = true }) }

abbrev ann : CurrentUserProfile
ann = record {
  name = "Ann";
  email = "ann@example.org";
  role = some "admin";
  permissions = some ("users:read" ∷ "policies:assign" ∷ []);
  has_password = true;
  brand_color = none;
}

abbrev signed_in_tab : Tab
signed_in_tab = record (loaded 100) {
  auth = record {
    is_authenticated = some true;
    authenticated_at = some 100;
    name = some "Ann";
    email = some "ann@example.org";
    role = some "admin";
    permissions = "users:read" ∷ "policies:assign" ∷ [];
    permissions_pending = false;
    has_password = true;
  };
}

run-IsCoherent_example :
    IsCoherent
      (run (logged_in ann ∷ elapsed 60 ∷ pushed (some "permissions_changed") ∷ []) (loaded 40)).auth
run-IsCoherent_example =
    run-IsCoherent (logged_in ann ∷ elapsed 60 ∷ pushed (some "permissions_changed") ∷ []) 40

refused_example :
    can
      (run
        (elapsed 10 ∷ pushed none ∷ [])
        (on_message (some "permissions_changed") signed_in_tab)).auth
      (one "users:read")
    ≡ false
unfolding was_self_permission_mutation_recent
refused_example =
    permissions_changed-refuses signed_in_tab (elapsed 10 ∷ pushed none ∷ []) (one "users:read")
      refl (refl, (refl, tt))

self_echo_example :
    let echoed : Tab =
      on_message
        (some "permissions_changed")
        (step (elapsed 4999) (policy_assignment_succeeded "ann@example.org" signed_in_tab)) in
    (echoed.auth ≡ signed_in_tab.auth)
    × ((on_message (some "permissions_changed") (step (elapsed 1) echoed)).auth.permissions ≡ [])
self_echo_example = self_echo-skipped_once signed_in_tab "ann@example.org" 4999 1 refl (omega arith)

one_refresh_example :
    (refresh_under_lock {R = ℕ} (λ t. t) (λ t. ran (some 200) t 1) none (loaded 7)
      ≡ ran (some (answered 200)) refreshed 1)
    × (refresh_under_lock {R = ℕ} (λ t. t) (λ t. ran (some 200) t 1) none refreshed
        ≡ ran (some already_rotated) refreshed 0)
unfolding rotation_completed_after publish_rotation_result
one_refresh_example =
    one_refresh_serves_waiters (λ t. t) (λ t. ran (some 200) t 1) none none (loaded 7) (loaded 7)
      refreshed 200 1 refl refl (omega arith) refl

abbrev not_refreshed : Tab
not_refreshed = record (loaded 7) { rotation_result = some (record { epoch = 1; success = false }) }
