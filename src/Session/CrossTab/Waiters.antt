-- ===== src/Session/CrossTab/Waiters.antt =====
-- Tabs that wait for the lock of crossTabRefresh.ts while another tab refreshes.
use mystic_auth.Prelude.{ap, ◌∙◌, ℕ, ◌≤◌, ◌≡◌, true, false, Option, none, some, arith}
use mystic_auth.Session.{Tab, RotationResult}
use mystic_auth.Session.Run.{ran, M, after, charge}
use mystic_auth.Session.CrossTab.{
  already_rotated, answered, publish, publish_answer, epoch_or_zero, rotation_completed_after,
  publish_rotation_result, refresh_under_lock,
}

-- What was read before a rotation that succeeded is older than what the rotation publishes.
completed_after-publish :
    (before now : Option RotationResult)
    → epoch_or_zero before ≤ epoch_or_zero now
    → rotation_completed_after before (publish_rotation_result true now) ≡ true
unfolding rotation_completed_after publish_rotation_result
completed_after-publish before now older = ground arith

not_completed_after-failure :
    (before now : Option RotationResult)
    → rotation_completed_after before (publish_rotation_result false now) ≡ false
unfolding rotation_completed_after publish_rotation_result
not_completed_after-failure before now = ground arith

module _ {R : Type 0} (locked : Tab → Tab) (request : M (Option R)) where
  refresh_under_lock_new :
      (before : Option RotationResult) (t : Tab)
      → rotation_completed_after before t.rotation_result ≡ false
      → refresh_under_lock locked request before t
        ≡ charge 0 (after (request t) (publish_answer locked request))
  unfolding refresh_under_lock
  refresh_under_lock_new before t e = rw e

  refresh_under_lock_done :
      (before : Option RotationResult) (t : Tab)
      → rotation_completed_after before t.rotation_result ≡ true
      → refresh_under_lock locked request before t ≡ ran (some already_rotated) t 0
  unfolding refresh_under_lock
  refresh_under_lock_done before t e = rw e

  -- A tab that holds the lock, finds no newer rotation and gets an answer to its refresh request
  -- hands that answer on and publishes it; then any tab that began to wait before that, on its turn
  -- in whatever state, finds the published item, sends no request, and is told that the rotation
  -- has been made.
  pub one_refresh_serves_waiters :
      (before waiting : Option RotationResult) (t u v : Tab) (r : R) (n : ℕ)
      → rotation_completed_after before t.rotation_result ≡ false
      → request t ≡ ran (some r) u n
      → epoch_or_zero waiting ≤ epoch_or_zero u.rotation_result
      → v.rotation_result ≡ (publish locked request true u).rotation_result
      → (refresh_under_lock locked request before t
          ≡ ran (some (answered r)) (publish locked request true u) n)
        × (refresh_under_lock locked request waiting v ≡ ran (some already_rotated) v 0)
  one_refresh_serves_waiters before waiting t u v r n fresh sent older shared = (
    refresh_under_lock_new before t fresh
        ∙ ap (λ a. charge 0 (after a (publish_answer locked request))) sent
        ∙ ap (ran (some (answered r)) (publish locked request true u)) (omega arith),
    refresh_under_lock_done waiting v (
        ap (rotation_completed_after waiting) shared
        ∙ completed_after-publish waiting u.rotation_result older),
  )

  -- Where the refresh request of the tab that holds the lock is rejected, the refresh fails there,
  -- and the next tab in line is not stopped by what it has published: it sends its own request.
  failed_refresh_passes_on :
      (before waiting : Option RotationResult) (t u v : Tab) (n : ℕ)
      → rotation_completed_after before t.rotation_result ≡ false
      → request t ≡ ran none u n
      → v.rotation_result ≡ (publish locked request false u).rotation_result
      → (refresh_under_lock locked request before t ≡ ran none (publish locked request false u) n)
        × (refresh_under_lock locked request waiting v
            ≡ charge 0 (after (request v) (publish_answer locked request)))
  failed_refresh_passes_on before waiting t u v n fresh sent shared = (
    refresh_under_lock_new before t fresh
        ∙ ap (λ a. charge 0 (after a (publish_answer locked request))) sent
        ∙ ap (ran none (publish locked request false u)) (omega arith),
    refresh_under_lock_new waiting v (
        ap (rotation_completed_after waiting) shared
        ∙ not_completed_after-failure waiting u.rotation_result),
  )
