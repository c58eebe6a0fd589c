-- ===== src/Session/Guards/Windows.antt =====
-- How long the guard of sessionRotationGuard.ts stays up, with one or several tracked requests.
use mystic_auth.Prelude.{ℕ, ◌+◌, ◌≡◌, ◌≢◌, true, none, some, ltb, arith}
use mystic_auth.Session.Guards.{
  RotationGuard, track_session_rotating_request, rotating_request_settled,
  get_pending_session_rotation, was_session_recently_rotated,
}

-- While a tracked request is under way the guard is up; once it has settled, the guard is up for
-- exactly the next three seconds, and nothing is pending. A request that settles after another one
-- has been tracked leaves that one pending, and the guard up.
guard_window :
    (g : RotationGuard) (p q now settled ms : ℕ)
    → q ≢ p
    → let one = track_session_rotating_request p g in
      let two = track_session_rotating_request q one in
      let after_one = rotating_request_settled settled p one in
      let after_two = rotating_request_settled settled p two in
      (was_session_recently_rotated now one ≡ true)
      × (was_session_recently_rotated (settled + ms) after_one ≡ ltb ms 3000)
      × (get_pending_session_rotation after_one ≡ none)
      × (get_pending_session_rotation after_two ≡ some q)
      × (was_session_recently_rotated now after_two ≡ true)
unfolding track_session_rotating_request rotating_request_settled get_pending_session_rotation
    was_session_recently_rotated
guard_window g p q now settled ms other =
    (ground arith, ground arith, ground arith, ground arith, ground arith)
