-- ===== src/Session/Guards.antt =====
-- frontend/src/mystic_auth/auth/session_lifecycle/sessionRotationGuard.ts and
-- selfPermissionMutationGuard.ts, on their module-level variables. A tracked promise is a number.
-- `-` on ℕ stops at 0, where the source's difference is negative: both are below the windows.
pub mod Windows
use mystic_auth.Prelude.{
  ℕ, ◌-◌, Bool, true, false, Option, none, some, ◌==◌, ℕ_eq, ltb, if◌then◌else◌,
}

abbrev pub recently_rotated_grace_ms : ℕ
recently_rotated_grace_ms = 3000

abbrev pub recent_self_mutation_window_ms : ℕ
recent_self_mutation_window_ms = 5000

pub record RotationGuard : Type 0 where
  pub pending_rotation : Option ℕ
  pub rotation_settled_at : Option ℕ

abbrev pub is_promise : Option ℕ → ℕ → Bool
is_promise none tracked = false
is_promise (some p) tracked = p == tracked

-- The synchronous part of `trackSessionRotatingRequest`.
unfoldable pub track_session_rotating_request : ℕ → RotationGuard → RotationGuard
track_session_rotating_request tracked g = record g { pending_rotation = some tracked }

-- Its `finally`, when the tracked request has settled.
unfoldable pub rotating_request_settled : ℕ → ℕ → RotationGuard → RotationGuard
rotating_request_settled now tracked g = record g {
  pending_rotation = if is_promise g.pending_rotation tracked then none else g.pending_rotation;
  rotation_settled_at = some now;
}

unfoldable pub get_pending_session_rotation : RotationGuard → Option ℕ
get_pending_session_rotation g = g.pending_rotation

abbrev pub within_grace : ℕ → Option ℕ → Bool
within_grace now none = false
within_grace now (some settled) = ltb (now - settled) recently_rotated_grace_ms

unfoldable pub was_session_recently_rotated : ℕ → RotationGuard → Bool
was_session_recently_rotated now g = elim g.pending_rotation [
  | some p ↦ true
  | none ↦ within_grace now g.rotation_settled_at
]

unfoldable pub mark_self_permission_mutation : ℕ → Option ℕ → Option ℕ
mark_self_permission_mutation now last = some now

-- The answer, and the flag after it: the first check consumes the flag.
unfoldable pub was_self_permission_mutation_recent : ℕ → Option ℕ → Bool × Option ℕ
was_self_permission_mutation_recent now none = (false, none)
was_self_permission_mutation_recent now (some last) =
    (ltb (now - last) recent_self_mutation_window_ms, none)
