-- ===== src/Session/Mutations/Revocations.antt =====
-- What revoking several sessions reports (active_sessions/useRevokeSessionMutation.ts).
use mystic_auth.Prelude.{Result, rejected, resolved}
use mystic_auth.Api.{Failure}
use mystic_auth.Session.Mutations.{Service, RevokeStatus, success, error}

module _ {Params Payload Reply : Type 0} (service : Service Params Payload Reply) where
  -- The status that reports an outcome.
  abbrev pub status_of : Result (Failure Params) Reply → RevokeStatus
  status_of (resolved reply) = success
  status_of (rejected failure) = error
