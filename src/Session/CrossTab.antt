-- ===== src/Session/CrossTab.antt =====
-- frontend/src/mystic_auth/auth/session_lifecycle/crossTabRefresh.ts, for browsers with Web Locks:
-- the refresh of the session is serialised across tabs, and a tab that finds that another one has
-- rotated the tokens while it waited sends no request. localStorage is shared by the tabs; the item
-- is modelled as `readRotationResult` returns it, none where it is absent or unreadable.
pub mod Waiters
pub mod Sends
pub mod Lease
use mystic_auth.Prelude.{
  ℕ, ◌+◌, Bool, true, false, not, ◌&&◌, Option, none, some, ◌==◌, ℕ_eq, if◌then◌else◌,
}
use mystic_auth.Session.{Tab, RotationResult}
use mystic_auth.Session.Run.{M, ◌>>=◌, ◌>>◌, pure, get, modify}

abbrev pub epoch_or_zero : Option RotationResult → ℕ
epoch_or_zero none = 0
epoch_or_zero (some r) = r.epoch

-- What `publishRotationResult` writes, over the previous item.
unfoldable pub publish_rotation_result : Bool → Option RotationResult → Option RotationResult
publish_rotation_result success previous =
    some (record { epoch = epoch_or_zero previous + 1; success = success })

abbrev pub is_new_epoch : Option RotationResult → RotationResult → Bool
is_new_epoch none after = true
is_new_epoch (some before) after = not (after.epoch == before.epoch)

-- `before` and the item that is read now.
unfoldable pub rotation_completed_after : Option RotationResult → Option RotationResult → Bool
rotation_completed_after before none = false
rotation_completed_after before (some after) = is_new_epoch before after && after.success

-- `alreadyRotatedResponse`, or the answer of the refresh request; none where that was rejected.
pub data Rotated (R : Type 0) : Type 0 where
  already_rotated : Rotated R
  answered : R → Rotated R

module _ {R : Type 0} (locked : Tab → Tab) (request : M (Option R)) where
  abbrev pub publish : Bool → Tab → Tab
  publish success t = record t {
    rotation_result = publish_rotation_result success t.rotation_result;
  }

  abbrev pub publish_answer : Option R → M (Option (Rotated R))
  publish_answer (some r) = do modify (publish true); pure (some (answered r))
  publish_answer none = do modify (publish false); pure none

  -- The callback that runs under the exclusive lock.
  unfoldable pub refresh_under_lock : Option RotationResult → M (Option (Rotated R))
  unfolding rotation_completed_after publish_rotation_result
  refresh_under_lock before = do
    t ← get
    if rotation_completed_after before t.rotation_result
        then pure (some already_rotated)
        else do response ← request; publish_answer response

  -- `locked` is the wait for the lock.
  unfoldable pub run_cross_tab_refresh : M (Option (Rotated R))
  unfolding refresh_under_lock
  run_cross_tab_refresh = do t ← get; modify locked; refresh_under_lock t.rotation_result
