-- ===== src/Session/CrossTab/Lease.antt =====
-- The lease in localStorage that crossTabRefresh.ts falls back to without Web Locks: several tabs,
-- known by numbers, on one item. Between two steps of a tab any other tab may take steps.
pub mod Exclusion
mod Tests
use mystic_auth.Prelude.{
  ℕ, ◌+◌, ◌≤◌, ◌<◌, Bool, true, false, not, ◌&&◌, Option, none, some, ◌==◌, ℕ_eq, ◌≡◌, ltb,
  if◌then◌else◌,
}

abbrev pub lease_ms : ℕ
lease_ms = 15000

pub record Lease : Type 0 where
  pub owner : ℕ
  pub expires_at : ℕ

-- What a tab is doing: nothing, between its read of a lease that it may take and its write, between
-- its write and the read that checks it, or sending the request.
pub data Phase : Type 0 where
  idle may_write written holding : Phase

pub record Tabs : Type 0 where
  pub lease : Option Lease
  pub now : ℕ
  pub phase_of : ℕ → Phase

-- `readLease()?.owner === tab`
abbrev pub is_owner : ℕ → Option Lease → Bool
is_owner tab none = false
is_owner tab (some l) = l.owner == tab

-- `existing.expiresAt > Date.now()`
abbrev pub is_unexpired : ℕ → Option Lease → Bool
is_unexpired now none = false
is_unexpired now (some l) = ltb now l.expires_at

-- The test of `refreshWithStorageLease` that lets a tab go on to its write.
unfoldable pub may_take : ℕ → ℕ → Option Lease → Bool
may_take tab now none = true
may_take tab now (some l) = not (not (l.owner == tab) && is_unexpired now (some l))

abbrev pub set_phase : ℕ → Phase → Tabs → Tabs
set_phase tab phase s = record s { phase_of = λ i. if i == tab then phase else s.phase_of i }

-- The first half of `writeLease`.
abbrev pub put_lease : ℕ → Tabs → Tabs
put_lease tab s = record s { lease = some (record { owner = tab; expires_at = s.now + lease_ms }) }

unfoldable pub read_lease : ℕ → Tabs → Tabs
unfolding may_take
read_lease tab s = if may_take tab s.now s.lease then set_phase tab may_write s else s

unfoldable pub write_lease : ℕ → Tabs → Tabs
write_lease tab s = set_phase tab written (put_lease tab s)

-- The second half of `writeLease`: the item is read back.
unfoldable pub verify_lease : ℕ → Tabs → Tabs
verify_lease tab s = set_phase tab (if is_owner tab s.lease then holding else idle) s

unfoldable pub heartbeat : ℕ → Tabs → Tabs
heartbeat tab s = if is_owner tab s.lease then put_lease tab s else s

unfoldable pub release_lease : ℕ → Tabs → Tabs
release_lease tab s =
    set_phase tab idle (record s { lease = if is_owner tab s.lease then none else s.lease })

-- A tab that reads, writes and checks without another tab's step in between.
unfoldable pub acquire : ℕ → Tabs → Tabs
unfolding read_lease write_lease verify_lease
acquire tab s =
    if may_take tab s.now s.lease then verify_lease tab (write_lease tab (read_lease tab s)) else s

abbrev pub no_tabs : ℕ → Tabs
no_tabs now = record { lease = none; now = now; phase_of = λ i. idle }

-- The steps of the tabs when each acquires in one step, and when the heartbeat of a tab that holds
-- the lease comes before it expires.
pub data LeaseStep : Tabs → Tabs → Type 0 where
  acquires : (tab : ℕ) (s : Tabs) → LeaseStep s (acquire tab s)
  beats : (tab : ℕ) (s : Tabs) → s.phase_of tab ≡ holding → LeaseStep s (heartbeat tab s)
  releases : (tab : ℕ) (s : Tabs) → s.phase_of tab ≡ holding → LeaseStep s (release_lease tab s)
  passes :
      (time : ℕ) (s : Tabs)
      → ((tab : ℕ) → s.phase_of tab ≡ holding → is_unexpired (s.now + time) s.lease ≡ true)
      → LeaseStep s (record s { now = s.now + time })

-- What is reached from `s`.
pub data Reached (s : Tabs) : Tabs → Type 0 where
  start : Reached s s
  then_step : (u v : Tabs) → Reached s u → LeaseStep u v → Reached s v
