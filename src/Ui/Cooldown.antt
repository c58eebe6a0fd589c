-- ===== src/Ui/Cooldown.antt =====
-- frontend/src/mystic_auth/ui/hooks/useCooldown.ts. An interval is a number; the intervals that the
-- browser still runs are part of the state, and each of them fires once a second.
pub mod Countdown
mod Tests
use mystic_auth.Prelude.{
  ℕ, suc, ◌-◌, Bool, Option, none, some, List, [], ◌∷◌, ◌++◌, ◌==◌, ℕ_eq, leb, has, delete,
  for_each, if◌then◌else◌,
}

pub record Cooldown : Type 0 where
  pub cooldown : ℕ
  pub interval_ref : Option ℕ
  pub running : List ℕ
  pub next_interval : ℕ

abbrev pub idle : Cooldown
idle = record { cooldown = 0; interval_ref = none; running = []; next_interval = 0 }

-- `if (intervalRef.current !== null) clearInterval(intervalRef.current)`
abbrev pub cleared : Option ℕ → List ℕ → List ℕ
cleared none running = running
cleared (some id) running = delete running id

-- `setInterval` in `start`.
unfoldable pub start_cooldown : ℕ → Cooldown → Cooldown
start_cooldown seconds c = record c {
  cooldown = seconds;
  interval_ref = some c.next_interval;
  running = c.running ++ c.next_interval ∷ [];
  next_interval = suc c.next_interval;
}

-- The callback of an interval; one that has been cleared does not fire.
unfoldable pub fire : ℕ → Cooldown → Cooldown
unfolding delete
fire id c =
    let over = record c {
      cooldown = 0;
      interval_ref = none;
      running = cleared c.interval_ref c.running;
    } in
    let less = record c { cooldown = c.cooldown - 1 } in
    if has c.running id then (if leb c.cooldown 1 then over else less) else c

-- A second passes: every running interval fires.
unfoldable pub second : Cooldown → Cooldown
unfolding fire
second c = for_each fire c.running c

-- The clean-up of the effect.
unfoldable pub unmount : Cooldown → Cooldown
unfolding delete
unmount c = record c { running = cleared c.interval_ref c.running }

pub data CooldownEvent : Type 0 where
  starts : ℕ → CooldownEvent
  second_passes unmounts : CooldownEvent

unfoldable pub cooldown_step : CooldownEvent → Cooldown → Cooldown
unfolding start_cooldown second unmount
cooldown_step (starts seconds) c = start_cooldown seconds c
cooldown_step second_passes c = second c
cooldown_step unmounts c = unmount c

unfoldable pub cooldown_run : List CooldownEvent → Cooldown → Cooldown
unfolding cooldown_step
cooldown_run es c = for_each cooldown_step es c
