-- ===== src/Ui/Cooldown/Tests.antt =====
-- Runs of ui/hooks/useCooldown.ts, and the theorems about it at concrete inputs.
use mystic_auth.Prelude.{true, ◌≡◌, refl, ℕ_eq, List, [], ◌∷◌, arith, length, has}
use mystic_auth.Ui.Cooldown.{
  idle, start_cooldown, CooldownEvent, starts, second_passes, unmounts, cooldown_run,
}
use mystic_auth.Ui.Cooldown.Countdown.{cooldown_run-countdown, start_cooldown-lost, busy}

-- A countdown of two seconds that runs out, and another one after it.
abbrev two_countdowns : List CooldownEvent
two_countdowns =
    starts 2 ∷ second_passes ∷ second_passes ∷ second_passes ∷ starts 3 ∷ second_passes ∷ []

shows_two : (cooldown_run two_countdowns idle).cooldown ≡ 2
unfolding cooldown_run start_cooldown
shows_two = refl

cooldown_run-countdown_example :
    ((cooldown_run two_countdowns idle).cooldown ≡ 2)
    × (length (cooldown_run two_countdowns idle).running ≡ 1)
cooldown_run-countdown_example =
    cooldown_run-countdown two_countdowns
      ((omega arith, refl), (tt, (tt, (tt, ((omega arith, refl), (tt, tt))))))

-- Started twice, then run down to 0 and unmounted.
start_cooldown-lost_example :
    has
      (cooldown_run
        (second_passes ∷ second_passes ∷ unmounts ∷ [])
        (start_cooldown 2 (busy 0 5 1))).running
      0
    ≡ true
start_cooldown-lost_example =
    start_cooldown-lost 0 5 1 2 (second_passes ∷ second_passes ∷ unmounts ∷ []) (omega arith)
