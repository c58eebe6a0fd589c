-- ===== src/Ui/Cooldown/Countdown.antt =====
-- The hook as a countdown, and what a start during a countdown leaves behind.
use mathlib.Core.Path.{subst}
use mystic_auth.Prelude.{
  ℕ, zero, suc, ◌-◌, ◌≤◌, ◌<◌, true, ◌≡◌, ◌≢◌, refl, ap, Option, none, some, List, [], ◌∷◌, ◌∙◌,
  if◌then◌else◌, length, ℕ_eq, ==_iff, ==_refl, leb, has, has-append, has-delete, delete, for_each,
  arith,
}
use mystic_auth.Ui.Cooldown.{
  Cooldown, idle, cleared, start_cooldown, fire, second, unmount, CooldownEvent, starts,
  second_passes, unmounts, cooldown_step, cooldown_run,
}

-- The abstract countdown: a number of seconds left.
abbrev pub counted : CooldownEvent → ℕ → ℕ
counted (starts seconds) left = seconds
counted second_passes left = left - 1
counted unmounts left = left

abbrev pub countdown : List CooldownEvent → ℕ → ℕ
countdown es left = for_each counted es left

-- A countdown is started for a second at least, and only when none is running, as the forms do that
-- disable their button; the component stays mounted.
abbrev pub MayHappen : CooldownEvent → ℕ → Type 0
MayHappen (starts seconds) left = (1 ≤ seconds) × (left ≡ 0)
MayHappen second_passes left = Unit
MayHappen unmounts left = ⊥

abbrev pub Disciplined : List CooldownEvent → ℕ → Type 0
Disciplined [] left = Unit
Disciplined (e ∷ es) left = MayHappen e left × Disciplined es (counted e left)

-- The states that show a countdown: no interval at 0, and otherwise the one in the reference.
abbrev idle_at : ℕ → Cooldown
idle_at next = record { cooldown = 0; interval_ref = none; running = []; next_interval = next }

abbrev pub busy : ℕ → ℕ → ℕ → Cooldown
busy id left next = record {
  cooldown = left;
  interval_ref = some id;
  running = id ∷ [];
  next_interval = next;
}

abbrev Shows : Cooldown → ℕ → Type 0
Shows c zero = (next : ℕ) × (c ≡ idle_at next)
Shows c (suc n) = (id : ℕ) × (next : ℕ) × (c ≡ busy id (suc n) next)

second_last : (id next : ℕ) → second (busy id 1 next) ≡ idle_at next
unfolding second fire delete
second_last id next = rw (==_refl id) refl

second_less : (id k next : ℕ) → second (busy id (suc (suc k)) next) ≡ busy id (suc k) next
unfolding second fire
second_less id k next = ground (arith, ==_refl id)

second-Shows : (c : Cooldown) (left : ℕ) → Shows c left → Shows (second c) (left - 1)
second-Shows c zero (next, e) = (next, ap second e ∙ unfold second in refl)
second-Shows c (suc zero) (id, next, e) = (next, ap second e ∙ second_last id next)
second-Shows c (suc (suc k)) (id, next, e) =
    let one_less : suc k ≡ suc (suc k) - 1 = omega arith in
    subst (Shows (second c)) one_less (id, next, ap second e ∙ second_less id k next)

start-Shows :
    (c : Cooldown) (seconds : ℕ)
    → 1 ≤ seconds
    → Shows c 0
    → Shows (start_cooldown seconds c) seconds
unfolding start_cooldown
start-Shows c zero h s = absurd (omega arith)
start-Shows c (suc n) h (next, e) = (next, suc next, ap (start_cooldown (suc n)) e)

step-Shows :
    (e : CooldownEvent) (c : Cooldown) (left : ℕ)
    → MayHappen e left
    → Shows c left
    → Shows (cooldown_step e c) (counted e left)
unfolding cooldown_step
step-Shows (starts seconds) c left (h, z) s = start-Shows c seconds h (subst (Shows c) z s)
step-Shows second_passes c left h s = second-Shows c left s
step-Shows unmounts c left h s = absurd h

shown_cooldown : (c : Cooldown) (left : ℕ) → Shows c left → c.cooldown ≡ left
shown_cooldown c zero (next, e) = ap (λ d. d.cooldown) e
shown_cooldown c (suc n) (id, next, e) = ap (λ d. d.cooldown) e

shown_running :
    (c : Cooldown) (left : ℕ) → Shows c left → length c.running ≡ (if leb left 0 then 0 else 1)
shown_running c zero (next, e) = ap (λ d. length d.running) e
shown_running c (suc n) (id, next, e) = ap (λ d. length d.running) e ∙ ground arith

run-Shows :
    (es : List CooldownEvent) (c : Cooldown) (left : ℕ)
    → Disciplined es left
    → Shows c left
    → Shows (for_each cooldown_step es c) (countdown es left)
run-Shows [] c left d s = s
run-Shows (e ∷ es) c left (h, d) s =
    run-Shows es (cooldown_step e c) (counted e left) d (step-Shows e c left h s)

-- As long as a countdown is started for a second at least, only when none is running, and the
-- component stays mounted, the hook is the abstract countdown: it shows the seconds left, one less
-- each second down to 0, and runs one interval until then and none afterwards.
pub cooldown_run-countdown :
    (es : List CooldownEvent)
    → Disciplined es 0
    → ((cooldown_run es idle).cooldown ≡ countdown es 0)
      × (length (cooldown_run es idle).running ≡ (if leb (countdown es 0) 0 then 0 else 1))
unfolding cooldown_run
cooldown_run-countdown es d =
    let s = run-Shows es idle 0 d (0, refl) in
    (shown_cooldown _ (countdown es 0) s, shown_running _ (countdown es 0) s)

-- An interval that runs outside the reference, given out before.
record IsLost (id : ℕ) (c : Cooldown) : Type 0 where
  still_running : has c.running id ≡ true
  not_in_ref : c.interval_ref ≢ some id
  given_out : id < c.next_interval

cleared-keeps :
    (id : ℕ) (ref : Option ℕ) (running : List ℕ)
    → ref ≢ some id
    → has running id ≡ true
    → has (cleared ref running) id ≡ true
cleared-keeps id none running n h = h
cleared-keeps id (some r) running n h = ground (arith, has-delete running r id, ==_iff r id, n)

fire-IsLost : (id i : ℕ) (c : Cooldown) → IsLost id c → IsLost id (fire i c)
unfolding fire
fire-IsLost id i c l =
    ground (arith, cleared-keeps id c.interval_ref c.running l.not_in_ref l.still_running)

fires-IsLost : (id : ℕ) (is : List ℕ) (c : Cooldown) → IsLost id c → IsLost id (for_each fire is c)
fires-IsLost id [] c l = l
fires-IsLost id (i ∷ is) c l = fires-IsLost id is (fire i c) (fire-IsLost id i c l)

step-IsLost :
    (id : ℕ) (e : CooldownEvent) (c : Cooldown) → IsLost id c → IsLost id (cooldown_step e c)
unfolding cooldown_step start_cooldown second unmount
step-IsLost id (starts seconds) c l = ground (arith, has-append c.running (c.next_interval ∷ []) id)
step-IsLost id second_passes c l = fires-IsLost id c.running c l
step-IsLost id unmounts c l =
    ground (arith, cleared-keeps id c.interval_ref c.running l.not_in_ref l.still_running)

run-IsLost :
    (id : ℕ) (es : List CooldownEvent) (c : Cooldown)
    → IsLost id c
    → has (for_each cooldown_step es c).running id ≡ true
run-IsLost id [] c l = l.still_running
run-IsLost id (e ∷ es) c l = run-IsLost id es (cooldown_step e c) (step-IsLost id e c l)

-- A start while a countdown is running loses its interval: whatever happens afterwards, the end of
-- the new countdown, later starts and the unmount of the component included, it is never cleared.
pub start_cooldown-lost :
    (id left next seconds : ℕ) (es : List CooldownEvent)
    → id < next
    → has (cooldown_run es (start_cooldown seconds (busy id left next))).running id ≡ true
unfolding cooldown_run start_cooldown
start_cooldown-lost id left next seconds es h = run-IsLost id es _ (record {
  still_running = ground (arith, ==_refl id);
  not_in_ref = λ e. ground (arith, e);
  given_out = omega arith;
})
