-- ===== src/Ui/Toaster/Leaving.antt =====
-- Dismissed toasts of toasterInstance.ts leave the screen.
use mystic_auth.Prelude.{
  ℕ, true, false, ◌≡◌, refl, ap, if◌then◌else◌, ◌∙◌, List, [], ◌∷◌, map, ◌==◌, ℕ_eq, ==_iff, arith,
  All, Bool-cases, inl, inr, has, has-delete, delete,
}
use mystic_auth.Ui.Toaster.{
  AppToast, Toaster, empty_toaster, ToastEvent, all_dismissed, exit_timer_fired, leaving,
  clear_each, dismiss_all, exit_elapsed, toast_step, toast_run,
}
use mystic_auth.Ui.Toaster.Ids.{All-mono, All-filter_ids}
use mystic_auth.Ui.Toaster.Orderly.{Filed, toast_step-IsOrderly, toast_run-IsOrderly}

-- The toast's exit timer is pending, and is one of those that are going to fire.
abbrev Leaves : List ℕ → List ℕ → AppToast → Type 0
Leaves ex ids t = (has ex t.id ≡ true) × (has ids t.id ≡ true)

none_left : (ex : List ℕ) (ts : List AppToast) → All (Leaves ex []) ts → ts ≡ []
none_left ex [] h = refl
none_left ex (t ∷ ts) h = cc

Leaves-fired :
    (ex ids : List ℕ) (i : ℕ) (t : AppToast)
    → (t.id == i) ≡ false
    → Leaves ex (i ∷ ids) t
    → Leaves (delete ex i) ids t
Leaves-fired ex ids i t other h =
    ground (arith, has-delete ex i t.id, h.0, h.1, ==_iff i t.id, ==_iff t.id i)

Leaves-skipped :
    (ex ids : List ℕ) (i : ℕ) (t : AppToast)
    → has ex i ≡ false
    → Leaves ex (i ∷ ids) t
    → Leaves ex ids t
Leaves-skipped ex ids i t over h = (h.0, ground (arith, h.0, h.1, ==_iff i t.id))

step_pending :
    (i : ℕ) (s : Toaster)
    → has s.exit_timers i ≡ true
    → toast_step (exit_timer_fired i) s ≡ exit_elapsed i s
unfolding toast_step exit_elapsed
step_pending i s pending = ap (λ b. if b then exit_elapsed i s else s) pending

step_over :
    (i : ℕ) (s : Toaster) → has s.exit_timers i ≡ false → toast_step (exit_timer_fired i) s ≡ s
unfolding toast_step exit_elapsed
step_over i s over = ap (λ b. if b then exit_elapsed i s else s) over

fired-empties :
    (ids : List ℕ) (s : Toaster)
    → All (Leaves s.exit_timers ids) s.toasts
    → (toast_run (map exit_timer_fired ids) s).toasts ≡ []
unfolding toast_run exit_elapsed
fired-empties [] s h = none_left s.exit_timers s.toasts h
fired-empties (i ∷ ids) s h = elim (Bool-cases (has s.exit_timers i)) [
  | inl pending ↦
      ap (λ u. (toast_run (map exit_timer_fired ids) u).toasts) (step_pending i s pending)
      ∙ fired-empties ids (exit_elapsed i s) (
          All-filter_ids (Leaves s.exit_timers (i ∷ ids)) (Leaves (delete s.exit_timers i) ids) i
            (Leaves-fired s.exit_timers ids i) s.toasts h)
  | inr over ↦
      ap (λ u. (toast_run (map exit_timer_fired ids) u).toasts) (step_over i s over)
      ∙ fired-empties ids s (
          All-mono (Leaves s.exit_timers (i ∷ ids)) (Leaves s.exit_timers ids)
            (λ t k. Leaves-skipped s.exit_timers ids i t over k) s.toasts h)
]

Leaves-leaving :
    (n : ℕ) (ex : List ℕ) (ts : List AppToast)
    → All (Filed n ex) (map leaving ts)
    → All (Leaves ex ex) (map leaving ts)
Leaves-leaving n ex [] h = tt
Leaves-leaving n ex (t ∷ ts) h = ((h.0.1, h.0.1), Leaves-leaving n ex ts h.1)

-- From any state that the toaster can reach, `dismiss()` empties the screen: once the exit timers
-- that are then pending have fired, no toast is left.
pub all_dismissed-empties :
    (es : List ToastEvent)
    → let s = toast_step all_dismissed (toast_run es empty_toaster) in
      (toast_run (map exit_timer_fired s.exit_timers) s).toasts ≡ []
unfolding toast_step dismiss_all
all_dismissed-empties es =
    let t = toast_run es empty_toaster in
    let s = toast_step all_dismissed t in
    fired-empties s.exit_timers s (
      Leaves-leaving s.next_id s.exit_timers (clear_each t.timers t).toasts
        (toast_step-IsOrderly all_dismissed t (toast_run-IsOrderly es)).filed)
