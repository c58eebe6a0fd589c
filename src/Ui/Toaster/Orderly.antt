-- ===== src/Ui/Toaster/Orderly.antt =====
-- The toaster keeps its books: every toast has an id that has been given out, and a toast is on its
-- way out exactly when the timer that removes it is pending.
use mystic_auth.Prelude.{
  ℕ, ◌+◌, ◌<◌, Bool, true, false, ◌≡◌, ◌∙◌, Option, none, some, List, [], ◌∷◌, map, ◌==◌, ℕ_eq,
  arith, All, All-concat, Bool-cases, inl, inr, has, has-add, has-delete, has-add_all, add, delete,
  add_all, if◌then◌else◌,
}
use mystic_auth.Ui.Toaster.Ids.{
  All-map, All-mono, All-filter_ids, All-add, All-delete, has-below, Found, find_toast-Found,
  All-add_all, All-has,
}
use mystic_auth.Ui.Toaster.{
  AppToast, Toaster, empty_toaster, ToastOptions, ToastEvent, Duration, infinite, ms, find_toast,
  mark_exiting, replace, updated_toast, leaving, begin_exit, clear_timer, dismiss_toast,
  dismiss_each, clear_each, arm_auto_dismiss, create, update_found, update, begin_found,
  begin_action, dismiss_all, dismiss, exit_elapsed, created, action_begun, updated, all_dismissed,
  dismissed, timer_fired, exit_timer_fired, toast_step, toast_run,
}

-- All ids are below `n`, and a toast is exiting exactly when its exit timer is among `ex`.
abbrev pub Filed : ℕ → List ℕ → AppToast → Type 0
Filed n ex t = (t.id < n) × (has ex t.id ≡ t.exiting)

pub record IsOrderly (s : Toaster) : Type 0 where
  pub filed : All (Filed s.next_id s.exit_timers) s.toasts
  pub timers_below : All (λ i. i < s.next_id) s.exit_timers

module _ (n : ℕ) (ex : List ℕ) where
  Filed-mark_exiting :
      (id : ℕ) (t : AppToast) → Filed n ex t → Filed n (add ex id) (mark_exiting id t)
  Filed-mark_exiting id t h = ground (arith, has-add ex id t.id, h.0, h.1)

  Filed-replace :
      (id : ℕ) (options : ToastOptions) (existing t : AppToast)
      → Filed n ex existing
      → (existing.id == id) ≡ true
      → Filed n ex t
      → Filed n ex (replace id (updated_toast id options existing) t)
  Filed-replace id options existing t k same h = ground (arith, k.0, k.1, h.0, h.1)

  Filed-next : (t : AppToast) → Filed n ex t → Filed (n + 1) ex t
  Filed-next t h = (omega (arith, h.0), h.1)

  Filed-delete :
      (id : ℕ) (t : AppToast) → (t.id == id) ≡ false → Filed n ex t → Filed n (delete ex id) t
  Filed-delete id t other h = ground (arith, has-delete ex id t.id, h.0, h.1)

  Filed-leaving :
      (now : List ℕ) (ts : List AppToast)
      → All (Filed n ex) ts
      → All (λ i. has now i ≡ true) (map (λ t. t.id) ts)
      → All (Filed n now) (map leaving ts)
  Filed-leaving now [] h k = tt
  Filed-leaving now (t ∷ ts) h k = ((h.0.0, k.0), Filed-leaving now ts h.1 k.1)

  ids_below : (ts : List AppToast) → All (Filed n ex) ts → All (λ i. i < n) (map (λ t. t.id) ts)
  ids_below [] h = tt
  ids_below (t ∷ ts) h = (h.0.0, ids_below ts h.1)

clear_timer-IsOrderly : (id : ℕ) (s : Toaster) → IsOrderly s → IsOrderly (clear_timer id s)
unfolding clear_timer
clear_timer-IsOrderly id s h = record { filed = h.filed; timers_below = h.timers_below }

begin_exit-IsOrderly :
    (id : ℕ) (o : Option AppToast) (s : Toaster)
    → Found (Filed s.next_id s.exit_timers) id o
    → IsOrderly s
    → IsOrderly (begin_exit id o s)
begin_exit-IsOrderly id none s f h = h
begin_exit-IsOrderly id (some existing) s f h = elim (Bool-cases existing.exiting) [
  | inl leaves ↦ rw leaves h
  | inr stays ↦ rw stays (record {
    filed =
        All-map (Filed s.next_id s.exit_timers) (Filed s.next_id (add s.exit_timers id))
          (mark_exiting id) (Filed-mark_exiting s.next_id s.exit_timers id) s.toasts h.filed;
    timers_below =
        All-add (λ i. i < s.next_id) s.exit_timers id (ground (arith, f.0.0, f.1)) h.timers_below;
  })
]

dismiss_toast-IsOrderly : (id : ℕ) (s : Toaster) → IsOrderly s → IsOrderly (dismiss_toast id s)
unfolding dismiss_toast clear_timer
dismiss_toast-IsOrderly id s h =
    begin_exit-IsOrderly id (find_toast id s.toasts) (clear_timer id s)
      (find_toast-Found (Filed s.next_id s.exit_timers) id s.toasts h.filed)
      (clear_timer-IsOrderly id s h)

pub dismiss_each-IsOrderly :
    (ids : List ℕ) (s : Toaster) → IsOrderly s → IsOrderly (dismiss_each ids s)
dismiss_each-IsOrderly [] s h = h
dismiss_each-IsOrderly (id ∷ ids) s h =
    dismiss_each-IsOrderly ids (dismiss_toast id s) (dismiss_toast-IsOrderly id s h)

clear_each-IsOrderly : (ids : List ℕ) (s : Toaster) → IsOrderly s → IsOrderly (clear_each ids s)
clear_each-IsOrderly [] s h = h
clear_each-IsOrderly (id ∷ ids) s h =
    clear_each-IsOrderly ids (clear_timer id s) (clear_timer-IsOrderly id s h)

arm_auto_dismiss-IsOrderly :
    (id : ℕ) (d : Option Duration) (s : Toaster) → IsOrderly s → IsOrderly (arm_auto_dismiss id d s)
unfolding arm_auto_dismiss
arm_auto_dismiss-IsOrderly id none s h = record { filed = h.filed; timers_below = h.timers_below }
arm_auto_dismiss-IsOrderly id (some infinite) s h = h
arm_auto_dismiss-IsOrderly id (some (ms lifetime)) s h = record {
  filed = h.filed;
  timers_below = h.timers_below;
}

pub create-IsOrderly :
    (options : ToastOptions) (s : Toaster) → IsOrderly s → IsOrderly (create options s)
unfolding create
create-IsOrderly options s h =
    let d = dismiss_each s.action_toast_ids s in
    let k = dismiss_each-IsOrderly s.action_toast_ids s h in
    arm_auto_dismiss-IsOrderly _ _ _ (record {
      filed =
          All-concat (Filed (d.next_id + 1) d.exit_timers) d.toasts
            (All-mono (Filed d.next_id d.exit_timers) (Filed (d.next_id + 1) d.exit_timers)
              (Filed-next d.next_id d.exit_timers) d.toasts k.filed)
            (omega arith, has-below d.next_id d.exit_timers k.timers_below);
      timers_below =
          All-mono (λ i. i < d.next_id) (λ i. i < d.next_id + 1) (λ i l. omega arith) d.exit_timers
            k.timers_below;
    })

update_found-IsOrderly :
    (id : ℕ) (options : ToastOptions) (o : Option AppToast) (s : Toaster)
    → Found (Filed s.next_id s.exit_timers) id o
    → IsOrderly s
    → IsOrderly (update_found id options o s)
unfolding clear_timer
update_found-IsOrderly id options none s f h = h
update_found-IsOrderly id options (some existing) s f h = arm_auto_dismiss-IsOrderly _ _ _ (record {
  filed =
      All-map (Filed s.next_id s.exit_timers) (Filed s.next_id s.exit_timers)
        (replace id (updated_toast id options existing))
        (λ t k. Filed-replace s.next_id s.exit_timers id options existing t f.0 f.1 k) s.toasts
        h.filed;
  timers_below = h.timers_below;
})

pub update-IsOrderly :
    (id : ℕ) (options : ToastOptions) (s : Toaster) → IsOrderly s → IsOrderly (update id options s)
unfolding update
update-IsOrderly id options s h =
    update_found-IsOrderly id options (find_toast id s.toasts) s
      (find_toast-Found (Filed s.next_id s.exit_timers) id s.toasts h.filed) h

begin_found-IsOrderly :
    (id : ℕ) (o : Option AppToast) (s : Toaster) → IsOrderly s → IsOrderly (begin_found id o s)
begin_found-IsOrderly id none s h = h
begin_found-IsOrderly id (some existing) s h =
    update-IsOrderly id _ _ (record { filed = h.filed; timers_below = h.timers_below })

dismiss_all-IsOrderly : (s : Toaster) → IsOrderly s → IsOrderly (dismiss_all s)
unfolding dismiss_all
dismiss_all-IsOrderly s h =
    let c = clear_each s.timers s in
    let k = clear_each-IsOrderly s.timers s h in
    let ids = map (λ t. t.id) c.toasts in
    record {
      filed = Filed-leaving c.next_id c.exit_timers (add_all [] ids) c.toasts k.filed (
          All-mono (λ i. has ids i ≡ true) (λ i. has (add_all [] ids) i ≡ true)
            (λ i l. has-add_all [] ids i ∙ l) ids (All-has ids));
      timers_below =
          All-add_all (λ i. i < c.next_id) [] ids tt
            (ids_below c.next_id c.exit_timers c.toasts k.filed);
    }

exit_elapsed-IsOrderly : (id : ℕ) (s : Toaster) → IsOrderly s → IsOrderly (exit_elapsed id s)
unfolding exit_elapsed
exit_elapsed-IsOrderly id s h = record {
  filed =
      All-filter_ids (Filed s.next_id s.exit_timers) (Filed s.next_id (delete s.exit_timers id)) id
        (Filed-delete s.next_id s.exit_timers id) s.toasts h.filed;
  timers_below = All-delete (λ i. i < s.next_id) s.exit_timers id h.timers_below;
}

either-IsOrderly :
    (b : Bool) (s t : Toaster) → IsOrderly s → IsOrderly t → IsOrderly (if b then s else t)
either-IsOrderly true s t h k = h
either-IsOrderly false s t h k = k

pub toast_step-IsOrderly : (e : ToastEvent) (s : Toaster) → IsOrderly s → IsOrderly (toast_step e s)
unfolding toast_step begin_action dismiss
toast_step-IsOrderly (created options) s h = create-IsOrderly options s h
toast_step-IsOrderly (action_begun id) s h = begin_found-IsOrderly id (find_toast id s.toasts) s h
toast_step-IsOrderly (updated id options) s h = update-IsOrderly id options s h
toast_step-IsOrderly all_dismissed s h = dismiss_all-IsOrderly s h
toast_step-IsOrderly (dismissed id) s h =
    dismiss_toast-IsOrderly id (record s { action_toast_ids = delete s.action_toast_ids id })
      (record { filed = h.filed; timers_below = h.timers_below })
toast_step-IsOrderly (timer_fired id) s h =
    either-IsOrderly (has s.timers id) (dismiss_toast id s) s (dismiss_toast-IsOrderly id s h) h
toast_step-IsOrderly (exit_timer_fired id) s h =
    either-IsOrderly (has s.exit_timers id) (exit_elapsed id s) s (exit_elapsed-IsOrderly id s h) h

run_keeps : (es : List ToastEvent) (s : Toaster) → IsOrderly s → IsOrderly (toast_run es s)
unfolding toast_run
run_keeps [] s h = h
run_keeps (e ∷ es) s h = run_keeps es (toast_step e s) (toast_step-IsOrderly e s h)

-- After any calls on the toaster and any timers that fire, in any order: a toast is on its way out
-- exactly when the timer that will remove it is pending, so that none stays behind and none is
-- removed unasked; and every toast has an id that has been given out.
pub toast_run-IsOrderly : (es : List ToastEvent) → IsOrderly (toast_run es empty_toaster)
toast_run-IsOrderly es = run_keeps es empty_toaster (record { filed = tt; timers_below = tt })
