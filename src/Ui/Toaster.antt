-- ===== src/Ui/Toaster.antt =====
-- frontend/src/mystic_auth/ui/toaster/toasterInstance.ts: the toasts on screen and their timers, as
-- explicit state. A React node is a text, an action its label; a timer is known by its toast's id,
-- the key of the source's maps, and its length does not matter here. Listeners only render.
pub mod Ids
pub mod Orderly
pub mod Leaving
mod Tests
use mystic_auth.Prelude.{
  ℕ, ◌+◌, String, Bool, true, false, not, Option, none, some, get_or, List, [], ◌∷◌, ◌++◌, map,
  ◌==◌, ℕ_eq, ltb, length, filter, has, add, delete, add_all, if◌then◌else◌,
}

pub data ToastType : Type 0 where
  success error warning info loading : ToastType

-- `duration`: Infinity, or milliseconds; a negative number is as 0.
pub data Duration : Type 0 where
  infinite : Duration
  ms : ℕ → Duration

-- An optional property of an options object: absent, undefined, or a value.
pub data Given (A : Type 0) : Type 0 where
  absent : Given A
  undefined : Given A
  given : A → Given A

pub record ToastOptions : Type 0 where
  pub title : String
  pub description : Given String
  pub type_of : Option ToastType
  pub duration : Given Duration
  pub action : Given String

pub record AppToast : Type 0 where
  pub id : ℕ
  pub title : String
  pub description : Option String
  pub type_of : ToastType
  pub duration : Option Duration
  pub action : Option String
  pub exiting : Bool

pub record Toaster : Type 0 where
  pub next_id : ℕ
  pub toasts : List AppToast
  pub timers : List ℕ
  pub exit_timers : List ℕ
  pub action_toast_ids : List ℕ

abbrev pub empty_toaster : Toaster
empty_toaster = record {
  next_id = 1;
  toasts = [];
  timers = [];
  exit_timers = [];
  action_toast_ids = [];
}

-- One property of `{ ...existing, ...options }`.
abbrev pub over : {A : Type 0} → Option A → Given A → Option A
over old absent = old
over old undefined = none
over old (given a) = some a

-- `toasts.find((toast) => toast.id === id)`
abbrev pub find_toast : ℕ → List AppToast → Option AppToast
find_toast id [] = none
find_toast id (t ∷ ts) = if t.id == id then some t else find_toast id ts

unfoldable pub clear_timer : ℕ → Toaster → Toaster
clear_timer id s = record s { timers = if has s.timers id then delete s.timers id else s.timers }

abbrev pub mark_exiting : ℕ → AppToast → AppToast
mark_exiting id t = if t.id == id then record t { exiting = true } else t

abbrev pub begin_exit : ℕ → Option AppToast → Toaster → Toaster
begin_exit id none s = s
begin_exit id (some existing) s =
    if existing.exiting
    then s
    else record s { toasts = map (mark_exiting id) s.toasts; exit_timers = add s.exit_timers id }

unfoldable pub dismiss_toast : ℕ → Toaster → Toaster
unfolding clear_timer
dismiss_toast id s = begin_exit id (find_toast id s.toasts) (clear_timer id s)

abbrev pub arm : ℕ → ℕ → Toaster → Toaster
arm id lifetime s = record s { timers = if ltb 0 lifetime then add s.timers id else s.timers }

unfoldable pub arm_auto_dismiss : ℕ → Option Duration → Toaster → Toaster
arm_auto_dismiss id none s = arm id 5000 s
arm_auto_dismiss id (some infinite) s = s
arm_auto_dismiss id (some (ms lifetime)) s = arm id lifetime s

abbrev pub dismiss_each : List ℕ → Toaster → Toaster
dismiss_each [] s = s
dismiss_each (id ∷ ids) s = dismiss_each ids (dismiss_toast id s)

abbrev pub new_toast : ℕ → ToastOptions → AppToast
new_toast id options = record {
  id = id;
  title = options.title;
  description = over none options.description;
  type_of = get_or options.type_of success;
  duration = over none options.duration;
  action = over none options.action;
  exiting = false;
}

-- Toasts of started actions are dismissed first.
unfoldable pub create : ToastOptions → Toaster → Toaster
unfolding dismiss_toast arm_auto_dismiss
create options s =
    let dismissed = dismiss_each s.action_toast_ids s in
    let id = dismissed.next_id in
    let toast = new_toast id options in
    arm_auto_dismiss id toast.duration (record dismissed {
      action_toast_ids = [];
      next_id = id + 1;
      toasts = dismissed.toasts ++ toast ∷ [];
    })

abbrev pub updated_toast : ℕ → ToastOptions → AppToast → AppToast
updated_toast id options existing = record existing {
  id = id;
  title = options.title;
  description = over existing.description options.description;
  type_of = get_or options.type_of success;
  duration = over existing.duration options.duration;
  action = over existing.action options.action;
}

abbrev pub replace : ℕ → AppToast → AppToast → AppToast
replace id updated t = if t.id == id then updated else t

abbrev pub update_found : ℕ → ToastOptions → Option AppToast → Toaster → Toaster
update_found id options none s = s
update_found id options (some existing) s =
    let cleared = clear_timer id s in
    let updated = updated_toast id options existing in
    arm_auto_dismiss id updated.duration
      (record cleared { toasts = map (replace id updated) cleared.toasts })

unfoldable pub update : ℕ → ToastOptions → Toaster → Toaster
unfolding clear_timer arm_auto_dismiss
update id options s = update_found id options (find_toast id s.toasts) s

abbrev pub given_or_undefined : {A : Type 0} → Option A → Given A
given_or_undefined none = undefined
given_or_undefined (some a) = given a

abbrev pub begin_found : ℕ → Option AppToast → Toaster → Toaster
begin_found id none s = s
begin_found id (some existing) s =
    update id
      (record {
        title = existing.title;
        description = given_or_undefined existing.description;
        type_of = some loading;
        duration = given (ms 15000);
        action = undefined;
      })
      (record s { action_toast_ids = add s.action_toast_ids id })

unfoldable pub begin_action : ℕ → Toaster → Toaster
unfolding update
begin_action id s = begin_found id (find_toast id s.toasts) s

abbrev pub clear_each : List ℕ → Toaster → Toaster
clear_each [] s = s
clear_each (id ∷ ids) s = clear_each ids (clear_timer id s)

abbrev pub leaving : AppToast → AppToast
leaving t = record t { exiting = true }

-- `dismiss()`
unfoldable pub dismiss_all : Toaster → Toaster
unfolding clear_timer
dismiss_all s =
    let cleared = clear_each s.timers s in
    record cleared {
      toasts = map leaving cleared.toasts;
      exit_timers = add_all [] (map (λ t. t.id) cleared.toasts);
    }

-- `dismiss(id)`
unfoldable pub dismiss : ℕ → Toaster → Toaster
unfolding dismiss_toast
dismiss id s = dismiss_toast id (record s { action_toast_ids = delete s.action_toast_ids id })

-- The callback of an exit timer.
unfoldable pub exit_elapsed : ℕ → Toaster → Toaster
exit_elapsed id s = record s {
  exit_timers = delete s.exit_timers id;
  toasts = filter (λ t. not (t.id == id)) s.toasts;
}

pub data ToastEvent : Type 0 where
  created : ToastOptions → ToastEvent
  action_begun : ℕ → ToastEvent
  updated : ℕ → ToastOptions → ToastEvent
  all_dismissed : ToastEvent
  dismissed : ℕ → ToastEvent
  -- A pending timer of a toast fires.
  timer_fired : ℕ → ToastEvent
  exit_timer_fired : ℕ → ToastEvent

unfoldable pub toast_step : ToastEvent → Toaster → Toaster
unfolding create begin_action update dismiss_all dismiss dismiss_toast exit_elapsed
toast_step (created options) s = create options s
toast_step (action_begun id) s = begin_action id s
toast_step (updated id options) s = update id options s
toast_step all_dismissed s = dismiss_all s
toast_step (dismissed id) s = dismiss id s
toast_step (timer_fired id) s = if has s.timers id then dismiss_toast id s else s
toast_step (exit_timer_fired id) s = if has s.exit_timers id then exit_elapsed id s else s

unfoldable pub toast_run : List ToastEvent → Toaster → Toaster
toast_run [] s = s
toast_run (e ∷ es) s = toast_run es (toast_step e s)
