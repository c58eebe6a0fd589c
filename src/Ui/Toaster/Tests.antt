-- ===== src/Ui/Toaster/Tests.antt =====
-- Examples for the toaster.
use mystic_auth.Prelude.{◌≡◌, refl, none, some, List, [], ◌∷◌, ◌++◌, map, add, delete}
use mystic_auth.Ui.Toaster.{
  ToastOptions, ToastEvent, absent, given, infinite, error, empty_toaster, created, action_begun,
  exit_timer_fired, all_dismissed, toast_step, toast_run, create, begin_action, update,
  arm_auto_dismiss, clear_timer, dismiss_toast, exit_elapsed,
}
use mystic_auth.Ui.Toaster.Orderly.{IsOrderly, toast_run-IsOrderly}
use mystic_auth.Ui.Toaster.Leaving.{all_dismissed-empties}

abbrev saved : ToastOptions
saved = record {
  title = "Saved";
  description = absent;
  type_of = none;
  duration = absent;
  action = given "Undo";
}

abbrev failed : ToastOptions
failed = record {
  title = "Failed";
  description = given "No answer";
  type_of = some error;
  duration = given infinite;
  action = absent;
}

-- A toast, its action, a second toast that dismisses it, and the first one's exit.
abbrev events : List ToastEvent
events = created saved ∷ action_begun 1 ∷ created failed ∷ []

first_leaves : (toast_run events empty_toaster).exit_timers ≡ 1 ∷ []
unfolding toast_run toast_step create begin_action update arm_auto_dismiss clear_timer dismiss_toast
    add delete
first_leaves = refl

second_stays :
    map (λ t. t.id) (toast_run (events ++ exit_timer_fired 1 ∷ []) empty_toaster).toasts ≡ 2 ∷ []
unfolding toast_run toast_step create begin_action update arm_auto_dismiss clear_timer dismiss_toast
    add delete exit_elapsed
second_stays = refl

toast_run-IsOrderly_example : IsOrderly (toast_run events empty_toaster)
toast_run-IsOrderly_example = toast_run-IsOrderly events

all_dismissed_example :
    let s = toast_step all_dismissed (toast_run events empty_toaster) in
    (toast_run (map exit_timer_fired s.exit_timers) s).toasts ≡ []
all_dismissed_example = all_dismissed-empties events
