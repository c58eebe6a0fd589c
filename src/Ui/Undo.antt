-- ===== src/Ui/Undo.antt =====
-- A screen whose mutations report by toasts that may offer an Undo: the toaster of
-- frontend/src/mystic_auth/ui/toaster, the `onClick` closures of the offered actions as data, and
-- the state of the page. A mutation is in flight between its request and its outcome, and what
-- `onSuccess` and `onError` do is kept with it.
pub mod Shown
use mystic_auth.Prelude.{
  ℕ, String, Option, none, some, List, [], ◌∷◌, ◌==◌, ℕ_eq, lookup, Result, rejected, resolved,
  if◌then◌else◌,
}
use mystic_auth.Ui.Toaster.{
  Toaster, AppToast, ToastOptions, ToastType, error, Duration, ms, absent, given, find_toast,
  dismiss_each, create, update, dismiss, begin_action,
}

-- The `onClick` of a toast's action: what it does to the page at once, the request it sends if any, the
-- toast on success, and what it does to the page on an error, which is also shown.
pub record Undo (R S : Type 0) : Type 0 where
  pub first : S → S
  pub request : Option R
  pub done : ToastOptions
  pub failed : S → S

pub record Screen (R S : Type 0) : Type 0 where
  pub toaster : Toaster
  -- The closures of the actions offered so far, the latest first.
  pub undos : List (ℕ × Undo R S)
  pub page : S

-- A mutation that is in flight.
pub record Pending (R S : Type 0) : Type 0 where
  pub request : R
  pub on_success : Screen R S → Screen R S
  pub on_error : String → Screen R S → Screen R S

-- The id that `create` returns.
abbrev pub created_id : Toaster → ℕ
created_id s = (dismiss_each s.action_toast_ids s).next_id

-- `{ title, type }`
abbrev pub toast_of : String → ToastType → ToastOptions
toast_of title type_of = record {
  title = title;
  description = absent;
  type_of = some type_of;
  duration = absent;
  action = absent;
}

-- `{ ...options, action: { label, onClick } }`
abbrev pub with_undo : String → ToastOptions → ToastOptions
with_undo label options = record options { action = given label }

-- What a handler leaves: the screen, and the mutation in flight.
abbrev pub Handled : Type 0 → Type 0 → Type 0
Handled R S = Screen R S × Option (Pending R S)

module _ {R S : Type 0} where
  abbrev pub show : ToastOptions → Screen R S → Screen R S
  show options screen = record screen { toaster = create options screen.toaster }

  -- `toaster.create` with an action.
  abbrev pub show_with_undo : ToastOptions → Undo R S → Screen R S → Screen R S
  show_with_undo options undo screen = record screen {
    toaster = create options screen.toaster;
    undos = (created_id screen.toaster, undo) ∷ screen.undos;
  }

  -- `toaster.update` with an action.
  abbrev pub update_with_undo : ℕ → ToastOptions → Undo R S → Screen R S → Screen R S
  update_with_undo id options undo screen = record screen {
    toaster = update id options screen.toaster;
    undos = (id, undo) ∷ screen.undos;
  }

  abbrev pub hide : ℕ → Screen R S → Screen R S
  hide id screen = record screen { toaster = dismiss id screen.toaster }

  abbrev pub on_page : (S → S) → Screen R S → Screen R S
  on_page change screen = record screen { page = change screen.page }

  -- `toaster.create({ title: error.message, type: "error" })`
  abbrev pub show_error : String → Screen R S → Screen R S
  show_error message = show (toast_of message error)

  abbrev pub started_by : Undo R S → Option R → Option (Pending R S)
  started_by undo none = none
  started_by undo (some request) = some (record {
    request = request;
    on_success = show undo.done;
    on_error = λ message s. show_error message (on_page undo.failed s);
  })

  abbrev pub press_undo : ℕ → Undo R S → Screen R S → Handled R S
  press_undo id undo screen = (
    on_page undo.first (record screen { toaster = begin_action id screen.toaster }),
    started_by undo undo.request,
  )

  abbrev pub press : ℕ → Option (Undo R S) → Screen R S → Option (Handled R S)
  press id none screen = none
  press id (some undo) screen = some (press_undo id undo screen)

  abbrev pub offered : ℕ → Option String → Screen R S → Option (Undo R S)
  offered id none screen = none
  offered id (some label) screen = lookup id screen.undos

  abbrev pub click_found : Option AppToast → Screen R S → Option (Handled R S)
  click_found none screen = none
  click_found (some toast) screen = press toast.id (offered toast.id toast.action screen) screen

  -- A click on the action of the toast, if it is on screen and has one.
  unfoldable pub click_action : ℕ → Screen R S → Option (Handled R S)
  unfolding lookup begin_action create
  click_action id screen = click_found (find_toast id screen.toaster.toasts) screen

  abbrev pub settle : Pending R S → Result String Unit → Screen R S → Screen R S
  settle pending (resolved u) screen = pending.on_success screen
  settle pending (rejected message) screen = pending.on_error message screen

module _ {R S W : Type 0} (backend : R → W → Result String Unit × W) where
  -- The request of a mutation, and what the screen does with its outcome.
  abbrev pub send : Pending R S → Screen R S → W → Screen R S × W
  send pending started w =
      let outcome = backend pending.request w in (settle pending outcome.0 started, outcome.1)

  abbrev pub finish : Handled R S → W → Screen R S × W
  finish (screen, none) w = (screen, w)
  finish (screen, some pending) w = send pending screen w

  abbrev pub finish_click : Option (Handled R S) → Screen R S → W → Screen R S × W
  finish_click none screen w = (screen, w)
  finish_click (some handled) screen w = finish handled w

  -- A click on the action of a toast, to its end.
  abbrev pub click : ℕ → Screen R S × W → Screen R S × W
  click id (screen, w) = finish_click (click_action id screen) screen w
