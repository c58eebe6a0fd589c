-- ===== src/Policies/Form/Tests.antt =====
-- Examples for the policy form.
use mystic_auth.Prelude.{
  ℕ, String, String_eq, true, false, ◌&&◌, ◌≡◌, ◌⊎◌, refl, Option, none, some, List, [], ◌∷◌, map,
  has, add,
}
use mystic_auth.Ui.Toaster.{empty_toaster}
use mystic_auth.Ui.Undo.{Screen, created_id, click}
use mystic_auth.Users.AccessRows.{PermissionCatalogEntry}
use mystic_auth.Policies.{PolicyRead}
use mystic_auth.Policies.PageHandlers.{PolicyUpdate, set_actions}
use mystic_auth.Policies.PageHandlers.Undone.{Stored, backend}
use mystic_auth.Policies.Form.{
  PolicyForm, to_close, closed_form, opened, render, is_dirty, change_actions, request_exit,
  handle_resource_type_change, valid_for_new_type, kept_actions, can_save, handle_submit,
  conditions_error, json_scalar,
}
use mystic_auth.Policies.Form.Unsaved.{render-request_exit, change_actions-request_exit}
use mystic_auth.Policies.Form.Actions.{
  actions_changed, InStep, actions_changed-InStep, handle_resource_type_change-Undoable,
}
use mystic_auth.Policies.Form.Options.{resource_type_options}

abbrev read_and_list : PolicyRead
read_and_list = record {
  id = 1;
  name = "support";
  description = none;
  actions = "users:read" ∷ "policies:read" ∷ [];
  resource_type = "*";
  is_active = true;
  created_by = none;
}

abbrev entry : String → String → PermissionCatalogEntry
entry action resource_type = record {
  action = action;
  resource_type = resource_type;
  description = none;
}

abbrev catalog : List PermissionCatalogEntry
catalog = entry "users:read" "users" ∷ entry "policies:read" "policies" ∷ []

abbrev editing : PolicyForm
editing = opened (some (record { policy = read_and_list; conditions = none })) closed_form

abbrev screen : Screen PolicyUpdate PolicyForm
screen = record { toaster = empty_toaster; undos = []; page = editing }

abbrev renamed : PolicyForm
renamed = record editing { values = record editing.values { name = "renamed" } }

abbrev stored : Stored
stored = record { actions_of = λ n. "users:read" ∷ "policies:read" ∷ []; is_active_of = λ n. true }

abbrev key_only : String → List (String × ℕ) → String
key_only key options = key

abbrev key_of : String → List (String × String) → String
key_of key options = key

rename_counts : is_dirty renamed ≡ true
unfolding is_dirty
rename_counts = refl

only_users :
    (handle_resource_type_change key_only catalog "users" screen).page.values.actions
    ≡ "users:read" ∷ []
unfolding handle_resource_type_change kept_actions valid_for_new_type add
only_users = refl

not_an_object :
    handle_submit key_only
      (λ s. s)
      (λ s. some json_scalar)
      (record editing {
        conditions_enabled = true;
        values = record editing.values { conditions_text = "1" };
      })
    ≡ (
      record editing {
        conditions_enabled = true;
        values = record editing.values { conditions_text = "1" };
      },
      none,
    )
unfolding handle_submit conditions_error
not_an_object = refl

savable : can_save key_only (λ s. s) (λ s. none) editing ≡ true
unfolding can_save conditions_error
savable = refl

all_types_first :
    map
      (λ o. o.value)
      (resource_type_options
        (λ k. k)
        (λ type all. type)
        (some catalog)
        (some (record { policy = read_and_list; conditions = none })))
    ≡ "*" ∷ "users" ∷ "policies" ∷ []
unfolding resource_type_options add
all_types_first = refl

fresh_form_closes :
    request_exit to_close (render true none closed_form)
    ≡ (render true none closed_form, some to_close)
fresh_form_closes = render-request_exit none closed_form to_close refl

change_actions-request_exit_example :
    let changed = change_actions ("users:read" ∷ []) renamed renamed in
    (is_dirty changed ≡ false) × (request_exit to_close changed ≡ (changed, some to_close))
change_actions-request_exit_example =
    change_actions-request_exit ("users:read" ∷ []) renamed to_close

-- A backend that rejects any request for an empty list of actions.
abbrev refusing : PolicyUpdate → Option String
refusing (set_actions name []) = some "A policy has an action."
refusing _ = none

actions_changed-InStep_example :
    let changed = actions_changed key_of (λ s. s) refusing read_and_list [] stored screen in
    InStep key_of (λ s. s) refusing read_and_list [] stored screen changed
    × InStep key_of
        (λ s. s)
        refusing
        read_and_list
        []
        stored
        screen
        (click (backend refusing) (created_id empty_toaster) changed)
actions_changed-InStep_example =
    actions_changed-InStep key_of (λ s. s) refusing read_and_list [] stored screen refl
      (record { filed = tt; timers_below = tt })

handle_resource_type_change-Undoable_example :
    let changed = handle_resource_type_change key_only catalog "users" screen in
    let undone = click (backend refusing) (created_id empty_toaster) (changed, stored) in
    ((a : String)
      → has changed.page.values.actions a
        ≡ (has screen.page.values.actions a && has (valid_for_new_type catalog "users") a))
    × ((changed.page.values.actions ≡ screen.page.values.actions)
        ⊎ ((undone.0.page.values ≡ screen.page.values) × (undone.1 ≡ stored)))
handle_resource_type_change-Undoable_example =
    handle_resource_type_change-Undoable key_only (backend refusing) catalog "users" screen stored
      (record { filed = tt; timers_below = tt })
