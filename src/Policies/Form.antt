-- ===== src/Policies/Form.antt =====
-- frontend/src/mystic_auth/policies/dialogs/usePolicyFormState.ts: the state of the form and its
-- handlers. The translations, `trim`, the JSON parser, the formatting of labels and what the caller
-- may do are parameters; conditions are the text that JSON.stringify prints of them. The snapshot,
-- a JSON text in the source, is the list of values that it prints, which determines it.
pub mod Unsaved
pub mod Actions
pub mod Options
mod Tests
use mystic_auth.Prelude.{
  ℕ, ◌-◌, String, Bool, true, false, not, ◌&&◌, ◌||◌, Option, none, some, get_or, List, [], ◌∷◌,
  ◌++◌, map, ◌==◌, String_eq, ℕ_eq, ltb, length, filter, has, add_all, add, if◌then◌else◌,
}
use mystic_auth.Authorization.{Action, can_grant_action, is_destructive_action}
use mystic_auth.Ui.Toaster.{ToastOptions, info, ms, given}
use mystic_auth.Ui.Undo.{Undo, Screen, with_undo, toast_of, show_with_undo, on_page}
use mystic_auth.Users.AccessRows.{PermissionCatalogEntry}
use mystic_auth.Policies.{PolicyRead}
use mystic_auth.Policies.PageHandlers.{PolicyUpdate}

abbrev pub all_resource_types_value : String
all_resource_types_value = "*"

pub data FormTab : Type 0 where
  basics actions_tab : FormTab

-- The exits that ask for unsaved changes.
pub data Exit : Type 0 where
  to_close to_details : Exit

pub record Snapshot : Type 0 where
  pub name : String
  pub description : String
  pub actions : List String
  pub resource_type : String
  pub conditions_text : String

pub record PolicyForm : Type 0 where
  pub tab : FormTab
  pub values : Snapshot
  pub conditions_enabled : Bool
  -- none is the empty text, before the first opening.
  pub initial_snapshot : Option Snapshot
  pub prev_is_open : Bool
  pub show_discard_confirm : Bool
  pub pending_exit : Option Exit

-- `policy`, with its conditions as a text.
pub record EditedPolicy : Type 0 where
  pub policy : PolicyRead
  pub conditions : Option String

-- What `onSubmit` is given.
pub record PolicyFormValues : Type 0 where
  pub name : String
  pub description : String
  pub actions : List String
  pub resource_type : String
  pub conditions : Option String

-- What a parsed JSON text is.
pub data JsonKind : Type 0 where
  json_null json_array json_object json_scalar : JsonKind

abbrev pub closed_form : PolicyForm
closed_form = record {
  tab = basics;
  values = record {
    name = "";
    description = "";
    actions = [];
    resource_type = "";
    conditions_text = "";
  };
  conditions_enabled = false;
  initial_snapshot = none;
  prev_is_open = false;
  show_discard_confirm = false;
  pending_exit = none;
}

abbrev pub same_texts : List String → List String → Bool
same_texts [] [] = true
same_texts [] (y ∷ ys) = false
same_texts (x ∷ xs) [] = false
same_texts (x ∷ xs) (y ∷ ys) = let rest = same_texts xs ys in x == y && rest

abbrev pub same_snapshot : Snapshot → Snapshot → Bool
same_snapshot s t =
    s.name == t.name
    && (s.description == t.description
        && (same_texts s.actions t.actions
            && (s.resource_type == t.resource_type && s.conditions_text == t.conditions_text)))

abbrev pub matches_snapshot : Snapshot → Option Snapshot → Bool
matches_snapshot s none = false
matches_snapshot s (some t) = same_snapshot s t

unfoldable pub is_dirty : PolicyForm → Bool
is_dirty form = not (matches_snapshot form.values form.initial_snapshot)

abbrev pub initial_values : Option EditedPolicy → Snapshot
initial_values none = closed_form.values
initial_values (some edited) = record {
  name = edited.policy.name;
  description = get_or edited.policy.description "";
  actions = edited.policy.actions;
  resource_type = edited.policy.resource_type;
  conditions_text = get_or edited.conditions "";
}

abbrev pub has_conditions : Option EditedPolicy → Bool
has_conditions none = false
has_conditions (some edited) = elim edited.conditions [ none ↦ false | some c ↦ true ]

abbrev pub opened : Option EditedPolicy → PolicyForm → PolicyForm
opened policy form = record form {
  prev_is_open = true;
  tab = basics;
  values = initial_values policy;
  conditions_enabled = has_conditions policy;
  initial_snapshot = some (initial_values policy);
}

-- A render with `isOpen`.
unfoldable pub render : Bool → Option EditedPolicy → PolicyForm → PolicyForm
render true policy form = if form.prev_is_open then form else opened policy form
render false policy form = record form { prev_is_open = false }

-- `setActions` and `setInitialSnapshot`.
abbrev pub with_actions : List String → Option Snapshot → PolicyForm → PolicyForm
with_actions actions snapshot form = record form {
  values = record form.values { actions = actions };
  initial_snapshot = snapshot;
}

-- The form after `handleActionsChange`, which is also what `apply` makes of a form.
unfoldable pub change_actions : List String → PolicyForm → PolicyForm → PolicyForm
change_actions next_actions before form =
    with_actions next_actions (some (record before.values { actions = next_actions })) form

-- `rollback`, made from the form before the change.
unfoldable pub roll_back : PolicyForm → PolicyForm → PolicyForm
roll_back before form = with_actions before.values.actions before.initial_snapshot form

-- The actions of the catalog that are valid for a resource type.
abbrev pub is_for : String → PermissionCatalogEntry → Bool
is_for value entry = value == all_resource_types_value || entry.resource_type == value

unfoldable pub valid_for_new_type : List PermissionCatalogEntry → String → List String
unfolding add
valid_for_new_type catalog value = add_all [] (map (λ e. e.action) (filter (is_for value) catalog))

unfoldable pub kept_actions : List PermissionCatalogEntry → String → List String → List String
unfolding valid_for_new_type
kept_actions catalog value actions = filter (λ a. has (valid_for_new_type catalog value) a) actions

abbrev pub set_type_and_actions : String → List String → PolicyForm → PolicyForm
set_type_and_actions resource_type actions form = record form {
  values = record form.values { resource_type = resource_type; actions = actions };
}

-- The exit that is taken at once, or none when the dialog asks first.
unfoldable pub request_exit : Exit → PolicyForm → PolicyForm × Option Exit
unfolding is_dirty
request_exit exit form =
    if is_dirty form
    then (record form { pending_exit = some exit; show_discard_confirm = true }, none)
    else (form, some exit)

unfoldable pub destructive_selected_count : PolicyForm → ℕ
unfolding is_destructive_action
destructive_selected_count form = length (filter is_destructive_action form.values.actions)

abbrev pub is_object : Option JsonKind → Bool
is_object (some json_object) = true
is_object _ = false

-- The `onClick` of the Undo after a change of the type: it sends nothing, so that the toast and the
-- change on an error that a request would have do not matter.
abbrev pub undo_type_change : Snapshot → Undo PolicyUpdate PolicyForm
undo_type_change before = record {
  first = set_type_and_actions before.resource_type before.actions;
  request = none;
  done = toast_of "" info;
  failed = λ form. form;
}

module _ (t : String → List (String × ℕ) → String) where
  abbrev pub cleared_toast : ℕ → ToastOptions
  cleared_toast cleared_count =
      record (toast_of (t "policies:formDialog.clearedActionsToast" (("count", cleared_count) ∷ []))
        info) { duration = given (ms 6000) }

  unfoldable pub handle_resource_type_change :
      List PermissionCatalogEntry
      → String
      → Screen PolicyUpdate PolicyForm
      → Screen PolicyUpdate PolicyForm
  unfolding kept_actions
  handle_resource_type_change catalog value screen =
      let before = screen.page.values in
      let kept = kept_actions catalog value before.actions in
      let cleared_count = length before.actions - length kept in
      let changed = on_page (set_type_and_actions value kept) screen in
      if ltb 0 cleared_count
      then show_with_undo (with_undo (t "policies:page.undo" []) (cleared_toast cleared_count))
          (undo_type_change before) changed
      else changed

  module _ (trim : String → String) (parse : String → Option JsonKind) where
    unfoldable pub conditions_error : PolicyForm → Option String
    conditions_error form =
        if not form.conditions_enabled || trim form.values.conditions_text == ""
        then none
        else (if is_object (parse form.values.conditions_text)
            then none
            else some (t "policies:formDialog.conditionsInvalidJson" []))

    -- Whether `conditionsError` is a text that is not empty.
    abbrev pub is_error : Option String → Bool
    is_error none = false
    is_error (some message) = not (message == "")

    unfoldable pub can_save : PolicyForm → Bool
    unfolding conditions_error
    can_save form =
        not (trim form.values.name == "")
        && (not (form.values.resource_type == "")
            && (ltb 0 (length form.values.actions) && not (is_error (conditions_error form))))

    abbrev pub submitted_conditions : PolicyForm → Option String
    submitted_conditions form =
        if form.conditions_enabled && not (trim form.values.conditions_text == "")
        then some form.values.conditions_text
        else none

    -- The form, and what `onSubmit` is given, if it is called.
    unfoldable pub handle_submit : PolicyForm → PolicyForm × Option PolicyFormValues
    unfolding conditions_error
    handle_submit form =
        if is_error (conditions_error form) then (record form { tab = basics }, none) else (
          form,
          some (record {
            name = form.values.name;
            description = form.values.description;
            actions = form.values.actions;
            resource_type = form.values.resource_type;
            conditions = submitted_conditions form;
          }),
        )

  unfoldable pub save_summary : PolicyForm → String
  unfolding destructive_selected_count
  save_summary form =
      if form.values.resource_type == "" || length form.values.actions == 0
      then t "policies:formDialog.saveSummaryIncomplete" []
      else (if ltb 0 (destructive_selected_count form)
          then t "policies:formDialog.saveSummaryWithDestructive" (
              ("count", length form.values.actions)
              ∷ ("destructiveCount", destructive_selected_count form)
              ∷ [])
          else t "policies:formDialog.saveSummary" (("count", length form.values.actions) ∷ []))
