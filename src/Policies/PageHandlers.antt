-- ===== src/Policies/PageHandlers.antt =====
-- frontend/src/mystic_auth/policies/policiesPageHandlers.ts. The translations and
-- `formatPolicyActionLabel` are parameters. A handler gives the screen after it and the mutation
-- that it has started, if any.
pub mod Undone
mod Tests
use mystic_auth.Prelude.{
  ℕ, String, Bool, true, false, not, Option, none, some, get_or, List, [], ◌∷◌, ◌==◌, String_eq,
  has, if◌then◌else◌,
}
use mystic_auth.Ui.Toaster.{ToastOptions, success, ms, given}
use mystic_auth.Ui.Undo.{
  Screen, Pending, Handled, with_undo, toast_of, show_with_undo, on_page, show_error,
}
use mystic_auth.Policies.{PolicyRead}

-- `{ policyName, payload }` of the update mutation.
pub data PolicyUpdate : Type 0 where
  set_actions : String → List String → PolicyUpdate
  set_is_active : String → Bool → PolicyUpdate

-- `actions.find((action) => !previousActions.includes(action))`
abbrev pub find_not_in : List String → List String → Option String
find_not_in [] others = none
find_not_in (a ∷ actions) others =
    let rest = find_not_in actions others in if has others a then rest else some a

-- `grantedAction ?? revokedAction`
abbrev pub or_else : Option String → Option String → Option String
or_else none other = other
or_else (some a) other = some a

-- `!!grantedAction`
abbrev pub is_some_text : Option String → Bool
is_some_text none = false
is_some_text (some a) = not (a == "")

-- `changedAction ? formatPolicyActionLabel(changedAction) : undefined`
abbrev pub label_of : (String → String) → Option String → Option String
label_of format none = none
label_of format (some a) = if a == "" then none else some (format a)

abbrev pub lasting : ToastOptions → ToastOptions
lasting options = record options { duration = given (ms 6000) }

module _ (t : String → List (String × String) → String) where
  abbrev pub granted_or_revoked : Bool → Option String → String → String
  granted_or_revoked is_grant action_label policy_name =
      t
        (if is_grant
          then "policies:page.policyActionGrantedToast"
          else "policies:page.policyActionRevokedToast")
        (("action", get_or action_label (t "policies:page.policyActions" []))
          ∷ ("policyName", policy_name)
          ∷ [])

  -- `nextActive ? reactivated : deactivated`
  abbrev pub activation_title : Bool → String
  activation_title next_active =
      if next_active
      then t "policies:page.policyReactivatedToast" []
      else t "policies:page.policyDeactivatedToast" []

module _ {S : Type 0} (t : String → List (String × String) → String)
    (format : String → String) where
  abbrev pub start_update :
      String
      → Bool
      → Option String
      → List String
      → List String
      → (S → S)
      → (S → S)
      → Pending PolicyUpdate S
  start_update policy_name is_grant action_label actions previous_actions rollback apply = record {
    request = set_actions policy_name actions;
    on_success =
        show_with_undo
          (with_undo (t "policies:page.undo" [])
            (lasting (toast_of (granted_or_revoked t is_grant action_label policy_name) success)))
          (record {
            first = rollback;
            request = some (set_actions policy_name previous_actions);
            done = toast_of (granted_or_revoked t (not is_grant) action_label policy_name) success;
            failed = apply;
          });
    on_error = λ message screen. show_error message (on_page rollback screen);
  }

  unfoldable pub handle_actions_change :
      Option PolicyRead
      → List String
      → (S → S)
      → List String
      → (S → S)
      → Screen PolicyUpdate S
      → Handled PolicyUpdate S
  handle_actions_change none actions rollback previous_actions apply screen = (screen, none)
  handle_actions_change (some editing_policy) actions rollback previous_actions apply screen =
      let granted_action = find_not_in actions previous_actions in
      let revoked_action = find_not_in previous_actions actions in
      let action_label = label_of format (or_else granted_action revoked_action) in
      (
        screen,
        some (
            start_update editing_policy.name (is_some_text granted_action) action_label actions
              previous_actions rollback apply),
      )

  unfoldable pub handle_toggle_active :
      PolicyRead → (S → S) → Screen PolicyUpdate S → Handled PolicyUpdate S
  handle_toggle_active policy on_error screen =
      let next_active = not policy.is_active in
      (
        screen,
        some (record {
          request = set_is_active policy.name next_active;
          on_success =
              show_with_undo
                (with_undo (t "policies:page.undo" [])
                  (lasting (toast_of (activation_title t next_active) success)))
                (record {
                  first = λ page. page;
                  request = some (set_is_active policy.name (not next_active));
                  done = toast_of (activation_title t (not next_active)) success;
                  failed = λ page. page;
                });
          on_error = λ message s. show_error message (on_page on_error s);
        }),
      )
