-- ===== src/Users/AccessHandlers.antt =====
-- frontend/src/mystic_auth/users/dialogs/userAccessDialogHandlers.ts. The translations and the JSON
-- parser are parameters, and conditions are of any type. A handler gives the screen after it and
-- the mutation that it has started, if any.
pub mod Undone
mod Tests
use Prim.Native.String
use mystic_auth.Prelude.{
  ℕ, String, Bool, true, false, Option, none, some, List, [], ◌∷◌, ◌==◌, String_eq, if◌then◌else◌,
}
use mystic_auth.Ui.Toaster.{
  ToastOptions, success, info, loading, error, infinite, ms, absent, given,
}
use mystic_auth.Ui.Undo.{
  Undo, Screen, Pending, Handled, with_undo, created_id, toast_of, show, show_with_undo,
  update_with_undo, hide, on_page, show_error,
}

-- The requests of the five mutations.
pub data AccessRequest (C : Type 0) : Type 0 where
  assign_policy : String → String → AccessRequest C
  revoke_policy : String → String → AccessRequest C
  revoke_policy_action : String → String → String → AccessRequest C
  grant_permission : String → String → String → Option C → AccessRequest C
  revoke_permission : String → String → String → AccessRequest C

-- What a handler leaves.
abbrev pub Started : Type 0 → Type 0 → Type 0
Started C S = Handled (AccessRequest C) S

-- The property `currentGrant`, when it is not undefined: its conditions, none for null.
abbrev pub CurrentGrant : Type 0 → Type 0
CurrentGrant C = Option (Option C)

abbrev pub same_page : {S : Type 0} → S → S
same_page s = s

-- A text or nothing, for the test `if (!userEmail)`.
abbrev pub absent_text : Option String → Bool
absent_text none = true
absent_text (some s) = s == ""

module _ (t : String → List (String × String) → String) where
  abbrev pub undo_label : String
  undo_label = t "users:accessDialog.undo" []

  abbrev pub policy_revoked : String → String
  policy_revoked name = t "users:accessDialog.policyRevokedToast" (("policyName", name) ∷ [])

  abbrev pub policy_assigned : String → String
  policy_assigned name = t "users:accessDialog.policyAssignedToast" (("policyName", name) ∷ [])

  abbrev pub permission_revoked : String → String
  permission_revoked action =
      t "users:accessDialog.permissionRevokedToast" (("action", action) ∷ [])

  abbrev pub permission_granted : String → String
  permission_granted action =
      t "users:accessDialog.permissionGrantedToast" (("action", action) ∷ [])

-- `{ title, type: "loading", duration: Infinity }`
abbrev pub loading_toast : String → ToastOptions
loading_toast title = record (toast_of title loading) { duration = given infinite }

module _ {C S : Type 0} (t : String → List (String × String) → String) where
  abbrev pub start_revoke : String → String → Pending (AccessRequest C) S
  start_revoke user_email policy_name = record {
    request = revoke_policy user_email policy_name;
    on_success =
        show_with_undo (with_undo (undo_label t) (toast_of (policy_revoked t policy_name) info))
          (record {
            first = same_page;
            request = some (assign_policy user_email policy_name);
            done = toast_of (policy_assigned t policy_name) success;
            failed = same_page;
          });
    on_error = show_error;
  }

  abbrev pub start_assign : String → String → Pending (AccessRequest C) S
  start_assign user_email policy_name = record {
    request = assign_policy user_email policy_name;
    on_success =
        show_with_undo (with_undo (undo_label t) (toast_of (policy_assigned t policy_name) success))
          (record {
            first = same_page;
            request = some (revoke_policy user_email policy_name);
            done = toast_of (policy_revoked t policy_name) success;
            failed = same_page;
          });
    on_error = show_error;
  }

  unfoldable pub toggle_policy :
      Option String → String → Bool → Screen (AccessRequest C) S → Started C S
  toggle_policy none policy_name was_assigned screen = (screen, none)
  toggle_policy (some user_email) policy_name was_assigned screen =
      if user_email == "" then (screen, none) else (
        screen,
        some (
            if was_assigned
            then start_revoke user_email policy_name
            else start_assign user_email policy_name),
      )

  unfoldable pub request_revoke_policy_action :
      Option String → String → String → Screen (AccessRequest C) S → Started C S
  request_revoke_policy_action none policy_name action screen = (screen, none)
  request_revoke_policy_action (some user_email) policy_name action screen =
      if user_email == "" then (screen, none) else (
        screen,
        some (record {
          request = revoke_policy_action user_email policy_name action;
          on_success = show (
              toast_of
                (t "users:policiesDialog.actionRevokedToast"
                  (("action", action) ∷ ("policyName", policy_name) ∷ []))
                success);
          on_error = show_error;
        }),
      )

  -- `onError` of a toggle: the pending toast goes, and the error is shown for 8 seconds.
  abbrev pub report_failure : ℕ → String → Screen (AccessRequest C) S → Screen (AccessRequest C) S
  report_failure pending_toast_id message screen =
      show (record (toast_of message error) { duration = given (ms 8000) })
        (hide pending_toast_id screen)

  abbrev pub start_revoke_permission :
      String → String → String → Option C → ℕ → Pending (AccessRequest C) S
  start_revoke_permission user_email action resource_type conditions pending_toast_id = record {
    request = revoke_permission user_email action resource_type;
    on_success =
        update_with_undo pending_toast_id
          (with_undo (undo_label t) (toast_of (permission_revoked t action) info))
          (record {
            first = same_page;
            request = some (grant_permission user_email action resource_type conditions);
            done = toast_of (permission_granted t action) success;
            failed = same_page;
          });
    on_error = report_failure pending_toast_id;
  }

  abbrev pub start_grant_permission : String → String → String → ℕ → Pending (AccessRequest C) S
  start_grant_permission user_email action resource_type pending_toast_id = record {
    request = grant_permission user_email action resource_type none;
    on_success =
        update_with_undo pending_toast_id
          (with_undo (undo_label t) (toast_of (permission_granted t action) success))
          (record {
            first = same_page;
            request = some (revoke_permission user_email action resource_type);
            done = toast_of (permission_revoked t action) success;
            failed = same_page;
          });
    on_error = report_failure pending_toast_id;
  }

  abbrev pub toggle_grant :
      String → String → String → CurrentGrant C → Screen (AccessRequest C) S → Started C S
  toggle_grant user_email action resource_type (some conditions) screen = (
    show (loading_toast (t "users:accessDialog.permissionRevokingToast" (("action", action) ∷ [])))
        screen,
    some (
        start_revoke_permission user_email action resource_type conditions
          (created_id screen.toaster)),
  )
  toggle_grant user_email action resource_type none screen = (
    show (loading_toast (t "users:accessDialog.permissionGrantingToast" (("action", action) ∷ [])))
        screen,
    some (start_grant_permission user_email action resource_type (created_id screen.toaster)),
  )

  unfoldable pub toggle_direct_permission :
      Option String → String → String → CurrentGrant C → Screen (AccessRequest C) S → Started C S
  toggle_direct_permission none action resource_type current_grant screen = (screen, none)
  toggle_direct_permission (some user_email) action resource_type current_grant screen =
      if user_email == ""
      then (screen, none)
      else toggle_grant user_email action resource_type current_grant screen

  -- The text after `trim`, the parser's answer for it, and what `onSaved` does to the page.
  module _ (trim : String → String) (parse : String → Option C) (on_saved : S → S) where
    abbrev pub start_save : String → String → String → Option C → Pending (AccessRequest C) S
    start_save user_email action resource_type conditions = record {
      request = grant_permission user_email action resource_type conditions;
      on_success = λ screen. on_page on_saved (
          show
            (toast_of (t "users:accessDialog.conditionsSavedToast" (("action", action) ∷ []))
              success)
            screen);
      on_error = show_error;
    }

    -- The parsed conditions, or the message that is returned.
    abbrev pub save_parsed :
        String
        → String
        → String
        → Option C
        → Screen (AccessRequest C) S
        → Started C S × Option String
    save_parsed user_email action resource_type none screen =
        ((screen, none), some (t "users:permissionsDialog.invalidConditionsJson" []))
    save_parsed user_email action resource_type (some conditions) screen =
        ((screen, some (start_save user_email action resource_type (some conditions))), none)

    unfoldable pub save_conditions :
        Option String
        → String
        → String
        → String
        → Screen (AccessRequest C) S
        → Started C S × Option String
    save_conditions none action resource_type conditions_text screen = ((screen, none), none)
    save_conditions (some user_email) action resource_type conditions_text screen =
        if user_email == ""
        then ((screen, none), none)
        else (if trim conditions_text == ""
            then ((screen, some (start_save user_email action resource_type none)), none)
            else save_parsed user_email action resource_type (parse conditions_text) screen)
