-- ===== src/Passkeys.antt =====
-- frontend/src/mystic_auth/passkeys/usePasskeyManagement.ts. The requests, the prompt of the
-- browser and the translations are parameters; a passkey is known by its id, and invalidations of
-- the list are counted.
pub mod StepUp
mod Tests
use mystic_auth.Prelude.{
  ℕ, ◌+◌, String, Bool, true, false, Option, none, some, List, [], ◌∷◌, ◌==◌, String_eq,
  if◌then◌else◌, Result, rejected, resolved, Async, and_then,
}
use mystic_auth.Api.{
  Unknown, text, falsy, not_text, Failure, ErrorBody, axios_error, other_error, Translations,
  body_of, extract_api_error_message,
}
use mystic_auth.Ui.Toaster.{Toaster, success, error, create}
use mystic_auth.Ui.Undo.{toast_of}

abbrev pub step_up_required_code : String
step_up_required_code = "PASSKEY_STEP_UP_REQUIRED"

abbrev pub is_step_up_code : Unknown → Bool
is_step_up_code not_text = false
is_step_up_code falsy = false
is_step_up_code (text code) = code == step_up_required_code

pub data BulkConfirm : Type 0 where
  confirm_selected confirm_all : BulkConfirm

-- `{ all: true }` or `{ ids }`
pub data BulkRemovePayload : Type 0 where
  all_passkeys : BulkRemovePayload
  passkeys_with : List ℕ → BulkRemovePayload

-- A mutation with its variables.
pub data PasskeyAction : Type 0 where
  add_passkey : String → PasskeyAction
  rename_passkey : ℕ → String → PasskeyAction
  remove_passkey : ℕ → PasskeyAction
  bulk_remove_passkeys : BulkRemovePayload → PasskeyAction

pub record PasskeysPage : Type 0 where
  pub new_name : String
  pub pending_removal : Option ℕ
  pub bulk_confirm : Option BulkConfirm
  pub selected_ids : List ℕ
  pub step_up_retry : Option PasskeyAction
  pub refreshes : ℕ
  pub toaster : Toaster

abbrev pub refresh : PasskeysPage → PasskeysPage
refresh p = record p { refreshes = p.refreshes + 1 }

abbrev pub report : String → PasskeysPage → PasskeysPage
report title p = record p { toaster = create (toast_of title success) p.toaster }

abbrev pub park : PasskeyAction → PasskeysPage → PasskeysPage
park action p = record p { step_up_retry = some action }

module _ {Params : Type 0} (translations : Translations Params) (t : String → ℕ → String) where
  abbrev pub is_step_up_body : Option (ErrorBody Params) → Bool
  is_step_up_body none = false
  is_step_up_body (some body) = is_step_up_code body.code

  unfoldable pub needs_step_up : Failure Params → Bool
  needs_step_up other_error = false
  needs_step_up (axios_error response) = is_step_up_body (body_of response)

  abbrev pub fail : Failure Params → String → PasskeysPage → PasskeysPage
  fail failure fallback p = record p {
    toaster =
        create (toast_of (extract_api_error_message translations failure fallback) error) p.toaster;
  }

  -- `if (needsStepUp(error)) return setStepUpRetry(...); fail(...)`
  abbrev pub park_or_fail : PasskeyAction → Failure Params → String → PasskeysPage → PasskeysPage
  park_or_fail action failure fallback p =
      if needs_step_up failure then park action p else fail failure fallback p

  unfoldable pub on_success : PasskeyAction → ℕ → PasskeysPage → PasskeysPage
  on_success (add_passkey name) removed p =
      report (t "passkeys.addedToast" 0) (refresh (record p { new_name = "" }))
  on_success (rename_passkey id name) removed p = report (t "passkeys.renamedToast" 0) (refresh p)
  on_success (remove_passkey id) removed p =
      report (t "passkeys.removedToast" 0)
        (refresh (record p { pending_removal = none; selected_ids = [] }))
  on_success (bulk_remove_passkeys payload) removed p =
      report (t "passkeys.bulkRemovedToast" removed)
        (refresh (record p { bulk_confirm = none; selected_ids = [] }))

  unfoldable pub on_error : PasskeyAction → Failure Params → PasskeysPage → PasskeysPage
  unfolding needs_step_up
  on_error (add_passkey name) failure p =
      park_or_fail (add_passkey name) failure (t "passkeys.addFailed" 0) p
  on_error (rename_passkey id name) failure p = fail failure (t "passkeys.renameFailed" 0) p
  on_error (remove_passkey id) failure p =
      park_or_fail (remove_passkey id) failure (t "passkeys.removeFailed" 0)
        (record p { pending_removal = none })
  on_error (bulk_remove_passkeys payload) failure p =
      park_or_fail (bulk_remove_passkeys payload) failure (t "passkeys.bulkRemoveFailed" 0)
        (record p { bulk_confirm = none })

  abbrev pub settle : PasskeyAction → Result (Failure Params) ℕ → PasskeysPage → PasskeysPage
  settle action (resolved removed) p = on_success action removed p
  settle action (rejected failure) p = on_error action failure p

  -- The requests; the number is that of the removed passkeys, where a request answers one.
  module _ {W Options Credential : Type 0}
      (begin_registration : String → Async W (Failure Params) Options)
      (start_registration : Options → Async W (Failure Params) Credential)
      (complete_registration : String → Credential → Async W (Failure Params) ℕ)
      (rename_api : ℕ → String → Async W (Failure Params) ℕ)
      (remove_api : ℕ → Async W (Failure Params) ℕ)
      (bulk_remove_api : BulkRemovePayload → Async W (Failure Params) ℕ) where
    unfoldable pub mutation_fn : PasskeyAction → Async W (Failure Params) ℕ
    mutation_fn (add_passkey name) w =
        and_then (begin_registration name)
          (λ options. and_then (start_registration options) (λ c. complete_registration name c)) w
    mutation_fn (rename_passkey id name) w = rename_api id name w
    mutation_fn (remove_passkey id) w = remove_api id w
    mutation_fn (bulk_remove_passkeys payload) w = bulk_remove_api payload w

    -- `mutate`, to its end.
    unfoldable pub mutate : PasskeyAction → PasskeysPage × W → PasskeysPage × W
    unfolding on_success on_error mutation_fn
    mutate action (p, w) =
        let outcome = mutation_fn action w in (settle action outcome.0 p, outcome.1)

    abbrev pub bulk_payload : Option BulkConfirm → List ℕ → BulkRemovePayload
    bulk_payload (some confirm_all) ids = all_passkeys
    bulk_payload (some confirm_selected) ids = passkeys_with ids
    bulk_payload none ids = passkeys_with ids

    unfoldable pub confirm_bulk : PasskeysPage × W → PasskeysPage × W
    unfolding mutate
    confirm_bulk (p, w) =
        mutate (bulk_remove_passkeys (bulk_payload p.bulk_confirm p.selected_ids)) (p, w)

    abbrev pub resumed : Option PasskeyAction → PasskeysPage × W → PasskeysPage × W
    resumed none s = s
    resumed (some action) s = mutate action s

    -- The parked action is started, and the page forgets it before its outcome arrives.
    unfoldable pub resume_after_step_up : PasskeysPage × W → PasskeysPage × W
    unfolding mutate
    resume_after_step_up (p, w) = resumed p.step_up_retry (record p { step_up_retry = none }, w)

unfoldable pub cancel_step_up : PasskeysPage → PasskeysPage
cancel_step_up p = record p { step_up_retry = none }
