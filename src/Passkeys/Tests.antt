-- ===== src/Passkeys/Tests.antt =====
-- Examples for the passkeys: a server that counts requests and lets the second one through.
use mystic_auth.Prelude.{
  ℕ, suc, String, String_eq, true, false, ◌==◌, ℕ_eq, ◌≡◌, refl, none, some, [], ◌∷◌, map, rejected,
  resolved, Async, if◌then◌else◌,
}
use mystic_auth.Api.{Failure, Translations, axios_error, text}
use mystic_auth.Ui.Toaster.{empty_toaster, create, arm_auto_dismiss}
use mystic_auth.Passkeys.{
  PasskeysPage, remove_passkey, confirm_all, needs_step_up, on_error, on_success, mutation_fn,
  mutate, resume_after_step_up, cancel_step_up,
}
use mystic_auth.Passkeys.StepUp.{mutates, resumes, on_error-resumes}

abbrev plain : Translations ℕ
plain = record { exists = λ key. false; translate = λ key params. key }

abbrev titles : String → ℕ → String
titles key count = key

abbrev stale_login : Failure ℕ
stale_login = axios_error (
    some (record {
      status = 403;
      data_of = some (record {
        detail = text "Confirm it is you";
        code = text "PASSKEY_STEP_UP_REQUIRED";
        params = none;
      });
    }))

abbrev second_time : Async ℕ (Failure ℕ) ℕ
second_time w = (if w == 0 then rejected stale_login else resolved 1, suc w)

abbrev page : PasskeysPage
page = record {
  new_name = "";
  pending_removal = some 4;
  bulk_confirm = some confirm_all;
  selected_ids = 4 ∷ [];
  step_up_retry = none;
  refreshes = 0;
  toaster = empty_toaster;
}

abbrev removes : PasskeysPage × ℕ → PasskeysPage × ℕ
removes =
    mutates plain titles (λ name. second_time) (λ options. second_time) (λ name c. second_time)
      (λ id name. second_time) (λ id. second_time) (λ payload. second_time) (remove_passkey 4)

abbrev resume : PasskeysPage × ℕ → PasskeysPage × ℕ
resume =
    resumes plain titles (λ name. second_time) (λ options. second_time) (λ name c. second_time)
      (λ id name. second_time) (λ id. second_time) (λ payload. second_time)

removed_after_step_up :
    map (λ t. t.title) (resume (removes (page, 0))).0.toaster.toasts ≡ "passkeys.removedToast" ∷ []
unfolding resume_after_step_up mutate mutation_fn on_success on_error needs_step_up create
    arm_auto_dismiss
removed_after_step_up = refl

stale_needs_step_up : needs_step_up plain titles stale_login ≡ true
unfolding needs_step_up
stale_needs_step_up = refl

on_error-resumes_example :
    let parked = on_error plain titles (remove_passkey 4) stale_login page in
    (parked.toaster ≡ page.toaster)
    × (resume (parked, 1) ≡ removes (record parked { step_up_retry = none }, 1))
    × (resume (cancel_step_up parked, 1) ≡ (cancel_step_up parked, 1))
on_error-resumes_example =
    on_error-resumes plain titles (λ name. second_time) (λ options. second_time)
      (λ name c. second_time) (λ id name. second_time) (λ id. second_time) (λ payload. second_time)
      (remove_passkey 4) stale_login page 1 refl stale_needs_step_up
