-- ===== src/Passkeys/StepUp.antt =====
-- Actions of usePasskeyManagement.ts that ask for a fresh login.
use mystic_auth.Prelude.{ℕ, String, Bool, true, false, ◌≡◌, refl, ap, none, some, Async, arith}
use mystic_auth.Api.{Failure, Translations}
use mystic_auth.Passkeys.{
  BulkRemovePayload, PasskeyAction, add_passkey, rename_passkey, remove_passkey,
  bulk_remove_passkeys, PasskeysPage, needs_step_up, on_error, resumed, resume_after_step_up,
  mutate, cancel_step_up,
}

-- The actions that the server asks a fresh login for.
abbrev pub is_gated : PasskeyAction → Bool
is_gated (rename_passkey id name) = false
is_gated _ = true

module _ {Params : Type 0} (translations : Translations Params) (t : String → ℕ → String) where
  on_error-parks :
      (action : PasskeyAction) (failure : Failure Params) (p : PasskeysPage)
      → is_gated action ≡ true
      → needs_step_up translations t failure ≡ true
      → let parked = on_error translations t action failure p in
        (parked.step_up_retry ≡ some action) × (parked.toaster ≡ p.toaster)
  unfolding on_error
  on_error-parks (add_passkey name) failure p g h = rw h (refl, refl)
  on_error-parks (rename_passkey id name) failure p g h = absurd (ground (arith, g))
  on_error-parks (remove_passkey id) failure p g h = rw h (refl, refl)
  on_error-parks (bulk_remove_passkeys payload) failure p g h = rw h (refl, refl)

  module _ {W Options Credential : Type 0}
      (begin_registration : String → Async W (Failure Params) Options)
      (start_registration : Options → Async W (Failure Params) Credential)
      (complete_registration : String → Credential → Async W (Failure Params) ℕ)
      (rename_api : ℕ → String → Async W (Failure Params) ℕ)
      (remove_api : ℕ → Async W (Failure Params) ℕ)
      (bulk_remove_api : BulkRemovePayload → Async W (Failure Params) ℕ) where
    abbrev pub mutates : PasskeyAction → PasskeysPage × W → PasskeysPage × W
    mutates =
        mutate translations t begin_registration start_registration complete_registration rename_api
          remove_api bulk_remove_api

    abbrev pub resumes : PasskeysPage × W → PasskeysPage × W
    resumes =
        resume_after_step_up translations t begin_registration start_registration
          complete_registration rename_api remove_api bulk_remove_api

    -- An add, a removal or a bulk removal that is rejected for want of a fresh login shows no error
    -- and is not lost: when the login has been confirmed, the same action runs, on the page with
    -- nothing parked. When the confirmation has been cancelled, resuming does nothing.
    pub on_error-resumes :
        (action : PasskeyAction) (failure : Failure Params) (p : PasskeysPage) (w : W)
        → is_gated action ≡ true
        → needs_step_up translations t failure ≡ true
        → let parked = on_error translations t action failure p in
          (parked.toaster ≡ p.toaster)
          × (resumes (parked, w) ≡ mutates action (record parked { step_up_retry = none }, w))
          × (resumes (cancel_step_up parked, w) ≡ (cancel_step_up parked, w))
    unfolding resume_after_step_up cancel_step_up
    on_error-resumes action failure p w g h =
        let parked = on_error translations t action failure p in
        let parks = on_error-parks action failure p g h in
        (
          parks.1,
          ap
              (λ a.
                resumed translations t begin_registration start_registration complete_registration
                  rename_api remove_api bulk_remove_api a
                  (record parked { step_up_retry = none }, w))
              parks.0,
          refl,
        )
