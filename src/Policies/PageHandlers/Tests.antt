-- ===== src/Policies/PageHandlers/Tests.antt =====
-- Examples for the handlers of the policies page.
use mystic_auth.Prelude.{
  ℕ, String, String_eq, true, ◌==◌, ◌≡◌, refl, none, some, List, [], ◌∷◌, map,
}
use mystic_auth.Ui.Toaster.{empty_toaster, create, arm_auto_dismiss}
use mystic_auth.Ui.Undo.{Screen, finish}
use mystic_auth.Policies.{PolicyRead}
use mystic_auth.Policies.PageHandlers.{PolicyUpdate, handle_toggle_active, find_not_in}
use mystic_auth.Policies.PageHandlers.Undone.{Stored, backend}

abbrev key_only : String → List (String × String) → String
key_only key options = key

abbrev support : PolicyRead
support = record {
  id = 1;
  name = "support";
  description = none;
  actions = "users:read" ∷ [];
  resource_type = "users";
  is_active = true;
  created_by = none;
}

abbrev stored : Stored
stored = record { actions_of = λ n. "users:read" ∷ []; is_active_of = λ n. n == "support" }

abbrev blank : Screen PolicyUpdate ℕ
blank = record { toaster = empty_toaster; undos = []; page = 0 }

found : find_not_in ("a" ∷ "b" ∷ []) ("a" ∷ []) ≡ some "b"
found = refl

deactivated :
    map
      (λ t. t.title)
      (finish
        (backend (λ u. none))
        (handle_toggle_active key_only (λ s. s) support (λ p. p) blank)
        stored).0.toaster.toasts
    ≡ "policies:page.policyDeactivatedToast" ∷ []
unfolding handle_toggle_active create arm_auto_dismiss
deactivated = refl
