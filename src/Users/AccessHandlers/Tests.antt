-- ===== src/Users/AccessHandlers/Tests.antt =====
-- Examples for the handlers of the access dialog.
use mystic_auth.Prelude.{
  ℕ, String, String_eq, true, ◌==◌, ◌≡◌, refl, none, some, List, [], ◌∷◌, map, if◌then◌else◌,
}
use mystic_auth.Ui.Toaster.{empty_toaster, create, arm_auto_dismiss}
use mystic_auth.Ui.Undo.{Screen, created_id, finish, click}
use mystic_auth.Users.AccessHandlers.{
  AccessRequest, toggle_policy, toggle_direct_permission, save_conditions,
}
use mystic_auth.Users.AccessHandlers.Undone.{
  Access, accepting, flipped, toggle_direct_permission-undone,
}

abbrev key_only : String → List (String × String) → String
key_only key options = key

abbrev one_grant : Access String
one_grant = record {
  has_policy = λ e n. n == "support";
  grant_of = λ e a r. if a == "users:read" then some (some "{}") else none;
}

abbrev kept : String → String → String → Access String → Access String
kept email name action w = w

abbrev blank : Screen (AccessRequest String) ℕ
blank = record { toaster = empty_toaster; undos = []; page = 0 }

abbrev revoking : Screen (AccessRequest String) ℕ × Access String
revoking =
    finish (accepting kept) (toggle_policy key_only (some "a@x.org") "support" true blank) one_grant

revoked_toast :
    map (λ t. t.title) revoking.0.toaster.toasts ≡ "users:accessDialog.policyRevokedToast" ∷ []
unfolding toggle_policy create arm_auto_dismiss
revoked_toast = refl

unnamed_user : toggle_policy key_only (some "") "support" true blank ≡ (blank, none)
unfolding toggle_policy
unnamed_user = refl

no_user : toggle_direct_permission key_only none "users:read" "users" none blank ≡ (blank, none)
unfolding toggle_direct_permission
no_user = refl

unparsed :
    (save_conditions key_only
      (λ s. s)
      (λ s. none)
      (λ p. p)
      (some "a@x.org")
      "users:read"
      "users"
      "{"
      blank).1
    ≡ some "users:permissionsDialog.invalidConditionsJson"
unfolding save_conditions
unparsed = refl

toggle_direct_permission-undone_example :
    let toggled =
      finish
        (accepting kept)
        (toggle_direct_permission key_only
          (some "a@x.org")
          "users:read"
          "users"
          (some (some "{}"))
          blank)
        one_grant in
    let undone = click (accepting kept) (created_id empty_toaster) toggled in
    (toggled.1.grant_of "a@x.org" "users:read" "users" ≡ flipped kept (some (some "{}")))
    × ((e a r : String) → undone.1.grant_of e a r ≡ one_grant.grant_of e a r)
toggle_direct_permission-undone_example =
    toggle_direct_permission-undone kept key_only "a@x.org" "users:read" "users" (some (some "{}"))
      one_grant blank refl refl (record { filed = tt; timers_below = tt })
