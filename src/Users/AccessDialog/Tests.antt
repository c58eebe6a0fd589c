-- ===== src/Users/AccessDialog/Tests.antt =====
-- Examples for the access dialog.
use mystic_auth.Prelude.{true, ◌≡◌, refl, some, [], ◌∷◌, String_eq, All}
use mystic_auth.Session.AuthStore.{AuthState, initial}
use mystic_auth.Session.Events.Coherence.{initial-IsCoherent}
use mystic_auth.Authorization.{can, use_can}
use mystic_auth.Users.AccessRows.{show_on}
use mystic_auth.Users.AccessDialog.{
  DialogState, initial_dialog, user_policies_of, all_policies_list, my_own_policies,
  my_own_permissions, my_access_changes, enabled_queries,
}
use mystic_auth.Users.AccessDialog.NeedToKnow.{
  MayKnow, enabled_queries-MayKnow, enabled_queries-signed_out,
}

abbrev reader : AuthState
reader = record initial {
  is_authenticated = some true;
  email = some "ada@example.com";
  permissions = "policies:read" ∷ [];
}

own_row_queries :
    enabled_queries true (some "ada@example.com") (record reader { permissions = [] })
    ≡ my_own_policies ∷ my_own_permissions ∷ my_access_changes ∷ []
unfolding enabled_queries use_can can
own_row_queries = refl

others_queries :
    enabled_queries true (some "bob@example.com") reader
    ≡ user_policies_of "bob@example.com" ∷ all_policies_list ∷ []
unfolding enabled_queries use_can can
others_queries = refl

enabled_queries-MayKnow_example :
    All
      (MayKnow (some "bob@example.com") reader)
      (enabled_queries true (some "bob@example.com") reader)
enabled_queries-MayKnow_example = enabled_queries-MayKnow true (some "bob@example.com") reader

enabled_queries-signed_out_example : enabled_queries true (some "bob@example.com") initial ≡ []
enabled_queries-signed_out_example =
    enabled_queries-signed_out true (some "bob@example.com") initial initial-IsCoherent (λ e. cc)

abbrev left_behind : DialogState
left_behind = record (initial_dialog true) { pol_query = "read"; pol_filter = show_on }
