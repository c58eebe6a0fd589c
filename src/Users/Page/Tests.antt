-- ===== src/Users/Page/Tests.antt =====
-- Examples for the users page.
use mystic_auth.Prelude.{
  ◌==◌, ℕ, String, String_eq, ℕ_eq, false, ◌≡◌, refl, none, some, List, [], ◌∷◌, map, length,
  rejected, resolved, ltb, if◌then◌else◌,
}
use mystic_auth.Ui.Toaster.{empty_toaster}
use mystic_auth.Ui.Undo.{Screen, finish}
use mystic_auth.Users.Page.{
  ManagedUser, UsersPage, UserRequest, total_pages, to_bool_filter, use_page_reset_on,
  render_selection, selected_user_emails, selected_count, handle_delete_confirm,
  fetch_all_matching_user_emails, active_filters,
}
use mystic_auth.Users.Page.Stale.{render_selection-empties}
use mystic_auth.Users.Page.Fetched.{paged, fetch_all_matching_user_emails-expected}

abbrev two_users : List ManagedUser
two_users = record { id = 1; email = "a@x.org" } ∷ record { id = 2; email = "b@x.org" } ∷ []

abbrev first_page : UsersPage
first_page = record {
  selected_user_ids = 2 ∷ [];
  select_all_matching = false;
  all_matching_emails = [];
  is_selecting_all_matching = false;
  prev_selection_key = "1|";
  deleting_user = some (record { id = 2; email = "b@x.org" });
  purging_user = none;
  pending_role_change = none;
}

abbrev screen : Screen UserRequest UsersPage
screen = record { toaster = empty_toaster; undos = []; page = first_page }

second_selected : selected_user_emails (some two_users) first_page ≡ "b@x.org" ∷ []
unfolding selected_user_emails
second_selected = refl

fifty_one : total_pages (some 51) ≡ 3
unfolding total_pages
fifty_one = refl

back_to_first : (use_page_reset_on "a|" (record { page = 3; prev_reset_key = "|" })).page ≡ 1
unfolding use_page_reset_on
back_to_first = refl

no_access_filters :
    (active_filters "" "" "true" "" "support" "users:read" (some "direct") "" false).policy ≡ none
unfolding active_filters to_bool_filter
no_access_filters = refl

closed_when_deleted :
    (finish {W = List String}
      (λ request w. (resolved tt, "sent" ∷ w))
      (handle_delete_confirm (λ key. key) screen)
      []).0.page.deleting_user
    ≡ none
unfolding handle_delete_confirm
closed_when_deleted = refl

second_page_is_unselected :
    (selected_user_emails (some two_users) (render_selection "2|" first_page) ≡ [])
    × (selected_count (some 51) (render_selection "2|" first_page) ≡ 0)
second_page_is_unselected = render_selection-empties "2|" two_users 51 first_page refl

-- Three users match the first filters, and one the second.
abbrev matching_users : String → List String
matching_users key = if key == "1|" then "a@x.org" ∷ "b@x.org" ∷ "c@x.org" ∷ [] else "b@x.org" ∷ []

fetch_all_matching_user_emails-expected_example :
    fetch_all_matching_user_emails {W = ℕ} {E = String} (paged two_users) "Too many." "Stuck." 7 ≡ (
      if ltb 2000 (length two_users)
      then (rejected "Too many.", 7)
      else (resolved (map (λ u. u.email) two_users), 7))
fetch_all_matching_user_emails-expected_example =
    fetch_all_matching_user_emails-expected two_users "Too many." "Stuck." 7
