-- ===== src/Users/Page/Stale.antt =====
-- The selection of useUsersPageState.ts when the filters change.
use mystic_auth.Prelude.{
  ℕ, String, false, ◌≡◌, refl, some, List, [], ◌∷◌, ap, ◌==◌, String_eq, filter, map,
}
use mystic_auth.Users.Page.{
  ManagedUser, UsersPage, render_selection, selected_user_emails, selected_count,
}

filter-none : {A : Type 0} (xs : List A) → filter (λ x. false) xs ≡ []
filter-none [] = refl
filter-none (x ∷ xs) = filter-none xs

-- When the page or the filters have changed, nothing is selected any more: no email is acted on
-- and the count is zero.
pub render_selection-empties :
    (key : String) (users : List ManagedUser) (total : ℕ) (p : UsersPage)
    → (key == p.prev_selection_key) ≡ false
    → (selected_user_emails (some users) (render_selection key p) ≡ [])
      × (selected_count (some total) (render_selection key p) ≡ 0)
unfolding render_selection selected_user_emails selected_count
render_selection-empties key users total p h =
    (rw h (ap (map (λ u. u.email)) (filter-none users)), rw h refl)
