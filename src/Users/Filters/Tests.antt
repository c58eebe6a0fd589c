-- ===== src/Users/Filters/Tests.antt =====
-- Examples for the filters of the users page.
use mystic_auth.Prelude.{String_eq, ◌≡◌, refl, [], ◌∷◌}
use mystic_auth.Users.Filters.{
  UsersFilters, initial_filters, desc, shown_policy, toggle_sort, next_sort_state, clear_filters,
}
use mystic_auth.Users.Filters.Cleared.{clear_filters-keeps_policy}

abbrev holders : UsersFilters
holders = record initial_filters { url = ("policy", "support") ∷ ("permission", "users:read") ∷ [] }

abbrev by_permission : UsersFilters
by_permission = record initial_filters {
  role = "admin";
  url = ("permission_source", "direct") ∷ ("permission", "users:read") ∷ [];
}

sorted_twice :
    (toggle_sort
      (toggle_sort initial_filters "email" initial_filters)
      "email"
      initial_filters).sort_dir
    ≡ desc
unfolding toggle_sort next_sort_state
sorted_twice = refl

clear_filters-keeps_policy_example : shown_policy (clear_filters holders holders) ≡ "support"
clear_filters-keeps_policy_example =
    clear_filters-keeps_policy holders "support" "users:read" refl refl
