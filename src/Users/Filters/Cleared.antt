-- ===== src/Users/Filters/Cleared.antt =====
-- `clearFilters` of useUsersPageFilters.ts, and what the URL keeps.
use mystic_auth.Prelude.{
  String, false, not, ◌||◌, ◌≡◌, ◌⊎◌, refl, ap, ◌∙◌, Option, none, some, get_or, ◌==◌, String_eq,
  Option-cases, inl, inr,
}
use mystic_auth.Users.Filters.{
  UsersFilters, get_param, delete_param, shown_policy, source_of, is_given, set_policy,
  set_permission, has_active_filters, clear_filters,
}
use mystic_auth.Users.Filters.Shown.{get_param-delete_param}

-- When the URL names a policy and a permission, `clearFilters` leaves the page filtered by that
-- policy: its second navigation is made from the query that the first has already changed.
pub clear_filters-keeps_policy :
    (f : UsersFilters) (policy permission : String)
    → get_param "policy" f.url ≡ some policy
    → get_param "permission" f.url ≡ some permission
    → shown_policy (clear_filters f f) ≡ policy
unfolding clear_filters set_policy set_permission
clear_filters-keeps_policy f policy permission h k = rw k (
    ap (λ o. get_or o "")
      (get_param-delete_param "permission_source" "policy" (delete_param "permission" f.url)
        ∙ get_param-delete_param "permission" "policy" f.url
        ∙ h))

none_active :
    (a b c : Option String)
    → a ≡ none
    → b ≡ none
    → c ≡ none
    → (not (get_or a "" == "") || (not (get_or b "" == "") || (is_given (source_of c) || false)))
      ≡ false
none_active a b c h k l = rw h (rw k (rw l refl))

-- When the URL does not name both, and names a source of the permission only together with the
-- permission, no filter is active after `clearFilters`.
clear_filters-has_active_filters :
    (f : UsersFilters)
    → ((get_param "policy" f.url ≡ none) ⊎ (get_param "permission" f.url ≡ none))
    → (get_param "permission" f.url ≡ none → get_param "permission_source" f.url ≡ none)
    → has_active_filters (clear_filters f f) ≡ false
unfolding clear_filters set_policy set_permission has_active_filters
clear_filters-has_active_filters f (inl h) k = elim (Option-cases (get_param "permission" f.url)) [
  | inl e ↦ rw h (rw e (none_active _ _ _ h e (k e)))
  | inr (q, e) ↦
      let url = delete_param "permission" f.url in
      let get = λ (name : String). get_param-delete_param "permission_source" name url in
      rw h (
        rw e (
          none_active _ _ _ (get "policy" ∙ get_param-delete_param "permission" "policy" f.url ∙ h)
            (get "permission" ∙ get_param-delete_param "permission" "permission" f.url)
            (get "permission_source")))
]
clear_filters-has_active_filters f (inr h) k = elim (Option-cases (get_param "policy" f.url)) [
  | inl e ↦ rw h (rw e (none_active _ _ _ e h (k h)))
  | inr (p, e) ↦ rw h (
      rw e (
        none_active _ _ _ (get_param-delete_param "policy" "policy" f.url)
          (get_param-delete_param "policy" "permission" f.url ∙ h)
          (get_param-delete_param "policy" "permission_source" f.url ∙ k h)))
]
