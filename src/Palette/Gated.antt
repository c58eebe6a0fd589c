-- ===== src/Palette/Gated.antt =====
-- What the palette shows to whom.
use mystic_auth.Prelude.{
  String, true, not, ◌≡◌, ◌∙◌, List, ◌++◌, String_eq, All, All-append, All-any, any-All,
}
use mystic_auth.Session.AuthStore.{AuthState}
use mystic_auth.Palette.{filtered}
use mystic_auth.Palette.Items.{NavItem, SearchItem, nav_items, search_items}
use mystic_auth.Palette.Kept.{any-filtered}
use mystic_auth.Palette.Search.{Chrome, Answers, palette_candidates, use_command_palette_results}
use mystic_auth.Palette.Gates.{
  is_gated, IsGated, filtered_pages-IsGated, filtered_content-IsGated, text_matches-IsGated,
  permission_matches-IsGated, filtered_policies-IsGated, filtered_users-IsGated,
}

-- Whatever is typed and whatever the backend has answered, every result of the palette leads where
-- the signed-in user may go: a page or a feature that needs no permission or one that is held, a
-- text on one of these, and permissions, policies or users only with the permission to read or list
-- them.
pub use_command_palette_results-IsGated :
    (encode : String → String) (chrome : Chrome) (s : AuthState) (answers : Answers)
    (trimmed_query : String) (extra_nav_items : List NavItem) (extra_search_items : List SearchItem)
    → All
        (λ r.
          is_gated s (nav_items ++ extra_nav_items) (search_items ++ extra_search_items) r ≡ true)
        (use_command_palette_results encode chrome s answers trimmed_query extra_nav_items
          extra_search_items)
unfolding use_command_palette_results palette_candidates
use_command_palette_results-IsGated encode chrome s answers trimmed_query extra_navs extra_items =
    let navs = nav_items ++ extra_navs in
    let items = search_items ++ extra_items in
    let lower = chrome.case.lower in
    let q = lower trimmed_query in
    let P = IsGated s navs items in
    let candidates =
      palette_candidates encode chrome s answers trimmed_query extra_navs extra_items in
    let gated : All P candidates = All-append P _ _ (filtered_pages-IsGated s navs items chrome q) (
      All-append P _ _ (filtered_content-IsGated s navs items chrome q) (
        All-append P _ _ (text_matches-IsGated s navs items chrome q) (
          All-append P _ _
            (permission_matches-IsGated s navs items lower encode q _ answers.permission_catalog)
            (All-append P _ _
              (filtered_policies-IsGated s navs items lower encode trimmed_query _
                answers.policy_results)
              (filtered_users-IsGated s navs items lower encode trimmed_query
                answers.user_results))))) in
    All-any (is_gated s navs items) (filtered lower q candidates) (
      any-filtered (λ r. not (is_gated s navs items r)) lower q candidates
      ∙ any-All (is_gated s navs items) candidates gated)
