-- ===== src/Palette/Gates.antt =====
-- Who may see which result of the palette, and that the results of each kind keep to it.
use mystic_auth.Prelude.{
  String, Bool, true, ◌&&◌, ◌||◌, ◌≡◌, refl, Option, none, some, List, [], ◌∷◌, map, ◌==◌,
  String_eq, ==_refl, any, has, All, In, All-In, All-map, All-filter, All-take, arith, Bool-cases,
  inl, inr,
}
use mystic_auth.Policies.{PolicyRead}
use mystic_auth.Session.AuthStore.{AuthState}
use mystic_auth.Users.AccessRows.{PermissionCatalogEntry}
use mystic_auth.Authorization.{Action, one, any_of, can, signed_in}
use mystic_auth.Authorization.Access.{holds, can_one}
use mystic_auth.Authorization.Permissions.{permissions_read, policies_read, users_list_all}
use mystic_auth.Palette.{
  PaletteResult, ResultKind, of_page, of_content, of_match, of_policy, of_user, FoundUser,
  entry_key, text_match_results_limit, permission_matches, entry_matches, filtered_policies,
  filtered_users, policy_result, user_result,
}
use mystic_auth.Palette.Items.{NavItem, SearchItem}
use mystic_auth.Palette.Matches.{text_matches-All}
use mystic_auth.Palette.Search.{
  Chrome, Indexed, is_open_to, visible_nav_items, visible_search_items, page_of, content_of,
  page_index, content_index, found_in, filtered_pages, filtered_content, text_matches,
}

-- What the store grants: a signed-in user holds the permission, or one of several.
abbrev pub may_open : AuthState → Option Action → Bool
may_open s none = true
may_open s (some (one action)) = action == "" || holds s action
may_open s (some (any_of actions)) =
    signed_in s.is_authenticated && any (λ a. has s.permissions a) actions

abbrev pub opens_page : AuthState → List NavItem → String → Bool
opens_page s navs to = any (λ i. i.to == to && may_open s i.permission) navs

abbrev pub opens_feature : AuthState → List SearchItem → String → Bool
opens_feature s items to = any (λ i. i.to == to && may_open s i.permission) items

-- A result of each kind leads where the user may go.
abbrev pub gated_by : AuthState → List NavItem → List SearchItem → ResultKind → String → Bool
gated_by s navs items of_page to = opens_page s navs to
gated_by s navs items of_content to = opens_feature s items to
gated_by s navs items of_match to =
    opens_page s navs to || (opens_feature s items to || holds s permissions_read)
gated_by s navs items of_policy to = holds s policies_read
gated_by s navs items of_user to = holds s users_list_all

abbrev pub is_gated : AuthState → List NavItem → List SearchItem → PaletteResult → Bool
is_gated s navs items r = gated_by s navs items r.kind r.to

abbrev pub IsGated : AuthState → List NavItem → List SearchItem → PaletteResult → Type 0
IsGated s navs items r = is_gated s navs items r ≡ true

is_open_to-may_open : (s : AuthState) (p : Option Action) → is_open_to s p ≡ may_open s p
unfolding can
is_open_to-may_open s none = refl
is_open_to-may_open s (some (one a)) = ground arith
is_open_to-may_open s (some (any_of actions)) = ground arith

module _ (s : AuthState) (navs : List NavItem) (items : List SearchItem) where
  abbrev OpenPage : NavItem → Type 0
  OpenPage i = opens_page s navs i.to ≡ true

  abbrev OpenFeature : SearchItem → Type 0
  OpenFeature i = opens_feature s items i.to ≡ true

  open_page : (i : NavItem) → In navs i → is_open_to s i.permission ≡ true → OpenPage i
  open_page i m h =
      m (λ j. j.to == i.to && may_open s j.permission)
        (ground (arith, ==_refl i.to, is_open_to-may_open s i.permission))

  open_feature : (i : SearchItem) → In items i → is_open_to s i.permission ≡ true → OpenFeature i
  open_feature i m h =
      m (λ j. j.to == i.to && may_open s j.permission)
        (ground (arith, ==_refl i.to, is_open_to-may_open s i.permission))

  All-found_in :
      (q : String) (index : List Indexed)
      → All (λ i. IsGated s navs items i.result) index
      → All (IsGated s navs items) (found_in q index)
  All-found_in q index h =
      All-map (IsGated s navs items) (λ i. i.result) _
        (All-filter (λ i. IsGated s navs items i.result) (λ i. IsGated s navs items i.result) _
          (λ i g e. g) index h)

  module _ (chrome : Chrome) (q : String) where
    page_index-IsGated : All (λ i. IsGated s navs items i.result) (page_index chrome s navs)
    unfolding page_index
    page_index-IsGated =
        All-map (λ i. IsGated s navs items i.result) (page_of chrome) (visible_nav_items s navs)
          (All-filter (In navs) OpenPage _ open_page navs (All-In navs))

    pub filtered_pages-IsGated : All (IsGated s navs items) (filtered_pages chrome s q navs)
    unfolding filtered_pages
    filtered_pages-IsGated = elim (Bool-cases (q == "")) [
      | inl e ↦ rw e (
          All-map (IsGated s navs items) (λ i. i.result) (page_index chrome s navs)
            page_index-IsGated)
      | inr e ↦ rw e (All-found_in q (page_index chrome s navs) page_index-IsGated)
    ]

    pub filtered_content-IsGated : All (IsGated s navs items) (filtered_content chrome s q items)
    unfolding filtered_content content_index
    filtered_content-IsGated = elim (Bool-cases (q == "")) [
      | inl e ↦ rw e tt
      | inr e ↦ rw e (
          All-found_in q (content_index chrome s items) (
            All-map (λ i. IsGated s navs items i.result) (content_of chrome)
              (visible_search_items s items)
              (All-filter (In items) OpenFeature _ open_feature items (All-In items))))
    ]

    pub text_matches-IsGated : All (IsGated s navs items) (text_matches chrome s q navs items)
    text_matches-IsGated =
        text_matches-All chrome s q navs items (IsGated s navs items)
          (λ i m h ns n label l. from_page i (open_page i m h))
          (λ i scope m h e label l. from_feature i (open_feature i m h))
      where
        from_page :
            (i : NavItem)
            → OpenPage i
            → (opens_page s navs i.to || (opens_feature s items i.to || holds s permissions_read))
              ≡ true
        from_page i h = ground arith

        from_feature :
            (i : SearchItem)
            → OpenFeature i
            → (opens_page s navs i.to || (opens_feature s items i.to || holds s permissions_read))
              ≡ true
        from_feature i h = ground arith

  module _ (lower encode : String → String) where
    entry_matches-IsGated :
        (q page_label : String) (seen : List String) (es : List PermissionCatalogEntry)
        → holds s permissions_read ≡ true
        → All (IsGated s navs items) (entry_matches lower encode q page_label seen es)
    entry_matches-IsGated q page_label seen [] h = tt
    entry_matches-IsGated q page_label seen (e ∷ es) h = ground (
      arith,
      entry_matches-IsGated q page_label seen es h,
      entry_matches-IsGated q page_label (entry_key lower encode e ∷ seen) es h,
    )

    pub permission_matches-IsGated :
        (q page_label : String) (catalog : Option (List PermissionCatalogEntry))
        → All
            (IsGated s navs items)
            (permission_matches lower encode q (can s (one permissions_read)) catalog page_label)
    unfolding permission_matches
    permission_matches-IsGated q page_label none = tt
    permission_matches-IsGated q page_label (some es) =
        rw (can_one s permissions_read) (elim (Bool-cases (holds s permissions_read)) [
          | inl e ↦ elim (Bool-cases (q == "")) [
            | inl d ↦ rw (e, d) tt
            | inr d ↦
                rw (e, d)
                  (All-take (IsGated s navs items) text_match_results_limit _
                    (entry_matches-IsGated q page_label [] es e))
          ]
          | inr e ↦ elim (Bool-cases (q == "")) [ inl d ↦ rw (e, d) tt | inr d ↦ rw (e, d) tt ]
        ])

    map-IsGated :
        {A : Type 0} (f : A → PaletteResult) (xs : List A)
        → ((x : A) → IsGated s navs items (f x))
        → All (IsGated s navs items) (map f xs)
    map-IsGated f [] h = tt
    map-IsGated f (x ∷ xs) h = (h x, map-IsGated f xs h)

    pub filtered_policies-IsGated :
        (query page_label : String) (policies : Option (List PolicyRead))
        → All
            (IsGated s navs items)
            (filtered_policies lower encode (can s (one policies_read)) query policies page_label)
    unfolding filtered_policies
    filtered_policies-IsGated query page_label policies =
        rw (can_one s policies_read) (elim (Bool-cases (holds s policies_read)) [
          | inl e ↦ map-IsGated (policy_result lower encode page_label) _ (λ p. e)
          | inr e ↦ rw e tt
        ])

    pub filtered_users-IsGated :
        (query : String) (users : Option (List FoundUser))
        → All
            (IsGated s navs items)
            (filtered_users lower encode (can s (one users_list_all)) query users)
    unfolding filtered_users
    filtered_users-IsGated query users =
        rw (can_one s users_list_all) (elim (Bool-cases (holds s users_list_all)) [
          | inl e ↦ map-IsGated (user_result lower encode) _ (λ u. e)
          | inr e ↦ rw e tt
        ])
