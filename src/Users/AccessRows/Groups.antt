-- ===== src/Users/AccessRows/Groups.antt =====
-- The headings of the permission list of userAccessDialogRows.ts.
use mystic_auth.Prelude.{
  String, Bool, ◌&&◌, ◌≡◌, refl, ap, ◌∙◌, get_or, List, [], ◌∷◌, map, ◌==◌, String_eq, any, has,
  has-filter, has-add_all, add_all, filter, Order, arith,
}
use mystic_auth.Users.AccessRows.{
  PermissionCatalogEntry, UserAccessState, is_granted, passes_access_filter, shows_permission,
  permission_rows, permission_groups,
}

has-resource_types :
    (es : List PermissionCatalogEntry) (group : String)
    → has (map (λ e. e.resource_type) es) group ≡ any (λ e. e.resource_type == group) es
has-resource_types [] group = refl
has-resource_types (e ∷ es) group = ground (arith, has-resource_types es group)

any-filter_le :
    (p q : PermissionCatalogEntry → Bool) (es : List PermissionCatalogEntry)
    → (any p es && any p (filter q es)) ≡ any p (filter q es)
any-filter_le p q [] = refl
any-filter_le p q (e ∷ es) = ground (arith, any-filter_le p q es)

-- A resource type has a heading exactly when a permission of that type is shown.
has-permission_groups :
    (trim lower : String → String) (o : Order String) (s : UserAccessState) (group : String)
    → has (permission_groups trim lower o s) group
      ≡ any (λ e. e.resource_type == group) (permission_rows trim lower o s)
unfolding permission_groups permission_rows
has-permission_groups trim lower o s group =
    let es = get_or s.catalog [] in
    let shown : PermissionCatalogEntry → Bool = λ e.
      passes_access_filter s.perm_filter (is_granted s e) && shows_permission trim lower o s e in
    has-filter (λ g. any (λ e. e.resource_type == g) (filter shown es))
      (add_all [] (map (λ e. e.resource_type) es)) group
    ∙ ap (λ b. b && any (λ e. e.resource_type == group) (filter shown es))
        (has-add_all [] (map (λ e. e.resource_type) es) group ∙ has-resource_types es group)
    ∙ any-filter_le (λ e. e.resource_type == group) shown es
