-- ===== src/Users/AccessRows.antt =====
-- frontend/src/mystic_auth/users/dialogs/userAccessDialogRows.ts. `trim`, `toLowerCase` and
-- `localeCompare` are parameters, the data of a query that has not loaded is none, and a `Map` is
-- an association list.
pub mod Merged
pub mod Groups
mod Tests
use mystic_auth.Prelude.{
  ℕ, String, Bool, true, false, not, ◌&&◌, ◌||◌, Option, none, some, get_or, List, [], ◌∷◌, ◌++◌,
  map, ◌==◌, String_eq, length, any, has, filter, add_all, values, upsert, if◌then◌else◌, includes,
  Order, sort_by,
}
use mystic_auth.Policies.{PolicyRead}
use mystic_auth.Policies.EffectiveGrants.{is_already_effectively_granted}

-- The code reads `description` by `?.`.
pub record PermissionCatalogEntry : Type 0 where
  pub action : String
  pub resource_type : String
  pub description : Option String

-- "all", "on" and "off".
pub data AccessFilter : Type 0 where
  show_all show_on show_off : AccessFilter

pub record UserAccessState : Type 0 where
  pub catalog : Option (List PermissionCatalogEntry)
  pub all_policies : Option (List PolicyRead)
  pub assigned_policies : List PolicyRead
  pub assigned_names : List String
  pub effective_grant_keys : List String
  pub pol_query : String
  pub pol_filter : AccessFilter
  pub perm_query : String
  pub perm_filter : AccessFilter

abbrev pub passes_access_filter : AccessFilter → Bool → Bool
passes_access_filter show_all holds = true
passes_access_filter show_on holds = holds
passes_access_filter show_off holds = not holds

abbrev pub is_granted : UserAccessState → PermissionCatalogEntry → Bool
is_granted s e = is_already_effectively_granted s.effective_grant_keys e.action e.resource_type

unfoldable pub total_granted : UserAccessState → ℕ
unfolding is_already_effectively_granted
total_granted s = length (filter (is_granted s) (get_or s.catalog []))

-- `new Map(entries)`: a later entry replaces the value of an earlier one, in its place.
unfoldable pub by_name : List (String × PolicyRead) → List PolicyRead → List (String × PolicyRead)
by_name m [] = m
by_name m (p ∷ ps) = by_name (upsert p.name (λ old. p) p m) ps

unfoldable pub merged_policies : UserAccessState → List (String × PolicyRead)
unfolding by_name
merged_policies s = by_name [] (s.assigned_policies ++ get_or s.all_policies [])

module _ (trim lower : String → String) (o : Order String) where
  abbrev pub matches : String → String → Bool
  matches query text = includes (lower text) query

  abbrev pub matches_optional : String → Option String → Bool
  matches_optional query none = false
  matches_optional query (some text) = matches query text

  abbrev pub shows_policy : UserAccessState → PolicyRead → Bool
  shows_policy s p =
      let query = lower (trim s.pol_query) in
      query == "" || matches query p.name || matches_optional query p.description

  unfoldable pub policy_rows : UserAccessState → List PolicyRead
  unfolding merged_policies
  policy_rows s =
      sort_by o (λ p. p.name)
        (filter (shows_policy s) (
          filter (λ p. passes_access_filter s.pol_filter (has s.assigned_names p.name))
            (values (merged_policies s))))

  abbrev pub shows_permission : UserAccessState → PermissionCatalogEntry → Bool
  shows_permission s e =
      let query = lower (trim s.perm_query) in
      query == ""
      || matches query e.action
      || matches_optional query e.description
      || matches query e.resource_type

  unfoldable pub permission_rows : UserAccessState → List PermissionCatalogEntry
  unfolding is_already_effectively_granted
  permission_rows s =
      filter (λ e. passes_access_filter s.perm_filter (is_granted s e) && shows_permission s e)
        (get_or s.catalog [])

  unfoldable pub permission_groups : UserAccessState → List String
  unfolding permission_rows
  permission_groups s =
      filter (λ group. any (λ e. e.resource_type == group) (permission_rows s))
        (add_all [] (map (λ e. e.resource_type) (get_or s.catalog [])))
