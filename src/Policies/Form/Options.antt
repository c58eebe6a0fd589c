-- ===== src/Policies/Form/Options.antt =====
-- The options that usePolicyFormState.ts offers.
use mystic_auth.Prelude.{
  String, Bool, true, false, not, ◌&&◌, ◌||◌, ◌≡◌, Option, none, some, List, [], ◌∷◌, ◌++◌, map,
  ◌==◌, String_eq, filter, has, add, add_all, if◌then◌else◌, All, append-nil, sym, arith,
  Bool-cases, inl, inr,
}
use mystic_auth.Authorization.{Action, can_grant_action}
use mystic_auth.Users.AccessRows.{PermissionCatalogEntry}
use mystic_auth.Policies.Form.{EditedPolicy, all_resource_types_value}

-- `{ value, label }`
pub record FormOption : Type 0 where
  pub value : String
  pub label : String

-- `catalogQuery.data ?? []`
abbrev pub entries_of : Option (List PermissionCatalogEntry) → List PermissionCatalogEntry
entries_of none = []
entries_of (some entries) = entries

abbrev pub is_for_all_types : Option EditedPolicy → Bool
is_for_all_types none = false
is_for_all_types (some edited) = edited.policy.resource_type == all_resource_types_value

module _ (t : String → String) (format_type : String → String → String) where
  unfoldable pub resource_type_options :
      Option (List PermissionCatalogEntry) → Option EditedPolicy → List FormOption
  unfolding add
  resource_type_options catalog policy =
      let types = add_all [] (map (λ e. e.resource_type) (entries_of catalog)) in
      let options =
        map
          (λ type. record {
            value = type;
            label = format_type type (t "policies:page.allResourceTypes");
          })
          types in
      if is_for_all_types policy
      then record {
        value = all_resource_types_value;
        label = t "policies:columns.allResourceTypesTag";
      }
        ∷ options
      else options

module _ (trim format : String → String) where
  -- `entry.description?.trim() || formatPolicyActionLabel(entry.action)`
  abbrev pub described : Option String → String → String
  described none action = format action
  described (some description) action =
      if trim description == "" then format action else trim description

  abbrev pub option_of : PermissionCatalogEntry → FormOption
  option_of e = record { value = e.action; label = described e.description e.action }

  unfoldable pub action_options :
      Option (List PermissionCatalogEntry)
      → String
      → List String
      → (Action → Bool)
      → List FormOption
  unfolding can_grant_action
  action_options catalog resource_type actions can =
      let entries =
        if resource_type == all_resource_types_value
        then entries_of catalog
        else filter (λ e. e.resource_type == resource_type) (entries_of catalog) in
      let grantable = filter (λ e. can_grant_action e.action can) entries in
      let visible =
        grantable
        ++ filter (λ e. has actions e.action && not (can_grant_action e.action can)) entries in
      map option_of visible

  module _ (actions : List String) (can : Action → Bool) where
    -- The caller may grant the action of an option, or the form has selected it.
    abbrev pub IsAllowed : FormOption → Type 0
    IsAllowed o = (can_grant_action o.value can || has actions o.value) ≡ true

    filter-Allowed :
        (p : PermissionCatalogEntry → Bool)
        → ((e : PermissionCatalogEntry) → p e ≡ true → IsAllowed (option_of e))
        → (es rest : List PermissionCatalogEntry) → All IsAllowed (map option_of rest)
        → All IsAllowed (map option_of (filter p es ++ rest))
    filter-Allowed p h [] rest k = k
    filter-Allowed p h (e ∷ es) rest k = elim (Bool-cases (p e)) [
      | inl kept ↦ rw kept (h e kept, filter-Allowed p h es rest k)
      | inr dropped ↦ rw dropped (filter-Allowed p h es rest k)
    ]

    visible-Allowed :
        (es : List PermissionCatalogEntry)
        → All IsAllowed (
            map option_of (
              filter (λ e. can_grant_action e.action can) es
              ++ filter (λ e. has actions e.action && not (can_grant_action e.action can)) es))
    visible-Allowed es =
        let q = λ (e : PermissionCatalogEntry).
          has actions e.action && not (can_grant_action e.action can) in
        let held : All IsAllowed (map option_of (filter q es)) =
          rw (sym (append-nil (filter q es)))
            (filter-Allowed q (λ e h. ground (arith, h)) es [] tt) in
        filter-Allowed (λ e. can_grant_action e.action can) (λ e h. ground (arith, h)) es
          (filter q es) held

    -- Every action that the form offers is one that the caller may grant or one that the form has
    -- selected.
    action_options-Allowed :
        (catalog : Option (List PermissionCatalogEntry)) (resource_type : String)
        → All IsAllowed (action_options catalog resource_type actions can)
    unfolding action_options
    action_options-Allowed catalog resource_type = visible-Allowed (
        if resource_type == all_resource_types_value
        then entries_of catalog
        else filter (λ e. e.resource_type == resource_type) (entries_of catalog))
