-- ===== src/Users/AccessDialog.antt =====
-- frontend/src/mystic_auth/users/dialogs/useUserAccessDialogState.ts: which queries the dialog of a
-- user's access makes, its own state, and the handlers that it passes on to
-- userAccessDialogHandlers.ts. The data of a query that has not loaded is none; setters that only
-- store a value are record updates.
pub mod NeedToKnow
pub mod Reopened
mod Tests
use mystic_auth.Prelude.{
  String, Bool, true, false, not, ◌&&◌, ◌||◌, Option, none, some, get_or, List, [], ◌∷◌, ◌++◌, map,
  ◌==◌, String_eq, has, add, delete, add_all, if◌then◌else◌,
}
use mystic_auth.Policies.{PolicyRead, Grant}
use mystic_auth.Policies.EffectiveGrants.{build_effective_grant_key_set}
use mystic_auth.Session.AuthStore.{AuthState}
use mystic_auth.Authorization.{one, any_of, can, use_can}
use mystic_auth.Authorization.Permissions.{
  policies_read, policies_create, policies_update, permissions_read, permissions_grant,
  security_audit_read,
}
use mystic_auth.Ui.Undo.{Screen}
use mystic_auth.Users.AccessRows.{AccessFilter, show_all, PermissionCatalogEntry}
use mystic_auth.Users.AccessHandlers.{
  AccessRequest, Started, CurrentGrant, absent_text, toggle_policy, request_revoke_policy_action,
  toggle_direct_permission, save_conditions,
}

pub data AccessDialogTab : Type 0 where
  details_tab policies_tab permissions_tab : AccessDialogTab

-- A query of the backend that the dialog may enable, with the user whom it is about.
pub data AccessQuery : Type 0 where
  user_policies_of : String → AccessQuery
  my_own_policies : AccessQuery
  user_permissions_of : String → AccessQuery
  my_own_permissions : AccessQuery
  all_policies_list : AccessQuery
  permission_catalog : AccessQuery
  my_access_changes : AccessQuery
  access_changes_of : String → AccessQuery

abbrev pub is_current : Option String → String → Bool
is_current none user_email = false
is_current (some current) user_email = user_email == current

-- `!!userEmail && userEmail === currentUserEmail`
abbrev pub is_self : AuthState → Option String → Bool
is_self s none = false
is_self s (some user_email) = not (user_email == "") && is_current s.email user_email

abbrev pub is_given : Option String → Bool
is_given user_email = not (absent_text user_email)

abbrev pub can_read_policies : AuthState → Bool
can_read_policies s = use_can s (one policies_read)

abbrev pub can_read_permissions : AuthState → Bool
can_read_permissions s = use_can s (one permissions_read)

abbrev pub can_read_catalog : AuthState → Bool
can_read_catalog s =
    use_can s
      (any_of (permissions_read ∷ policies_create ∷ policies_update ∷ permissions_grant ∷ []))

abbrev pub can_read_security_audit : AuthState → Bool
can_read_security_audit s = use_can s (one security_audit_read)

abbrev pub can_see_policies : AuthState → Option String → Bool
can_see_policies s user_email = is_self s user_email || can_read_policies s

abbrev pub can_see_permissions : AuthState → Option String → Bool
can_see_permissions s user_email = is_self s user_email || can_read_permissions s

abbrev pub when : Bool → AccessQuery → List AccessQuery
when enabled query = if enabled then query ∷ [] else []

abbrev pub access_changes_query : AuthState → Option String → AccessQuery
access_changes_query s user_email =
    if is_self s user_email then my_access_changes else access_changes_of (get_or user_email "")

-- The queries that a render enables.
unfoldable pub enabled_queries : Bool → Option String → AuthState → List AccessQuery
unfolding use_can can
enabled_queries is_open user_email s =
    let email = get_or user_email "" in
    let other = is_open && (is_given user_email && not (is_self s user_email)) in
    when (other && can_read_policies s) (user_policies_of email)
    ++ (when (is_open && is_self s user_email) my_own_policies
        ++ (when (other && can_read_permissions s) (user_permissions_of email)
            ++ (when (is_open && is_self s user_email) my_own_permissions
                ++ (when (is_open && can_read_policies s) all_policies_list
                    ++ (when (is_open && can_read_catalog s) permission_catalog
                        ++ when
                            (is_open
                              && (is_given user_email
                                  && (is_self s user_email || can_read_security_audit s)))
                            (access_changes_query s user_email))))))

pub record DialogState : Type 0 where
  pub tab : AccessDialogTab
  pub pol_query : String
  pub pol_filter : AccessFilter
  pub pol_open : List String
  pub perm_query : String
  pub perm_filter : AccessFilter
  pub perm_closed_groups : List String
  pub editing_key : Option String
  pub prev_is_open : Bool

abbrev pub initial_dialog : Bool → DialogState
initial_dialog is_open = record {
  tab = details_tab;
  pol_query = "";
  pol_filter = show_all;
  pol_open = [];
  perm_query = "";
  perm_filter = show_all;
  perm_closed_groups = [];
  editing_key = none;
  prev_is_open = is_open;
}

abbrev pub bool_eq : Bool → Bool → Bool
bool_eq true b = b
bool_eq false b = not b

-- What a render does to the state: the reset on every open.
unfoldable pub render_dialog : Bool → AccessDialogTab → DialogState → DialogState
render_dialog is_open initial_tab d =
    if bool_eq is_open d.prev_is_open
    then d
    else (if is_open
        then record (initial_dialog is_open) { tab = initial_tab }
        else record d { prev_is_open = is_open })

-- A set with a member put in or taken out.
abbrev pub toggled : List String → String → List String
toggled s x = if has s x then delete s x else add s x

unfoldable pub toggle_policy_open : String → DialogState → DialogState
unfolding add delete
toggle_policy_open policy_name d = record d { pol_open = toggled d.pol_open policy_name }

unfoldable pub expand_all_policies : Option (List PolicyRead) → DialogState → DialogState
unfolding add
expand_all_policies all_policies d = record d {
  pol_open = add_all [] (map (λ p. p.name) (get_or all_policies []));
}

unfoldable pub collapse_all_policies : DialogState → DialogState
collapse_all_policies d = record d { pol_open = [] }

unfoldable pub toggle_perm_group : String → DialogState → DialogState
unfolding add delete
toggle_perm_group resource_type d = record d {
  perm_closed_groups = toggled d.perm_closed_groups resource_type;
}

unfoldable pub expand_all_perm_groups : DialogState → DialogState
expand_all_perm_groups d = record d { perm_closed_groups = [] }

unfoldable pub collapse_all_perm_groups :
    Option (List PermissionCatalogEntry) → DialogState → DialogState
unfolding add
collapse_all_perm_groups catalog d = record d {
  perm_closed_groups = add_all [] (map (λ e. e.resource_type) (get_or catalog []));
}

abbrev pub save_done : DialogState → DialogState
save_done d = record d { editing_key = none }

-- A direct grant of the user, with its conditions.
pub record DirectGrant (C : Type 0) : Type 0 where
  pub action : String
  pub resource_type : String
  pub conditions : Option C

-- `assignedNames.has(policyName)`
unfoldable pub was_assigned : Option (List PolicyRead) → String → Bool
unfolding add
was_assigned assigned_policies policy_name =
    has (add_all [] (map (λ p. p.name) (get_or assigned_policies []))) policy_name

module _ {C : Type 0} where
  unfoldable pub find_grant : List (DirectGrant C) → String → String → CurrentGrant C
  find_grant [] action resource_type = none
  find_grant (g ∷ gs) action resource_type =
      if g.action == action && g.resource_type == resource_type
      then some g.conditions
      else find_grant gs action resource_type

  abbrev pub as_grant : DirectGrant C → Grant
  as_grant g = record { action = g.action; resource_type = g.resource_type }

  unfoldable pub effective_grant_keys :
      Option (List PolicyRead) → Option (List (DirectGrant C)) → List String
  unfolding build_effective_grant_key_set
  effective_grant_keys assigned_policies direct_grants =
      build_effective_grant_key_set (get_or assigned_policies [])
        (map as_grant (get_or direct_grants []))

  module _ {S : Type 0} (t : String → List (String × String) → String) where
    unfoldable pub dialog_toggle_policy :
        Option String → Option (List PolicyRead) → String → Screen (AccessRequest C) S → Started C S
    unfolding was_assigned toggle_policy
    dialog_toggle_policy user_email assigned_policies policy_name =
        toggle_policy t user_email policy_name (was_assigned assigned_policies policy_name)

    unfoldable pub dialog_toggle_direct_permission :
        Option String
        → Option (List (DirectGrant C))
        → String
        → String
        → Screen (AccessRequest C) S
        → Started C S
    unfolding find_grant toggle_direct_permission
    dialog_toggle_direct_permission user_email direct_grants action resource_type =
        toggle_direct_permission t user_email action resource_type
          (find_grant (get_or direct_grants []) action resource_type)
