-- ===== src/Palette/Items.antt =====
-- frontend/src/mystic_auth/layout/app_layout/navItems.ts and
-- layout/command_palette/searchItems.ts: the pages and the features that the palette searches. Icons
-- are left out.
use mystic_auth.Prelude.{String, ℕ, Option, none, some, get_or, List, [], ◌∷◌, String_eq, lookup}
use mystic_auth.Authorization.{Action, one, any_of}
use mystic_auth.Authorization.Permissions.{
  users_list_all, policies_read, policies_create, permissions_read, rate_limits_read,
  security_audit_read,
}

pub record NavItem : Type 0 where
  pub label : String
  pub to : String
  pub permission : Option Action
  pub order : Option ℕ

abbrev nav_item : String → String → Option Action → ℕ → NavItem
nav_item label to permission order = record {
  label = label;
  to = to;
  permission = permission;
  order = some order;
}

unfoldable pub nav_items : List NavItem
nav_items =
    nav_item "layout:nav.dashboard" "/dashboard" none 10
    ∷ nav_item "layout:nav.users" "/users" (some (one users_list_all)) 20
    ∷ nav_item "layout:nav.policies" "/policies"
        (some (any_of (policies_read ∷ policies_create ∷ []))) 30
    ∷ nav_item "layout:nav.permissions" "/permissions" (some (one permissions_read)) 32
    ∷ nav_item "layout:nav.rateLimits" "/rate-limits" (some (one rate_limits_read)) 35
    ∷ nav_item "layout:nav.auditLog" "/audit-log" none 40
    ∷ nav_item "layout:nav.accountSettings" "/account-settings" none 50
    ∷ []

pub record Scope : Type 0 where
  pub namespace : String
  pub paths : List String

pub record SearchItem : Type 0 where
  pub label : String
  pub detail : Option String
  pub group : String
  pub match_keys : Option (List String)
  pub scope : Option Scope
  pub to : String
  pub permission : Option Action

abbrev password_item : SearchItem
password_item = record {
  label = "account_settings:tabs.password";
  detail = none;
  group = "account_settings:pageTitle";
  match_keys = none;
  scope =
      some (record {
        namespace = "account_settings";
        paths = "tabs.password" ∷ "changePassword" ∷ [];
      });
  to = "/account-settings?tab=password";
  permission = none;
}

abbrev passkeys_item : SearchItem
passkeys_item = record {
  label = "account_settings:tabs.passkeys";
  detail = none;
  group = "account_settings:pageTitle";
  match_keys = none;
  scope =
      some (record { namespace = "account_settings"; paths = "tabs.passkeys" ∷ "passkeys" ∷ [] });
  to = "/account-settings?tab=passkeys";
  permission = none;
}

abbrev profile_item : SearchItem
profile_item = record {
  label = "account_settings:tabs.profile";
  detail = none;
  group = "account_settings:pageTitle";
  match_keys = none;
  scope =
      some (record { namespace = "account_settings"; paths = "tabs.profile" ∷ "profileName" ∷ [] });
  to = "/account-settings?tab=profile";
  permission = none;
}

abbrev status_item : SearchItem
status_item = record {
  label = "account_settings:tabs.status";
  detail = none;
  group = "account_settings:pageTitle";
  match_keys = none;
  scope =
      some
        (record { namespace = "account_settings"; paths = "tabs.status" ∷ "accountStatus" ∷ [] });
  to = "/account-settings?tab=status";
  permission = none;
}

abbrev appearance_item : SearchItem
appearance_item = record {
  label = "account_settings:tabs.appearance";
  detail = none;
  group = "account_settings:pageTitle";
  match_keys = none;
  scope =
      some
        (record { namespace = "account_settings"; paths = "tabs.appearance" ∷ "appearance" ∷ [] });
  to = "/account-settings?tab=appearance";
  permission = none;
}

abbrev legal_item : SearchItem
legal_item = record {
  label = "account_settings:tabs.legal";
  detail = none;
  group = "account_settings:pageTitle";
  match_keys = none;
  scope = none;
  to = "/account-settings?tab=legal";
  permission = none;
}

abbrev danger_item : SearchItem
danger_item = record {
  label = "account_settings:tabs.danger";
  detail = none;
  group = "account_settings:pageTitle";
  match_keys = none;
  scope =
      some
        (record { namespace = "account_settings"; paths = "tabs.danger" ∷ "deleteAccount" ∷ [] });
  to = "/account-settings?tab=danger";
  permission = none;
}

abbrev active_sessions_item : SearchItem
active_sessions_item = record {
  label = "dashboard:activeSessionsCard.heading";
  detail = none;
  group = "layout:nav.dashboard";
  match_keys = none;
  scope =
      some
        (record { namespace = "dashboard"; paths = "activeSessionsCard" ∷ "parseUserAgent" ∷ [] });
  to = "/dashboard";
  permission = none;
}

abbrev authorization_mine_item : SearchItem
authorization_mine_item = record {
  label = "audit_log:tabs.authorizationDecisions";
  detail = some "audit_log:tabs.myActivity";
  group = "audit_log:page.title";
  match_keys = none;
  scope = some (record {
    namespace = "audit_log";
    paths = "tabs.authorizationDecisions" ∷ "tabs.myActivity" ∷ "authorization" ∷ [];
  });
  to = "/audit-log?category=authorization&scope=mine";
  permission = none;
}

abbrev authorization_all_item : SearchItem
authorization_all_item = record {
  label = "audit_log:tabs.authorizationDecisions";
  detail = some "audit_log:tabs.allUsers";
  group = "audit_log:page.title";
  match_keys = none;
  scope = some (record {
    namespace = "audit_log";
    paths = "tabs.authorizationDecisions" ∷ "tabs.allUsers" ∷ "authorization" ∷ [];
  });
  to = "/audit-log?category=authorization&scope=all";
  permission = some (one policies_read);
}

abbrev security_mine_item : SearchItem
security_mine_item = record {
  label = "audit_log:tabs.securityEvents";
  detail = some "audit_log:tabs.myActivity";
  group = "audit_log:page.title";
  match_keys = none;
  scope = some (record {
    namespace = "audit_log";
    paths = "tabs.securityEvents" ∷ "tabs.myActivity" ∷ "security" ∷ [];
  });
  to = "/audit-log?category=security&scope=mine";
  permission = none;
}

abbrev security_all_item : SearchItem
security_all_item = record {
  label = "audit_log:tabs.securityEvents";
  detail = some "audit_log:tabs.allUsers";
  group = "audit_log:page.title";
  match_keys = none;
  scope = some (record {
    namespace = "audit_log";
    paths = "tabs.securityEvents" ∷ "tabs.allUsers" ∷ "security" ∷ [];
  });
  to = "/audit-log?category=security&scope=all";
  permission = some (one security_audit_read);
}

unfoldable pub search_items : List SearchItem
search_items =
    password_item ∷ passkeys_item ∷ profile_item ∷ status_item ∷ appearance_item ∷ legal_item
    ∷ danger_item ∷ active_sessions_item ∷ authorization_mine_item ∷ authorization_all_item
    ∷ security_mine_item ∷ security_all_item ∷ []

-- `PAGE_CONTENT_NAMESPACES`
abbrev page_content_namespaces : List (String × List String)
page_content_namespaces =
    ("/dashboard", "dashboard" ∷ [])
    ∷ ("/users", "users" ∷ [])
    ∷ ("/policies", "policies" ∷ [])
    ∷ ("/permissions", "permissions" ∷ [])
    ∷ ("/rate-limits", "rate_limits" ∷ [])
    ∷ ("/audit-log", "audit_log" ∷ [])
    ∷ ("/account-settings", "account_settings" ∷ [])
    ∷ []

-- `PAGE_CONTENT_NAMESPACES[to] ?? []`
unfoldable pub namespaces_of : String → List String
unfolding lookup
namespaces_of to = get_or (lookup to page_content_namespaces) []
