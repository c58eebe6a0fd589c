-- ===== src/Authorization/Permissions.antt =====
-- frontend/src/mystic_auth/authorization/permissions.ts: `PERMISSIONS`.
use mystic_auth.Prelude.{String}

abbrev pub users_read_own : String
users_read_own = "users:read_own"

abbrev pub users_update_own : String
users_update_own = "users:update_own"

abbrev pub users_list_all : String
users_list_all = "users:list_all"

abbrev pub users_update_any : String
users_update_any = "users:update_any"

abbrev pub users_deactivate_any : String
users_deactivate_any = "users:deactivate_any"

abbrev pub users_assign_role : String
users_assign_role = "users:assign_role"

abbrev pub users_assign_system_role : String
users_assign_system_role = "users:assign_system_role"

abbrev pub users_delete_any : String
users_delete_any = "users:delete_any"

abbrev pub users_reactivate : String
users_reactivate = "users:reactivate"

abbrev pub users_manage_passkeys : String
users_manage_passkeys = "users:manage_passkeys"

abbrev pub policies_read : String
policies_read = "policies:read"

abbrev pub policies_create : String
policies_create = "policies:create"

abbrev pub policies_update : String
policies_update = "policies:update"

abbrev pub policies_delete : String
policies_delete = "policies:delete"

abbrev pub policies_assign : String
policies_assign = "policies:assign"

abbrev pub policies_revoke : String
policies_revoke = "policies:revoke"

abbrev pub permissions_grant : String
permissions_grant = "permissions:grant"

abbrev pub permissions_revoke : String
permissions_revoke = "permissions:revoke"

abbrev pub permissions_read : String
permissions_read = "permissions:read"

abbrev pub security_audit_read : String
security_audit_read = "security_audit:read"

abbrev pub rate_limits_read : String
rate_limits_read = "rate_limits:read"

abbrev pub rate_limits_reset : String
rate_limits_reset = "rate_limits:reset"
