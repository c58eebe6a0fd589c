-- ===== src/Api/Requests.antt =====
-- frontend/src/mystic_auth/api: the requests of users_api.ts, policies_api.ts, permissions_api.ts and
-- rate_limits_api.ts, as the values that the intercepted axios instance is called with. A parameter
-- that is none is left out of the query, as axios does with undefined. The payloads that only pass
-- through, `encodeURIComponent` and the text of a number are parameters.
pub mod Calls
pub mod Served
mod Tests
use Prim.Native.Nat.{ℕ}
use Prim.Native.String.{String}
use mystic_auth.Prelude.{
  Bool, Option, none, some, get_or, List, [], ◌∷◌, ◌==◌, String_eq, behind_each, if◌then◌else◌,
}

pub data Method : Type 0 where
  http_get http_post http_put http_patch http_delete : Method

pub data Value : Type 0 where
  text : String → Value
  number : ℕ → Value
  truth : Bool → Value

pub data Body (P : Type 0) : Type 0 where
  no_body : Body P
  fields : List (String × Value) → Body P
  payload : P → Body P

pub record HttpRequest (P : Type 0) : Type 0 where
  pub method : Method
  pub url : String
  pub params : List (String × Option Value)
  pub body : Body P

pub record ListUsersParams : Type 0 where
  pub limit : Option ℕ
  pub offset : Option ℕ
  pub search : Option String
  pub role : Option String
  pub is_verified : Option Bool
  pub status : Option String
  pub policy : Option String
  pub permission : Option String
  pub permission_source : Option String
  pub sort_by : Option String
  pub sort_dir : Option String
  pub last_login : Option String
  pub last_login_from : Option String
  pub last_login_to : Option String

pub record ListPoliciesParams : Type 0 where
  pub limit : Option ℕ
  pub offset : Option ℕ
  pub search : Option String
  pub resource_type : Option String
  pub is_active : Option Bool
  pub contains_action : Option String
  pub destructive_only : Option Bool
  pub sort_by : Option String
  pub sort_dir : Option String

abbrev pub opt_text : Option String → Option Value
opt_text none = none
opt_text (some s) = some (text s)

abbrev pub opt_truth : Option Bool → Option Value
opt_truth none = none
opt_truth (some b) = some (truth b)

unfoldable pub to_api_params : ListUsersParams → List (String × Option Value)
to_api_params p =
    ("limit", some (number (get_or p.limit 1000)))
    ∷ ("offset", some (number (get_or p.offset 0)))
    ∷ ("search", opt_text p.search)
    ∷ ("role", opt_text p.role)
    ∷ ("is_verified", opt_truth p.is_verified)
    ∷ ("status", opt_text p.status)
    ∷ ("policy", opt_text p.policy)
    ∷ ("permission", opt_text p.permission)
    ∷ ("permission_source", opt_text p.permission_source)
    ∷ ("sort_by", opt_text p.sort_by)
    ∷ ("sort_dir", opt_text p.sort_dir)
    ∷ ("last_login", opt_text p.last_login)
    ∷ ("last_login_from", opt_text p.last_login_from)
    ∷ ("last_login_to", opt_text p.last_login_to)
    ∷ []

unfoldable pub to_list_policies_api_params : ListPoliciesParams → List (String × Option Value)
to_list_policies_api_params p =
    ("limit", some (number (get_or p.limit 1000)))
    ∷ ("offset", some (number (get_or p.offset 0)))
    ∷ ("search", opt_text p.search)
    ∷ ("resource_type", opt_text p.resource_type)
    ∷ ("is_active", opt_truth p.is_active)
    ∷ ("contains_action", opt_text p.contains_action)
    ∷ ("destructive_only", opt_truth p.destructive_only)
    ∷ ("sort_by", opt_text p.sort_by)
    ∷ ("sort_dir", opt_text p.sort_dir)
    ∷ []

-- The path with these segments.
abbrev pub path : List String → String
path segments = behind_each "/" segments

-- `{ reason }` of an optional reason, as parameters and as a body.
abbrev pub reason_params : Option String → List (String × Option Value)
reason_params reason = ("reason", opt_text reason) ∷ []

abbrev pub reason_body : {P : Type 0} → Option String → Body P
reason_body none = fields []
reason_body (some reason) =
    if reason == "" then fields [] else fields (("reason", text reason) ∷ [])

module _ (encode_uri_component : String → String) where
  abbrev pub user_path : String → List String → String
  user_path user_email rest = path ("users" ∷ encode_uri_component user_email ∷ rest)

  abbrev pub policy_path : String → List String → String
  policy_path policy_name rest =
      path ("authorization" ∷ "policies" ∷ encode_uri_component policy_name ∷ rest)

  abbrev pub access_path : String → List String → String
  access_path user_email rest =
      path ("authorization" ∷ "users" ∷ encode_uri_component user_email ∷ rest)

module _ {P : Type 0} where
  abbrev pub request : Method → String → Body P → HttpRequest P
  request method url body = record { method = method; url = url; params = []; body = body }

  unfoldable pub list_users_api : ListUsersParams → HttpRequest P
  list_users_api p = record (request http_get (path ("users" ∷ "" ∷ [])) no_body) {
    params = to_api_params p;
  }

  unfoldable pub get_user_stats_api : HttpRequest P
  get_user_stats_api = request http_get (path ("users" ∷ "stats" ∷ [])) no_body

  unfoldable pub list_policies_api : ListPoliciesParams → HttpRequest P
  list_policies_api p =
      record (request http_get (path ("authorization" ∷ "policies" ∷ [])) no_body) {
        params = to_list_policies_api_params p;
      }

  unfoldable pub create_policy_api : P → HttpRequest P
  create_policy_api p = request http_post (path ("authorization" ∷ "policies" ∷ [])) (payload p)

  unfoldable pub get_my_policies_api : HttpRequest P
  get_my_policies_api =
      request http_get (path ("authorization" ∷ "users" ∷ "me" ∷ "policies" ∷ [])) no_body

  unfoldable pub get_my_permissions_api : HttpRequest P
  get_my_permissions_api =
      request http_get (path ("authorization" ∷ "users" ∷ "me" ∷ "permissions" ∷ [])) no_body

  module _ (encode_uri_component : String → String) (number_text : ℕ → String) where
    unfoldable pub update_user_api : String → P → HttpRequest P
    update_user_api user_email p =
        request http_put (user_path encode_uri_component user_email []) (payload p)

    unfoldable pub delete_user_api : String → HttpRequest P
    delete_user_api user_email =
        request http_delete (user_path encode_uri_component user_email []) no_body

    unfoldable pub purge_user_api : String → HttpRequest P
    purge_user_api user_email =
        request http_delete (user_path encode_uri_component user_email ("purge" ∷ [])) no_body

    unfoldable pub reactivate_user_api : String → HttpRequest P
    reactivate_user_api user_email =
        request http_patch (user_path encode_uri_component user_email ("reactivate" ∷ [])) no_body

    unfoldable pub list_user_passkeys_api : String → HttpRequest P
    list_user_passkeys_api user_email =
        request http_get (user_path encode_uri_component user_email ("passkeys" ∷ [])) no_body

    unfoldable pub revoke_user_passkey_api : String → ℕ → HttpRequest P
    revoke_user_passkey_api user_email passkey_id =
        request http_delete
          (user_path encode_uri_component user_email ("passkeys" ∷ number_text passkey_id ∷ []))
          no_body

    unfoldable pub revoke_all_user_passkeys_api : String → HttpRequest P
    revoke_all_user_passkeys_api user_email =
        request http_delete (user_path encode_uri_component user_email ("passkeys" ∷ [])) no_body

    unfoldable pub update_user_role_api : String → String → HttpRequest P
    update_user_role_api user_email role =
        request http_patch (user_path encode_uri_component user_email ("role" ∷ []))
          (fields (("role", text role) ∷ []))

    unfoldable pub get_policy_api : String → HttpRequest P
    get_policy_api policy_name =
        request http_get (policy_path encode_uri_component policy_name []) no_body

    unfoldable pub update_policy_api : String → P → HttpRequest P
    update_policy_api policy_name p =
        request http_put (policy_path encode_uri_component policy_name []) (payload p)

    unfoldable pub delete_policy_api : String → Option String → HttpRequest P
    delete_policy_api policy_name reason =
        record (request http_delete (policy_path encode_uri_component policy_name []) no_body) {
          params = reason_params reason;
        }

    unfoldable pub get_policy_history_api : String → Option ℕ → Option ℕ → HttpRequest P
    get_policy_history_api policy_name limit offset =
        record (request http_get (policy_path encode_uri_component policy_name ("history" ∷ []))
          no_body) {
            params =
                ("limit", some (number (get_or limit 50)))
                ∷ ("offset", some (number (get_or offset 0)))
                ∷ [];
          }

    unfoldable pub rollback_policy_api : String → ℕ → Option String → HttpRequest P
    rollback_policy_api policy_name history_id reason =
        request http_post
          (policy_path encode_uri_component policy_name
            ("history" ∷ number_text history_id ∷ "rollback" ∷ []))
          (reason_body reason)

    unfoldable pub get_policy_holders_api : String → HttpRequest P
    get_policy_holders_api policy_name =
        request http_get (policy_path encode_uri_component policy_name ("holders" ∷ [])) no_body

    unfoldable pub assign_policy_api : String → String → HttpRequest P
    assign_policy_api user_email policy_name =
        request http_post (access_path encode_uri_component user_email ("policies" ∷ []))
          (fields (("policy_name", text policy_name) ∷ []))

    unfoldable pub revoke_policy_api : String → String → HttpRequest P
    revoke_policy_api user_email policy_name =
        request http_delete
          (access_path encode_uri_component user_email
            ("policies" ∷ encode_uri_component policy_name ∷ []))
          no_body

    unfoldable pub revoke_policy_action_api : String → String → String → HttpRequest P
    revoke_policy_action_api user_email policy_name action =
        request http_post
          (access_path encode_uri_component user_email
            ("policies" ∷ encode_uri_component policy_name ∷ "revoke-action" ∷ []))
          (fields (("action", text action) ∷ []))

    unfoldable pub get_user_policies_api : String → HttpRequest P
    get_user_policies_api user_email =
        request http_get (access_path encode_uri_component user_email ("policies" ∷ [])) no_body

    unfoldable pub grant_permission_api : String → P → HttpRequest P
    grant_permission_api user_email p =
        request http_post (access_path encode_uri_component user_email ("permissions" ∷ []))
          (payload p)

    unfoldable pub revoke_permission_api : String → String → String → HttpRequest P
    revoke_permission_api user_email action resource_type =
        record (request http_delete
          (access_path encode_uri_component user_email
            ("permissions" ∷ encode_uri_component action ∷ []))
          no_body) { params = ("resource_type", some (text resource_type)) ∷ [] }

    unfoldable pub get_user_permissions_api : String → HttpRequest P
    get_user_permissions_api user_email =
        request http_get (access_path encode_uri_component user_email ("permissions" ∷ [])) no_body

    unfoldable pub reset_rate_limit_api : String → HttpRequest P
    reset_rate_limit_api key =
        request http_delete (path ("rate-limits" ∷ encode_uri_component key ∷ [])) no_body
