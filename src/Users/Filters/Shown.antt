-- ===== src/Users/Filters/Shown.antt =====
-- What the filters of useUsersPageFilters.ts show after a setter.
use mystic_auth.Prelude.{
  String, ◌≡◌, ap, ◌∙◌, none, some, get_or, List, [], ◌∷◌, ◌==◌, String_eq, ==_iff, ==_refl,
  if◌then◌else◌, arith, Bool-cases, Option-cases, inl, inr,
}
use mystic_auth.Users.Filters.{
  UsersFilters, all_value, get_param, delete_param, set_param, shown_policy, shown_permission,
  set_policy, set_permission, Params, navigated, policy_params, permission_params,
}

pub get_param-delete_param :
    (name key : String) (ps : List (String × String))
    → get_param key (delete_param name ps) ≡ (if name == key then none else get_param key ps)
get_param-delete_param name key [] = ground arith
get_param-delete_param name key ((k, v) ∷ ps) =
    ground (arith, get_param-delete_param name key ps, ==_iff k name, ==_iff k key, ==_iff name key)

pub get_param-set_param :
    (name value : String) (ps : List (String × String))
    → get_param name (set_param name value ps) ≡ some value
get_param-set_param name value [] = ground (arith, ==_refl name)
get_param-set_param name value ((k, v) ∷ ps) =
    ground (arith, get_param-set_param name value ps, ==_refl name)

get_param-navigated :
    (name value : String) (next url : Params)
    → get_or (get_param name next) value ≡ value
    → get_or (get_param name (navigated (get_param name url) next url)) value ≡ value
get_param-navigated name value next url h = elim (Option-cases (get_param name url)) [
  | inl e ↦ rw e (ap (λ o. get_or o value) e)
  | inr (v, e) ↦ rw e h
]

policy_params-shown :
    (value : String) (url : Params)
    → get_or (get_param "policy" (policy_params value url)) value ≡ value
policy_params-shown value url = elim (Bool-cases (value == all_value)) [
  | inl e ↦ rw e (ap (λ o. get_or o value) (get_param-delete_param "policy" "policy" url))
  | inr e ↦ rw e (ap (λ o. get_or o value) (get_param-set_param "policy" value url))
]

permission_params-shown :
    (value : String) (url : Params)
    → get_or (get_param "permission" (permission_params value url)) value ≡ value
permission_params-shown value url = elim (Bool-cases (value == all_value)) [
  | inl e ↦ rw e (
      ap (λ o. get_or o value)
        (get_param-delete_param "permission_source" "permission" (delete_param "permission" url)
          ∙ get_param-delete_param "permission" "permission" url))
  | inr e ↦ rw e (ap (λ o. get_or o value) (get_param-set_param "permission" value url))
]

-- Right after `setPolicy` the page is filtered by the value set, and after `setPermission` by that
-- permission, whether or not the URL named another.
set_policy-set_permission :
    (f : UsersFilters) (value : String)
    → (shown_policy (set_policy f value f) ≡ value)
      × (shown_permission (set_permission f value f) ≡ value)
unfolding set_policy set_permission
set_policy-set_permission f value = (
  get_param-navigated "policy" value (policy_params value f.url) f.url
      (policy_params-shown value f.url),
  get_param-navigated "permission" value (permission_params value f.url) f.url
      (permission_params-shown value f.url),
)
