-- ===== src/Users/Filters.antt =====
-- frontend/src/mystic_auth/users/useUsersPageFilters.ts, the store usersUiStore.ts behind it, and
-- nextSortState of ui/hooks/useSortState.ts. The query of the URL is a list of names and values, as
-- URLSearchParams documents; a handler works on the query of the render it was made in, and each
-- call of setSearchParams replaces the query of the URL.
pub mod Shown
pub mod Cleared
mod Tests
use mystic_auth.Prelude.{
  String, Bool, true, false, not, ◌||◌, Option, none, some, get_or, List, [], ◌∷◌, ◌==◌, String_eq,
  if◌then◌else◌,
}

abbrev pub all_value : String
all_value = ""

pub data SortDirection : Type 0 where
  asc desc : SortDirection

pub record SortState : Type 0 where
  pub key : String
  pub direction : SortDirection

abbrev pub turned : SortDirection → SortDirection
turned asc = desc
turned desc = asc

unfoldable pub next_sort_state : SortState → String → SortState
next_sort_state prev key = record {
  key = key;
  direction = if prev.key == key then turned prev.direction else asc;
}

abbrev pub Params : Type 0
Params = List (String × String)

abbrev pub get_param : String → Params → Option String
get_param name [] = none
get_param name ((k, v) ∷ ps) = if k == name then some v else get_param name ps

abbrev pub delete_param : String → Params → Params
delete_param name [] = []
delete_param name ((k, v) ∷ ps) =
    let rest = delete_param name ps in if k == name then rest else (k, v) ∷ rest

abbrev pub set_param : String → String → Params → Params
set_param name value [] = (name, value) ∷ []
set_param name value ((k, v) ∷ ps) =
    let rest = set_param name value ps in
    if k == name then (name, value) ∷ delete_param name ps else (k, v) ∷ rest

-- The store, the search box and the URL.
pub record UsersFilters : Type 0 where
  pub search : String
  pub role : String
  pub verified : String
  pub status : String
  pub policy : String
  pub permission : String
  pub last_login : String
  pub sort_key : String
  pub sort_dir : SortDirection
  pub url : Params

abbrev pub initial_filters : UsersFilters
initial_filters = record {
  search = "";
  role = all_value;
  verified = all_value;
  status = all_value;
  policy = all_value;
  permission = all_value;
  last_login = all_value;
  sort_key = "";
  sort_dir = desc;
  url = [];
}

pub data PermissionSource : Type 0 where
  from_policy from_direct : PermissionSource

-- What a render shows.
abbrev pub shown_policy : UsersFilters → String
shown_policy f = get_or (get_param "policy" f.url) f.policy

abbrev pub shown_permission : UsersFilters → String
shown_permission f = get_or (get_param "permission" f.url) f.permission

abbrev pub source_of : Option String → Option PermissionSource
source_of none = none
source_of (some s) =
    if s == "policy" then some from_policy else (if s == "direct" then some from_direct else none)

abbrev pub shown_permission_source : UsersFilters → Option PermissionSource
shown_permission_source f = source_of (get_param "permission_source" f.url)

abbrev pub policy_params : String → Params → Params
policy_params value params =
    if value == all_value then delete_param "policy" params else set_param "policy" value params

abbrev pub navigated : Option String → Params → Params → Params
navigated none next url = url
navigated (some v) next url = next

-- `setPolicy` of the render of `rendered`, on the filters at the time of the call.
unfoldable pub set_policy : UsersFilters → String → UsersFilters → UsersFilters
set_policy rendered value f = record f {
  policy = value;
  url = navigated (get_param "policy" rendered.url) (policy_params value rendered.url) f.url;
}

abbrev pub permission_params : String → Params → Params
permission_params value params =
    if value == all_value
    then delete_param "permission_source" (delete_param "permission" params)
    else set_param "permission" value params

unfoldable pub set_permission : UsersFilters → String → UsersFilters → UsersFilters
set_permission rendered value f = record f {
  permission = value;
  url =
      navigated (get_param "permission" rendered.url) (permission_params value rendered.url) f.url;
}

unfoldable pub toggle_sort : UsersFilters → String → UsersFilters → UsersFilters
unfolding next_sort_state
toggle_sort rendered key f =
    let next =
      next_sort_state (record { key = rendered.sort_key; direction = rendered.sort_dir }) key in
    record f { sort_key = next.key; sort_dir = next.direction }

abbrev pub is_given : Option PermissionSource → Bool
is_given none = false
is_given (some s) = true

unfoldable pub has_active_filters : UsersFilters → Bool
has_active_filters f =
    not (f.search == "")
    || (not (f.role == all_value)
        || (not (f.verified == all_value)
            || (not (f.status == all_value)
                || (not (shown_policy f == all_value)
                    || (not (shown_permission f == all_value)
                        || (is_given (shown_permission_source f)
                            || not (f.last_login == all_value)))))))

unfoldable pub clear_filters : UsersFilters → UsersFilters → UsersFilters
unfolding set_policy set_permission
clear_filters rendered f =
    let texts = record f {
      search = "";
      role = all_value;
      verified = all_value;
      status = all_value;
    } in
    let by_access = set_permission rendered all_value (set_policy rendered all_value texts) in
    record by_access { last_login = all_value }
