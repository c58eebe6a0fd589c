-- ===== src/Session/AuthStore.antt =====
-- frontend/src/mystic_auth/store/authStore.ts, and `CurrentUserProfile` of
-- auth/current_user/current_user_types.ts. Of the profile, created_at and active_sessions are left
-- out: nothing modelled reads them. `permissions` is optional, since the store defaults it.
use mathlib.Core.Option.{get_or}
use mystic_auth.Prelude.{ℕ, String, Bool, true, false, Option, none, some, List, [], if◌then◌else◌}

pub record CurrentUserProfile : Type 0 where
  pub name : String
  pub email : String
  pub role : Option String
  pub permissions : Option (List String)
  pub has_password : Bool
  pub brand_color : Option String

-- `is_authenticated` is none until the session has been checked.
pub record AuthState : Type 0 where
  pub is_authenticated : Option Bool
  pub authenticated_at : Option ℕ
  pub name : Option String
  pub email : Option String
  pub role : Option String
  pub permissions : List String
  pub permissions_pending : Bool
  pub has_password : Bool

-- `...initialProfile`
abbrev pub initial_profile : AuthState → AuthState
initial_profile s = record s {
  name = none;
  email = none;
  role = none;
  permissions = [];
  has_password = false;
  permissions_pending = false;
}

abbrev pub initial : AuthState
initial = record {
  is_authenticated = none;
  authenticated_at = none;
  name = none;
  email = none;
  role = none;
  permissions = [];
  permissions_pending = false;
  has_password = false;
}

-- `now` is `Date.now()`.
unfoldable pub set_authenticated : ℕ → Bool → AuthState → AuthState
set_authenticated now is_authenticated s =
    if is_authenticated
    then record s { is_authenticated = some true; authenticated_at = some now }
    else initial_profile (record s { is_authenticated = some false; authenticated_at = none })

unfoldable pub set_profile : CurrentUserProfile → AuthState → AuthState
set_profile profile s = record s {
  name = some profile.name;
  email = some profile.email;
  role = profile.role;
  permissions = get_or profile.permissions [];
  has_password = profile.has_password;
  permissions_pending = false;
}

unfoldable pub clear_profile : AuthState → AuthState
clear_profile s = initial_profile s

unfoldable pub drop_permissions : AuthState → AuthState
drop_permissions s = record s { permissions = []; permissions_pending = true }

unfoldable pub reset : AuthState → AuthState
reset s = initial_profile (record s { is_authenticated = none; authenticated_at = none })
