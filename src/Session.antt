-- ===== src/Session.antt =====
-- frontend/src/mystic_auth/auth/session_lifecycle and what it shares with the stores: the state of
-- one browser tab. Module-level variables of the source and the stores are the fields of `Tab`;
-- calls of the query client and of the toaster are kept as a log, oldest first, and `Date.now()`
-- reads the field `now`.
pub mod AuthStore
pub mod Guards
pub mod Run
pub mod CrossTab
pub mod Interceptor
pub mod Events
pub mod Mutations
mod Tests
use mystic_auth.Prelude.{ℕ, String, Bool, true, false, Option, none, some, List, [], ◌∷◌, ◌++◌}
use mystic_auth.Ui.Toaster.{ToastType}
use mystic_auth.Session.AuthStore
use mystic_auth.Session.AuthStore.{AuthState, CurrentUserProfile}
use mystic_auth.Session.Guards.{RotationGuard}

-- The query keys of the source, by the constant or the function that makes them.
pub data QueryKey : Type 0 where
  current_user : QueryKey
  sessions : QueryKey
  my_policies : QueryKey
  my_permissions : QueryKey
  my_authorization_audit_log : QueryKey
  my_security_audit_log : QueryKey
  previous_login : QueryKey
  policies : QueryKey
  users : QueryKey
  rate_limits : QueryKey
  permission_catalog_usage : QueryKey
  user_policies : String → QueryKey
  user_permissions : String → QueryKey
  policy_history : String → QueryKey

-- A call on `queryClient`.
pub data QueryCommand : Type 0 where
  set_null : QueryKey → QueryCommand
  remove : QueryKey → QueryCommand
  invalidate : QueryKey → QueryCommand
  reset_all : QueryCommand
  set_profile_data : CurrentUserProfile → QueryCommand

-- The arguments of one `toaster.create` call.
pub record ToastCall : Type 0 where
  pub title : String
  pub description : String
  pub type_of : ToastType

-- What localStorage holds under `ROTATION_RESULT_KEY`, as `readRotationResult` returns it.
pub record RotationResult : Type 0 where
  pub epoch : ℕ
  pub success : Bool

pub record Tab : Type 0 where
  pub auth : AuthState
  pub guard : RotationGuard
  pub last_self_mutation_at : Option ℕ
  pub refresh_in_flight : Bool
  pub rotation_result : Option RotationResult
  pub brand_color : Option String
  pub queries : List QueryCommand
  pub toasts : List ToastCall
  pub now : ℕ

abbrev pub command : QueryCommand → Tab → Tab
command c t = record t { queries = t.queries ++ c ∷ [] }

abbrev pub create_toast : ToastCall → Tab → Tab
create_toast c t = record t { toasts = t.toasts ++ c ∷ [] }

-- A tab right after the page has loaded.
abbrev pub loaded : ℕ → Tab
loaded now = record {
  auth = AuthStore.initial;
  guard = record { pending_rotation = none; rotation_settled_at = none };
  last_self_mutation_at = none;
  refresh_in_flight = false;
  rotation_result = none;
  brand_color = none;
  queries = [];
  toasts = [];
  now = now;
}
