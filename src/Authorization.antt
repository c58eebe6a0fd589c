-- ===== src/Authorization.antt =====
-- frontend/src/mystic_auth/authorization: the checks that a screen makes on the auth store.
pub mod Access
pub mod Permissions
mod Tests
use mystic_auth.Prelude.{
  String, Bool, true, false, Option, none, some, List, [], ◌∷◌, String_eq, any, all, has,
  if◌then◌else◌,
}
use mystic_auth.Session.AuthStore.{AuthState}
use mystic_auth.Policies.{PolicyRead}

-- `string | string[]`
pub data Action : Type 0 where
  one : String → Action
  any_of : List String → Action

-- `!isAuthenticated`: null and false are alike.
abbrev pub signed_in : Option Bool → Bool
signed_in none = false
signed_in (some b) = b

-- `can` of useAuthorization.ts; the resource type is accepted and not used.
unfoldable pub can : AuthState → Action → Bool
can s (one action) = if signed_in s.is_authenticated then has s.permissions action else false
can s (any_of actions) =
    if signed_in s.is_authenticated then any (λ a. has s.permissions a) actions else false

-- `useCan` and its alias `useAuthorized`.
unfoldable pub use_can : AuthState → Action → Bool
use_can s action = can s action

-- grantability.ts
unfoldable pub can_grant_action : String → (Action → Bool) → Bool
can_grant_action action can = can (one action)

unfoldable pub can_grant_policy : PolicyRead → (Action → Bool) → Bool
can_grant_policy policy can = all (λ action. can_grant_action action can) policy.actions

-- destructiveActions.ts
abbrev pub destructive_actions : List String
destructive_actions =
    "users:deactivate_any" ∷ "users:delete_any" ∷ "users:assign_system_role" ∷ "policies:delete"
    ∷ "policies:revoke" ∷ "permissions:revoke" ∷ "rate_limits:reset" ∷ []

unfoldable pub is_destructive_action : String → Bool
is_destructive_action action = has destructive_actions action
