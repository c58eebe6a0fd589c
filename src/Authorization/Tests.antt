-- ===== src/Authorization/Tests.antt =====
-- Examples for the checks of useAuthorization.ts and grantability.ts.
use mystic_auth.Prelude.{true, false, ◌≡◌, refl, none, some, [], ◌∷◌, String_eq, arith}
use mystic_auth.Policies.{PolicyRead}
use mystic_auth.Session.AuthStore.{AuthState}
use mystic_auth.Session.Events.Coherence.{IsCoherent}
use mystic_auth.Authorization.{any_of, can, can_grant_action, can_grant_policy}

abbrev admin : AuthState
admin = record {
  is_authenticated = some true;
  authenticated_at = some 12;
  name = some "Ann";
  email = some "ann@example.org";
  role = some "admin";
  permissions = "users:read" ∷ "users:list" ∷ [];
  permissions_pending = false;
  has_password = true;
}

abbrev readers : PolicyRead
readers = record {
  id = 1;
  name = "readers";
  description = none;
  actions = "users:read" ∷ "users:delete" ∷ [];
  resource_type = "users";
  is_active = true;
  created_by = none;
}

admin-IsCoherent : IsCoherent admin
admin-IsCoherent = ground arith

cannot_grant : can_grant_policy readers (can admin) ≡ false
unfolding can_grant_policy can_grant_action can
cannot_grant = refl

allowed : can admin (any_of ("policies:read" ∷ "users:list" ∷ [])) ≡ true
unfolding can
allowed = refl
