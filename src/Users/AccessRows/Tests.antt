-- ===== src/Users/AccessRows/Tests.antt =====
-- Examples for the access dialog: one policy assigned in an older version, and a small catalog.
use mystic_auth.Prelude.{
  String, true, ◌≡◌, refl, inl, none, some, List, [], ◌∷◌, String_eq, add, Order,
}
use mystic_auth.Policies.{PolicyRead}
use mystic_auth.Policies.EffectiveGrants.{grant_key, has_effective_grant}
use mystic_auth.Users.AccessRows.{UserAccessState, show_all, show_off, permission_groups}

abbrev readers : List String → PolicyRead
readers actions = record {
  id = 1;
  name = "readers";
  description = none;
  actions = actions;
  resource_type = "users";
  is_active = true;
  created_by = none;
}

abbrev dialog : UserAccessState
dialog = record {
  catalog = some (
      record { action = "users:read"; resource_type = "users"; description = none }
      ∷ record { action = "policies:read"; resource_type = "policies"; description = none }
      ∷ []);
  all_policies = some (readers ("users:read" ∷ "users:list" ∷ []) ∷ []);
  assigned_policies = readers ("users:read" ∷ []) ∷ [];
  assigned_names = "readers" ∷ [];
  effective_grant_keys = "users:read::users" ∷ [];
  pol_query = "";
  pol_filter = show_all;
  perm_query = "";
  perm_filter = show_off;
}

abbrev indifferent : Order String
indifferent = record { le = λ j k. true; le_total = λ j k. inl refl; le_trans = λ i j k h l. refl }

not_held : permission_groups (λ s. s) (λ s. s) indifferent dialog ≡ "policies" ∷ []
unfolding permission_groups add grant_key has_effective_grant
not_held = refl
