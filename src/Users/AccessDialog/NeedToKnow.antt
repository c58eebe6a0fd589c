-- ===== src/Users/AccessDialog/NeedToKnow.antt =====
-- What the access dialog asks the backend, and for whom.
use mystic_auth.Prelude.{
  String, Bool, true, false, not, ◌&&◌, ◌||◌, ◌≡◌, ◌≢◌, refl, Option, none, some, get_or, List, [],
  ◌∷◌, sym, String_eq, ==_iff, any, has, All, All-append, arith, Bool-cases, inl, inr,
}
use mystic_auth.Session.AuthStore.{AuthState}
use mystic_auth.Session.Events.Coherence.{IsCoherent}
use mystic_auth.Authorization.{Action, one, any_of, signed_in, can, use_can}
use mystic_auth.Authorization.Access.{holds, can_one}
use mystic_auth.Authorization.Permissions.{
  policies_read, policies_create, policies_update, permissions_read, permissions_grant,
  security_audit_read,
}
use mystic_auth.Users.AccessDialog.{
  AccessQuery, user_policies_of, my_own_policies, user_permissions_of, my_own_permissions,
  all_policies_list, permission_catalog, my_access_changes, access_changes_of, is_self, is_current,
  is_given, can_read_policies, can_read_permissions, can_read_catalog, can_read_security_audit,
  when, access_changes_query, enabled_queries,
}

abbrev holds_any : AuthState → List String → Bool
holds_any s permissions = signed_in s.is_authenticated && any (λ p. has s.permissions p) permissions

-- Who may see what a query asks for: of another user only with the permission for it, of oneself
-- without any.
abbrev pub MayKnow : Option String → AuthState → AccessQuery → Type 0
MayKnow user_email s (user_policies_of e) =
    (user_email ≡ some e) × (s.email ≢ some e) × (holds s policies_read ≡ true)
MayKnow user_email s my_own_policies = (user_email ≡ s.email) × (s.email ≢ none)
MayKnow user_email s (user_permissions_of e) =
    (user_email ≡ some e) × (s.email ≢ some e) × (holds s permissions_read ≡ true)
MayKnow user_email s my_own_permissions = (user_email ≡ s.email) × (s.email ≢ none)
MayKnow user_email s all_policies_list = holds s policies_read ≡ true
MayKnow user_email s permission_catalog =
    holds_any s (permissions_read ∷ policies_create ∷ policies_update ∷ permissions_grant ∷ [])
    ≡ true
MayKnow user_email s my_access_changes = (user_email ≡ s.email) × (s.email ≢ none)
MayKnow user_email s (access_changes_of e) =
    (user_email ≡ some e) × (s.email ≢ some e) × (holds s security_audit_read ≡ true)

All-when :
    (P : AccessQuery → Type 0) (enabled : Bool) (q : AccessQuery)
    → (enabled ≡ true → P q)
    → All P (when enabled q)
All-when P true q h = (h refl, tt)
All-when P false q h = tt

is_current-eq :
    (current : Option String) (e : String) → is_current current e ≡ true → current ≡ some e
is_current-eq none e h = cc
is_current-eq (some c) e h = ground (arith, ==_iff e c)

is_current-ne :
    (current : Option String) (e : String) → is_current current e ≡ false → current ≢ some e
is_current-ne none e h = λ p. cc
is_current-ne (some c) e h = λ p. ground (arith, ==_iff e c)

self_email :
    (s : AuthState) (user_email : Option String)
    → is_self s user_email ≡ true
    → (user_email ≡ s.email) × (s.email ≢ none)
self_email s none h = cc
self_email s (some e) h = let own = is_current-eq s.email e (ground arith) in (sym own, λ p. cc)

other_email :
    (s : AuthState) (user_email : Option String)
    → is_given user_email ≡ true
    → is_self s user_email ≡ false
    → (user_email ≡ some (get_or user_email "")) × (s.email ≢ some (get_or user_email ""))
other_email s none g h = cc
other_email s (some e) g h = (refl, is_current-ne s.email e (ground arith))

module _ (is_open : Bool) (user_email : Option String) (s : AuthState) where
  abbrev other : Bool
  other = is_open && (is_given user_email && not (is_self s user_email))

  others :
      (b : Bool)
      → (other && b) ≡ true
      → (user_email ≡ some (get_or user_email ""))
        × (s.email ≢ some (get_or user_email ""))
        × (b ≡ true)
  others b h =
      let (known, unlike) = other_email s user_email (ground arith) (ground arith) in
      (known, unlike, ground arith)

  changes-MayKnow :
      (is_open && (is_given user_email && (is_self s user_email || can_read_security_audit s)))
        ≡ true
      → MayKnow user_email s (access_changes_query s user_email)
  unfolding use_can
  changes-MayKnow h = elim (Bool-cases (is_self s user_email)) [
    | inl e ↦ rw e (self_email s user_email e)
    | inr e ↦ rw e (
        let (known, unlike) = other_email s user_email (ground arith) e in
        (known, unlike, ground (arith, can_one s security_audit_read)))
  ]

  own_row : (is_open && is_self s user_email) ≡ true → (user_email ≡ s.email) × (s.email ≢ none)
  own_row h = self_email s user_email (ground arith)

  others_policies :
      (other && can_read_policies s) ≡ true
      → MayKnow user_email s (user_policies_of (get_or user_email ""))
  unfolding use_can
  others_policies h =
      let (known, unlike, b) = others (can_read_policies s) h in
      (known, unlike, ground (arith, can_one s policies_read))

  others_permissions :
      (other && can_read_permissions s) ≡ true
      → MayKnow user_email s (user_permissions_of (get_or user_email ""))
  unfolding use_can
  others_permissions h =
      let (known, unlike, b) = others (can_read_permissions s) h in
      (known, unlike, ground (arith, can_one s permissions_read))

  lists_known : (is_open && can_read_policies s) ≡ true → MayKnow user_email s all_policies_list
  unfolding use_can
  lists_known h = ground (arith, can_one s policies_read)

  catalog_known : (is_open && can_read_catalog s) ≡ true → MayKnow user_email s permission_catalog
  unfolding use_can can
  catalog_known h = ground arith

  -- The dialog enables a query about another user only with the permission for it, and the queries
  -- about oneself only on one's own row; all policies and the catalog also need their permissions.
  pub enabled_queries-MayKnow : All (MayKnow user_email s) (enabled_queries is_open user_email s)
  unfolding enabled_queries
  enabled_queries-MayKnow = All-append P _ _ (All-when P _ _ others_policies) (
      All-append P _ _ (All-when P _ _ own_row) (
        All-append P _ _ (All-when P _ _ others_permissions) (
          All-append P _ _ (All-when P _ _ own_row) (
            All-append P _ _ (All-when P _ _ lists_known)
              (All-append P _ _ (All-when P _ _ catalog_known) (All-when P _ _ changes-MayKnow))))))
    where
      P : AccessQuery → Type 0
      P = MayKnow user_email s

not_self :
    (s : AuthState) (user_email : Option String) → s.email ≡ none → is_self s user_email ≡ false
not_self s none e = refl
not_self s (some u) e = rw e (ground arith)

not_signed_in : (o : Option Bool) → o ≢ some true → signed_in o ≡ false
not_signed_in none h = refl
not_signed_in (some true) h = absurd (h refl)
not_signed_in (some false) h = refl

cannot : (s : AuthState) (action : Action) → s.is_authenticated ≢ some true → can s action ≡ false
unfolding can
cannot s (one a) h = rw (not_signed_in s.is_authenticated h)
cannot s (any_of actions) h = rw (not_signed_in s.is_authenticated h)

-- In a coherent store, when nobody is signed in, the dialog asks nothing.
pub enabled_queries-signed_out :
    (is_open : Bool) (user_email : Option String) (s : AuthState)
    → IsCoherent s
    → s.is_authenticated ≢ some true
    → enabled_queries is_open user_email s ≡ []
unfolding enabled_queries use_can
enabled_queries-signed_out is_open user_email s c h =
    let own = not_self s user_email (c.no_profile h).1 in
    ground (
      arith,
      own,
      cannot s (one policies_read) h,
      cannot s (one permissions_read) h,
      cannot s (one security_audit_read) h,
      cannot s
          (any_of (permissions_read ∷ policies_create ∷ policies_update ∷ permissions_grant ∷ []))
          h,
    )
