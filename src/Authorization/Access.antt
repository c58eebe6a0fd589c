-- ===== src/Authorization/Access.antt =====
-- What `can` of useAuthorization.ts and the grant checks of grantability.ts allow.
use mystic_auth.Prelude.{
  String, Bool, true, false, ◌&&◌, ◌≡◌, sym, any-false, all_congr, some, List, [], String_eq, any,
  all, has, arith, Bool-cases, inl, inr,
}
use mystic_auth.Session.AuthStore.{AuthState}
use mystic_auth.Session.Events.Coherence.{IsCoherent}
use mystic_auth.Policies.{PolicyRead}
use mystic_auth.Authorization.{one, any_of, signed_in, can, can_grant_action, can_grant_policy}

-- What the store grants: a signed-in user holds the permission.
abbrev pub holds : AuthState → String → Bool
holds s permission = signed_in s.is_authenticated && has s.permissions permission

pub can_one : (s : AuthState) (a : String) → can s (one a) ≡ holds s a
unfolding can
can_one s a = ground arith

-- "Any of" several actions is allowed exactly when one of them is allowed by itself.
can-any_of :
    (s : AuthState) (actions : List String)
    → can s (any_of actions) ≡ any (λ a. can s (one a)) actions
unfolding can
can-any_of s actions = elim (Bool-cases (signed_in s.is_authenticated)) [
  | inl e ↦ rw e
  | inr e ↦ rw e (sym (any-false actions))
]

-- A policy may be granted exactly when each of its actions is one that the caller is signed in for
-- and holds.
can_grant_policy-can :
    (s : AuthState) (p : PolicyRead)
    → can_grant_policy p (can s)
      ≡ all (λ a. signed_in s.is_authenticated && has s.permissions a) p.actions
unfolding can_grant_policy can_grant_action can
can_grant_policy-can s p = all_congr _ _ (λ a. ground arith) p.actions

any-has-nil : (xs ks : List String) → ks ≡ [] → any (has ks) xs ≡ false
any-has-nil xs ks e = rw e (any-false xs)

-- In a coherent store an allowed check means a signed-in user whose permission list is current and
-- holds one of the actions asked for.
can_sound :
    (s : AuthState) (actions : List String)
    → IsCoherent s
    → can s (any_of actions) ≡ true
    → (s.is_authenticated ≡ some true)
      × (s.permissions_pending ≡ false)
      × (any (has s.permissions) actions ≡ true)
unfolding can
can_sound s actions c h = ground (arith, c.no_stale_permission, any-has-nil actions s.permissions)
