-- ===== src/Policies/EffectiveGrants/Coverage.antt =====
-- What the key set of effectiveGrants.ts stands for, as long as no resource type holds a colon:
-- membership of a key is holding the pair, by some policy or some direct grant.
use mathlib.Core.Path.{subst}
use mystic_auth.Prelude.{
  sym, ◌∙◌, Bool-cases, inl, inr, String, Bool, true, ◌&&◌, ◌||◌, ◌≡◌, List, [], ◌∷◌, String_eq,
  ◌==◌, ==_iff, any, all, all_congr, has, add, has-add, All, Unique, add-Unique, arith,
}
use mystic_auth.Policies.{PolicyRead, Grant}
use mystic_auth.Policies.EffectiveGrants.{
  wildcard_resource_type, grant_key, add_actions, add_policies, add_grants,
  build_effective_grant_key_set, has_effective_grant, policy_adds_nothing_new,
}
use mystic_auth.Policies.EffectiveGrants.Keys.{NoColon, grant_key_injective}

-- The user holds `action` on exactly `resource_type`, by a policy or by a direct grant.
abbrev pub policy_holds : String → String → PolicyRead → Bool
policy_holds action resource_type p = p.resource_type == resource_type && has p.actions action

abbrev pub grant_holds : String → String → Grant → Bool
grant_holds action resource_type g = g.resource_type == resource_type && g.action == action

abbrev pub holds : List PolicyRead → List Grant → String → String → Bool
holds ps gs action resource_type =
    any (policy_holds action resource_type) ps || any (grant_holds action resource_type) gs

-- The same, or on every resource type.
abbrev pub covers : List PolicyRead → List Grant → String → String → Bool
covers ps gs action resource_type =
    holds ps gs action resource_type || holds ps gs action wildcard_resource_type

-- No resource type in play holds a colon; the catalog's do not, nor does "*".
abbrev pub PlainPolicies : List PolicyRead → Type 0
PlainPolicies ps = All (λ p. NoColon p.resource_type) ps

abbrev pub PlainGrants : List Grant → Type 0
PlainGrants gs = All (λ g. NoColon g.resource_type) gs

-- Two keys are the same text exactly when the pairs are the same.
pub grant_key_eq :
    (a b r s : String)
    → NoColon r
    → NoColon s
    → (grant_key a r == grant_key b s) ≡ (r == s && a == b)
grant_key_eq a b r s p q = ground (
  arith,
  grant_key_injective a b r s p q,
  ==_iff (grant_key a r) (grant_key b s),
  ==_iff r s,
  ==_iff a b,
)

module _ (a r : String) (plain : NoColon r) where
  has-add_actions :
      (s : String) (ks bs : List String)
      → NoColon s
      → has (add_actions s ks bs) (grant_key a r) ≡ (has ks (grant_key a r) || s == r && has bs a)
  unfolding add_actions
  has-add_actions s ks [] q = ground arith
  has-add_actions s ks (b ∷ bs) q = ground (
    arith,
    has-add_actions s (add ks (grant_key b s)) bs q,
    has-add ks (grant_key b s) (grant_key a r),
    grant_key_eq b a s r q plain,
  )

  has-add_policies :
      (ks : List String) (ps : List PolicyRead)
      → PlainPolicies ps
      → has (add_policies ks ps) (grant_key a r)
        ≡ (has ks (grant_key a r) || any (policy_holds a r) ps)
  unfolding add_policies
  has-add_policies ks [] q = ground arith
  has-add_policies ks (p ∷ ps) (q, qs) = ground (
    arith,
    has-add_policies (add_actions p.resource_type ks p.actions) ps qs,
    has-add_actions p.resource_type ks p.actions q,
  )

  has-add_grants :
      (ks : List String) (gs : List Grant)
      → PlainGrants gs
      → has (add_grants ks gs) (grant_key a r)
        ≡ (has ks (grant_key a r) || any (grant_holds a r) gs)
  unfolding add_grants
  has-add_grants ks [] q = ground arith
  has-add_grants ks (g ∷ gs) (q, qs) = ground (
    arith,
    has-add_grants (add ks (grant_key g.action g.resource_type)) gs qs,
    has-add ks (grant_key g.action g.resource_type) (grant_key a r),
    grant_key_eq g.action a g.resource_type r q plain,
  )

-- Without colons in resource types, the key of a pair is in the built set exactly when a policy or a
-- direct grant gives that pair.
pub has-build_effective_grant_key_set :
    (ps : List PolicyRead) (gs : List Grant) (a r : String)
    → PlainPolicies ps
    → PlainGrants gs
    → NoColon r
    → has (build_effective_grant_key_set ps gs) (grant_key a r) ≡ holds ps gs a r
unfolding build_effective_grant_key_set
has-build_effective_grant_key_set ps gs a r hp hg h =
    ground (arith, has-add_grants a r h (add_policies [] ps) gs hg, has-add_policies a r h [] ps hp)

-- Without colons in resource types, a grant is effectively held exactly when the user holds the
-- action on that resource type or on "*".
has_effective_grant-eq-covers :
    (ps : List PolicyRead) (gs : List Grant) (a r : String)
    → PlainPolicies ps
    → PlainGrants gs
    → NoColon r
    → has_effective_grant (build_effective_grant_key_set ps gs) a r ≡ covers ps gs a r
unfolding has_effective_grant
has_effective_grant-eq-covers ps gs a r hp hg h = ground (
  arith,
  has-build_effective_grant_key_set ps gs a r hp hg h,
  has-build_effective_grant_key_set ps gs a wildcard_resource_type hp hg (omega arith, tt),
)

-- Without colons in resource types, `policyAddsNothingNew` is true exactly when each of the candidate's actions is already covered:
-- by a policy or a direct grant, on the candidate's resource type or on "*".
policy_adds_nothing_new-eq-covers :
    (ps : List PolicyRead) (gs : List Grant) (c : PolicyRead)
    → PlainPolicies ps
    → PlainGrants gs
    → NoColon c.resource_type
    → policy_adds_nothing_new c (build_effective_grant_key_set ps gs)
      ≡ all (λ a. covers ps gs a c.resource_type) c.actions
unfolding policy_adds_nothing_new
policy_adds_nothing_new-eq-covers ps gs c hp hg h =
    all_congr _ _ (λ a. has_effective_grant-eq-covers ps gs a c.resource_type hp hg h) c.actions

all-has :
    (p : String → Bool) (bs : List String) (a : String)
    → all p bs ≡ true
    → has bs a ≡ true
    → p a ≡ true
all-has p [] a h k = cc
all-has p (b ∷ bs) a h k = elim (Bool-cases (b == a)) [
  | inl same ↦ let e : b ≡ a = (==_iff b a).0 same in subst (λ x. p x ≡ true) e (ground arith)
  | inr other ↦ all-has p bs a (ground arith) (rw other at k)
]

-- As long as no resource type of the policies, of the direct grants and of the candidate holds a
-- colon, assigning a policy that adds nothing new changes no answer of the effective-grant check:
-- every pair is covered after it as before.
pub covers-adds_nothing_new :
    (ps : List PolicyRead) (gs : List Grant) (c : PolicyRead) (a r : String)
    → PlainPolicies ps
    → PlainGrants gs
    → NoColon c.resource_type
    → policy_adds_nothing_new c (build_effective_grant_key_set ps gs) ≡ true
    → covers (c ∷ ps) gs a r ≡ covers ps gs a r
covers-adds_nothing_new ps gs c a r hp hg h e =
    ground (arith, covered r, covered wildcard_resource_type)
  where
    covered :
        (s : String)
        → (c.resource_type == s) ≡ true
        → has c.actions a ≡ true
        → covers ps gs a s ≡ true
    covered s same held =
        subst (λ x. covers ps gs a x ≡ true) ((==_iff _ _).0 same)
          (all-has _ c.actions a (sym (policy_adds_nothing_new-eq-covers ps gs c hp hg h) ∙ e) held)

module _ (s : String) where
  add_actions-Unique : (ks bs : List String) → Unique ks → Unique (add_actions s ks bs)
  unfolding add_actions
  add_actions-Unique ks [] u = u
  add_actions-Unique ks (b ∷ bs) u =
      add_actions-Unique (add ks (grant_key b s)) bs (add-Unique ks (grant_key b s) u)

add_policies-Unique :
    (ks : List String) (ps : List PolicyRead) → Unique ks → Unique (add_policies ks ps)
unfolding add_policies
add_policies-Unique ks [] u = u
add_policies-Unique ks (p ∷ ps) u =
    add_policies-Unique (add_actions p.resource_type ks p.actions) ps
      (add_actions-Unique p.resource_type ks p.actions u)

add_grants-Unique : (ks : List String) (gs : List Grant) → Unique ks → Unique (add_grants ks gs)
unfolding add_grants
add_grants-Unique ks [] u = u
add_grants-Unique ks (g ∷ gs) u =
    let k = grant_key g.action g.resource_type in
    add_grants-Unique (add ks (grant_key g.action g.resource_type)) gs (add-Unique ks k u)

pub build_effective_grant_key_set-Unique :
    (ps : List PolicyRead) (gs : List Grant) → Unique (build_effective_grant_key_set ps gs)
unfolding build_effective_grant_key_set
build_effective_grant_key_set-Unique ps gs = add_grants-Unique _ gs (add_policies-Unique [] ps tt)
