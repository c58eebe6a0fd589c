-- ===== src/Policies/EffectiveGrants/Pairs.antt =====
-- What `buildEffectiveGrantsWithSource` says of a pair of an action and a resource type, read off the
-- policies and the grants without the keys.
use mystic_auth.Prelude.{
  String, ◌&&◌, ◌≡◌, refl, ◌∙◌, ap, Option, none, some, List, [], ◌∷◌, ◌++◌, ◌==◌, String_eq, any,
  All, values, upsert, arith, Bool-cases, inl, inr, if◌then◌else◌,
}
use mystic_auth.Policies.{PolicyRead, Grant}
use mystic_auth.Policies.EffectiveGrants.{
  grant_key, EffectiveGrantWithSource, ByKey, source_action, source_grant, source_actions,
  source_policies, source_grants, sources_by_key, build_effective_grants_with_source,
}
use mystic_auth.Policies.EffectiveGrants.Keys.{NoColon}
use mystic_auth.Policies.EffectiveGrants.Coverage.{
  PlainPolicies, PlainGrants, grant_holds, grant_key_eq,
}
use mystic_auth.Policies.EffectiveGrants.Provenance.{
  names_in_actions, names_in_policies, granted_directly, names_of, direct_of, entry_of,
  entry_of-build_effective_grants_with_source,
}

-- A policy's name, as often as the action is among its actions.
abbrev pub names_for : String → String → List String → List String
names_for action name [] = []
names_for action name (b ∷ bs) =
    if b == action then name ∷ names_for action name bs else names_for action name bs

-- The names of the policies that give a pair.
abbrev pub policies_giving : String → String → List PolicyRead → List String
policies_giving action resource_type [] = []
policies_giving action resource_type (p ∷ ps) =
    (if p.resource_type == resource_type then names_for action p.name p.actions else [])
    ++ policies_giving action resource_type ps

-- The entry of a pair in the list that is shown.
abbrev pub pair_entry :
    String → String → List EffectiveGrantWithSource → Option EffectiveGrantWithSource
pair_entry action resource_type [] = none
pair_entry action resource_type (e ∷ es) =
    if e.resource_type == resource_type && e.action == action
    then some e
    else pair_entry action resource_type es

-- No entry has a resource type with a colon.
abbrev ArePlain : ByKey → Type 0
ArePlain m = All (λ e. NoColon e.1.resource_type) m

upsert-ArePlain :
    (k : String) (change : EffectiveGrantWithSource → EffectiveGrantWithSource)
    (fresh : EffectiveGrantWithSource) (m : ByKey)
    → ((e : EffectiveGrantWithSource) → NoColon e.resource_type → NoColon (change e).resource_type)
    → NoColon fresh.resource_type
    → ArePlain m
    → ArePlain (upsert k change fresh m)
unfolding upsert
upsert-ArePlain k change fresh [] same new h = (new, tt)
upsert-ArePlain k change fresh ((j, e) ∷ m) same new h = elim (Bool-cases (j == k)) [
  | inl x ↦ rw x (same e h.0, h.1)
  | inr x ↦ rw x (h.0, upsert-ArePlain k change fresh m same new h.1)
]

source_actions-ArePlain :
    (n r : String) (m : ByKey) (bs : List String)
    → NoColon r
    → ArePlain m
    → ArePlain (source_actions n r m bs)
unfolding source_actions
source_actions-ArePlain n r m [] p h = h
source_actions-ArePlain n r m (b ∷ bs) p h =
    source_actions-ArePlain n r (source_action n r m b) bs p
      (upsert-ArePlain _ _ _ m (λ e k. k) p h)

source_policies-ArePlain :
    (m : ByKey) (ps : List PolicyRead)
    → PlainPolicies ps
    → ArePlain m
    → ArePlain (source_policies m ps)
unfolding source_policies
source_policies-ArePlain m [] hp h = h
source_policies-ArePlain m (p ∷ ps) hp h =
    source_policies-ArePlain (source_actions p.name p.resource_type m p.actions) ps hp.1
      (source_actions-ArePlain p.name p.resource_type m p.actions hp.0 h)

source_grants-ArePlain :
    (m : ByKey) (gs : List Grant) → PlainGrants gs → ArePlain m → ArePlain (source_grants m gs)
unfolding source_grants
source_grants-ArePlain m [] hg h = h
source_grants-ArePlain m (g ∷ gs) hg h =
    source_grants-ArePlain (source_grant m g) gs hg.1 (upsert-ArePlain _ _ _ m (λ e k. k) hg.0 h)

module _ (a r : String) (plain : NoColon r) where
  names_in_actions-pair :
      (n s : String) (bs : List String)
      → NoColon s
      → names_in_actions (grant_key a r) n s bs ≡ (if s == r then names_for a n bs else [])
  names_in_actions-pair n s [] q = ground arith
  names_in_actions-pair n s (b ∷ bs) q =
      ground (arith, names_in_actions-pair n s bs q, grant_key_eq b a s r q plain)

  names_in_policies-pair :
      (ps : List PolicyRead)
      → PlainPolicies ps
      → names_in_policies (grant_key a r) ps ≡ policies_giving a r ps
  names_in_policies-pair [] hp = refl
  names_in_policies-pair (p ∷ ps) hp =
      rw
        (
          names_in_actions-pair p.name p.resource_type p.actions hp.0,
          names_in_policies-pair ps hp.1,
        )
        refl

  granted_directly-pair :
      (gs : List Grant)
      → PlainGrants gs
      → granted_directly (grant_key a r) gs ≡ any (grant_holds a r) gs
  granted_directly-pair [] hg = refl
  granted_directly-pair (g ∷ gs) hg =
      rw (grant_key_eq g.action a g.resource_type r hg.0 plain, granted_directly-pair gs hg.1) refl

  pair_entry-values :
      (m : ByKey) → ArePlain m → pair_entry a r (values m) ≡ entry_of (grant_key a r) (values m)
  pair_entry-values [] h = refl
  pair_entry-values ((k, e) ∷ m) h =
      rw (grant_key_eq e.action a e.resource_type r h.0 plain, pair_entry-values m h.1) refl

-- As long as no resource type of the policies, of the direct grants and of the pair holds a colon,
-- the list says of a pair the names of exactly the assigned policies that give it, in their order and
-- as often as they name its action, and has the direct mark exactly when a direct grant gives it.
pub pair_entry-build_effective_grants_with_source :
    (ps : List PolicyRead) (gs : List Grant) (a r : String)
    → PlainPolicies ps
    → PlainGrants gs
    → NoColon r
    → let shown = build_effective_grants_with_source ps gs in
      (names_of (pair_entry a r shown) ≡ policies_giving a r ps)
      × (direct_of (pair_entry a r shown) ≡ any (grant_holds a r) gs)
unfolding build_effective_grants_with_source sources_by_key
pair_entry-build_effective_grants_with_source ps gs a r hp hg plain =
    let m = sources_by_key ps gs in
    let e = pair_entry-values a r plain m (
      source_grants-ArePlain (source_policies [] ps) gs hg
        (source_policies-ArePlain [] ps hp tt)) in
    let (names, direct) = entry_of-build_effective_grants_with_source ps gs (grant_key a r) in
    (
      ap names_of e ∙ (names ∙ names_in_policies-pair a r plain ps hp),
      ap direct_of e ∙ (direct ∙ granted_directly-pair a r plain gs hg),
    )
