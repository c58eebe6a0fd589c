-- ===== src/Policies/EffectiveGrants/Provenance.antt =====
-- Why a user holds the pair of a key: the policy names and the direct mark that
-- `buildEffectiveGrantsWithSource` records, against the policies and grants themselves.
use mathlib.Core.List.{append-nil, append_assoc}
use mystic_auth.Prelude.{
  String, Bool, false, ◌||◌, ◌≡◌, refl, ◌∙◌, sym, ap, Option, none, some, List, [], ◌∷◌, ◌++◌,
  String_eq, ◌==◌, any, values, lookup, lookup-upsert, arith, Bool-cases, inl, inr, if◌then◌else◌,
}
use mystic_auth.Policies.{PolicyRead, Grant}
use mystic_auth.Policies.EffectiveGrants.{
  grant_key, EffectiveGrantWithSource, ByKey, source_action, source_grant, source_actions,
  source_policies, source_grants, sources_by_key, build_effective_grants_with_source,
}
use mystic_auth.Policies.EffectiveGrants.Sources.{key_of, IsKeyed, IsKeyed-sources_by_key}

-- The policy's name, once for each of its actions that makes the key `k`.
abbrev pub names_in_actions : String → String → String → List String → List String
names_in_actions k name r [] = []
names_in_actions k name r (a ∷ bs) =
    if grant_key a r == k then name ∷ names_in_actions k name r bs else names_in_actions k name r bs

abbrev pub names_in_policies : String → List PolicyRead → List String
names_in_policies k [] = []
names_in_policies k (p ∷ ps) =
    names_in_actions k p.name p.resource_type p.actions ++ names_in_policies k ps

abbrev pub granted_directly : String → List Grant → Bool
granted_directly k gs = any (λ g. grant_key g.action g.resource_type == k) gs

-- What a found entry says; nothing, where there is none.
abbrev pub names_of : Option EffectiveGrantWithSource → List String
names_of none = []
names_of (some e) = e.policy_names

abbrev pub direct_of : Option EffectiveGrantWithSource → Bool
direct_of none = false
direct_of (some e) = e.direct

-- The entry of a key in the list that is shown.
abbrev pub entry_of : String → List EffectiveGrantWithSource → Option EffectiveGrantWithSource
entry_of k [] = none
entry_of k (e ∷ es) = if key_of e == k then some e else entry_of k es

module _ (k : String) where
  names-source_action :
      (n r : String) (m : ByKey) (a : String)
      → names_of (lookup k (source_action n r m a))
        ≡ names_of (lookup k m) ++ (if grant_key a r == k then n ∷ [] else [])
  names-source_action n r m a =
      ap names_of (lookup-upsert (grant_key a r) k _ _ m)
      ∙ ground (arith, append-nil (names_of (lookup k m)))

  names_in_actions-cons :
      (n r b : String) (bs : List String)
      → (if grant_key b r == k then n ∷ [] else []) ++ names_in_actions k n r bs
        ≡ names_in_actions k n r (b ∷ bs)
  names_in_actions-cons n r b bs = elim (Bool-cases (grant_key b r == k)) [
    | inl e ↦ rw e
    | inr e ↦ rw e
  ]

  names-source_actions :
      (n r : String) (m : ByKey) (bs : List String)
      → names_of (lookup k (source_actions n r m bs))
        ≡ names_of (lookup k m) ++ names_in_actions k n r bs
  unfolding source_actions
  names-source_actions n r m [] = sym (append-nil _)
  names-source_actions n r m (b ∷ bs) =
      names-source_actions n r (source_action n r m b) bs
      ∙ ap (λ ns. ns ++ names_in_actions k n r bs) (names-source_action n r m b)
      ∙ append_assoc (names_of (lookup k m)) _ (names_in_actions k n r bs)
      ∙ ap (λ ns. names_of (lookup k m) ++ ns) (names_in_actions-cons n r b bs)

  names-source_policies :
      (m : ByKey) (ps : List PolicyRead)
      → names_of (lookup k (source_policies m ps)) ≡ names_of (lookup k m) ++ names_in_policies k ps
  unfolding source_policies
  names-source_policies m [] = sym (append-nil _)
  names-source_policies m (p ∷ ps) =
      names-source_policies (source_actions p.name p.resource_type m p.actions) ps
      ∙ ap (λ ns. ns ++ names_in_policies k ps)
          (names-source_actions p.name p.resource_type m p.actions)
      ∙ append_assoc (names_of (lookup k m)) _ (names_in_policies k ps)

  names-source_grants :
      (m : ByKey) (gs : List Grant)
      → names_of (lookup k (source_grants m gs)) ≡ names_of (lookup k m)
  unfolding source_grants
  names-source_grants m [] = refl
  names-source_grants m (g ∷ gs) =
      names-source_grants (source_grant m g) gs
      ∙ ap names_of (lookup-upsert (grant_key g.action g.resource_type) k _ _ m)
      ∙ ground arith

  direct-source_actions :
      (n r : String) (m : ByKey) (bs : List String)
      → direct_of (lookup k (source_actions n r m bs)) ≡ direct_of (lookup k m)
  unfolding source_actions
  direct-source_actions n r m [] = refl
  direct-source_actions n r m (b ∷ bs) =
      direct-source_actions n r (source_action n r m b) bs
      ∙ ap direct_of (lookup-upsert (grant_key b r) k _ _ m)
      ∙ ground arith

  direct-source_policies :
      (m : ByKey) (ps : List PolicyRead)
      → direct_of (lookup k (source_policies m ps)) ≡ direct_of (lookup k m)
  unfolding source_policies
  direct-source_policies m [] = refl
  direct-source_policies m (p ∷ ps) =
      direct-source_policies (source_actions p.name p.resource_type m p.actions) ps
      ∙ direct-source_actions p.name p.resource_type m p.actions

  direct-source_grants :
      (m : ByKey) (gs : List Grant)
      → direct_of (lookup k (source_grants m gs))
        ≡ (direct_of (lookup k m) || granted_directly k gs)
  unfolding source_grants
  direct-source_grants m [] = ground arith
  direct-source_grants m (g ∷ gs) =
      let s = grant_key g.action g.resource_type in
      direct-source_grants (source_grant m g) gs
      ∙ ap (λ o. direct_of o || granted_directly k gs) (lookup-upsert s k _ _ m)
      ∙ ground arith

  entry_of-values : (m : ByKey) → IsKeyed m → entry_of k (values m) ≡ lookup k m
  unfolding lookup
  entry_of-values [] h = refl
  entry_of-values ((j, e) ∷ m) h = rw (h.0, entry_of-values m h.1)

-- What the list says of a key: the names of the assigned policies that make it, in their order and as
-- often as they do, and the direct mark exactly when a direct grant makes it.
pub entry_of-build_effective_grants_with_source :
    (ps : List PolicyRead) (gs : List Grant) (k : String)
    → (names_of (entry_of k (build_effective_grants_with_source ps gs)) ≡ names_in_policies k ps)
      × (direct_of (entry_of k (build_effective_grants_with_source ps gs)) ≡ granted_directly k gs)
unfolding build_effective_grants_with_source sources_by_key lookup
entry_of-build_effective_grants_with_source ps gs k =
    let e = entry_of-values k (sources_by_key ps gs) (IsKeyed-sources_by_key ps gs) in
    let m = source_policies [] ps in
    (
      ap names_of e ∙ names-source_grants k m gs ∙ names-source_policies k [] ps,
      ap direct_of e
          ∙ direct-source_grants k m gs
          ∙ ap (λ d. d || granted_directly k gs) (direct-source_policies k [] ps),
    )
