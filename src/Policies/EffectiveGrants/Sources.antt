-- ===== src/Policies/EffectiveGrants/Sources.antt =====
-- `buildEffectiveGrantsWithSource` of effectiveGrants.ts against the plain key set and against a
-- direct reading of the policies and grants.
use mystic_auth.Prelude.{
  String, ◌≡◌, refl, ◌∙◌, sym, ap, List, [], ◌∷◌, map, String_eq, ◌==◌, All, keys, values, upsert,
  keys-upsert, Bool-cases, inl, inr,
}
use mystic_auth.Policies.{PolicyRead, Grant}
use mystic_auth.Policies.EffectiveGrants.{
  grant_key, add_actions, add_policies, add_grants, build_effective_grant_key_set,
  EffectiveGrantWithSource, ByKey, source_action, source_grant, source_actions, source_policies,
  source_grants, sources_by_key, build_effective_grants_with_source,
}

abbrev pub key_of : EffectiveGrantWithSource → String
key_of e = grant_key e.action e.resource_type

keys-source_actions :
    (n r : String) (m : ByKey) (bs : List String)
    → keys (source_actions n r m bs) ≡ add_actions r (keys m) bs
unfolding source_actions add_actions
keys-source_actions n r m [] = refl
keys-source_actions n r m (b ∷ bs) =
    keys-source_actions n r (source_action n r m b) bs
    ∙ ap (λ ks. add_actions r ks bs) (keys-upsert _ _ _ m)

keys-source_policies :
    (m : ByKey) (ps : List PolicyRead) → keys (source_policies m ps) ≡ add_policies (keys m) ps
unfolding source_policies add_policies
keys-source_policies m [] = refl
keys-source_policies m (p ∷ ps) =
    keys-source_policies (source_actions p.name p.resource_type m p.actions) ps
    ∙ ap (λ ks. add_policies ks ps) (keys-source_actions p.name p.resource_type m p.actions)

keys-source_grants :
    (m : ByKey) (gs : List Grant) → keys (source_grants m gs) ≡ add_grants (keys m) gs
unfolding source_grants add_grants
keys-source_grants m [] = refl
keys-source_grants m (g ∷ gs) =
    keys-source_grants (source_grant m g) gs ∙ ap (λ ks. add_grants ks gs) (keys-upsert _ _ _ m)

keys-sources_by_key :
    (ps : List PolicyRead) (gs : List Grant)
    → keys (sources_by_key ps gs) ≡ build_effective_grant_key_set ps gs
unfolding sources_by_key build_effective_grant_key_set
keys-sources_by_key ps gs =
    keys-source_grants _ gs ∙ ap (λ ks. add_grants ks gs) (keys-source_policies [] ps)

-- Each entry stands under its own key.
abbrev pub IsKeyed : ByKey → Type 0
IsKeyed m = All (λ e. e.0 ≡ key_of e.1) m

upsert-IsKeyed :
    (k : String) (change : EffectiveGrantWithSource → EffectiveGrantWithSource)
    (fresh : EffectiveGrantWithSource) (m : ByKey)
    → ((e : EffectiveGrantWithSource) → key_of (change e) ≡ key_of e)
    → k ≡ key_of fresh
    → IsKeyed m
    → IsKeyed (upsert k change fresh m)
unfolding upsert
upsert-IsKeyed k change fresh [] same new h = (new, tt)
upsert-IsKeyed k change fresh ((j, e) ∷ m) same new h = elim (Bool-cases (j == k)) [
  | inl x ↦ rw x (h.0 ∙ sym (same e), h.1)
  | inr x ↦ rw x (h.0, upsert-IsKeyed k change fresh m same new h.1)
]

source_actions-IsKeyed :
    (n r : String) (m : ByKey) (bs : List String) → IsKeyed m → IsKeyed (source_actions n r m bs)
unfolding source_actions
source_actions-IsKeyed n r m [] h = h
source_actions-IsKeyed n r m (b ∷ bs) h =
    source_actions-IsKeyed n r (source_action n r m b) bs
      (upsert-IsKeyed _ _ _ m (λ e. refl) refl h)

source_policies-IsKeyed :
    (m : ByKey) (ps : List PolicyRead) → IsKeyed m → IsKeyed (source_policies m ps)
unfolding source_policies
source_policies-IsKeyed m [] h = h
source_policies-IsKeyed m (p ∷ ps) h =
    source_policies-IsKeyed (source_actions p.name p.resource_type m p.actions) ps
      (source_actions-IsKeyed p.name p.resource_type m p.actions h)

source_grants-IsKeyed : (m : ByKey) (gs : List Grant) → IsKeyed m → IsKeyed (source_grants m gs)
unfolding source_grants
source_grants-IsKeyed m [] h = h
source_grants-IsKeyed m (g ∷ gs) h =
    source_grants-IsKeyed (source_grant m g) gs (upsert-IsKeyed _ _ _ m (λ e. refl) refl h)

pub IsKeyed-sources_by_key :
    (ps : List PolicyRead) (gs : List Grant) → IsKeyed (sources_by_key ps gs)
unfolding sources_by_key
IsKeyed-sources_by_key ps gs =
    source_grants-IsKeyed (source_policies [] ps) gs (source_policies-IsKeyed [] ps tt)

map-key_of-values : (m : ByKey) → IsKeyed m → map key_of (values m) ≡ keys m
map-key_of-values [] h = refl
map-key_of-values ((k, e) ∷ m) h = rw (h.0, map-key_of-values m h.1)

-- The list with sources shows the pairs of the plain key set, each once and in the same order.
keys-build_effective_grants_with_source :
    (ps : List PolicyRead) (gs : List Grant)
    → map key_of (build_effective_grants_with_source ps gs) ≡ build_effective_grant_key_set ps gs
unfolding build_effective_grants_with_source
keys-build_effective_grants_with_source ps gs =
    map-key_of-values (sources_by_key ps gs) (IsKeyed-sources_by_key ps gs)
    ∙ keys-sources_by_key ps gs
