-- ===== src/Policies/EffectiveGrants.antt =====
-- frontend/src/mystic_auth/policies/logic/effectiveGrants.ts. A `Set` of keys is an
-- insertion-ordered list, a `Map` an association list (Prelude/Sets, Prelude/Maps).
pub mod Keys
pub mod Coverage
pub mod Wildcards
pub mod Sources
pub mod Provenance
pub mod Pairs
pub mod Groups
mod Tests
use Prim.Native.String
use mystic_auth.Prelude.{
  String, Bool, true, false, not, ◌&&◌, ◌||◌, List, [], ◌∷◌, ◌++◌, map, String_eq, ◌==◌,
  if◌then◌else◌, any, all, filter, has, add, add_all, upsert, values,
}
use mystic_auth.Policies.{PolicyRead, Grant}

abbrev pub wildcard_resource_type : String
wildcard_resource_type = "*"

-- `${action}::${resourceType}`
unfoldable pub grant_key : String → String → String
grant_key action resource_type = String.◌++◌ action (String.◌++◌ "::" resource_type)

-- The inner loop of `buildEffectiveGrantKeySet`, over one policy's actions.
unfoldable pub add_actions : String → List String → List String → List String
add_actions resource_type ks [] = ks
add_actions resource_type ks (action ∷ actions) =
    add_actions resource_type (add ks (grant_key action resource_type)) actions

unfoldable pub add_policies : List String → List PolicyRead → List String
add_policies ks [] = ks
add_policies ks (p ∷ ps) = add_policies (add_actions p.resource_type ks p.actions) ps

unfoldable pub add_grants : List String → List Grant → List String
add_grants ks [] = ks
add_grants ks (g ∷ gs) = add_grants (add ks (grant_key g.action g.resource_type)) gs

unfoldable pub build_effective_grant_key_set : List PolicyRead → List Grant → List String
unfolding add_policies add_grants
build_effective_grant_key_set assigned_policies direct_grants =
    add_grants (add_policies [] assigned_policies) direct_grants

unfoldable pub has_effective_grant : List String → String → String → Bool
has_effective_grant effective_grant_keys action resource_type =
    has effective_grant_keys (grant_key action resource_type)
    || has effective_grant_keys (grant_key action wildcard_resource_type)

unfoldable pub policy_adds_nothing_new : PolicyRead → List String → Bool
policy_adds_nothing_new candidate effective_grant_keys =
    all (λ action. has_effective_grant effective_grant_keys action candidate.resource_type)
      candidate.actions

unfoldable pub is_already_effectively_granted : List String → String → String → Bool
is_already_effectively_granted effective_grant_keys action resource_type =
    has_effective_grant effective_grant_keys action resource_type

-- `T extends { action: string; resource_type: string }`
pub record GrantLike (T : Type 0) : Type 0 where
  pub action_of : T → String
  pub resource_type_of : T → String

instance abbrev pub Grant_like : GrantLike Grant
Grant_like = record { action_of = λ g. g.action; resource_type_of = λ g. g.resource_type }

module _ {T : Type 0} ⦃l : GrantLike T⦄ where
  abbrev pub is_wildcard : T → Bool
  is_wildcard g = l.resource_type_of g == wildcard_resource_type

module _ {T S : Type 0} ⦃l : GrantLike T⦄ ⦃k : GrantLike S⦄ where
  unfoldable pub dedupe_against_wildcards : List T → List S → List T
  dedupe_against_wildcards grants wildcard_source =
      let wildcard_actions = add_all [] (map k.action_of (filter is_wildcard wildcard_source)) in
      filter (λ g. is_wildcard g || not (has wildcard_actions (l.action_of g))) grants

  unfoldable pub is_subsumed_by_wildcard : T → List S → Bool
  is_subsumed_by_wildcard target source =
      if is_wildcard target
      then false
      else any (λ g. k.action_of g == l.action_of target && is_wildcard g) source

pub record EffectiveGrantWithSource : Type 0 where
  pub action : String
  pub resource_type : String
  pub policy_names : List String
  pub direct : Bool

abbrev pub ByKey : Type 0
ByKey = List (String × EffectiveGrantWithSource)

abbrev pub push_policy_name : String → EffectiveGrantWithSource → EffectiveGrantWithSource
push_policy_name name e = record e { policy_names = e.policy_names ++ name ∷ [] }

abbrev pub mark_direct : EffectiveGrantWithSource → EffectiveGrantWithSource
mark_direct e = record e { direct = true }

-- One round of the inner loop over a policy's actions.
abbrev pub source_action : String → String → ByKey → String → ByKey
source_action name resource_type by_key action =
    upsert (grant_key action resource_type) (push_policy_name name)
      (record {
        action = action;
        resource_type = resource_type;
        policy_names = name ∷ [];
        direct = false;
      })
      by_key

unfoldable pub source_actions : String → String → ByKey → List String → ByKey
source_actions name resource_type by_key [] = by_key
source_actions name resource_type by_key (action ∷ actions) =
    source_actions name resource_type (source_action name resource_type by_key action) actions

unfoldable pub source_policies : ByKey → List PolicyRead → ByKey
source_policies by_key [] = by_key
source_policies by_key (p ∷ ps) =
    source_policies (source_actions p.name p.resource_type by_key p.actions) ps

-- One round of the loop over the direct grants.
abbrev pub source_grant : ByKey → Grant → ByKey
source_grant by_key g =
    upsert (grant_key g.action g.resource_type) mark_direct
      (record {
        action = g.action;
        resource_type = g.resource_type;
        policy_names = [];
        direct = true;
      })
      by_key

unfoldable pub source_grants : ByKey → List Grant → ByKey
source_grants by_key [] = by_key
source_grants by_key (g ∷ gs) = source_grants (source_grant by_key g) gs

unfoldable pub sources_by_key : List PolicyRead → List Grant → ByKey
unfolding source_policies source_grants
sources_by_key assigned_policies direct_grants =
    source_grants (source_policies [] assigned_policies) direct_grants

unfoldable pub build_effective_grants_with_source :
    List PolicyRead → List Grant → List EffectiveGrantWithSource
unfolding sources_by_key
build_effective_grants_with_source assigned_policies direct_grants =
    values (sources_by_key assigned_policies direct_grants)

module _ {T : Type 0} (resource_type_of : T → String) where
  unfoldable pub group_from : List (String × List T) → List T → List (String × List T)
  group_from groups [] = groups
  group_from groups (item ∷ items) =
      group_from (upsert (resource_type_of item) (λ group. group ++ item ∷ []) (item ∷ []) groups)
        items

  unfoldable pub group_by_resource_type : List T → List (String × List T)
  unfolding group_from
  group_by_resource_type items = group_from [] items
