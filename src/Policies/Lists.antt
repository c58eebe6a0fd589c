-- ===== src/Policies/Lists.antt =====
-- frontend/src/mystic_auth/policies/policyListHelpers.ts. `trim`, `toLocaleLowerCase` and
-- `localeCompare` are parameters; the comparison is total and transitive, and sorting is stable, as
-- ECMAScript documents. An optional filter that is undefined is none.
pub mod Filtered
pub mod Pages
pub mod Grouped
mod Tests
use Prim.Native.String
use mystic_auth.Prelude.{
  ℕ, ◌+◌, ◌-◌, ◌*◌, String, Bool, true, false, not, ◌&&◌, ◌||◌, Option, none, some, get_or, List,
  [], map, ◌==◌, String_eq, any, has, filter, take, drop, if◌then◌else◌, includes, Order, sort_by,
}
use mystic_auth.Authorization.{is_destructive_action}
use mystic_auth.Policies.{PolicyRead}
use mystic_auth.Policies.EffectiveGrants.{group_by_resource_type}

pub record ClientPolicyFilters : Type 0 where
  pub search : Option String
  pub resource_type : Option String
  pub is_active : Option Bool
  pub contains_action : Option String

abbrev pub is_empty_text : String → Bool
is_empty_text s = s == ""

-- A filter that is undefined or the empty text lets every policy through.
abbrev pub passes_text : Option String → (String → Bool) → Bool
passes_text none test = true
passes_text (some wanted) test = is_empty_text wanted || test wanted

abbrev pub same_flag : Bool → Bool → Bool
same_flag true b = b
same_flag false b = not b

abbrev pub passes_flag : Option Bool → Bool → Bool
passes_flag none flag = true
passes_flag (some wanted) flag = same_flag wanted flag

-- `trim`, `toLocaleLowerCase`, and the order that `localeCompare` gives.
module _ (trim lower : String → String) (o : Order String) where
  abbrev pub normalized : Option String → String
  normalized none = ""
  normalized (some s) = lower (trim s)

  abbrev pub haystack : PolicyRead → String
  haystack p = lower (String.◌++◌ p.name (String.◌++◌ " " (get_or p.description "")))

  -- The callback of the filter.
  unfoldable pub passes_filters : ClientPolicyFilters → PolicyRead → Bool
  unfolding is_destructive_action
  passes_filters filters p =
      (is_empty_text (normalized filters.search)
        || includes (haystack p) (normalized filters.search))
      && passes_text filters.resource_type (λ r. p.resource_type == r)
      && passes_flag filters.is_active p.is_active
      && passes_text filters.contains_action (λ a. has p.actions a)
      && any is_destructive_action p.actions

  unfoldable pub filter_destructive_policies :
      List PolicyRead → ClientPolicyFilters → List PolicyRead
  unfolding passes_filters
  filter_destructive_policies policies filters =
      sort_by o (λ p. p.name) (filter (passes_filters filters) policies)

module _ (o : Order String) where
  -- A bucket, its policies sorted by name.
  abbrev pub sort_group : String × List PolicyRead → String × List PolicyRead
  sort_group g = (g.0, sort_by o (λ p. p.name) g.1)

  unfoldable pub group_policies_by_resource_type : List PolicyRead → List (String × List PolicyRead)
  group_policies_by_resource_type policies =
      map sort_group (sort_by o (λ g. g.0) (group_by_resource_type (λ p. p.resource_type) policies))

-- `policies.slice(start, start + pageSize)`
unfoldable pub paginate_policies : List PolicyRead → ℕ → ℕ → List PolicyRead
paginate_policies policies page page_size =
    let start = (page - 1) * page_size in take (start + page_size - start) (drop start policies)
