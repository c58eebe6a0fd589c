-- ===== src/Policies/Lists/Filtered.antt =====
-- Which policies `filterDestructivePolicies` of policyListHelpers.ts shows, and in which order.
use mystic_auth.Prelude.{
  String, true, ◌&&◌, ◌≡◌, ◌∙◌, List, filter, filter-filter, filter_congr, Order, sort_by, IsSorted,
  sort_by-IsSorted, ties, filter-ties-sort_by, arith,
}
use mystic_auth.Policies.{PolicyRead}
use mystic_auth.Policies.Lists.{ClientPolicyFilters, passes_filters, filter_destructive_policies}

module _ (trim lower : String → String) (o : Order String) where
  -- The list is sorted by name; of the policies with any one name it shows exactly those that pass
  -- every filter, in the order in which they came.
  filter_destructive_policies-IsSorted :
      (ps : List PolicyRead) (filters : ClientPolicyFilters) (name : String)
      → IsSorted o (λ p. p.name) (filter_destructive_policies trim lower o ps filters)
        × (filter (ties o (λ p. p.name) name) (filter_destructive_policies trim lower o ps filters)
            ≡ filter (λ p. passes_filters trim lower o filters p && ties o (λ p. p.name) name p) ps)
  unfolding filter_destructive_policies
  filter_destructive_policies-IsSorted ps filters name = (
    sort_by-IsSorted o (λ p. p.name) (filter (passes_filters trim lower o filters) ps),
    filter_congr (ties o (λ p. p.name) name) (λ p. ties o (λ p. p.name) name p && true)
          (λ p. ground arith)
          (sort_by o (λ p. p.name) (filter (passes_filters trim lower o filters) ps))
        ∙ filter-ties-sort_by o (λ p. p.name) name (λ p. true)
            (filter (passes_filters trim lower o filters) ps)
        ∙ filter-filter (λ p. ties o (λ p. p.name) name p && true)
            (passes_filters trim lower o filters) ps
        ∙ filter_congr
            (λ p. passes_filters trim lower o filters p && (ties o (λ p. p.name) name p && true))
            (λ p. passes_filters trim lower o filters p && ties o (λ p. p.name) name p)
            (λ p. ground arith) ps,
  )
