-- ===== src/Policies/Lists/Tests.antt =====
-- Examples for the policy list: an order of names that puts the empty name first.
use mystic_auth.Prelude.{
  String, Bool, true, not, ◌||◌, ◌≡◌, refl, ◌⊎◌, none, some, List, [], ◌∷◌, ◌==◌, String_eq, Order,
  sort_by, includes, arith,
}
use mystic_auth.Policies.{PolicyRead}
use mystic_auth.Policies.Lists.{ClientPolicyFilters, filter_destructive_policies, paginate_policies}

abbrev empty_first : String → String → Bool
empty_first j k = j == "" || not (k == "")

empty_first_total : (j k : String) → (empty_first j k ≡ true) ⊎ (empty_first k j ≡ true)
empty_first_total j k = ground arith

empty_first_trans :
    (i j k : String) → empty_first i j ≡ true → empty_first j k ≡ true → empty_first i k ≡ true
empty_first_trans i j k h l = ground arith

abbrev by_emptiness : Order String
by_emptiness = record {
  le = empty_first;
  le_total = empty_first_total;
  le_trans = empty_first_trans;
}

abbrev named : String → String → PolicyRead
named name action = record {
  id = 1;
  name = name;
  description = none;
  actions = action ∷ [];
  resource_type = "users";
  is_active = true;
  created_by = none;
}

abbrev some_policies : List PolicyRead
some_policies =
    named "b" "users:delete_any" ∷ named "a" "users:read" ∷ named "" "policies:delete" ∷ []

abbrev no_filters : ClientPolicyFilters
no_filters = record {
  search = none;
  resource_type = some "users";
  is_active = some true;
  contains_action = none;
}

shown :
    filter_destructive_policies (λ s. s) (λ s. s) by_emptiness some_policies no_filters
    ≡ named "" "policies:delete" ∷ named "b" "users:delete_any" ∷ []
unfolding filter_destructive_policies sort_by includes
shown = refl

second_page : paginate_policies some_policies 2 2 ≡ named "" "policies:delete" ∷ []
unfolding paginate_policies
second_page = refl
