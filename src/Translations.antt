-- ===== src/Translations.antt =====
-- frontend/src/mystic_auth/translations/searchText.ts. A resource bundle, which the translation
-- library hands out by language and namespace, is a tree whose leaves are texts; a value that is
-- neither a text nor an object, undefined included, is `absent`. An object, or an array, is its own
-- keys and values in order.
pub mod Matches
pub mod Samples
mod Tests
use Prim.Native.String
use mystic_auth.Prelude.{
  ℕ, String, Bool, not, ◌&&◌, ◌||◌, List, [], ◌∷◌, ◌++◌, ◌==◌, String_eq, add, includes, join_by,
  split_at, for_each, LowerCase, if◌then◌else◌,
}

mutual
  pub data Node : Type 0 where
    text : String → Node
    branch : Fields → Node
    absent : Node

  pub data Fields : Type 0 where
    end : Fields
    field : String → Node → Fields → Fields

unfoldable mutual
  pub flatten_values : Node → List String → List String
  flatten_values (text s) out = out ++ s ∷ []
  flatten_values (branch fs) out = flatten_fields fs out
  flatten_values absent out = out

  pub flatten_fields : Fields → List String → List String
  flatten_fields end out = out
  flatten_fields (field k n fs) out = flatten_fields fs (flatten_values n out)

-- `obj[key]`
abbrev pub value_at : Fields → String → Node
value_at end key = absent
value_at (field k n fs) key = if k == key then n else value_at fs key

abbrev pub descend : Node → String → Node
descend (branch fs) key = value_at fs key
descend (text s) key = absent
descend absent key = absent

abbrev pub descend_all : Node → List String → Node
descend_all n [] = n
descend_all n (key ∷ keys) = descend_all (descend n key) keys

unfoldable pub get_path : Node → String → Node
unfolding split_at
get_path obj path = descend_all obj (split_at b'.' path)

module _ (c : LowerCase) where
  open c use {lower}

  -- A leaf that is a match: it contains the query, and has no placeholder.
  abbrev pub is_match : String → String → Bool
  is_match s lower_query = includes (lower s) lower_query && not (includes s "{{")

  unfoldable mutual
    pub collect_matches : Node → String → List String → List String
    collect_matches (text s) lower_query out = if is_match s lower_query then add out s else out
    collect_matches (branch fs) lower_query out = collect_fields fs lower_query out
    collect_matches absent lower_query out = out

    pub collect_fields : Fields → String → List String → List String
    collect_fields end lower_query out = out
    collect_fields (field k n fs) lower_query out =
        collect_fields fs lower_query (collect_matches n lower_query out)

  -- `getResourceBundle(language, namespace)` of the translation library.
  module _ (get_resource_bundle : String → String → Node) where
    unfoldable pub namespace_search_text : String → String → String
    unfolding flatten_values
    namespace_search_text namespace language =
        lower (join_by " " (flatten_values (get_resource_bundle language namespace) []))

    unfoldable pub scoped_search_text : String → String → List String → String
    unfolding flatten_values get_path
    scoped_search_text namespace language paths =
        let bundle = get_resource_bundle language namespace in
        lower (join_by " " (for_each (λ path. flatten_values (get_path bundle path)) paths []))

    unfoldable pub namespace_matches : String → String → String → List String
    unfolding collect_matches
    namespace_matches namespace language query =
        collect_matches (get_resource_bundle language namespace) (lower query) []

    unfoldable pub scoped_matches : String → String → List String → String → List String
    unfolding collect_matches get_path
    scoped_matches namespace language paths query =
        let bundle = get_resource_bundle language namespace in
        for_each (λ path. collect_matches (get_path bundle path) (lower query)) paths []
