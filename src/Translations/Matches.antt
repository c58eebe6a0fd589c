-- ===== src/Translations/Matches.antt =====
-- What the search in a translation finds, against the leaves of its tree.
use mystic_auth.Prelude.{
  String, Bool, true, false, ◌&&◌, ◌||◌, not, ◌≡◌, ◌∙◌, ap, List, [], ◌∷◌, map, ◌==◌, String_eq,
  ==_iff, any, any-map, has, has-append, has-add, add-Unique, Unique, for_each, includes, join_by,
  includes-join_by, lower-join_by, LowerCase, arith, Bool-cases, inl, inr,
}
use mystic_auth.Translations.{
  Node, text, branch, absent, Fields, end, field, flatten_values, flatten_fields, get_path,
  is_match, collect_matches, collect_fields, namespace_search_text, scoped_search_text,
  namespace_matches, scoped_matches,
}

-- Is the text a leaf of the tree?
mutual
  pub is_leaf : Node → String → Bool
  is_leaf (text s) x = s == x
  is_leaf (branch fs) x = is_field_leaf fs x
  is_leaf absent x = false

  is_field_leaf : Fields → String → Bool
  is_field_leaf end x = false
  is_field_leaf (field k n fs) x = is_leaf n x || is_field_leaf fs x

-- The leaves below one of the paths.
abbrev pub is_leaf_below : Node → List String → String → Bool
is_leaf_below n paths x = any (λ path. is_leaf (get_path n path) x) paths

mutual
  unfolding is_leaf flatten_values

  has-flatten_values :
      (n : Node) (out : List String) (x : String)
      → has (flatten_values n out) x ≡ (has out x || is_leaf n x)
  has-flatten_values (text s) out x = ground (arith, has-append out (s ∷ []) x)
  has-flatten_values (branch fs) out x = has-flatten_fields fs out x
  has-flatten_values absent out x = ground arith

  has-flatten_fields :
      (fs : Fields) (out : List String) (x : String)
      → has (flatten_fields fs out) x ≡ (has out x || is_field_leaf fs x)
  has-flatten_fields end out x = ground arith
  has-flatten_fields (field k n fs) out x =
      ground (arith, has-flatten_values n out x, has-flatten_fields fs (flatten_values n out) x)

module _ (c : LowerCase) where
  open c use {lower, lower_idem}

  mutual
    unfolding is_leaf collect_matches

    has-collect_matches :
        (n : Node) (q : String) (out : List String) (x : String)
        → has (collect_matches c n q out) x ≡ (has out x || (is_leaf n x && is_match c x q))
    has-collect_matches (text s) q out x =
        ground (arith, has-add out s x, ==_iff s x, ap (λ v. is_match c v q) {x = s} {y = x})
    has-collect_matches (branch fs) q out x = has-collect_fields fs q out x
    has-collect_matches absent q out x = ground arith

    has-collect_fields :
        (fs : Fields) (q : String) (out : List String) (x : String)
        → has (collect_fields c fs q out) x ≡ (has out x || (is_field_leaf fs x && is_match c x q))
    has-collect_fields end q out x = ground arith
    has-collect_fields (field k n fs) q out x = ground (
      arith,
      has-collect_matches n q out x,
      has-collect_fields fs q (collect_matches c n q out) x,
    )

  mutual
    unfolding collect_matches

    collect_matches-Unique :
        (n : Node) (q : String) (out : List String)
        → Unique out
        → Unique (collect_matches c n q out)
    collect_matches-Unique (text s) q out u = ground (arith, add-Unique out s u)
    collect_matches-Unique (branch fs) q out u = collect_fields-Unique fs q out u
    collect_matches-Unique absent q out u = u

    collect_fields-Unique :
        (fs : Fields) (q : String) (out : List String)
        → Unique out
        → Unique (collect_fields c fs q out)
    collect_fields-Unique end q out u = u
    collect_fields-Unique (field k n fs) q out u =
        collect_fields-Unique fs q (collect_matches c n q out) (collect_matches-Unique n q out u)

  has-collect_each :
      (n : Node) (paths : List String) (q : String) (out : List String) (x : String)
      → has (for_each (λ path. collect_matches c (get_path n path) q) paths out) x
        ≡ (has out x || (is_leaf_below n paths x && is_match c x q))
  has-collect_each n [] q out x = ground arith
  has-collect_each n (path ∷ paths) q out x = ground (
    arith,
    has-collect_matches (get_path n path) q out x,
    has-collect_each n paths q (collect_matches c (get_path n path) q out) x,
  )

  has-flatten_each :
      (n : Node) (paths : List String) (out : List String) (x : String)
      → has (for_each (λ path. flatten_values (get_path n path)) paths out) x
        ≡ (has out x || is_leaf_below n paths x)
  has-flatten_each n [] out x = ground arith
  has-flatten_each n (path ∷ paths) out x = ground (
    arith,
    has-flatten_values (get_path n path) out x,
    has-flatten_each n paths (flatten_values (get_path n path) out) x,
  )

  any_of_has :
      (p : String → Bool) (xs : List String) (x : String)
      → has xs x ≡ true
      → p x ≡ true
      → any p xs ≡ true
  any_of_has p [] x h q = ground arith
  any_of_has p (y ∷ ys) x h q = elim (Bool-cases (y == x)) [
    | inl e ↦ ground (arith, ap p ((==_iff y x).0 e))
    | inr e ↦ ground (arith, any_of_has p ys x)
  ]

  -- A text that lists a leaf, lowered, includes what the leaf includes.
  includes-listed :
      (xs : List String) (x q : String)
      → has xs x ≡ true
      → includes (lower x) q ≡ true
      → includes (lower (join_by " " xs)) q ≡ true
  includes-listed xs x q h m = rw (lower-join_by c xs) (
      includes-join_by " " q (map lower xs)
        (any-map lower (λ s. includes s q) xs ∙ any_of_has (λ s. includes (lower s) q) xs x h m))

  module _ (bundle : String → String → Node) where
    -- The matches in a namespace are the leaves of its tree that contain the query, upper or lower
    -- case, and have no placeholder; each is listed once.
    pub has-namespace_matches :
        (namespace language query : String)
        → ((x : String)
            → has (namespace_matches c bundle namespace language query) x ≡ (
                is_leaf (bundle language namespace) x
                && (includes (lower x) (lower query) && not (includes x "{{"))))
          × Unique (namespace_matches c bundle namespace language query)
    unfolding namespace_matches
    has-namespace_matches namespace language query = (
      λ x. has-collect_matches (bundle language namespace) (lower query) [] x,
      collect_matches-Unique (bundle language namespace) (lower query) [] tt,
    )

    pub has-scoped_matches :
        (namespace language : String) (paths : List String) (query x : String)
        → has (scoped_matches c bundle namespace language paths query) x ≡ (
            is_leaf_below (bundle language namespace) paths x
            && (includes (lower x) (lower query) && not (includes x "{{")))
    unfolding scoped_matches
    has-scoped_matches namespace language paths query x =
        has-collect_each (bundle language namespace) paths (lower query) [] x

    -- A text found in a namespace is found by the text of the whole namespace.
    pub includes-namespace_search_text :
        (namespace language query x : String)
        → has (namespace_matches c bundle namespace language query) x ≡ true
        → includes (namespace_search_text c bundle namespace language) (lower query) ≡ true
    unfolding namespace_search_text
    includes-namespace_search_text namespace language query x h =
        let n = bundle language namespace in
        let found = (has-namespace_matches namespace language query).0 x in
        includes-listed (flatten_values n []) x (lower query)
          (ground (arith, found, has-flatten_values n [] x)) (ground (arith, found))

    pub includes-scoped_search_text :
        (namespace language : String) (paths : List String) (query x : String)
        → has (scoped_matches c bundle namespace language paths query) x ≡ true
        → includes (scoped_search_text c bundle namespace language paths) (lower query) ≡ true
    unfolding scoped_search_text
    includes-scoped_search_text namespace language paths query x h =
        let n = bundle language namespace in
        let found = has-scoped_matches namespace language paths query x in
        includes-listed (for_each (λ path. flatten_values (get_path n path)) paths []) x
          (lower query) (ground (arith, found, has-flatten_each n paths [] x))
          (ground (arith, found))
