-- ===== src/Palette/Found.antt =====
-- A text match never stands alone: its page or feature is a result too.
use mystic_auth.Prelude.{
  String, Bool, true, false, ◌&&◌, ◌≡◌, refl, sym, ◌∙◌, ap, some, get_or, List, [], ◌∷◌, ◌++◌, map,
  ◌==◌, String_eq, ==_refl, has, any, any-append, any-map, filter, In, All, includes,
  includes-join_by, lower-join_by, arith, Bool-cases, inl, inr,
}
use mystic_auth.Session.AuthStore.{AuthState}
use mystic_auth.Translations.{namespace_search_text, scoped_search_text}
use mystic_auth.Translations.Matches.{includes-namespace_search_text, includes-scoped_search_text}
use mystic_auth.Palette.{PaletteResult}
use mystic_auth.Palette.Items.{NavItem, SearchItem, Scope, namespaces_of}
use mystic_auth.Palette.Matches.{texts_in, texts_below, text_matches-All}
use mystic_auth.Palette.Search.{
  Chrome, Indexed, is_open_to, resolve_label, resolve_detail, scope_text, page_of, content_of,
  page_index, content_index, search_haystack, found_in, filtered_pages, filtered_content,
  text_matches,
}

any-has : (xs : List String) (x : String) → any (λ y. y == x) xs ≡ has xs x
any-has [] x = refl
any-has (y ∷ ys) x = ground (arith, any-has ys x)

has_of_In : (xs : List String) (x : String) → In xs x → has xs x ≡ true
has_of_In xs x m = sym (any-has xs x) ∙ m (λ y. y == x) (==_refl x)

-- What an index shows for a query.
any-found_in :
    {A : Type 0} (p : PaletteResult → Bool) (entry : A → Indexed) (visible : A → Bool) (q : String)
    (xs : List A)
    → any p (found_in q (map entry (filter visible xs)))
      ≡ any (λ x. visible x && (includes (search_haystack (entry x)) q && p (entry x).result)) xs
any-found_in p entry visible q [] = refl
any-found_in p entry visible q (x ∷ xs) = ground (arith, any-found_in p entry visible q xs)

module _ (chrome : Chrome) (s : AuthState) (q : String) (lowered : chrome.case.lower q ≡ q) where
  open chrome use {case, language, get_resource_bundle}
  open case use {lower, lower_idem}

  module _ (navs : List NavItem) (items : List SearchItem) where
    abbrev shown : List PaletteResult
    shown = filtered_pages chrome s q navs ++ filtered_content chrome s q items

    abbrev Leads : String → Type 0
    Leads to = any (λ p. p.to == to) shown ≡ true

    abbrev search_text : String → String
    search_text ns = namespace_search_text case get_resource_bundle ns language

    abbrev page_texts_of : NavItem → List String
    page_texts_of i = resolve_label chrome i.label ∷ map search_text (namespaces_of i.to)

    abbrev feature_texts_of : SearchItem → List String
    feature_texts_of i =
        resolve_label chrome i.label
        ∷ get_or (resolve_detail chrome i.detail) ""
        ∷ resolve_label chrome i.group
        ∷ scope_text chrome i.scope
        ∷ map (resolve_label chrome) (get_or i.match_keys [])

    search_text_lowered : (ns : String) → lower (search_text ns) ≡ search_text ns
    unfolding namespace_search_text
    search_text_lowered ns = lower_idem _

    scope_text_lowered :
        (scope : Scope) → lower (scope_text chrome (some scope)) ≡ scope_text chrome (some scope)
    unfolding scoped_search_text
    scope_text_lowered scope = lower_idem _

    search_text_found :
        (ns label : String)
        → In (texts_in chrome s q ns) label
        → includes (lower (search_text ns)) q ≡ true
    search_text_found ns label l = rw search_text_lowered (
        rw lowered at (
          includes-namespace_search_text case get_resource_bundle ns language q label
            (has_of_In (texts_in chrome s q ns) label l)))

    scope_text_found :
        (scope : Scope) (label : String)
        → In (texts_below chrome s q scope) label
        → includes (lower (scope_text chrome (some scope))) q ≡ true
    scope_text_found scope label l = rw scope_text_lowered (
        rw lowered at (
          includes-scoped_search_text case get_resource_bundle scope.namespace language scope.paths
            q label (has_of_In (texts_below chrome s q scope) label l)))

    page_found :
        (i : NavItem) (ns label : String)
        → In (namespaces_of i.to) ns
        → In (texts_in chrome s q ns) label
        → includes (search_haystack (page_of chrome i)) q ≡ true
    page_found i ns label n l = rw (lower-join_by case (page_texts_of i)) (
        includes-join_by " " q (map lower (page_texts_of i)) (
          ground (
            arith,
            any-map lower (λ t. includes t q) (map search_text (namespaces_of i.to)),
            any-map search_text (λ t. includes (lower t) q) (namespaces_of i.to),
            n (λ ns'. includes (lower (search_text ns')) q) (search_text_found ns label l),
          )))

    feature_found :
        (i : SearchItem) (scope : Scope) (label : String)
        → i.scope ≡ some scope
        → In (texts_below chrome s q scope) label
        → includes (search_haystack (content_of chrome i)) q ≡ true
    feature_found i scope label e l = rw (lower-join_by case (feature_texts_of i)) (
        includes-join_by " " q (map lower (feature_texts_of i)) (
          ground (
            arith,
            ap (λ o. includes (lower (scope_text chrome o)) q) e,
            scope_text_found scope label l,
          )))

    page-Leads :
        (i : NavItem) (ns label : String)
        → (q == "") ≡ false
        → In navs i
        → is_open_to s i.permission ≡ true
        → In (namespaces_of i.to) ns
        → In (texts_in chrome s q ns) label
        → Leads i.to
    unfolding filtered_pages page_index
    page-Leads i ns label e m h n l = ground (
      arith,
      any-append (λ p. p.to == i.to) (filtered_pages chrome s q navs)
          (filtered_content chrome s q items),
      any-found_in (λ p. p.to == i.to) (page_of chrome) (λ j. is_open_to s j.permission) q navs,
      m
          (λ j.
            is_open_to s j.permission
            && (includes (search_haystack (page_of chrome j)) q && j.to == i.to))
          (ground (arith, page_found i ns label n l, ==_refl i.to)),
    )

    feature-Leads :
        (i : SearchItem) (scope : Scope) (label : String)
        → (q == "") ≡ false
        → In items i
        → is_open_to s i.permission ≡ true
        → i.scope ≡ some scope
        → In (texts_below chrome s q scope) label
        → Leads i.to
    unfolding filtered_content content_index
    feature-Leads i scope label e m h d l = ground (
      arith,
      any-append (λ p. p.to == i.to) (filtered_pages chrome s q navs)
          (filtered_content chrome s q items),
      any-found_in (λ p. p.to == i.to) (content_of chrome) (λ j. is_open_to s j.permission) q items,
      m
          (λ j.
            is_open_to s j.permission
            && (includes (search_haystack (content_of chrome j)) q && j.to == i.to))
          (ground (arith, feature_found i scope label d l, ==_refl i.to)),
    )

-- Where a text match leads, a page or a feature among the results leads too, so that a match never
-- stands without its place.
pub text_matches-found :
    (chrome : Chrome) (s : AuthState) (trimmed_query : String) (navs : List NavItem)
    (items : List SearchItem)
    → let q = chrome.case.lower trimmed_query in
      All
        (λ r.
          any
            (λ p. p.to == r.to)
            (filtered_pages chrome s q navs ++ filtered_content chrome s q items)
          ≡ true)
        (text_matches chrome s q navs items)
unfolding text_matches
text_matches-found chrome s trimmed_query navs items = elim (Bool-cases (q == "")) [
  | inl e ↦ rw e tt
  | inr e ↦
      text_matches-All chrome s q navs items (λ r. Leads chrome s q lowered navs items r.to)
        (λ i m h ns n label l. page-Leads chrome s q lowered navs items i ns label e m h n l)
        (λ i scope m h d label l.
          feature-Leads chrome s q lowered navs items i scope label e m h d l)
]
  where
    q : String
    q = chrome.case.lower trimmed_query

    lowered : chrome.case.lower q ≡ q
    lowered = chrome.case.lower_idem trimmed_query
