-- ===== src/Palette/Search.antt =====
-- frontend/src/mystic_auth/layout/command_palette/CommandPaletteResults.ts: the pages, the features
-- and the texts that match a query, and all results together. The translation library (`exists`,
-- the fixed translator, the resource bundles) and the encoding of a URL part are parameters.
use mystic_auth.Prelude.{
  String, Bool, true, ◌||◌, Option, none, some, get_or, List, [], ◌∷◌, ◌++◌, map, ◌==◌, String_eq,
  add, has, filter, take, for_each, includes, join_by, LowerCase, if◌then◌else◌,
}
use mystic_auth.Policies.{PolicyRead}
use mystic_auth.Session.AuthStore.{AuthState}
use mystic_auth.Users.AccessRows.{PermissionCatalogEntry}
use mystic_auth.Authorization.{Action, one, any_of, can}
use mystic_auth.Authorization.Permissions.{permissions_read, policies_read, users_list_all}
use mystic_auth.Translations.{
  Node, namespace_search_text, scoped_search_text, namespace_matches, scoped_matches,
}
use mystic_auth.Palette.{
  PaletteResult, of_page, of_content, of_match, FoundUser, text_match_results_limit,
  permission_matches, filtered_policies, filtered_users, filtered, joined,
}
use mystic_auth.Palette.Items.{NavItem, SearchItem, Scope, nav_items, search_items, namespaces_of}

-- The chrome of the page in its language: what the translation library answers.
pub record Chrome : Type 0 where
  pub case : LowerCase
  pub language : String
  pub get_resource_bundle : String → String → Node
  pub exists : String → Bool
  pub translate : String → String

-- A result with the text that it is searched in.
pub record Indexed : Type 0 where
  pub result : PaletteResult
  pub haystack : String

-- The loop state of the text matches.
pub record TextMatches : Type 0 where
  pub seen : List String
  pub results : List PaletteResult

-- `!item.permission || can(item.permission)`; the empty text is no permission.
abbrev pub is_open_to : AuthState → Option Action → Bool
is_open_to s none = true
is_open_to s (some (one action)) = action == "" || can s (one action)
is_open_to s (some (any_of actions)) = can s (any_of actions)

abbrev pub visible_nav_items : AuthState → List NavItem → List NavItem
visible_nav_items s items = filter (λ item. is_open_to s item.permission) items

abbrev pub visible_search_items : AuthState → List SearchItem → List SearchItem
visible_search_items s items = filter (λ item. is_open_to s item.permission) items

abbrev pub search_haystack : Indexed → String
search_haystack i = i.haystack

abbrev pub match_key : String → String → String
match_key to label = joined (to ∷ " " ∷ label ∷ [])

abbrev pub text_result : String → String → String → PaletteResult
text_result to sublabel label = record {
  kind = of_match;
  to = to;
  label = label;
  sublabel = some sublabel;
}

unfoldable pub push_match : String → String → String → TextMatches → TextMatches
unfolding add
push_match to sublabel label m = if has m.seen (match_key to label) then m else record m {
  seen = add m.seen (match_key to label);
  results = m.results ++ text_result to sublabel label ∷ [];
}

abbrev pub found_in : String → List Indexed → List PaletteResult
found_in q index = map (λ i. i.result) (filter (λ i. includes (search_haystack i) q) index)

module _ (chrome : Chrome) where
  open chrome use {case, language, get_resource_bundle, exists, translate}
  open case use {lower}

  abbrev pub resolve_label : String → String
  resolve_label label = if exists label then translate label else label

  abbrev pub page_of : NavItem → Indexed
  page_of item = record {
    result = record {
      kind = of_page;
      to = item.to;
      label = resolve_label item.label;
      sublabel = none;
    };
    haystack = lower (
        join_by " " (
          resolve_label item.label
          ∷ map (λ ns. namespace_search_text case get_resource_bundle ns language)
              (namespaces_of item.to)));
  }

  unfoldable pub page_index : AuthState → List NavItem → List Indexed
  unfolding join_by namespace_search_text namespaces_of
  page_index s items = map page_of (visible_nav_items s items)

  -- `item.detail ? resolveLabel(item.detail) : undefined`
  abbrev pub resolve_detail : Option String → Option String
  resolve_detail none = none
  resolve_detail (some d) = if d == "" then none else some (resolve_label d)

  abbrev pub scope_text : Option Scope → String
  scope_text none = ""
  scope_text (some scope) =
      scoped_search_text case get_resource_bundle scope.namespace language scope.paths

  -- `detail ? `${group} · ${detail}` : group`
  abbrev pub with_detail : String → Option String → String
  with_detail group none = group
  with_detail group (some d) = if d == "" then group else joined (group ∷ " · " ∷ d ∷ [])

  abbrev pub content_of : SearchItem → Indexed
  content_of item = record {
    result = record {
      kind = of_content;
      to = item.to;
      label = resolve_label item.label;
      sublabel = some (with_detail (resolve_label item.group) (resolve_detail item.detail));
    };
    haystack = lower (
        join_by " " (
          resolve_label item.label
          ∷ get_or (resolve_detail item.detail) ""
          ∷ resolve_label item.group
          ∷ scope_text item.scope
          ∷ map resolve_label (get_or item.match_keys [])));
  }

  unfoldable pub content_index : AuthState → List SearchItem → List Indexed
  unfolding join_by scoped_search_text
  content_index s items = map content_of (visible_search_items s items)

  unfoldable pub filtered_pages : AuthState → String → List NavItem → List PaletteResult
  unfolding page_index includes
  filtered_pages s q items =
      if q == "" then map (λ i. i.result) (page_index s items) else found_in q (page_index s items)

  unfoldable pub filtered_content : AuthState → String → List SearchItem → List PaletteResult
  unfolding content_index includes
  filtered_content s q items = if q == "" then [] else found_in q (content_index s items)

  abbrev pub page_texts : String → NavItem → TextMatches → TextMatches
  page_texts q item =
      for_each
        (λ ns.
          for_each (push_match item.to (resolve_label item.label))
            (namespace_matches case get_resource_bundle ns language q))
        (namespaces_of item.to)

  abbrev pub scoped_texts : String → SearchItem → Option Scope → TextMatches → TextMatches
  scoped_texts q item none m = m
  scoped_texts q item (some scope) m =
      for_each (push_match item.to (resolve_label item.group))
        (scoped_matches case get_resource_bundle scope.namespace language scope.paths q) m

  -- Both loops, before the list is cut.
  unfoldable pub all_text_matches :
      AuthState → String → List NavItem → List SearchItem → TextMatches
  unfolding push_match namespace_matches scoped_matches namespaces_of
  all_text_matches s q navs items =
      for_each
        (λ item m. if is_open_to s item.permission then scoped_texts q item item.scope m else m)
        items
        (for_each (λ item m. if is_open_to s item.permission then page_texts q item m else m) navs
          (record { seen = []; results = [] }))

  unfoldable pub text_matches :
      AuthState → String → List NavItem → List SearchItem → List PaletteResult
  unfolding all_text_matches
  text_matches s q navs items =
      if q == ""
      then []
      else take text_match_results_limit (all_text_matches s q navs items).results

-- What the queries have answered.
pub record Answers : Type 0 where
  pub permission_catalog : Option (List PermissionCatalogEntry)
  pub policy_results : Option (List PolicyRead)
  pub user_results : Option (List FoundUser)

-- The results before they are ordered.
unfoldable pub palette_candidates :
    (String → String)
    → Chrome
    → AuthState
    → Answers
    → String
    → List NavItem
    → List SearchItem
    → List PaletteResult
unfolding filtered_pages filtered_content text_matches permission_matches filtered_policies
    filtered_users
palette_candidates encode chrome s answers trimmed_query extra_nav_items extra_search_items =
    let lower = chrome.case.lower in
    let q = lower trimmed_query in
    let navs = nav_items ++ extra_nav_items in
    let items = search_items ++ extra_search_items in
    filtered_pages chrome s q navs
    ++ (filtered_content chrome s q items
        ++ (text_matches chrome s q navs items
            ++ (permission_matches lower encode q (can s (one permissions_read))
                  answers.permission_catalog (resolve_label chrome "layout:nav.permissions")
                ++ (filtered_policies lower encode (can s (one policies_read)) trimmed_query
                      answers.policy_results (resolve_label chrome "layout:nav.policies")
                    ++ filtered_users lower encode (can s (one users_list_all)) trimmed_query
                        answers.user_results))))

unfoldable pub use_command_palette_results :
    (String → String)
    → Chrome
    → AuthState
    → Answers
    → String
    → List NavItem
    → List SearchItem
    → List PaletteResult
unfolding palette_candidates filtered
use_command_palette_results encode chrome s answers trimmed_query extra_nav_items
      extra_search_items =
    filtered chrome.case.lower (chrome.case.lower trimmed_query)
      (palette_candidates encode chrome s answers trimmed_query extra_nav_items extra_search_items)
