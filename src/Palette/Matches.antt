-- ===== src/Palette/Matches.antt =====
-- What holds of every text match: a rule over both loops, and that no match is listed twice.
use mystic_auth.Prelude.{
  String, true, false, ◌≡◌, refl, ◌∙◌, ap, ℕ, suc, zero, ◌≤◌, Option, none, some, List, [], ◌∷◌,
  ◌++◌, map, map-append, ◌==◌, String_eq, has, add, add-Unique, Unique, take, length,
  length-take-le, All, In, All-In, All-append, All-take, for_each_keeps, arith, Bool-cases, inl,
  inr, if◌then◌else◌,
}
use mystic_auth.Session.AuthStore.{AuthState}
use mystic_auth.Translations.{namespace_matches, scoped_matches}
use mystic_auth.Palette.{PaletteResult, text_match_results_limit}
use mystic_auth.Palette.Items.{NavItem, SearchItem, Scope, namespaces_of}
use mystic_auth.Palette.Search.{
  Chrome, TextMatches, is_open_to, match_key, text_result, push_match, resolve_label, page_texts,
  scoped_texts, all_text_matches, text_matches,
}

module _ (chrome : Chrome) (s : AuthState) (q : String) where
  open chrome use {case, language, get_resource_bundle}

  abbrev pub texts_in : String → List String
  texts_in ns = namespace_matches case get_resource_bundle ns language q

  abbrev pub texts_below : Scope → List String
  texts_below scope = scoped_matches case get_resource_bundle scope.namespace language scope.paths q

  -- An invariant of the loop state that each push keeps is one of all text matches.
  module _ {ℓ} (navs : List NavItem) (items : List SearchItem) (I : TextMatches → Type ℓ)
      (of_page : (i : NavItem)
        → In navs i
        → is_open_to s i.permission ≡ true
        → (ns : String) → In (namespaces_of i.to) ns
        → (label : String) → In (texts_in ns) label
        → (m : TextMatches) → I m
        → I (push_match i.to (resolve_label chrome i.label) label m))
      (of_feature : (i : SearchItem) (scope : Scope)
        → In items i
        → is_open_to s i.permission ≡ true
        → i.scope ≡ some scope
        → (label : String) → In (texts_below scope) label
        → (m : TextMatches) → I m
        → I (push_match i.to (resolve_label chrome i.group) label m)) where
    page_step :
        (i : NavItem) (m : TextMatches)
        → In navs i
        → I m
        → I (if is_open_to s i.permission then page_texts chrome q i m else m)
    page_step i m h g = elim (Bool-cases (is_open_to s i.permission)) [
      | inl e ↦ rw e (
          for_each_keeps (In (namespaces_of i.to)) I _
            (λ ns m' n g'.
              for_each_keeps (In (texts_in ns)) I _
                (λ label m'' l g''. of_page i h e ns n label l m'' g'') (texts_in ns) m'
                (All-In (texts_in ns)) g')
            (namespaces_of i.to) m (All-In (namespaces_of i.to)) g)
      | inr e ↦ rw e g
    ]

    scoped_step :
        (i : SearchItem) (scope : Option Scope) (m : TextMatches)
        → i.scope ≡ scope
        → In items i
        → is_open_to s i.permission ≡ true
        → I m
        → I (scoped_texts chrome q i scope m)
    scoped_step i none m d h e g = g
    scoped_step i (some scope) m d h e g =
        for_each_keeps (In (texts_below scope)) I _
          (λ label m' l g'. of_feature i scope h e d label l m' g') (texts_below scope) m
          (All-In (texts_below scope)) g

    feature_step :
        (i : SearchItem) (m : TextMatches)
        → In items i
        → I m
        → I (if is_open_to s i.permission then scoped_texts chrome q i i.scope m else m)
    feature_step i m h g = elim (Bool-cases (is_open_to s i.permission)) [
      | inl e ↦ rw e (scoped_step i i.scope m refl h e g)
      | inr e ↦ rw e g
    ]

    pub all_text_matches-keeps :
        I (record { seen = []; results = [] }) → I (all_text_matches chrome s q navs items)
    unfolding all_text_matches
    all_text_matches-keeps g =
        for_each_keeps (In items) I _ feature_step items _ (All-In items)
          (for_each_keeps (In navs) I _ page_step navs _ (All-In navs) g)

  module _ (navs : List NavItem) (items : List SearchItem) (P : PaletteResult → Type 0)
      (of_page : (i : NavItem)
        → In navs i
        → is_open_to s i.permission ≡ true
        → (ns : String) → In (namespaces_of i.to) ns
        → (label : String) → In (texts_in ns) label
        → P (text_result i.to (resolve_label chrome i.label) label))
      (of_feature : (i : SearchItem) (scope : Scope)
        → In items i
        → is_open_to s i.permission ≡ true
        → i.scope ≡ some scope
        → (label : String) → In (texts_below scope) label
        → P (text_result i.to (resolve_label chrome i.group) label)) where
    push_match-All :
        (to sublabel label : String) (m : TextMatches)
        → P (text_result to sublabel label)
        → All P m.results
        → All P (push_match to sublabel label m).results
    unfolding push_match
    push_match-All to sublabel label m h g = elim (Bool-cases (has m.seen (match_key to label))) [
      | inl e ↦ rw e g
      | inr e ↦ rw e (All-append P m.results _ g (h, tt))
    ]

    pub text_matches-All : All P (text_matches chrome s q navs items)
    unfolding text_matches
    text_matches-All = elim (Bool-cases (q == "")) [
      | inl e ↦ rw e tt
      | inr e ↦ rw e (
          All-take P text_match_results_limit _ (
            all_text_matches-keeps navs items (λ m. All P m.results)
              (λ i m h ns n label l m' g.
                push_match-All i.to _ label m' (of_page i m h ns n label l) g)
              (λ i scope m h e label l m' g.
                push_match-All i.to _ label m' (of_feature i scope m h e label l) g)
              tt))
    ]

  -- The keys seen are those of the results, and none is there twice.
  record IsDistinct (m : TextMatches) : Type 0 where
    keys_seen : map (λ r. match_key r.to r.label) m.results ≡ m.seen
    once : Unique m.seen

  push_match-IsDistinct :
      (to sublabel label : String) (m : TextMatches)
      → IsDistinct m
      → IsDistinct (push_match to sublabel label m)
  unfolding push_match add
  push_match-IsDistinct to sublabel label m d =
      elim (Bool-cases (has m.seen (match_key to label))) [
        | inl e ↦ rw e d
        | inr e ↦ rw e (record {
          keys_seen =
              map-append _ m.results _ ∙ ap (λ ks. ks ++ match_key to label ∷ []) d.keys_seen;
          once = rw e at (add-Unique m.seen (match_key to label) d.once);
        })
      ]

has-take : (n : ℕ) (xs : List String) (x : String) → has xs x ≡ false → has (take n xs) x ≡ false
has-take zero xs x h = refl
has-take (suc n) [] x h = refl
has-take (suc n) (y ∷ ys) x h = ground (arith, has-take n ys x)

take-Unique : (n : ℕ) (xs : List String) → Unique xs → Unique (take n xs)
take-Unique zero xs u = tt
take-Unique (suc n) [] u = tt
take-Unique (suc n) (x ∷ xs) u = (has-take n xs x u.0, take-Unique n xs u.1)

map-take :
    {A : Type 0} (f : A → String) (n : ℕ) (xs : List A) → map f (take n xs) ≡ take n (map f xs)
map-take f zero xs = refl
map-take f (suc n) [] = refl
map-take f (suc n) (x ∷ xs) = ap (λ ys. f x ∷ ys) (map-take f n xs)

-- At most twenty text matches are shown, and no text twice for the same destination.
text_matches-Unique :
    (chrome : Chrome) (s : AuthState) (q : String) (navs : List NavItem) (items : List SearchItem)
    → (length (text_matches chrome s q navs items) ≤ 20)
      × Unique (map (λ r. match_key r.to r.label) (text_matches chrome s q navs items))
unfolding text_matches
text_matches-Unique chrome s q navs items = elim (Bool-cases (q == "")) [
  | inl e ↦ rw e (omega arith, tt)
  | inr e ↦ rw e (
    length-take-le 20 (all_text_matches chrome s q navs items).results,
    rw (map-take, distinct.keys_seen) (take-Unique 20 _ distinct.once),
  )
]
  where
    distinct : IsDistinct chrome s q (all_text_matches chrome s q navs items)
    distinct =
        all_text_matches-keeps chrome s q navs items (IsDistinct chrome s q)
          (λ i m h ns n label l m' d. push_match-IsDistinct chrome s q i.to _ label m' d)
          (λ i scope m h e label l m' d. push_match-IsDistinct chrome s q i.to _ label m' d)
          (record { keys_seen = refl; once = tt })
