-- ===== src/Translations/Tests.antt =====
-- Examples for the search in translations.
use mystic_auth.Prelude.{
  String, ◌≡◌, refl, ◌&&◌, not, [], ◌∷◌, String_eq, has, Unique, includes, add, join_by, split_at,
}
use mystic_auth.Translations.{
  flatten_values, collect_matches, get_path, namespace_matches, scoped_matches,
  namespace_search_text,
}
use mystic_auth.Translations.Matches.{is_leaf, has-namespace_matches}
use mystic_auth.Translations.Samples.{lower_text, s_lowered, sessions_bundle}

matches_once :
    namespace_matches s_lowered (λ language namespace. sessions_bundle) "dashboard" "en" "SeSS"
    ≡ "Sessions" ∷ []
unfolding namespace_matches collect_matches lower_text includes add
matches_once = refl

below_the_path :
    scoped_matches s_lowered
      (λ language namespace. sessions_bundle)
      "dashboard"
      "en"
      ("card.heading" ∷ "card.missing" ∷ [])
      "sess"
    ≡ "Sessions" ∷ []
unfolding scoped_matches collect_matches get_path split_at lower_text includes add
below_the_path = refl

whole_text :
    namespace_search_text s_lowered (λ language namespace. sessions_bundle) "dashboard" "en"
    ≡ "sessions sessions: {{n}} sessions"
unfolding namespace_search_text flatten_values lower_text join_by
whole_text = refl

has-namespace_matches_example :
    ((x : String)
      → has
          (namespace_matches s_lowered
            (λ language namespace. sessions_bundle)
            "dashboard"
            "en"
            "SeSS")
          x
        ≡ (is_leaf sessions_bundle x
            && (includes (lower_text x) (lower_text "SeSS") && not (includes x "{{"))))
    × Unique (
        namespace_matches s_lowered (λ language namespace. sessions_bundle) "dashboard" "en" "SeSS")
has-namespace_matches_example =
    has-namespace_matches s_lowered (λ language namespace. sessions_bundle) "dashboard" "en" "SeSS"
