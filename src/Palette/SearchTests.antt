-- ===== src/Palette/SearchTests.antt =====
-- Examples for the search of the palette: a user who may read policies, and nobody.
use mystic_auth.Prelude.{
  true, false, ◌≡◌, refl, none, some, [], ◌∷◌, ◌++◌, map, String_eq, ◌==◌, any, All, includes, add,
  lookup,
}
use mystic_auth.Session.AuthStore.{AuthState, initial}
use mystic_auth.Authorization.{can}
use mystic_auth.Translations.{collect_matches}
use mystic_auth.Translations.Samples.{lower_text, s_lowered, sessions_bundle}
use mystic_auth.Palette.Items.{nav_items, search_items}
use mystic_auth.Palette.Search.{
  Chrome, Answers, filtered_pages, filtered_content, text_matches, use_command_palette_results,
}
use mystic_auth.Palette.Gates.{is_gated}
use mystic_auth.Palette.Gated.{use_command_palette_results-IsGated}
use mystic_auth.Palette.Found.{text_matches-found}

abbrev english : Chrome
english = record {
  case = s_lowered;
  language = "en";
  get_resource_bundle = λ language namespace. sessions_bundle;
  exists = λ label. false;
  translate = λ label. label;
}

abbrev reader : AuthState
reader = record initial { is_authenticated = some true; permissions = "policies:read" ∷ [] }

abbrev no_answers : Answers
no_answers = record { permission_catalog = none; policy_results = none; user_results = none }

open_pages :
    map (λ r. r.to) (filtered_pages english reader "" nav_items)
    ≡ "/dashboard" ∷ "/policies" ∷ "/audit-log" ∷ "/account-settings" ∷ []
unfolding filtered_pages can nav_items
open_pages = refl

texts_of_pages :
    map (λ r. r.to) (text_matches english reader "sess" nav_items [])
    ≡ "/dashboard" ∷ "/policies" ∷ "/audit-log" ∷ "/account-settings" ∷ []
unfolding text_matches can nav_items collect_matches lower_text includes add lookup
texts_of_pages = refl

use_command_palette_results-IsGated_example :
    All
      (λ r. is_gated reader (nav_items ++ []) (search_items ++ []) r ≡ true)
      (use_command_palette_results (λ s. s) english reader no_answers "SeSS" [] [])
use_command_palette_results-IsGated_example =
    use_command_palette_results-IsGated (λ s. s) english reader no_answers "SeSS" [] []

text_matches-found_example :
    All
      (λ r.
        any
          (λ p. p.to == r.to)
          (filtered_pages english reader (lower_text "SeSS") nav_items
            ++ filtered_content english reader (lower_text "SeSS") search_items)
        ≡ true)
      (text_matches english reader (lower_text "SeSS") nav_items search_items)
text_matches-found_example = text_matches-found english reader "SeSS" nav_items search_items
