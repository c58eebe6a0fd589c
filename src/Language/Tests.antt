-- ===== src/Language/Tests.antt =====
-- Examples for the choice of the language.
use mystic_auth.Prelude.{◌≡◌, refl, some, none, List, [], ◌∷◌}
use mystic_auth.Language.{
  en, hi, mr, only_gu, en_hi, en_mr, LanguageEvent, mode_chosen, loaded, failed, load_rejected,
  get_initial_mode, is_language_mode, initial_store, language_run, language_step, set_mode,
  apply_mode, load_resolved, resolve_languages,
}
use mystic_auth.Language.Current.{IsCurrent, language_run-IsCurrent}

-- The load of the second choice ends before that of the first, which fails.
abbrev events : List LanguageEvent
events = mode_chosen en_hi ∷ mode_chosen en_mr ∷ loaded 3 ∷ failed 2 ∷ []

second_choice_wins : (language_run events (initial_store none "fr")).changes ≡ mr ∷ []
unfolding language_run language_step set_mode apply_mode load_resolved initial_store
    get_initial_mode is_language_mode resolve_languages
second_choice_wins = refl

-- The load of the choice fails: the document says Hindi, and the pages stay as they were.
failed_load_keeps_pages :
    let s = language_run (loaded 1 ∷ mode_chosen en_hi ∷ failed 2 ∷ []) (initial_store none "fr") in
    (s.html_lang ≡ some hi) × (s.changes ≡ en ∷ []) × (s.loads ≡ [])
unfolding language_run language_step set_mode apply_mode load_resolved load_rejected initial_store
    get_initial_mode is_language_mode resolve_languages
failed_load_keeps_pages = (refl, refl, refl)

from_browser : get_initial_mode (some "xx") "gu" ≡ only_gu
unfolding get_initial_mode is_language_mode
from_browser = refl

language_run-IsCurrent_example : IsCurrent (language_run events (initial_store none "fr"))
language_run-IsCurrent_example = language_run-IsCurrent none "fr" events
