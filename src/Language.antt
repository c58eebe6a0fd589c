-- ===== src/Language.antt =====
-- frontend/src/mystic_auth/store/languageStore.ts: the choice of the language. Loads that are under
-- way, the versions of those that have failed, and the calls of `translations.changeLanguage`, the
-- latest first, are part of the state; what that call then does, and the revision that it counts, are
-- the library's.
pub mod Current
mod Tests
use mystic_auth.Prelude.{
  ℕ, ◌+◌, String, Bool, true, false, not, Option, none, some, List, [], ◌∷◌, ◌==◌, ℕ_eq, String_eq,
  has, filter, lookup, if◌then◌else◌,
}

pub data Language : Type 0 where
  en hi mr gu : Language

pub data LanguageMode : Type 0 where
  only_en only_hi only_mr only_gu en_hi en_mr en_gu : LanguageMode

pub record ResolvedLanguages : Type 0 where
  pub chrome_language : Language
  pub page_language : Language

unfoldable pub resolve_languages : LanguageMode → ResolvedLanguages
resolve_languages only_en = record { chrome_language = en; page_language = en }
resolve_languages only_hi = record { chrome_language = hi; page_language = hi }
resolve_languages only_mr = record { chrome_language = mr; page_language = mr }
resolve_languages only_gu = record { chrome_language = gu; page_language = gu }
resolve_languages en_hi = record { chrome_language = en; page_language = hi }
resolve_languages en_mr = record { chrome_language = en; page_language = mr }
resolve_languages en_gu = record { chrome_language = en; page_language = gu }

-- The modes and the languages as the texts that they are in the source.
abbrev pub mode_text : LanguageMode → String
mode_text only_en = "en"
mode_text only_hi = "hi"
mode_text only_mr = "mr"
mode_text only_gu = "gu"
mode_text en_hi = "en+hi"
mode_text en_mr = "en+mr"
mode_text en_gu = "en+gu"

abbrev pub language_modes : List LanguageMode
language_modes = only_en ∷ only_hi ∷ only_mr ∷ only_gu ∷ en_hi ∷ en_mr ∷ en_gu ∷ []

-- The modes that are languages, of `SUPPORTED_LANGUAGES`.
abbrev pub plain_modes : List LanguageMode
plain_modes = only_en ∷ only_hi ∷ only_mr ∷ only_gu ∷ []

-- The mode of a text among some, for `includes` and the cast that follows it.
abbrev pub mode_among : List LanguageMode → String → Option LanguageMode
mode_among [] value = none
mode_among (m ∷ ms) value =
    let rest = mode_among ms value in if mode_text m == value then some m else rest

unfoldable pub is_language_mode : Option String → Option LanguageMode
is_language_mode none = none
is_language_mode (some value) = mode_among language_modes value

abbrev pub mode_or : Option LanguageMode → LanguageMode → LanguageMode
mode_or none other = other
mode_or (some m) other = m

-- `browser_lang` is the first two characters of `navigator.language`.
unfoldable pub get_initial_mode : Option String → String → LanguageMode
unfolding is_language_mode
get_initial_mode stored browser_lang =
    mode_or (is_language_mode stored) (mode_or (mode_among plain_modes browser_lang) only_en)

pub record LanguageStore : Type 0 where
  pub mode : LanguageMode
  pub stored : Option String
  pub html_lang : Option Language
  pub language_load_version : ℕ
  pub loads : List (ℕ × Language)
  pub failed_loads : List ℕ
  pub changes : List Language

abbrev pub page_of : LanguageMode → Language
page_of mode = (resolve_languages mode).page_language

unfoldable pub apply_mode : LanguageMode → LanguageStore → LanguageStore
apply_mode mode s = record s {
  html_lang = some (page_of mode);
  language_load_version = s.language_load_version + 1;
  loads = (s.language_load_version + 1, page_of mode) ∷ s.loads;
}

unfoldable pub set_mode : LanguageMode → LanguageStore → LanguageStore
unfolding apply_mode
set_mode mode s = record (apply_mode mode (record s { stored = some (mode_text mode) })) {
  mode = mode;
}

-- The module's last line, on the store as it is made.
unfoldable pub initial_store : Option String → String → LanguageStore
unfolding apply_mode get_initial_mode
initial_store stored browser_lang =
    let initial_mode = get_initial_mode stored browser_lang in
    apply_mode initial_mode (record {
      mode = initial_mode;
      stored = stored;
      html_lang = none;
      language_load_version = 0;
      loads = [];
      failed_loads = [];
      changes = [];
    })

abbrev pub settled_load : ℕ → Option Language → LanguageStore → LanguageStore
settled_load version none s = s
settled_load version (some language) s = record s {
  loads = filter (λ l. not (l.0 == version)) s.loads;
  changes = if version == s.language_load_version then language ∷ s.changes else s.changes;
}

-- The callback of a load, by the version that it was started with.
unfoldable pub load_resolved : ℕ → LanguageStore → LanguageStore
unfolding lookup
load_resolved version s = settled_load version (lookup version s.loads) s

-- A load that is rejected: the callback does not run, and nothing else handles the rejection.
abbrev pub settled_failure : ℕ → Option Language → LanguageStore → LanguageStore
settled_failure version none s = s
settled_failure version (some language) s = record s {
  loads = filter (λ l. not (l.0 == version)) s.loads;
  failed_loads = version ∷ s.failed_loads;
}

unfoldable pub load_rejected : ℕ → LanguageStore → LanguageStore
unfolding lookup
load_rejected version s = settled_failure version (lookup version s.loads) s

pub data LanguageEvent : Type 0 where
  mode_chosen : LanguageMode → LanguageEvent
  loaded failed : ℕ → LanguageEvent

unfoldable pub language_step : LanguageEvent → LanguageStore → LanguageStore
unfolding set_mode load_resolved load_rejected
language_step (mode_chosen mode) s = set_mode mode s
language_step (loaded version) s = load_resolved version s
language_step (failed version) s = load_rejected version s

unfoldable pub language_run : List LanguageEvent → LanguageStore → LanguageStore
language_run [] s = s
language_run (e ∷ es) s = language_run es (language_step e s)
