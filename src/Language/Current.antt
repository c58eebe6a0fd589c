-- ===== src/Language/Current.antt =====
-- The language of the pages under any choices and any order in which the loads end or fail.
use mystic_auth.Prelude.{
  ℕ, ◌+◌, String, not, ◌≡◌, ◌⊎◌, refl, inl, inr, Option-cases, Option, none, some, List, [], ◌∷◌,
  ◌==◌, ==_refl, ==_iff, has, true, ℕ_eq, filter, lookup, arith, if◌then◌else◌,
}
use mystic_auth.Language.{
  Language, LanguageMode, LanguageStore, LanguageEvent, mode_chosen, loaded, failed, load_rejected,
  page_of, initial_store, only_en, only_hi, only_mr, only_gu, en_hi, en_mr, en_gu, get_initial_mode,
  apply_mode, set_mode, load_resolved, language_step, language_run,
}

abbrev pub latest : List Language → Option Language
latest [] = none
latest (l ∷ ls) = some l

-- The load of the language shown is under way, or it has ended and that language was the last one
-- changed to, or it has failed.
pub record IsCurrent (s : LanguageStore) : Type 0 where
  pub html : s.html_lang ≡ some (page_of s.mode)
  pub pages :
      (lookup s.language_load_version s.loads ≡ some (page_of s.mode))
      ⊎ (((lookup s.language_load_version s.loads ≡ none)
            × (latest s.changes ≡ some (page_of s.mode)))
          ⊎ (has s.failed_loads s.language_load_version ≡ true))

lookup-filter :
    (v k : ℕ) (ls : List (ℕ × Language))
    → lookup k (filter (λ l. not (l.0 == v)) ls) ≡ (if k == v then none else lookup k ls)
unfolding lookup
lookup-filter v k [] = ground arith
lookup-filter v k ((j, l) ∷ ls) =
    ground (arith, lookup-filter v k ls, ==_iff j v, ==_iff j k, ==_iff k v)

set_mode-IsCurrent : (mode : LanguageMode) (s : LanguageStore) → IsCurrent (set_mode mode s)
unfolding set_mode apply_mode lookup
set_mode-IsCurrent mode s = record {
  html = refl;
  pages = inl (rw (==_refl (s.language_load_version + 1)) refl);
}

-- One end of a load, on the parts of the state that it changes.
pages-settled :
    (v current : ℕ) (l page : Language) (loads : List (ℕ × Language)) (changes : List Language)
    (failures : List ℕ)
    → lookup v loads ≡ some l
    → ((lookup current loads ≡ some page)
        ⊎ (((lookup current loads ≡ none) × (latest changes ≡ some page))
            ⊎ (has failures current ≡ true)))
    → let rest = filter (λ k. not (k.0 == v)) loads in
      (lookup current rest ≡ some page)
      ⊎ (((lookup current rest ≡ none)
            × (latest (if v == current then l ∷ changes else changes) ≡ some page))
          ⊎ (has failures current ≡ true))
pages-settled v current l page loads changes failures e h =
    ground (arith, e, h, lookup-filter v current loads, ==_iff v current, ==_iff current v)

load_resolved-IsCurrent :
    (version : ℕ) (s : LanguageStore) → IsCurrent s → IsCurrent (load_resolved version s)
unfolding load_resolved
load_resolved-IsCurrent version s h = elim (Option-cases (lookup version s.loads)) [
  | inl e ↦ rw e h
  | inr (l, e) ↦ rw e (record {
    html = h.html;
    pages =
        pages-settled version s.language_load_version l (page_of s.mode) s.loads s.changes
          s.failed_loads e h.pages;
  })
]

-- One failure of a load, on the same parts.
pages-failed :
    (v current : ℕ) (l page : Language) (loads : List (ℕ × Language)) (changes : List Language)
    (failures : List ℕ)
    → lookup v loads ≡ some l
    → ((lookup current loads ≡ some page)
        ⊎ (((lookup current loads ≡ none) × (latest changes ≡ some page))
            ⊎ (has failures current ≡ true)))
    → let rest = filter (λ k. not (k.0 == v)) loads in
      (lookup current rest ≡ some page)
      ⊎ (((lookup current rest ≡ none) × (latest changes ≡ some page))
          ⊎ (has (v ∷ failures) current ≡ true))
pages-failed v current l page loads changes failures e h =
    ground (arith, e, h, lookup-filter v current loads, ==_iff v current, ==_iff current v)

load_rejected-IsCurrent :
    (version : ℕ) (s : LanguageStore) → IsCurrent s → IsCurrent (load_rejected version s)
unfolding load_rejected
load_rejected-IsCurrent version s h = elim (Option-cases (lookup version s.loads)) [
  | inl e ↦ rw e h
  | inr (l, e) ↦ rw e (record {
    html = h.html;
    pages =
        pages-failed version s.language_load_version l (page_of s.mode) s.loads s.changes
          s.failed_loads e h.pages;
  })
]

run-IsCurrent :
    (es : List LanguageEvent) (s : LanguageStore) → IsCurrent s → IsCurrent (language_run es s)
unfolding language_run language_step
run-IsCurrent [] s h = h
run-IsCurrent (mode_chosen mode ∷ es) s h =
    run-IsCurrent es (set_mode mode s) (set_mode-IsCurrent mode s)
run-IsCurrent (loaded version ∷ es) s h =
    run-IsCurrent es (load_resolved version s) (load_resolved-IsCurrent version s h)
run-IsCurrent (failed version ∷ es) s h =
    run-IsCurrent es (load_rejected version s) (load_rejected-IsCurrent version s h)

-- Whatever modes are chosen, in whatever order the loads end and whichever of them fail, the document
-- has the language of the chosen mode, and the pages were last changed to that language unless its
-- load is still under way or has failed: a load that ends late never wins over a newer choice.
pub language_run-IsCurrent :
    (stored : Option String) (browser_lang : String) (es : List LanguageEvent)
    → IsCurrent (language_run es (initial_store stored browser_lang))
unfolding initial_store lookup apply_mode
language_run-IsCurrent stored browser_lang es =
    run-IsCurrent es (initial_store stored browser_lang) (record { html = refl; pages = inl refl })

-- A chosen mode is the initial mode of the next visit, whatever the language of the browser is.
get_initial_mode-set_mode :
    (mode : LanguageMode) (s : LanguageStore) (browser_lang : String)
    → get_initial_mode (set_mode mode s).stored browser_lang ≡ mode
unfolding get_initial_mode set_mode apply_mode
get_initial_mode-set_mode only_en s browser_lang = refl
get_initial_mode-set_mode only_hi s browser_lang = refl
get_initial_mode-set_mode only_mr s browser_lang = refl
get_initial_mode-set_mode only_gu s browser_lang = refl
get_initial_mode-set_mode en_hi s browser_lang = refl
get_initial_mode-set_mode en_mr s browser_lang = refl
get_initial_mode-set_mode en_gu s browser_lang = refl
