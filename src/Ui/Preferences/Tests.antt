-- ===== src/Ui/Preferences/Tests.antt =====
-- Examples for the preferences.
use mystic_auth.Prelude.{true, ◌≡◌, refl, none, some, List, [], ◌∷◌}
use mystic_auth.Ui.Preferences.{
  large, light, load_preferences, PreferenceEvent, increases_font_size, toggles_color_mode,
  preference_run,
}
use mystic_auth.Ui.Preferences.Reloaded.{reload, reload-preference_run}

abbrev choices : List PreferenceEvent
choices = increases_font_size ∷ increases_font_size ∷ toggles_color_mode ∷ []

chosen :
    let s = preference_run choices (load_preferences (some "huge") none (some true)) in
    (s.font_size ≡ large) × (s.color_mode ≡ light) × (s.stored_font ≡ some "large")
unfolding preference_run load_preferences
chosen = (refl, refl, refl)

reload-preference_run_example :
    reload (some true) (preference_run choices (load_preferences (some "huge") none (some true)))
    ≡ preference_run choices (load_preferences (some "huge") none (some true))
reload-preference_run_example = reload-preference_run (some true) (some "huge") none choices
