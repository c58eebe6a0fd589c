-- ===== src/Ui/Preferences/Reloaded.antt =====
-- What a reload of the page keeps of the preferences.
use mystic_auth.Prelude.{String, Bool, ◌≡◌, refl, Option, some, List, [], ◌∷◌, for_each}
use mystic_auth.Ui.Preferences.{
  FontSize, small, medium, large, ColorMode, light, dark, Preferences, font_text, color_mode_text,
  font_size_percent, is_dark, get_initial_font_size, get_initial_color_mode, load_preferences,
  set_font_size, set_color_mode, increase_font_size, decrease_font_size, toggle_color_mode,
  PreferenceEvent, sets_font_size, increases_font_size, decreases_font_size, toggles_color_mode,
  sets_color_mode, preference_step, preference_run,
}

get_initial_font_size-font_text :
    (size : FontSize) → get_initial_font_size (some (font_text size)) ≡ size
unfolding get_initial_font_size
get_initial_font_size-font_text small = refl
get_initial_font_size-font_text medium = refl
get_initial_font_size-font_text large = refl

get_initial_color_mode-color_mode_text :
    (mode : ColorMode) (system : Option Bool)
    → get_initial_color_mode (some (color_mode_text mode)) system ≡ mode
unfolding get_initial_color_mode
get_initial_color_mode-color_mode_text light system = refl
get_initial_color_mode-color_mode_text dark system = refl

module _ (system : Option Bool) where
  abbrev pub reload : Preferences → Preferences
  reload s = load_preferences s.stored_font s.stored_mode system

  reload-set_font_size :
      (size : FontSize) (s : Preferences)
      → reload s ≡ s
      → reload (set_font_size size s) ≡ set_font_size size s
  unfolding load_preferences set_font_size
  reload-set_font_size size s e = λ i. record {
    font_size = get_initial_font_size-font_text size i;
    color_mode = (e i).color_mode;
    stored_font = some (font_text size);
    stored_mode = s.stored_mode;
    root_font_size = font_size_percent (get_initial_font_size-font_text size i);
    dark_class = (e i).dark_class;
    color_scheme = (e i).color_scheme;
  }

  reload-set_color_mode :
      (mode : ColorMode) (s : Preferences)
      → reload s ≡ s
      → reload (set_color_mode mode s) ≡ set_color_mode mode s
  unfolding load_preferences set_color_mode
  reload-set_color_mode mode s e = λ i. record {
    font_size = (e i).font_size;
    color_mode = get_initial_color_mode-color_mode_text mode system i;
    stored_font = s.stored_font;
    stored_mode = some (color_mode_text mode);
    root_font_size = (e i).root_font_size;
    dark_class = is_dark (get_initial_color_mode-color_mode_text mode system i);
    color_scheme = color_mode_text (get_initial_color_mode-color_mode_text mode system i);
  }

  reload-preference_step :
      (e : PreferenceEvent) (s : Preferences)
      → reload s ≡ s
      → reload (preference_step e s) ≡ preference_step e s
  unfolding preference_step increase_font_size decrease_font_size toggle_color_mode
  reload-preference_step (sets_font_size size) s h = reload-set_font_size size s h
  reload-preference_step increases_font_size s h = reload-set_font_size _ s h
  reload-preference_step decreases_font_size s h = reload-set_font_size _ s h
  reload-preference_step toggles_color_mode s h = reload-set_color_mode _ s h
  reload-preference_step (sets_color_mode mode) s h = reload-set_color_mode mode s h

  reload-run :
      (es : List PreferenceEvent) (s : Preferences)
      → reload s ≡ s
      → reload (for_each preference_step es s) ≡ for_each preference_step es s
  reload-run [] s h = h
  reload-run (e ∷ es) s h = reload-run es (preference_step e s) (reload-preference_step e s h)

  -- Whatever localStorage held at first and whatever is chosen afterwards, a reload of the page under
  -- the same system preference shows the same font size and color mode, applied to the page in the
  -- same way.
  pub reload-preference_run :
      (stored_font stored_mode : Option String) (es : List PreferenceEvent)
      → reload (preference_run es (load_preferences stored_font stored_mode system))
        ≡ preference_run es (load_preferences stored_font stored_mode system)
  unfolding preference_run load_preferences
  reload-preference_run stored_font stored_mode es =
      reload-run es (load_preferences stored_font stored_mode system) refl
