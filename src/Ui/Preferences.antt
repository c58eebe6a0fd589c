-- ===== src/Ui/Preferences.antt =====
-- frontend/src/mystic_auth/store/fontSizeStore.ts and themeStore.ts: the font size and the color mode,
-- with what localStorage keeps of them and what they set on the root element of the page. What the
-- system prefers is a parameter: whether it is dark, or none where the browser cannot tell.
pub mod Reloaded
mod Tests
use Prim.Native.Nat.{min}
use mystic_auth.Prelude.{
  ℕ, ◌+◌, ◌-◌, String, Bool, true, false, Option, none, some, List, [], ◌∷◌, ◌==◌, ℕ_eq, String_eq,
  if◌then◌else◌, for_each,
}

pub data FontSize : Type 0 where
  small medium large : FontSize

pub data ColorMode : Type 0 where
  light dark : ColorMode

abbrev pub font_text : FontSize → String
font_text small = "small"
font_text medium = "medium"
font_text large = "large"

abbrev pub color_mode_text : ColorMode → String
color_mode_text light = "light"
color_mode_text dark = "dark"

abbrev pub font_size_percent : FontSize → String
font_size_percent small = "87.5%"
font_size_percent medium = "100%"
font_size_percent large = "112.5%"

-- The state of both stores, with the two items of localStorage and the root element.
pub record Preferences : Type 0 where
  pub font_size : FontSize
  pub color_mode : ColorMode
  pub stored_font : Option String
  pub stored_mode : Option String
  pub root_font_size : String
  pub dark_class : Bool
  pub color_scheme : String

unfoldable pub get_initial_font_size : Option String → FontSize
get_initial_font_size none = medium
get_initial_font_size (some stored) =
    if stored == "small"
    then small
    else (if stored == "medium" then medium else (if stored == "large" then large else medium))

abbrev pub preferred_mode : Option Bool → ColorMode
preferred_mode none = light
preferred_mode (some true) = dark
preferred_mode (some false) = light

unfoldable pub get_initial_color_mode : Option String → Option Bool → ColorMode
get_initial_color_mode none system = preferred_mode system
get_initial_color_mode (some stored) system =
    if stored == "light" then light else (if stored == "dark" then dark else preferred_mode system)

abbrev pub is_dark : ColorMode → Bool
is_dark light = false
is_dark dark = true

-- The state after the modules are loaded.
unfoldable pub load_preferences : Option String → Option String → Option Bool → Preferences
unfolding get_initial_font_size get_initial_color_mode
load_preferences stored_font stored_mode system =
    let font_size = get_initial_font_size stored_font in
    let color_mode = get_initial_color_mode stored_mode system in
    record {
      font_size = font_size;
      color_mode = color_mode;
      stored_font = stored_font;
      stored_mode = stored_mode;
      root_font_size = font_size_percent font_size;
      dark_class = is_dark color_mode;
      color_scheme = color_mode_text color_mode;
    }

unfoldable pub set_font_size : FontSize → Preferences → Preferences
set_font_size size s = record s {
  font_size = size;
  stored_font = some (font_text size);
  root_font_size = font_size_percent size;
}

-- `FONT_SIZES.indexOf(size)` and `FONT_SIZES[index]`.
abbrev pub font_index : FontSize → ℕ
font_index small = 0
font_index medium = 1
font_index large = 2

abbrev pub font_at : ℕ → FontSize
font_at index = if index == 0 then small else (if index == 1 then medium else large)

unfoldable pub increase_font_size : Preferences → Preferences
unfolding set_font_size
increase_font_size s = set_font_size (font_at (min (font_index s.font_size + 1) 2)) s

unfoldable pub decrease_font_size : Preferences → Preferences
unfolding set_font_size
decrease_font_size s = set_font_size (font_at (font_index s.font_size - 1)) s

unfoldable pub set_color_mode : ColorMode → Preferences → Preferences
set_color_mode mode s = record s {
  color_mode = mode;
  stored_mode = some (color_mode_text mode);
  dark_class = is_dark mode;
  color_scheme = color_mode_text mode;
}

abbrev pub other_mode : ColorMode → ColorMode
other_mode light = dark
other_mode dark = light

unfoldable pub toggle_color_mode : Preferences → Preferences
unfolding set_color_mode
toggle_color_mode s = set_color_mode (other_mode s.color_mode) s

pub data PreferenceEvent : Type 0 where
  sets_font_size : FontSize → PreferenceEvent
  increases_font_size decreases_font_size toggles_color_mode : PreferenceEvent
  sets_color_mode : ColorMode → PreferenceEvent

unfoldable pub preference_step : PreferenceEvent → Preferences → Preferences
unfolding set_font_size increase_font_size decrease_font_size set_color_mode toggle_color_mode
preference_step (sets_font_size size) s = set_font_size size s
preference_step increases_font_size s = increase_font_size s
preference_step decreases_font_size s = decrease_font_size s
preference_step toggles_color_mode s = toggle_color_mode s
preference_step (sets_color_mode mode) s = set_color_mode mode s

unfoldable pub preference_run : List PreferenceEvent → Preferences → Preferences
unfolding preference_step
preference_run es s = for_each preference_step es s
