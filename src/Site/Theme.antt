-- ===== src/Site/Theme.antt =====
-- platform-content-handler.js, lines 35-85, and the script at the head of a page (index.html, lines
-- 9-20): the dark mode and the theme of the samples. `storage` is the entry `dokka-dark-mode` of
-- the local storage, parsed, which only holds a Boolean in JSON, so that it is true as a string.
-- KotlinPlayground, the library of the samples, is not in the repository: a page asks it for a
-- theme, and what it does after that, handing over instances and tagging samples, are events that
-- come at any time, between clicks or after them.
mod Tests
pub mod Kept
use arrow_resilience_kit.Base.{
  Bool, true, false, not, Option, none, some, List, [], ◌∷◌, ◌++◌, if◌then◌else◌,
}

pub data SamplesTheme : Type 0 where
  darcula : SamplesTheme
  idea : SamplesTheme

abbrev pub samples_dark_theme_name : SamplesTheme
samples_dark_theme_name = darcula

abbrev pub samples_light_theme_name : SamplesTheme
samples_light_theme_name = idea

-- `html_dark` is the class `theme-dark`, `instances` the variable, `destroyed` the instances
-- destroyed so far, `created` all that the library handed over, and `samples_theme` the theme that
-- it was asked for last.
pub record Theme (I : Type 0) : Type 0 where
  pub html_dark : Bool
  pub storage : Option Bool
  pub initialized : List Bool
  pub instances : List I
  pub destroyed : List I
  pub created : List I
  pub samples_theme : Option SamplesTheme

-- The script at the head of a page adds the class.
unfoldable pub head_script : Bool → Option Bool → Bool
head_script os_dark_scheme_preferred none = os_dark_scheme_preferred
head_script os_dark_scheme_preferred (some saved_dark_mode) = saved_dark_mode

unfoldable pub remove_tags : List Bool → List Bool
remove_tags [] = []
remove_tags (_ ∷ tags) = false ∷ remove_tags tags

abbrev pub theme_of : Bool → SamplesTheme
theme_of dark = if dark then samples_dark_theme_name else samples_light_theme_name

abbrev pub dark_mode_enabled : Bool → Option Bool → Bool
dark_mode_enabled os_dark_scheme_preferred none = os_dark_scheme_preferred
dark_mode_enabled os_dark_scheme_preferred (some parsed) = parsed

module _ {I : Type 0} where
  -- The call of KotlinPlayground.
  abbrev pub kotlin_playground : SamplesTheme → Theme I → Theme I
  kotlin_playground theme s = record s { samples_theme = some theme }

  -- The callback that the call gives.
  abbrev pub get_instance : I → Theme I → Theme I
  get_instance playground_instance s = record s {
    instances = s.instances ++ playground_instance ∷ [];
    created = s.created ++ playground_instance ∷ [];
  }

  unfoldable pub init_playground : Bool → SamplesTheme → Theme I → Theme I
  unfolding remove_tags
  init_playground samples_are_enabled theme s =
      if samples_are_enabled
      then kotlin_playground theme (record s {
        destroyed = s.destroyed ++ s.instances;
        instances = [];
        initialized = remove_tags s.initialized;
      })
      else s

  -- The handler of the button.
  unfoldable pub toggle_theme : Bool → Theme I → Theme I
  unfolding init_playground
  toggle_theme samples_are_enabled s =
      let dark_mode_enabled = not s.html_dark in
      record (init_playground samples_are_enabled (theme_of dark_mode_enabled)
        (record s { html_dark = dark_mode_enabled })) { storage = some dark_mode_enabled }

  unfoldable pub dark_mode_switch : Bool → Bool → Theme I → Theme I
  unfolding init_playground
  dark_mode_switch samples_are_enabled os_dark_scheme_preferred s =
      init_playground samples_are_enabled
        (theme_of (dark_mode_enabled os_dark_scheme_preferred s.storage)) s

  -- A page with these samples after the script at its head, with what the local storage has.
  abbrev pub shown : Bool → List Bool → Option Bool → Theme I
  shown os_dark_scheme_preferred samples storage = record {
    html_dark = head_script os_dark_scheme_preferred storage;
    storage = storage;
    initialized = samples;
    instances = [];
    destroyed = [];
    created = [];
    samples_theme = none;
  }

  unfoldable pub load : Bool → Bool → List Bool → Option Bool → Theme I
  unfolding dark_mode_switch
  load samples_are_enabled os_dark_scheme_preferred samples storage =
      dark_mode_switch samples_are_enabled os_dark_scheme_preferred
        (shown os_dark_scheme_preferred samples storage)

-- A click on the button, an instance that the library hands over, or the tags of the samples after
-- the library has set some.
pub data Event (I : Type 0) : Type 0 where
  clicked : Event I
  handed_over : I → Event I
  tagged : List Bool → Event I

module _ {I : Type 0} where
  unfoldable pub handle : Bool → Event I → Theme I → Theme I
  unfolding toggle_theme
  handle samples_are_enabled clicked s = toggle_theme samples_are_enabled s
  handle samples_are_enabled (handed_over playground_instance) s =
      get_instance playground_instance s
  handle samples_are_enabled (tagged tags) s = record s { initialized = tags }

  unfoldable pub run : Bool → List (Event I) → Theme I → Theme I
  unfolding handle
  run samples_are_enabled [] s = s
  run samples_are_enabled (event ∷ events) s =
      run samples_are_enabled events (handle samples_are_enabled event s)
