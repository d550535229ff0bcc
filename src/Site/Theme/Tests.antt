-- ===== src/Site/Theme/Tests.antt =====
-- platform-content-handler.js: clicks on the theme button of a page with two samples, and an
-- instance of the theorem on them.
use arrow_resilience_kit.Base.{◌≡◌, refl, ℕ, Bool, true, false, some, none, List, [], ◌∷◌, ◌++◌}
use arrow_resilience_kit.Site.Theme.{
  idea, Theme, load, Event, clicked, handed_over, tagged, run, handle, toggle_theme,
  init_playground, dark_mode_switch, head_script, remove_tags,
}
use arrow_resilience_kit.Site.Theme.Kept.{clicks-kept}

abbrev samples : List Bool
samples = false ∷ false ∷ []

-- The second instance of the first call comes after the click.
abbrev first : List (Event ℕ)
first = handed_over 1 ∷ tagged (true ∷ true ∷ []) ∷ []

abbrev second : List (Event ℕ)
second = handed_over 2 ∷ handed_over 3 ∷ []

clicked_once : run true (first ++ clicked ∷ second) (load true true samples none) ≡ record {
  html_dark = false;
  storage = some false;
  initialized = samples;
  instances = 2 ∷ 3 ∷ [];
  destroyed = 1 ∷ [];
  created = 1 ∷ 2 ∷ 3 ∷ [];
  samples_theme = some idea;
}
unfolding load run handle toggle_theme init_playground dark_mode_switch head_script remove_tags
clicked_once = refl

abbrev later_page : Theme ℕ
later_page = run true (first ++ clicked ∷ second) (load true true samples none)

clicks-kept_example :
    ((load {I = ℕ} true true samples later_page.storage).html_dark ≡ later_page.html_dark)
    × ((load {I = ℕ} true true samples later_page.storage).samples_theme ≡ later_page.samples_theme)
    × (later_page.created ≡ later_page.destroyed ++ later_page.instances)
clicks-kept_example = clicks-kept true true true samples samples none first second
