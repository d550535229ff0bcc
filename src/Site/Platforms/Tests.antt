-- ===== src/Site/Platforms/Tests.antt =====
-- platform-content-handler.js: a refresh of a block of two platforms, after which it shows the
-- other.
use arrow_resilience_kit.Base.{◌≡◌, refl, true, false, some, [], ◌∷◌}
use arrow_resilience_kit.Site.Text.{Text, text_discrete, same_attribute}
use arrow_resilience_kit.Site.Platforms.{
  Container, is_available, scan, toggle_platform_dependent, mark, show, refresh_platform_tabs,
}

abbrev js : Text
js = b's' ∷ []

abbrev jvm : Text
jvm = b'j' ∷ []

-- The active platform is filtered out.
abbrev two_platforms : Container
two_platforms = record {
  row =
      record {
        element = 1;
        is_button = true;
        toggle = some jvm;
        filterable_set = some jvm;
        filterable_current = some [];
        active = true;
      }
      ∷ record {
        element = 2;
        is_button = true;
        toggle = some js;
        filterable_set = some js;
        filterable_current = some js;
        active = false;
      }
      ∷ [];
  contents =
      record { togglable = some jvm; active = true }
      ∷ record { togglable = some js; active = false }
      ∷ [];
}

switches :
    (refresh_platform_tabs two_platforms).contents
    ≡ record { togglable = some jvm; active = false }
      ∷ record { togglable = some js; active = true }
      ∷ []
unfolding refresh_platform_tabs scan toggle_platform_dependent mark show is_available same_attribute
    text_discrete
switches = refl
