-- ===== src/Site/Load.antt =====
-- platform-content-handler.js, lines 17-33 and 88-100: what the page does when it is loaded, over
-- the other parts, and the left column. Its elements are there, but the filter section may be
-- missing. `menu_handled` and `theme_handled` say whether the handlers of the left column and of
-- the theme button are set. A listener that throws ends there, which is `none`: what follows is not
-- done.
mod Tests
pub mod Complete
use arrow_resilience_kit.Base.{ℕ, Bool, true, false, not, Option, none, some, List, if◌then◌else◌}
use arrow_resilience_kit.Site.Text.{Text}
use arrow_resilience_kit.Site.Filters.{Filters, Page as FiltersPage, initialize_filtering}
use arrow_resilience_kit.Site.Tabs.{Tabs, init_tabs}
use arrow_resilience_kit.Site.Anchors.{Page as AnchorsPage, Result, finished, threw, handle_anchor}
use arrow_resilience_kit.Site.Theme.{Theme, dark_mode_switch}

-- What is not on the page: the value of `sourceset_dependencies`, the entry `inactive-filters` of
-- the local storage, the style that the browser computes, whether the page has the library
-- of the samples and the preference of the system.
pub record Environment : Type 0 where
  pub sourceset_dependencies : List (Text × List Text)
  pub inactive_filters : Option (List Text)
  pub is_none : AnchorsPage → ℕ → Bool
  pub samples_are_enabled : Bool
  pub os_dark_scheme_preferred : Bool

pub record Document (I : Type 0) : Type 0 where
  pub filter_section : Option FiltersPage
  pub filtering_context : Option Filters
  pub anchored : AnchorsPage
  pub navigation_wrapper : Option ℕ
  pub theme : Theme I
  pub left_column_open : Bool
  pub menu_handled : Bool
  pub theme_handled : Bool

abbrev pub filter_if : Environment → Option FiltersPage → Option Filters
filter_if env none = none
filter_if env (some section) =
    some (initialize_filtering env.sourceset_dependencies env.inactive_filters section)

module _ {I : Type 0} where
  -- Clicks on the button of the left column and on the main content.
  unfoldable pub click_menu_toggle : Document I → Document I
  click_menu_toggle d =
      if d.menu_handled then record d { left_column_open = not d.left_column_open } else d

  unfoldable pub click_main : Document I → Document I
  click_main d = if d.menu_handled then record d { left_column_open = false } else d

  unfoldable pub init_hiding_left_navigation : Document I → Document I
  init_hiding_left_navigation d = record d { menu_handled = true }

  -- The last two statements, after the handlers of the left column.
  unfoldable pub finish : Environment → Document I → Document I
  unfolding dark_mode_switch
  finish env d = record d {
    anchored = record d.anchored { top_navbar_offset = d.navigation_wrapper };
    theme = dark_mode_switch env.samples_are_enabled env.os_dark_scheme_preferred d.theme;
    theme_handled = true;
  }

  abbrev pub after_anchor : Environment → Document I → Result → Option (Document I)
  after_anchor env d (threw p) = none
  after_anchor env d (finished p) =
      some (finish env (init_hiding_left_navigation (record d { anchored = p })))

  abbrev pub after_tabs : Environment → Document I → Option Tabs → Option (Document I)
  after_tabs env d none = none
  after_tabs env d (some tabs) =
      after_anchor env d (handle_anchor env.is_none (record d.anchored { tabs = tabs }))

  -- The listener of the event `load`.
  unfoldable pub load : Environment → Document I → Option (Document I)
  unfolding finish init_hiding_left_navigation initialize_filtering init_tabs handle_anchor
  load env d =
      after_tabs env (record d { filtering_context = filter_if env d.filter_section })
        (init_tabs d.anchored.tabs)
