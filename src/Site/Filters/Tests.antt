-- ===== src/Site/Filters/Tests.antt =====
-- platform-content-handler.js: clicks on the filters of a page of two source sets, and instances of
-- the theorems on them.
use arrow_resilience_kit.Base.{
  ℕ, ◌≡◌, refl, Bool, true, false, Option, none, some, List, [], ◌∷◌, ap, sym, ◌∙◌, has,
}
use arrow_resilience_kit.Site.Text.{Text, text_discrete, in_list}
use arrow_resilience_kit.Site.Platforms.{Bookmark}
use arrow_resilience_kit.Site.Platforms.Shown.{ButtonRow}
use arrow_resilience_kit.Site.Filters.Sets.{enabled}
use arrow_resilience_kit.Site.Filters.Switch.{choose}
use arrow_resilience_kit.Site.Filters.Choice.{clicks-choose}
use arrow_resilience_kit.Site.Filters.{
  Page, Filters, Target, initialize_filtering, filters_of, filter_button_handler, handle,
  filter_sourceset, restrict, initial_filters, refresh_filtering, refresh_page,
  refresh_no_content_notification, remove_message, except, add_sourceset_filter_to_cache,
}
use arrow_resilience_kit.Site.Filters.Persistence.{OnPage, after, clicks, reload, reload-restores}
use arrow_resilience_kit.Site.Filters.Display.{Displayed, clicks-Displayed}

abbrev js : Text
js = b's' ∷ []

abbrev jvm : Text
jvm = b'j' ∷ []

abbrev click : Text → Target
click f = record { is_button = true; data_filter = some f }

abbrev bookmark : ℕ → Text → Bool → Bookmark
bookmark element set active = record {
  element = element;
  is_button = true;
  toggle = some set;
  filterable_set = some set;
  filterable_current = none;
  active = active;
}

abbrev page : Page
page = record {
  filterables = record { filterable_set = b'j' ∷ b',' ∷ b's' ∷ []; filterable_current = [] } ∷ [];
  containers =
      record {
        row = bookmark 1 jvm true ∷ bookmark 2 js false ∷ [];
        contents =
            record { togglable = some jvm; active = true }
            ∷ record { togglable = some js; active = false }
            ∷ [];
      }
      ∷ [];
  buttons = record { filter = jvm; active = false } ∷ record { filter = js; active = false } ∷ [];
  main_displayed = true;
  messages = [];
  sourceset_notification = none;
  next_element = 7;
}

abbrev dependencies : List (Text × List Text)
dependencies = (js, jvm ∷ []) ∷ (jvm, []) ∷ []

-- All is filtered, then the source set that depends on the other is chosen again.
abbrev targets : List Target
targets = click jvm ∷ click js ∷ click js ∷ []

abbrev state : Filters
state = clicks targets (initialize_filtering dependencies none page)

abbrev names : List Text
names = jvm ∷ js ∷ []

abbrev is_named : Option Text → Bool
is_named none = false
is_named (some f) = in_list f names

on_page : (f : Text) → in_list f names ≡ true → OnPage names (click f)
on_page f h g e = ap is_named (sym e) ∙ h

on_jvm : in_list jvm names ≡ true
unfolding has text_discrete
on_jvm = refl

on_js : in_list js names ≡ true
unfolding has text_discrete
on_js = refl

-- The message is there when all is filtered, and gone again.
shows_message :
    (clicks (click jvm ∷ click js ∷ []) (initialize_filtering dependencies none page)).page.messages
    ≡ 7 ∷ []
unfolding initialize_filtering filters_of initial_filters restrict refresh_filtering refresh_page
    refresh_no_content_notification remove_message clicks after filter_button_handler handle
    filter_sourceset except add_sourceset_filter_to_cache has text_discrete
shows_message = refl

reload-restores_example :
    in_list js (reload dependencies page state).active_filters ≡ in_list js state.active_filters
unfolding filters_of
reload-restores_example =
    reload-restores dependencies none page targets js
      (on_page jvm on_jvm, (on_page js on_js, (on_page js on_js, tt)))

clicks-Displayed_example : Displayed state.active_filters state.page
unfolding ButtonRow
clicks-Displayed_example =
    clicks-Displayed dependencies none page targets refl ((refl, (refl, tt)), tt)

clicks-choose_example :
    in_list jvm state.active_filters ≡ choose dependencies names targets (enabled names none) jvm
unfolding filters_of
clicks-choose_example =
    clicks-choose dependencies none page targets jvm
      (on_page jvm on_jvm, (on_page js on_js, (on_page js on_js, tt)))
