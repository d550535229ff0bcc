-- ===== src/Site/Load/Tests.antt =====
-- platform-content-handler.js: a page is loaded, and an instance of the theorem on it.
use arrow_resilience_kit.Base.{
  subst, All, ℕ, ◌≡◌, refl, true, false, Option, none, some, List, [], ◌∷◌, ap, sym,
}
use arrow_resilience_kit.Site.Text.{Text, text_discrete}
use arrow_resilience_kit.Site.Filters.{Page as FiltersPage}
use arrow_resilience_kit.Site.Anchors.{find_anchor}
use arrow_resilience_kit.Site.Platforms.{Container}
use arrow_resilience_kit.Site.Platforms.Shown.{ButtonRow}
use arrow_resilience_kit.Site.Load.{Environment, Document, load, click_menu_toggle}
use arrow_resilience_kit.Site.Load.Complete.{Loaded, is_safe, load-Loaded}

abbrev environment : Environment
environment = record {
  sourceset_dependencies = [];
  inactive_filters = none;
  is_none = λ p e. false;
  samples_are_enabled = false;
  os_dark_scheme_preferred = true;
}

abbrev section : FiltersPage
section = record {
  filterables = [];
  containers = [];
  buttons = record { filter = b'j' ∷ []; active = false } ∷ [];
  main_displayed = true;
  messages = [];
  sourceset_notification = none;
  next_element = 7;
}

-- A page with an anchor `a` that has an element after it, and an anchor `b` that has none.
abbrev document : Text → Document ℕ
document hash = record {
  filter_section = some section;
  filtering_context = none;
  anchored = record {
    hash = hash;
    anchors =
        record {
          data_name = b'a' ∷ [];
          offset_top = 40;
          next_sibling = some (record { element = 4; togglables = [] });
        }
        ∷ record { data_name = b'b' ∷ []; offset_top = 90; next_sibling = none }
        ∷ [];
    tabs = record { sections = []; bodies = []; active_tab = none };
    highlighted_anchor = none;
    highlights = [];
    top_navbar_offset = none;
    scrolls = [];
    timers = [];
  };
  navigation_wrapper = some 8;
  theme = record {
    html_dark = true;
    storage = none;
    initialized = [];
    instances = [];
    destroyed = [];
    created = [];
    samples_theme = none;
  };
  left_column_open = false;
  menu_handled = false;
  theme_handled = false;
}

abbrev hash_a : Text
hash_a = b'#' ∷ b'a' ∷ []

abbrev hash_b : Text
hash_b = b'#' ∷ b'b' ∷ []

throws : is_safe hash_b (document hash_b).anchored.anchors ≡ false
unfolding is_safe find_anchor text_discrete
throws = refl

opens :
    (click_menu_toggle (record (document hash_a) { menu_handled = true })).left_column_open ≡ true
unfolding click_menu_toggle
opens = refl

abbrev messages_of : Option FiltersPage → List ℕ
messages_of none = []
messages_of (some p) = p.messages

abbrev containers_of : Option FiltersPage → List Container
containers_of none = []
containers_of (some p) = p.containers

load-Loaded_example :
    Loaded environment
      (document hash_a)
      (is_safe hash_a (document hash_a).anchored.anchors)
      (load environment (document hash_a))
load-Loaded_example = load-Loaded environment (document hash_a) tt refl refl (λ p e. (
  ap messages_of (sym e),
  subst (λ (o : Option FiltersPage). All ButtonRow (containers_of o)) e tt,
))
