-- ===== src/Site/Anchors/Tests.antt =====
-- platform-content-handler.js: changes of the hash of a page, and an instance of the theorem on
-- them.
use arrow_resilience_kit.Base.{ℕ, refl, Bool, true, false, none, some, List, [], ◌∷◌}
use arrow_resilience_kit.Site.Anchors.{Page, Event, hash_change, timer, page_of, run, handle_anchor}
use arrow_resilience_kit.Site.Anchors.Highlight.{Highlighted, last_hash, run-Highlighted}

abbrev page : Page
page = record {
  hash = b'#' ∷ b'a' ∷ [];
  anchors =
      record {
        data_name = b'a' ∷ [];
        offset_top = 40;
        next_sibling = some (record { element = 4; togglables = none ∷ some (b't' ∷ []) ∷ [] });
      }
      ∷ record { data_name = b'b' ∷ []; offset_top = 90; next_sibling = none }
      ∷ [];
  tabs = record {
    sections =
        (record { is_button = true; togglable = some (b't' ∷ []); active = false } ∷ []) ∷ [];
    bodies = [];
    active_tab = none;
  };
  highlighted_anchor = none;
  highlights = [];
  top_navbar_offset = none;
  scrolls = [];
  timers = [];
}

abbrev all_hidden : Page → ℕ → Bool
all_hidden p e = true

-- The first anchor again, with its timer, and the anchor with no element after it.
abbrev events : List Event
events = timer ∷ hash_change (b'#' ∷ b'a' ∷ []) ∷ hash_change (b'#' ∷ b'b' ∷ []) ∷ []

run-Highlighted_example :
    Highlighted page.anchors
      (last_hash events page.hash)
      (run all_hidden events (page_of (handle_anchor all_hidden page)))
run-Highlighted_example = run-Highlighted all_hidden events page refl refl
