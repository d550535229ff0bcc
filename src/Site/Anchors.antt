-- ===== src/Site/Anchors.antt =====
-- platform-content-handler.js, lines 10-11 and 106-177: the anchors of a page. Elements have
-- numbers. The style that the browser computes is a parameter, the test whether an element is not
-- displayed on a page. `scrolls` are the calls of `scrollTo`, each with `offsetTop` and the height
-- that is taken off, the last first, and `timers` the anchors that wait to be scrolled to.
mod Tests
pub mod Highlight
use arrow_resilience_kit.Base.{
  ℕ, Bool, true, false, not, ◌&&◌, Option, none, some, List, [], ◌∷◌, ◌++◌, ◌==◌, if◌then◌else◌,
  keep,
}
use mathlib.Core.Logic.{ite}
use arrow_resilience_kit.Site.Text.{Text, text_discrete, comma, split, in_list}
use arrow_resilience_kit.Site.Tabs.{Tab, Tabs, toggle_sections}

-- The element after an anchor: its number, and the attribute `data-togglable` of it and of each
-- element around it.
pub record Content : Type 0 where
  pub element : ℕ
  pub togglables : List (Option Text)

pub record Anchor : Type 0 where
  pub data_name : Text
  pub offset_top : ℕ
  pub next_sibling : Option Content

pub record Page : Type 0 where
  pub hash : Text
  pub anchors : List Anchor
  pub tabs : Tabs
  pub highlighted_anchor : Option ℕ
  pub highlights : List ℕ
  pub top_navbar_offset : Option ℕ
  pub scrolls : List (ℕ × ℕ)
  pub timers : List Anchor

-- The page after a handler that returns, or that throws.
pub data Result : Type 0 where
  finished : Page → Result
  threw : Page → Result

abbrev pub page_of : Result → Page
page_of (finished p) = p
page_of (threw p) = p

unfoldable pub scroll_to_element : Anchor → ℕ → Page → Page
scroll_to_element element height p = record p { scrolls = (element.offset_top, height) ∷ p.scrolls }

abbrev pub scroll_or_wait : Anchor → Option ℕ → Page → Page
scroll_or_wait element none p = record p { timers = p.timers ++ element ∷ [] }
scroll_or_wait element (some height) p = scroll_to_element element height p

unfoldable pub scroll_to_element_in_content : Anchor → Page → Page
unfolding scroll_to_element
scroll_to_element_in_content element p = scroll_or_wait element p.top_navbar_offset p

-- The callback of `waitAndScroll`: `waitForScroll` is declared nowhere, so that its call throws.
abbrev pub wake : Anchor → Option ℕ → Page → Result
wake element none p = threw p
wake element (some height) p = finished (scroll_to_element element height p)

abbrev pub timeout_of : List Anchor → Page → Result
timeout_of [] p = finished p
timeout_of (element ∷ timers) p = wake element p.top_navbar_offset (record p { timers = timers })

unfoldable pub timeout : Page → Result
unfolding scroll_to_element
timeout p = timeout_of p.timers p

unfoldable pub search_for_content_target : List (Option Text) → Option Text
search_for_content_target [] = none
search_for_content_target (some target ∷ _) = some target
search_for_content_target (none ∷ around) = search_for_content_target around

-- Whether `split(",").includes(target)` holds of the attribute of a button.
abbrev pub includes : Option Text → Option Text → Bool
includes (some target) (some togglable) = in_list target (split comma togglable)
includes _ _ = false

unfoldable pub find_in_section : Option Text → List Tab → Option Text → Option Text
find_in_section target [] result = result
find_in_section target (t ∷ ts) result =
    find_in_section target ts
      (if t.is_button && includes target t.togglable then t.togglable else result)

-- The attribute of the tab found, the last that includes the target.
unfoldable pub find_any_tab : Option Text → List (List Tab) → Option Text → Option Text
unfolding find_in_section
find_any_tab target [] result = result
find_any_tab target (s ∷ sections) result =
    find_any_tab target sections (find_in_section target s result)

abbrev pub toggle_any : Option Text → Tabs → Tabs
toggle_any none tabs = tabs
toggle_any (some tab) tabs = toggle_sections tab tabs

unfoldable pub open_tab : Content → Page → Page
unfolding search_for_content_target find_any_tab toggle_sections
open_tab content p = record p {
  tabs =
      toggle_any (find_any_tab (search_for_content_target content.togglables) p.tabs.sections none)
        p.tabs;
}

abbrev pub remove_highlight : Option ℕ → Page → Page
remove_highlight none p = p
remove_highlight (some e) p = record p {
  highlights = keep (λ x. not (x == e)) p.highlights;
  highlighted_anchor = none;
}

unfoldable pub highlight : Content → Page → Page
highlight content p = record p {
  highlights = content.element ∷ p.highlights;
  highlighted_anchor = some content.element;
}

-- `document.querySelector('a[data-name="…"]')`
unfoldable pub find_anchor : Text → List Anchor → Option Anchor
find_anchor name [] = none
find_anchor name (a ∷ anchors) =
    if ite (text_discrete a.data_name name) true false then some a else find_anchor name anchors

-- The part of `handleAnchor` on the anchor found. Without an element after it `getComputedStyle`
-- throws.
unfoldable pub go_to_content : (Page → ℕ → Bool) → Anchor → Option Content → Page → Result
unfolding open_tab highlight scroll_to_element_in_content
go_to_content is_none element none p = threw p
go_to_content is_none element (some content) p = finished (
    scroll_to_element_in_content element
      (highlight content (if is_none p content.element then open_tab content p else p)))

abbrev pub go_to_anchor : (Page → ℕ → Bool) → Option Anchor → Page → Result
go_to_anchor is_none none p = finished p
go_to_anchor is_none (some element) p = go_to_content is_none element element.next_sibling p

abbrev pub go_to_hash : (Page → ℕ → Bool) → Text → Page → Result
go_to_hash is_none [] p = finished p
go_to_hash is_none (_ ∷ anchor) p = go_to_anchor is_none (find_anchor anchor p.anchors) p

unfoldable pub handle_anchor : (Page → ℕ → Bool) → Page → Result
unfolding find_anchor go_to_content
handle_anchor is_none p = go_to_hash is_none p.hash (remove_highlight p.highlighted_anchor p)

-- The hash changes, or the first timer ends.
pub data Event : Type 0 where
  hash_change : Text → Event
  timer : Event

unfoldable pub handle : (Page → ℕ → Bool) → Event → Page → Result
unfolding handle_anchor timeout
handle is_none (hash_change hash) p = handle_anchor is_none (record p { hash = hash })
handle is_none timer p = timeout p

unfoldable pub run : (Page → ℕ → Bool) → List Event → Page → Page
unfolding handle
run is_none [] p = p
run is_none (e ∷ es) p = run is_none es (page_of (handle is_none e p))
