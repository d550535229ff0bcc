-- ===== src/Site/Tabs.antt =====
-- platform-content-handler.js, lines 17-27, 179-200 and 269-300: the tabs of a page. The sections
-- are the elements of the class `tabs-section`, which carry the attribute of this name, each with
-- its children, and the bodies are the elements in a `tabs-section-body` that can be toggled. A
-- missing attribute is `none`. `active_tab` is the entry `active-tab` of the local storage, parsed.
mod Tests
pub mod Repeated
pub mod Restored
use arrow_resilience_kit.Base.{
  ℕ, zero, suc, Bool, true, false, ◌&&◌, Option, none, some, List, [], ◌∷◌, map, if◌then◌else◌,
  length,
}
use arrow_resilience_kit.Site.Text.{Text, comma, split, same_attribute, in_list}

pub record Tab : Type 0 where
  pub is_button : Bool
  pub togglable : Option Text
  pub active : Bool

pub record Body : Type 0 where
  pub togglable : Text
  pub is_sourceset_dependent : Bool
  pub active : Bool

pub record Tabs : Type 0 where
  pub sections : List (List Tab)
  pub bodies : List Body
  pub active_tab : Option Text

-- The loop of `activateTabs` on one child, for the attribute of the target.
unfoldable pub activate_tab : Text → Tab → Tab
activate_tab target child = record child { active = same_attribute child.togglable (some target) }

-- The loop of `activateTabsBody` on one child.
unfoldable pub activate_body : List Text → Body → Body
activate_body targets child =
    if in_list child.togglable targets
    then record child { active = true }
    else if child.is_sourceset_dependent
    then child
    else record child { active = false }

unfoldable pub toggle_sections : Text → Tabs → Tabs
unfolding activate_tab activate_body
toggle_sections target p = record p {
  sections = map (map (activate_tab target)) p.sections;
  bodies = map (activate_body (split comma target)) p.bodies;
}

-- The handler of a click on an element with this attribute, or none.
unfoldable pub toggle_sections_event_handler : Option Text → Tabs → Tabs
unfolding toggle_sections
toggle_sections_event_handler none p = p
toggle_sections_event_handler (some []) p = p
toggle_sections_event_handler (some (c ∷ cs)) p =
    toggle_sections (c ∷ cs) (record p { active_tab = some (c ∷ cs) })

-- A click on an element of a section: `load` and `initTabs` both add a listener to it.
unfoldable pub click : Option Text → Tabs → Tabs
unfolding toggle_sections_event_handler
click target p = toggle_sections_event_handler target (toggle_sections_event_handler target p)

-- `element.querySelector("button[data-active]")`
unfoldable pub active_button : List Tab → Option Tab
active_button [] = none
active_button (t ∷ ts) = if t.is_button && t.active then some t else active_button ts

-- `toggleSections` on an element found: without the attribute the call of `split` throws, which is
-- `none`.
abbrev pub toggle_found : Option Text → Tabs → Option Tabs
toggle_found none p = none
toggle_found (some target) p = some (toggle_sections target p)

abbrev pub toggle_button : Option Tab → Tabs → Option Tabs
toggle_button none p = some p
toggle_button (some b) p = toggle_found b.togglable p

unfoldable pub show_corresponding_tab_body : List Tab → Tabs → Option Tabs
unfolding active_button toggle_sections
show_corresponding_tab_body element p = toggle_button (active_button element) p

unfoldable pub section_at : ℕ → List (List Tab) → List Tab
section_at i [] = []
section_at zero (s ∷ sections) = s
section_at (suc i) (_ ∷ sections) = section_at i sections

abbrev pub and_then : Option Tabs → (Tabs → Option Tabs) → Option Tabs
and_then none k = none
and_then (some p) k = k p

-- The loop of `initTabs` over `n` sections from the section `i` on, each as it stands then.
unfoldable pub init_sections : ℕ → ℕ → Tabs → Option Tabs
unfolding show_corresponding_tab_body section_at
init_sections zero i p = some p
init_sections (suc n) i p =
    and_then (show_corresponding_tab_body (section_at i p.sections) p) (init_sections n (suc i))

unfoldable pub has_tab : Text → List Tab → Bool
has_tab v [] = false
has_tab v (t ∷ ts) =
    if t.is_button && same_attribute t.togglable (some v) then true else has_tab v ts

unfoldable pub in_sections : Text → List (List Tab) → Bool
unfolding has_tab
in_sections v [] = false
in_sections v (s ∷ sections) = if has_tab v s then true else in_sections v sections

-- The tab that the local storage names, if the page has it.
abbrev pub restore_tab : Option Text → Tabs → Option Tabs
restore_tab none p = some p
restore_tab (some parsed) p =
    if in_sections parsed p.sections then some (toggle_sections parsed p) else some p

unfoldable pub init_tabs : Tabs → Option Tabs
unfolding init_sections in_sections toggle_sections
init_tabs p = and_then (init_sections (length p.sections) zero p) (restore_tab p.active_tab)
