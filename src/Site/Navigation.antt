-- ===== src/Site/Navigation.antt =====
-- navigation-loader.js: the side menu of a page. `element` is the identity of a part of the menu
-- and `ancestors` are the elements of the parts around it, the nearest first, as `parentNode` leads
-- through them; every part has the attribute `pageId` and every link `href`. The text of
-- navigation.html is a parameter, as the parts that it makes.
mod Tests
pub mod Revealed
use arrow_resilience_kit.Base.{
  ℕ, zero, suc, Bool, true, false, not, ◌&&◌, ◌||◌, Option, none, some, List, [], ◌∷◌, ◌++◌, map,
  ◌==◌, if◌then◌else◌, ltb, length,
}
use arrow_resilience_kit.Site.Text.{Text, slash}

pub record Part : Type 0 where
  pub element : ℕ
  pub ancestors : List ℕ
  pub page_id : Text
  pub hidden : Bool
  pub active : Bool
  pub has_icon : Bool
  pub children : ℕ

pub record SideMenu : Type 0 where
  pub links : List Text
  pub parts : List Part

-- Where the menu is scrolled: a part at its top or in its middle.
pub data Scroll : Type 0 where
  to_top : ℕ → Scroll
  to_center : ℕ → Scroll

unfoldable pub starts_with : Text → Text → Bool
starts_with [] s = true
starts_with (c ∷ cs) [] = false
starts_with (c ∷ cs) (x ∷ s) = c == x && starts_with cs s

-- `s.indexOf(t) !== -1`
unfoldable pub contains : Text → Text → Bool
unfolding starts_with
contains t [] = starts_with t []
contains t (x ∷ s) = starts_with t (x ∷ s) || contains t s

abbrev pub cut_at : ℕ → Option Text → Option Text
cut_at x (some t) = some (x ∷ t)
cut_at x none = if x == slash then some [] else none

-- The text before the last slash, if there is one.
unfoldable pub before_slash : Text → Option Text
before_slash [] = none
before_slash (x ∷ s) = cut_at x (before_slash s)

abbrev pub or_empty : Option Text → Text
or_empty none = []
or_empty (some t) = t

-- `s.substring(0, s.lastIndexOf("/"))`: without a slash the end is -1, which counts as 0.
unfoldable pub truncate : Text → Text
unfolding before_slash
truncate s = or_empty (before_slash s)

unfoldable pub update : ℕ → (Part → Part) → List Part → List Part
update e f [] = []
update e f (p ∷ ps) = (if p.element == e then f p else p) ∷ update e f ps

abbrev pub unhide : Part → Part
unhide p = record p { hidden = false }

-- `revealParents` on a part with this element and the parts around it.
unfoldable pub reveal_parents : List ℕ → List Part → List Part
unfolding update
reveal_parents [] ps = ps
reveal_parents (e ∷ es) ps = reveal_parents es (update e unhide ps)

unfoldable pub select : Part → Part
select p = if p.hidden then record p { hidden = false; active = true } else p

unfoldable pub reveal : Part → List Part → List Part
unfolding reveal_parents select update
reveal part ps = reveal_parents (part.element ∷ part.ancestors) (update part.element select ps)

-- One part of the loop, on `found` and the parts as they stand.
abbrev pub visit_if : Bool → Part → Bool × List Part → Bool × List Part
visit_if true part (false, ps) = (true, reveal part ps)
visit_if true part (true, ps) = (true, ps)
visit_if false part st = st

unfoldable pub visit_all : Text → List Part → Bool × List Part → Bool × List Part
unfolding contains reveal
visit_all page_id [] st = st
visit_all page_id (part ∷ parts) st =
    visit_all page_id parts (visit_if (contains page_id part.page_id) part st)

abbrev pub has_slash : Text → Bool
has_slash = contains (slash ∷ [])

-- The `do` loop, on fuel; `none` means that the fuel is used up.
unfoldable pub reveal_loop : ℕ → Text → List Part → Bool × List Part → Option (Bool × List Part)
unfolding visit_all truncate contains
reveal_loop zero page_id parts st = none
reveal_loop (suc fuel) page_id parts st =
    let st' = visit_all page_id parts st in
    let rest = reveal_loop fuel (truncate page_id) parts st' in
    if has_slash (truncate page_id) && not st'.0 then rest else some st'

unfoldable pub reveal_navigation_for_current_page : Text → List Part → Option (Bool × List Part)
unfolding reveal_loop
reveal_navigation_for_current_page page_id parts =
    reveal_loop (suc (length page_id)) page_id parts (false, parts)

abbrev pub scroll_to : Part → Scroll
scroll_to p =
    if ltb (suc zero) p.children && not p.has_icon then to_top p.element else to_center p.element

unfoldable pub scroll_navigation_to_selected_element : List Part → Option Scroll
scroll_navigation_to_selected_element [] = none
scroll_navigation_to_selected_element (p ∷ ps) =
    if p.active then some (scroll_to p) else scroll_navigation_to_selected_element ps

unfoldable pub hide : Part → Part
hide p = if not p.hidden then record p { hidden = true } else p

abbrev pub with_scroll : List Text → Option (Bool × List Part) → Option (SideMenu × Option Scroll)
with_scroll links none = none
with_scroll links (some (found, ps)) =
    some (record { links = links; parts = ps }, scroll_navigation_to_selected_element ps)

unfoldable pub display_navigation_from_page :
    Text → Text → SideMenu → Option (SideMenu × Option Scroll)
unfolding hide reveal_navigation_for_current_page scroll_navigation_to_selected_element
display_navigation_from_page path_to_root page_id menu =
    with_scroll (map (λ href. path_to_root ++ href) menu.links)
      (reveal_navigation_for_current_page page_id (map hide menu.parts))
