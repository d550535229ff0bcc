-- ===== src/Site/Platforms.antt =====
-- platform-content-handler.js, lines 302-322 and 364-386: the tabs of a block whose text depends on
-- the platform. A container has one row of bookmarks, with no text between them, and its contents;
-- a click on a bookmark reaches the container. An attribute that is missing is `none`.
mod Tests
pub mod Shown
use mathlib.Core.Logic.{ite}
use arrow_resilience_kit.Base.{
  ℕ, ◌≡◌, refl, sym, ap, ◌∙◌, Bool, true, false, not, ◌&&◌, ◌||◌, Option, none, some, List, [], ◌∷◌,
  map, arith, ◌==◌, if◌then◌else◌, All, Bool-cases, ◌⊎◌, inl, inr,
}
use arrow_resilience_kit.Site.Text.{Text, same_attribute}

pub record Bookmark : Type 0 where
  pub element : ℕ
  pub is_button : Bool
  pub toggle : Option Text
  pub filterable_set : Option Text
  pub filterable_current : Option Text
  pub active : Bool

pub record Content : Type 0 where
  pub togglable : Option Text
  pub active : Bool

pub record Container : Type 0 where
  pub row : List Bookmark
  pub contents : List Content

unfoldable pub mark : Bookmark → Bookmark → Bookmark
mark target bm = record bm { active = bm.element == target.element }

unfoldable pub show : Option Text → Content → Content
show index child = record child { active = same_attribute child.togglable index }

unfoldable pub toggle_platform_dependent : Bookmark → Container → Container
unfolding mark show
toggle_platform_dependent target c =
    if target.is_button
    then record { row = map (mark target) c.row; contents = map (show target.toggle) c.contents }
    else c

unfoldable pub is_available : Bookmark → Bool
is_available b = elim b.filterable_current [ some [] ↦ false | _ ↦ true ]

abbrev pub first_of : Option Bookmark → Bookmark → Option Bookmark
first_of none b = some b
first_of (some a) b = some a

-- One round of the loop over the row, on `active` and `firstAvailable`, for an element that is
-- available, and active, or not.
abbrev pub look : Bool → Bool → Bookmark → Bool × Option Bookmark → Bool × Option Bookmark
look true is_active b (active, first) = (active || is_active, first_of first b)
look false is_active b found = found

unfoldable pub scan : List Bookmark → Bool × Option Bookmark → Bool × Option Bookmark
scan [] found = found
scan (b ∷ bs) found = scan bs (look (is_available b) b.active b found)

abbrev pub click_first : Container → Bool × Option Bookmark → Container
click_first c (false, some b) = toggle_platform_dependent b c
click_first c (false, none) = c
click_first c (true, _) = c

unfoldable pub refresh_platform_tabs : Container → Container
unfolding scan toggle_platform_dependent
refresh_platform_tabs c = click_first c (scan c.row (false, none))
