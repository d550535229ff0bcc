-- ===== src/Site/Navigation/Tests.antt =====
-- navigation-loader.js: the menu of a page, and an instance of its theorem.
use arrow_resilience_kit.Base.{◌≡◌, refl, true, false, none, some, [], ◌∷◌, ◌++◌, Option, map}
use arrow_resilience_kit.Site.Text.{Text}
use arrow_resilience_kit.Site.Navigation.{
  Part, SideMenu, Scroll, to_center, display_navigation_from_page, hide,
  scroll_navigation_to_selected_element, reveal_navigation_for_current_page, reveal_loop, visit_all,
  contains, starts_with, truncate, before_slash, reveal, reveal_parents, select, update,
}
use arrow_resilience_kit.Site.Navigation.Revealed.{Search, shown_part, display_navigation-reveals}

-- A module `m` with a type `m/t` in it.
abbrev menu : SideMenu
menu = record {
  links = (b'i' ∷ []) ∷ [];
  parts =
      record {
        element = 1;
        ancestors = [];
        page_id = b'm' ∷ b'/' ∷ [];
        hidden = true;
        active = false;
        has_icon = false;
        children = 2;
      }
      ∷ record {
        element = 2;
        ancestors = 1 ∷ [];
        page_id = b'm' ∷ b'/' ∷ b't' ∷ b'/' ∷ [];
        hidden = false;
        active = false;
        has_icon = true;
        children = 1;
      }
      ∷ [];
}

-- A member of the type, which the menu does not have.
abbrev page_id : Text
page_id = b'm' ∷ b'/' ∷ b't' ∷ b'/' ∷ b'f' ∷ []

abbrev path_to_root : Text
path_to_root = b'.' ∷ b'/' ∷ []

abbrev shown : Option (SideMenu × Option Scroll) → Option Scroll
shown none = none
shown (some (m, scroll)) = scroll

scrolls : shown (display_navigation_from_page path_to_root page_id menu) ≡ some (to_center 2)
unfolding display_navigation_from_page hide scroll_navigation_to_selected_element
    reveal_navigation_for_current_page reveal_loop visit_all contains starts_with truncate
    before_slash reveal reveal_parents select update
scrolls = refl

display_navigation-reveals_example :
    (r : Option Part) × Search (map hide menu.parts) page_id r
    × (display_navigation_from_page path_to_root page_id menu
        ≡ some (
          record {
            links = map (λ href. path_to_root ++ href) menu.links;
            parts = map (shown_part r) menu.parts;
          },
          scroll_navigation_to_selected_element (map (shown_part r) menu.parts),
        ))
display_navigation-reveals_example =
    display_navigation-reveals path_to_root page_id menu (refl, (refl, tt))
