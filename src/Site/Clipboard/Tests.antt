-- ===== src/Site/Clipboard/Tests.antt =====
-- clipboard.js: clicks on the icons of a page, and an instance of the theorem on them.
use arrow_resilience_kit.Base.{◌≡◌, refl, true, false, none, some, List, [], ◌∷◌, returned, thrown}
use arrow_resilience_kit.Site.Text.{split}
use arrow_resilience_kit.Site.Clipboard.{
  Icon, Page, text, Event, copy_icon, anchor_icon, timer, run, handle, among,
  copy_elements_content_to_clipboard, click_anchor_icon, timeout, copy_text_to_clipboard,
  copy_and_show_popup, try_copy, show_popup, remove_textarea, href_without_currently_used_anchor,
}
use arrow_resilience_kit.Site.Clipboard.Popups.{Clean, run-Clean}

abbrev page : Page
page = record {
  href = b'h' ∷ b'#' ∷ b'a' ∷ [];
  textareas = [];
  next_element = 9;
  ranges = none;
  focused = none;
  clipboard = none;
  active_popups = [];
  timers = [];
  errors = 0;
}

abbrev icon : Icon
icon = record { next_sibling = some 3; grandparent = 1; pointing_to = some (b'b' ∷ []) }

abbrev alone : Icon
alone = record { next_sibling = none; grandparent = 2; pointing_to = none }

-- A copy that is refused, one that throws, one of an icon without a popup, and the address.
abbrev events : List Event
events =
    copy_icon (returned false) icon
    ∷ copy_icon (thrown []) icon
    ∷ copy_icon (returned true) alone
    ∷ anchor_icon (returned true) icon
    ∷ timer
    ∷ []

copies : (run events page).clipboard ≡ some (text (b'h' ∷ b'#' ∷ b'b' ∷ []))
unfolding run handle copy_elements_content_to_clipboard click_anchor_icon timeout
    copy_text_to_clipboard copy_and_show_popup try_copy show_popup among remove_textarea
    href_without_currently_used_anchor split
copies = refl

run-Clean_example : Clean (run events page)
run-Clean_example = run-Clean events page refl refl refl refl
