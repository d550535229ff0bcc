-- ===== src/Site/Clipboard.antt =====
-- clipboard.js: the icons that copy a text to the clipboard. Elements have numbers. What the
-- browser's `execCommand` does is a parameter: it copies what is selected, refuses, or throws.
-- `timers` are the icons whose timer runs, the oldest first; all timers take as long.
mod Tests
pub mod Timers
pub mod Popups
use arrow_resilience_kit.Base.{
  ℕ, suc, Bool, true, false, not, ◌||◌, Option, none, some, List, [], ◌∷◌, ◌++◌, ◌==◌,
  if◌then◌else◌, keep, Outcome, returned, thrown,
}
use arrow_resilience_kit.Site.Text.{Text, hash, split}

-- An icon with `nextElementSibling`, `parentNode.parentNode` and the attribute `pointing-to`.
pub record Icon : Type 0 where
  pub next_sibling : Option ℕ
  pub grandparent : ℕ
  pub pointing_to : Option Text

-- What is selected: the contents of an element, or a text.
pub data Selected : Type 0 where
  contents_of : ℕ → Selected
  text : Text → Selected

pub record Textarea : Type 0 where
  pub element : ℕ
  pub text_content : Text

-- `ranges` is the selection of the window, `focused` the text selected in a textarea, and `errors`
-- counts the calls of `console.error`.
pub record Page : Type 0 where
  pub href : Text
  pub textareas : List Textarea
  pub next_element : ℕ
  pub ranges : Option Selected
  pub focused : Option (ℕ × Text)
  pub clipboard : Option Selected
  pub active_popups : List ℕ
  pub timers : List Icon
  pub errors : ℕ

unfoldable pub among : ℕ → List ℕ → Bool
among e [] = false
among e (x ∷ xs) = e == x || among e xs

abbrev pub add_class : ℕ → List ℕ → List ℕ
add_class e es = if among e es then es else e ∷ es

abbrev pub remove_class : ℕ → List ℕ → List ℕ
remove_class e = keep (λ x. not (x == e))

abbrev pub selected : Option (ℕ × Text) → Option Selected → Option Selected
selected none ranges = ranges
selected (some (e, t)) ranges = some (text t)

-- `execCommand` with its result.
abbrev pub exec_copy : Bool → Page → Page
exec_copy true p = record p { clipboard = selected p.focused p.ranges }
exec_copy false p = p

abbrev pub log_error : Page → Page
log_error p = record p { errors = suc p.errors }

-- What follows `execCommand` in the `try`: without a sibling it throws.
unfoldable pub show_popup : Icon → Option ℕ → Page → Page
unfolding among
show_popup icon none p = log_error p
show_popup icon (some sibling) p = record p {
  active_popups = add_class sibling p.active_popups;
  timers = p.timers ++ icon ∷ [];
}

unfoldable pub try_copy : Outcome Text Bool → Icon → Page → Page
unfolding show_popup
try_copy (thrown e) icon p = log_error p
try_copy (returned copied) icon p = show_popup icon icon.next_sibling (exec_copy copied p)

unfoldable pub copy_and_show_popup : Outcome Text Bool → Icon → (Page → Page) → Page → Page
unfolding try_copy
copy_and_show_popup exec icon after p = after (try_copy exec icon p)

abbrev pub remove_all_ranges : Page → Page
remove_all_ranges p = record p { ranges = none }

unfoldable pub copy_elements_content_to_clipboard : Outcome Text Bool → Icon → Page → Page
unfolding copy_and_show_popup
copy_elements_content_to_clipboard exec icon p =
    copy_and_show_popup exec icon remove_all_ranges
      (record p { ranges = some (contents_of icon.grandparent) })

abbrev pub unfocus : ℕ → Option (ℕ × Text) → Option (ℕ × Text)
unfocus e none = none
unfocus e (some (e', t)) = if e' == e then none else some (e', t)

-- An element that is removed loses the focus.
unfoldable pub remove_textarea : ℕ → Page → Page
remove_textarea e p = record p {
  textareas = keep (λ t. not (t.element == e)) p.textareas;
  focused = unfocus e p.focused;
}

unfoldable pub copy_text_to_clipboard : Outcome Text Bool → Icon → Text → Page → Page
unfolding copy_and_show_popup remove_textarea
copy_text_to_clipboard exec icon t p =
    copy_and_show_popup exec icon (remove_textarea p.next_element) (record p {
      textareas = p.textareas ++ record { element = p.next_element; text_content = t } ∷ [];
      next_element = suc p.next_element;
      focused = some (p.next_element, t);
    })

abbrev pub first_word : List Text → Text
first_word [] = []
first_word (w ∷ _) = w

unfoldable pub href_without_currently_used_anchor : Text → Text
unfolding split
href_without_currently_used_anchor href = first_word (split hash href)

-- The handler of the anchor icons, by the attribute.
unfoldable pub click_anchor_icon : Outcome Text Bool → Icon → Option Text → Page → Page
unfolding copy_text_to_clipboard href_without_currently_used_anchor
click_anchor_icon exec icon none p = p
click_anchor_icon exec icon (some anchor) p =
    copy_text_to_clipboard exec icon (href_without_currently_used_anchor p.href ++ hash ∷ anchor) p

-- The callback of the timer. Without a sibling it throws, and changes nothing.
abbrev pub hide_popup : Option ℕ → Page → Page
hide_popup none p = p
hide_popup (some sibling) p = record p { active_popups = remove_class sibling p.active_popups }

unfoldable pub timeout : List Icon → Page → Page
timeout [] p = p
timeout (icon ∷ icons) p = hide_popup icon.next_sibling (record p { timers = icons })

-- What happens on the page, with what `execCommand` does then.
pub data Event : Type 0 where
  copy_icon : Outcome Text Bool → Icon → Event
  anchor_icon : Outcome Text Bool → Icon → Event
  timer : Event

unfoldable pub handle : Event → Page → Page
unfolding copy_elements_content_to_clipboard click_anchor_icon timeout
handle (copy_icon exec icon) p = copy_elements_content_to_clipboard exec icon p
handle (anchor_icon exec icon) p = click_anchor_icon exec icon icon.pointing_to p
handle timer p = timeout p.timers p

unfoldable pub run : List Event → Page → Page
unfolding handle
run [] p = p
run (e ∷ es) p = run es (handle e p)
