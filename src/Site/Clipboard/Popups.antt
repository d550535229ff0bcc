-- ===== src/Site/Clipboard/Popups.antt =====
-- clipboard.js, lines 20-53: nothing that an icon puts on the page stays, whatever fails.
use arrow_resilience_kit.Base.{
  ℕ, suc, ◌≡◌, refl, sym, ap, subst, ◌∙◌, Bool, true, false, not, Option, none, some, List, [], ◌∷◌,
  ◌++◌, ◌==◌, keep, arith, Outcome, returned, thrown,
}
use arrow_resilience_kit.Site.Text.{Text, hash}
use arrow_resilience_kit.Site.Clipboard.{
  Icon, contents_of, Textarea, Page, exec_copy, show_popup, try_copy, copy_and_show_popup,
  copy_elements_content_to_clipboard, unfocus, remove_textarea, copy_text_to_clipboard,
  href_without_currently_used_anchor, click_anchor_icon, hide_popup, timeout, Event, copy_icon,
  anchor_icon, timer, handle, run,
}
use arrow_resilience_kit.Site.Clipboard.Timers.{
  is_sibling, waits, Timed, waits-append, Timed-append, add_class-Timed, remove_class-Timed,
  no_sibling-Timed,
}

-- What a `try` does: textareas and selections stay, and a popup that it shows has its timer.
record Tries (p q : Page) : Type 0 where
  same_textareas : q.textareas ≡ p.textareas
  same_focus : q.focused ≡ p.focused
  same_ranges : q.ranges ≡ p.ranges
  popups_timed : Timed p.timers p.active_popups → Timed q.timers q.active_popups

sibling-waits :
    (is : List Icon) (i : Icon) (s : ℕ) → i.next_sibling ≡ some s → waits (is ++ i ∷ []) s ≡ true
sibling-waits is i s e = ground (arith, waits-append is i s, ap (is_sibling s) e)

show_popup-Tries :
    (icon : Icon) (sibling : Option ℕ) (p : Page)
    → icon.next_sibling ≡ sibling
    → Tries p (show_popup icon sibling p)
unfolding show_popup
show_popup-Tries icon none p e = record {
  same_textareas = refl;
  same_focus = refl;
  same_ranges = refl;
  popups_timed = λ h. h;
}
show_popup-Tries icon (some s) p e = record {
  same_textareas = refl;
  same_focus = refl;
  same_ranges = refl;
  popups_timed = λ h.
      add_class-Timed (p.timers ++ icon ∷ []) s p.active_popups (sibling-waits p.timers icon s e)
        (Timed-append p.timers icon p.active_popups h);
}

exec_copy-Tries :
    (copied : Bool) (icon : Icon) (p q : Page) → Tries (exec_copy copied p) q → Tries p q
exec_copy-Tries true icon p q h = record {
  same_textareas = h.same_textareas;
  same_focus = h.same_focus;
  same_ranges = h.same_ranges;
  popups_timed = h.popups_timed;
}
exec_copy-Tries false icon p q h = h

try_copy-Tries :
    (exec : Outcome Text Bool) (icon : Icon) (p : Page) → Tries p (try_copy exec icon p)
unfolding try_copy
try_copy-Tries (thrown e) icon p = record {
  same_textareas = refl;
  same_focus = refl;
  same_ranges = refl;
  popups_timed = λ h. h;
}
try_copy-Tries (returned copied) icon p =
    exec_copy-Tries copied icon p _
      (show_popup-Tries icon icon.next_sibling (exec_copy copied p) refl)

-- A page on which no copy has left anything but popups that go.
pub record Clean (p : Page) : Type 0 where
  no_textareas : p.textareas ≡ []
  no_focus : p.focused ≡ none
  no_ranges : p.ranges ≡ none
  timed : Timed p.timers p.active_popups

content-Clean :
    (exec : Outcome Text Bool) (icon : Icon) (p : Page)
    → Clean p
    → Clean (copy_elements_content_to_clipboard exec icon p)
unfolding copy_elements_content_to_clipboard copy_and_show_popup
content-Clean exec icon p h =
    let t = try_copy-Tries exec icon (record p { ranges = some (contents_of icon.grandparent) }) in
    record {
      no_textareas = t.same_textareas ∙ h.no_textareas;
      no_focus = t.same_focus ∙ h.no_focus;
      no_ranges = refl;
      timed = t.popups_timed h.timed;
    }

keep-last :
    (e : ℕ) (t : Text) (ts : List Textarea)
    → ts ≡ []
    → keep (λ a. not (a.element == e)) (ts ++ record { element = e; text_content = t } ∷ []) ≡ []
keep-last e t [] h = ground arith
keep-last e t (_ ∷ _) h = cc h

unfocus-last : (e : ℕ) (t : Text) → unfocus e (some (e, t)) ≡ none
unfocus-last e t = ground arith

text-Clean :
    (exec : Outcome Text Bool) (icon : Icon) (t : Text) (p : Page)
    → Clean p
    → Clean (copy_text_to_clipboard exec icon t p)
unfolding copy_text_to_clipboard copy_and_show_popup remove_textarea
text-Clean exec icon t p h =
    let k = try_copy-Tries exec icon (record p {
      textareas = p.textareas ++ record { element = p.next_element; text_content = t } ∷ [];
      next_element = suc p.next_element;
      focused = some (p.next_element, t);
    }) in
    record {
      no_textareas =
          ap (keep (λ a. not (a.element == p.next_element))) k.same_textareas
          ∙ keep-last p.next_element t p.textareas h.no_textareas;
      no_focus = ap (unfocus p.next_element) k.same_focus ∙ unfocus-last p.next_element t;
      no_ranges = k.same_ranges ∙ h.no_ranges;
      timed = k.popups_timed h.timed;
    }

click_anchor_icon-Clean :
    (exec : Outcome Text Bool) (icon : Icon) (anchor : Option Text) (p : Page)
    → Clean p
    → Clean (click_anchor_icon exec icon anchor p)
unfolding click_anchor_icon
click_anchor_icon-Clean exec icon none p h = h
click_anchor_icon-Clean exec icon (some anchor) p h =
    text-Clean exec icon (href_without_currently_used_anchor p.href ++ hash ∷ anchor) p h

hide_popup-Clean :
    (icon : Icon) (icons : List Icon) (sibling : Option ℕ) (p : Page)
    → icon.next_sibling ≡ sibling
    → Clean (record p { timers = icon ∷ icons })
    → Clean (hide_popup sibling (record p { timers = icons }))
hide_popup-Clean icon icons none p e h = record {
  no_textareas = h.no_textareas;
  no_focus = h.no_focus;
  no_ranges = h.no_ranges;
  timed = no_sibling-Timed icons icon p.active_popups e h.timed;
}
hide_popup-Clean icon icons (some s) p e h = record {
  no_textareas = h.no_textareas;
  no_focus = h.no_focus;
  no_ranges = h.no_ranges;
  timed = remove_class-Timed icons icon s p.active_popups e h.timed;
}

timeout-Clean :
    (timers : List Icon) (p : Page)
    → Clean (record p { timers = timers })
    → Clean p
    → Clean (timeout timers p)
unfolding timeout
timeout-Clean [] p h k = k
timeout-Clean (icon ∷ icons) p h k = hide_popup-Clean icon icons icon.next_sibling p refl h

handle-Clean : (e : Event) (p : Page) → Clean p → Clean (handle e p)
unfolding handle
handle-Clean (copy_icon exec icon) p h = content-Clean exec icon p h
handle-Clean (anchor_icon exec icon) p h = click_anchor_icon-Clean exec icon icon.pointing_to p h
handle-Clean timer p h = timeout-Clean p.timers p h h

events-Clean : (es : List Event) (p : Page) → Clean p → Clean (run es p)
unfolding run
events-Clean [] p h = h
events-Clean (e ∷ es) p h = events-Clean es _ (handle-Clean e p h)

-- On a page where nothing is selected and no popup is shown, after any clicks on icons and timers,
-- though `execCommand` may refuse or throw and a sibling may be missing, no textarea is left on the
-- page, nothing stays selected, and every popup still shown has a running timer that takes it away.
pub run-Clean :
    (es : List Event) (p : Page)
    → p.textareas ≡ []
    → p.focused ≡ none
    → p.ranges ≡ none
    → p.active_popups ≡ []
    → Clean (run es p)
unfolding Timed
run-Clean es p no_textareas no_focus no_ranges no_popups = events-Clean es p (record {
  no_textareas = no_textareas;
  no_focus = no_focus;
  no_ranges = no_ranges;
  timed = subst (Timed p.timers) (sym no_popups) tt;
})
