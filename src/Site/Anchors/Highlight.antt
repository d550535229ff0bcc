-- ===== src/Site/Anchors/Highlight.antt =====
-- platform-content-handler.js, lines 134-177: only the content of the current anchor is
-- highlighted.
use arrow_resilience_kit.Base.{
  ℕ, ◌≡◌, refl, sym, ap, ◌∙◌, Bool, true, false, not, Option, none, some, List, [], ◌∷◌, ◌==◌,
  if◌then◌else◌, keep, arith,
}
use arrow_resilience_kit.Site.Text.{Text}
use arrow_resilience_kit.Site.Anchors.{
  Content, Anchor, Page, page_of, scroll_to_element, scroll_or_wait, scroll_to_element_in_content,
  wake, timeout_of, timeout, open_tab, remove_highlight, highlight, find_anchor, go_to_content,
  go_to_anchor, go_to_hash, handle_anchor, Event, hash_change, timer, handle, run,
}

abbrev pub list_of : Option ℕ → List ℕ
list_of none = []
list_of (some e) = e ∷ []

abbrev sibling_of : Option Content → Option ℕ
sibling_of none = none
sibling_of (some c) = some c.element

abbrev content_of : Option Anchor → Option ℕ
content_of none = none
content_of (some a) = sibling_of a.next_sibling

-- The content that a hash names.
unfoldable pub named_by : Text → List Anchor → Option ℕ
named_by [] anchors = none
named_by (_ ∷ name) anchors = content_of (find_anchor name anchors)

-- The hash after the events.
unfoldable pub last_hash : List Event → Text → Text
last_hash [] hash = hash
last_hash (hash_change hash' ∷ es) hash = last_hash es hash'
last_hash (timer ∷ es) hash = last_hash es hash

-- Exactly the content that the hash names is highlighted.
pub record Highlighted (anchors : List Anchor) (hash : Text) (p : Page) : Type 0 where
  same_anchors : p.anchors ≡ anchors
  named : p.highlighted_anchor ≡ named_by hash anchors
  only : p.highlights ≡ list_of p.highlighted_anchor

scroll_to_element_in_content-Highlighted :
    (element : Anchor) (navbar : Option ℕ) (anchors : List Anchor) (hash : Text) (p : Page)
    → Highlighted anchors hash p
    → Highlighted anchors hash (scroll_or_wait element navbar p)
unfolding scroll_to_element
scroll_to_element_in_content-Highlighted element none anchors hash p h = record {
  same_anchors = h.same_anchors;
  named = h.named;
  only = h.only;
}
scroll_to_element_in_content-Highlighted element (some _) anchors hash p h = record {
  same_anchors = h.same_anchors;
  named = h.named;
  only = h.only;
}

-- The bar plays no part.
pub navbar-Highlighted :
    (anchors : List Anchor) (hash : Text) (navbar : Option ℕ) (p : Page)
    → Highlighted anchors hash p
    → Highlighted anchors hash (record p { top_navbar_offset = navbar })
navbar-Highlighted anchors hash navbar p h = record {
  same_anchors = h.same_anchors;
  named = h.named;
  only = h.only;
}

-- A page without a highlight.
record Plain (anchors : List Anchor) (p : Page) : Type 0 where
  same_anchors : p.anchors ≡ anchors
  no_name : p.highlighted_anchor ≡ none
  no_highlight : p.highlights ≡ []

Plain-Highlighted :
    (anchors : List Anchor) (hash : Text) (p : Page)
    → named_by hash anchors ≡ none
    → Plain anchors p
    → Highlighted anchors hash p
Plain-Highlighted anchors hash p e h = record {
  same_anchors = h.same_anchors;
  named = h.no_name ∙ sym e;
  only = h.no_highlight ∙ ap list_of (sym h.no_name);
}

open_tab-Plain :
    (b : Bool) (content : Content) (anchors : List Anchor) (p : Page)
    → Plain anchors p
    → Plain anchors (if b then open_tab content p else p)
unfolding open_tab
open_tab-Plain true content anchors p h = record {
  same_anchors = h.same_anchors;
  no_name = h.no_name;
  no_highlight = h.no_highlight;
}
open_tab-Plain false content anchors p h = h

highlight-Highlighted :
    (content : Content) (anchors : List Anchor) (hash : Text) (p : Page)
    → named_by hash anchors ≡ some content.element
    → Plain anchors p
    → Highlighted anchors hash (highlight content p)
unfolding highlight
highlight-Highlighted content anchors hash p e h = record {
  same_anchors = h.same_anchors;
  named = sym e;
  only = ap (◌∷◌ content.element) h.no_highlight;
}

go_to_content-Highlighted :
    (is_none : Page → ℕ → Bool) (a : Anchor) (content : Option Content) (anchors : List Anchor)
    (hash : Text) (p : Page)
    → named_by hash anchors ≡ sibling_of content
    → Plain anchors p
    → Highlighted anchors hash (page_of (go_to_content is_none a content p))
unfolding go_to_content scroll_to_element_in_content
go_to_content-Highlighted is_none a none anchors hash p e h = Plain-Highlighted anchors hash p e h
go_to_content-Highlighted is_none a (some content) anchors hash p e h =
    scroll_to_element_in_content-Highlighted a _ anchors hash _ (
      highlight-Highlighted content anchors hash _ e
        (open_tab-Plain (is_none p content.element) content anchors p h))

go_to_anchor-Highlighted :
    (is_none : Page → ℕ → Bool) (a : Option Anchor) (anchors : List Anchor) (hash : Text) (p : Page)
    → named_by hash anchors ≡ content_of a
    → Plain anchors p
    → Highlighted anchors hash (page_of (go_to_anchor is_none a p))
go_to_anchor-Highlighted is_none none anchors hash p e h = Plain-Highlighted anchors hash p e h
go_to_anchor-Highlighted is_none (some a) anchors hash p e h =
    go_to_content-Highlighted is_none a a.next_sibling anchors hash p e h

go_to_hash-Highlighted :
    (is_none : Page → ℕ → Bool) (hash : Text) (anchors : List Anchor) (p : Page)
    → Plain anchors p
    → Highlighted anchors hash (page_of (go_to_hash is_none hash p))
unfolding named_by
go_to_hash-Highlighted is_none [] anchors p h = Plain-Highlighted anchors [] p refl h
go_to_hash-Highlighted is_none (c ∷ name) anchors p h =
    go_to_anchor-Highlighted is_none (find_anchor name p.anchors) anchors (c ∷ name) p
      (ap (λ as'. content_of (find_anchor name as')) (sym h.same_anchors)) h

keep-one : (e : ℕ) → keep (λ x. not (x == e)) (e ∷ []) ≡ []
keep-one e = ground arith

remove_highlight-Plain :
    (e : Option ℕ) (anchors : List Anchor) (p : Page)
    → p.anchors ≡ anchors
    → p.highlighted_anchor ≡ e
    → p.highlights ≡ list_of e
    → Plain anchors (remove_highlight e p)
remove_highlight-Plain none anchors p a n o = record {
  same_anchors = a;
  no_name = n;
  no_highlight = o;
}
remove_highlight-Plain (some e) anchors p a n o = record {
  same_anchors = a;
  no_name = refl;
  no_highlight = ap (keep (λ x. not (x == e))) o ∙ keep-one e;
}

-- A page where exactly the element of the variable is highlighted.
pub handle_anchor-Highlighted :
    (is_none : Page → ℕ → Bool) (anchors : List Anchor) (p : Page)
    → p.anchors ≡ anchors
    → p.highlights ≡ list_of p.highlighted_anchor
    → Highlighted anchors p.hash (page_of (handle_anchor is_none p))
unfolding handle_anchor
handle_anchor-Highlighted is_none anchors p a o =
    go_to_hash-Highlighted is_none p.hash anchors _
      (remove_highlight-Plain p.highlighted_anchor anchors p a refl o)

wake-Highlighted :
    (a : Anchor) (navbar : Option ℕ) (anchors : List Anchor) (hash : Text) (p : Page)
    → Highlighted anchors hash p
    → Highlighted anchors hash (page_of (wake a navbar p))
unfolding scroll_to_element
wake-Highlighted a none anchors hash p h = h
wake-Highlighted a (some _) anchors hash p h = record {
  same_anchors = h.same_anchors;
  named = h.named;
  only = h.only;
}

timeout-Highlighted :
    (timers : List Anchor) (anchors : List Anchor) (hash : Text) (p : Page)
    → Highlighted anchors hash p
    → Highlighted anchors hash (page_of (timeout_of timers p))
timeout-Highlighted [] anchors hash p h = h
timeout-Highlighted (a ∷ timers) anchors hash p h =
    wake-Highlighted a p.top_navbar_offset anchors hash (record p { timers = timers })
      (record { same_anchors = h.same_anchors; named = h.named; only = h.only })

events-Highlighted :
    (is_none : Page → ℕ → Bool) (anchors : List Anchor) (es : List Event) (hash : Text) (p : Page)
    → Highlighted anchors hash p
    → Highlighted anchors (last_hash es hash) (run is_none es p)
unfolding run handle timeout last_hash
events-Highlighted is_none anchors [] hash p h = h
events-Highlighted is_none anchors (hash_change hash' ∷ es) hash p h =
    events-Highlighted is_none anchors es hash' _
      (handle_anchor-Highlighted is_none anchors (record p { hash = hash' }) h.same_anchors h.only)
events-Highlighted is_none anchors (timer ∷ es) hash p h =
    events-Highlighted is_none anchors es hash _ (timeout-Highlighted p.timers anchors hash p h)

-- On a page where nothing is highlighted, after it is loaded and any changes of the hash and
-- timers, though handlers may throw and whatever is displayed, exactly the element after the anchor
-- that the last hash names is highlighted, and nothing if there is none.
pub run-Highlighted :
    (is_none : Page → ℕ → Bool) (es : List Event) (p : Page)
    → p.highlighted_anchor ≡ none
    → p.highlights ≡ []
    → Highlighted p.anchors
        (last_hash es p.hash)
        (run is_none es (page_of (handle_anchor is_none p)))
run-Highlighted is_none es p no_name no_highlight =
    events-Highlighted is_none p.anchors es p.hash _
      (handle_anchor-Highlighted is_none p.anchors p refl (no_highlight ∙ ap list_of (sym no_name)))
