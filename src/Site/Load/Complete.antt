-- ===== src/Site/Load/Complete.antt =====
-- platform-content-handler.js, lines 17-33: what a page has when it is loaded, and when loading
-- ends early.
use arrow_resilience_kit.Base.{
  ℕ, ◌≡◌, refl, sym, ap, subst, ◌∙◌, Bool, true, false, Option, none, some, List, [], ◌∷◌, All,
}
use arrow_resilience_kit.Site.Text.{Text}
use arrow_resilience_kit.Site.Filters.{Filters, Page as FiltersPage}
use arrow_resilience_kit.Site.Filters.Display.{Displayed, initialize-Displayed}
use arrow_resilience_kit.Site.Tabs.{Tabs}
use arrow_resilience_kit.Site.Tabs.Restored.{AllTagged, init_tabs-returns}
use arrow_resilience_kit.Site.Anchors.{
  Anchor, Content, Page as AnchorsPage, Result, finished, threw, page_of, find_anchor,
  remove_highlight, handle_anchor, go_to_hash, go_to_anchor, go_to_content,
}
use arrow_resilience_kit.Site.Anchors.Highlight.{
  Highlighted, list_of, navbar-Highlighted, handle_anchor-Highlighted,
}
use arrow_resilience_kit.Site.Platforms.Shown.{ButtonRow}
use arrow_resilience_kit.Site.Theme.{dark_mode_switch}
use arrow_resilience_kit.Site.Load.{
  Environment, Document, filter_if, finish, init_hiding_left_navigation, after_anchor, after_tabs,
  load,
}

abbrev has_sibling : Option Content → Bool
has_sibling none = false
has_sibling (some _) = true

abbrev has_content : Option Anchor → Bool
has_content none = true
has_content (some a) = has_sibling a.next_sibling

-- Whether the anchor that a hash names, if there is one, has an element after it.
unfoldable pub is_safe : Text → List Anchor → Bool
is_safe [] anchors = true
is_safe (_ ∷ name) anchors = has_content (find_anchor name anchors)

abbrev is_finished : Result → Bool
is_finished (finished p) = true
is_finished (threw p) = false

content_finishes :
    (is_none : AnchorsPage → ℕ → Bool) (a : Anchor) (content : Option Content) (p : AnchorsPage)
    → is_finished (go_to_content is_none a content p) ≡ has_sibling content
unfolding go_to_content
content_finishes is_none a none p = refl
content_finishes is_none a (some c) p = refl

anchor_finishes :
    (is_none : AnchorsPage → ℕ → Bool) (a : Option Anchor) (p : AnchorsPage)
    → is_finished (go_to_anchor is_none a p) ≡ has_content a
anchor_finishes is_none none p = refl
anchor_finishes is_none (some a) p = content_finishes is_none a a.next_sibling p

hash_finishes :
    (is_none : AnchorsPage → ℕ → Bool) (hash : Text) (p : AnchorsPage)
    → is_finished (go_to_hash is_none hash p) ≡ is_safe hash p.anchors
unfolding is_safe
hash_finishes is_none [] p = refl
hash_finishes is_none (_ ∷ name) p = anchor_finishes is_none (find_anchor name p.anchors) p

remove_highlight-anchors :
    (e : Option ℕ) (p : AnchorsPage) → (remove_highlight e p).anchors ≡ p.anchors
remove_highlight-anchors none p = refl
remove_highlight-anchors (some e) p = refl

handle_anchor-finishes :
    (is_none : AnchorsPage → ℕ → Bool) (p : AnchorsPage)
    → is_finished (handle_anchor is_none p) ≡ is_safe p.hash p.anchors
unfolding handle_anchor
handle_anchor-finishes is_none p =
    hash_finishes is_none p.hash (remove_highlight p.highlighted_anchor p)
    ∙ ap (is_safe p.hash) (remove_highlight-anchors p.highlighted_anchor p)

-- The filters, if the page has them, are displayed.
pub Filtered : Option Filters → Type 0
Filtered none = Unit
Filtered (some s) = Displayed s.active_filters s.page

module _ {I : Type 0} (env : Environment) (d : Document I) where
  -- The page `d` loaded to the end.
  pub record Complete (q : Document I) : Type 0 where
    menu_ready : q.menu_handled ≡ true
    theme_ready : q.theme_handled ≡ true
    themed : q.theme ≡ dark_mode_switch env.samples_are_enabled env.os_dark_scheme_preferred d.theme
    navbar : q.anchored.top_navbar_offset ≡ d.navigation_wrapper
    highlighted : Highlighted d.anchored.anchors d.anchored.hash q.anchored
    filtered : Filtered q.filtering_context

  -- Loading gives a complete page, or throws.
  pub data Loaded : Bool → Option (Document I) → Type 0 where
    complete : {q : Document I} → Complete q → Loaded true (some q)
    stopped : Loaded false none

  filter_if-Filtered :
      (section : Option FiltersPage)
      → ((p : FiltersPage) → section ≡ some p → (p.messages ≡ []) × All ButtonRow p.containers)
      → Filtered (filter_if env section)
  unfolding Filtered
  filter_if-Filtered none h = tt
  filter_if-Filtered (some p) h =
      initialize-Displayed env.sourceset_dependencies env.inactive_filters p (h p refl).0
        (h p refl).1

  after_anchor-Loaded :
      (filters : Option Filters) (r : Result)
      → Filtered filters
      → Highlighted d.anchored.anchors d.anchored.hash (page_of r)
      → Loaded (is_finished r) (after_anchor env (record d { filtering_context = filters }) r)
  unfolding finish init_hiding_left_navigation
  after_anchor-Loaded filters (threw p) h k = stopped
  after_anchor-Loaded filters (finished p) h k = complete (record {
    menu_ready = refl;
    theme_ready = refl;
    themed = refl;
    navbar = refl;
    highlighted = navbar-Highlighted d.anchored.anchors d.anchored.hash d.navigation_wrapper p k;
    filtered = h;
  })

  -- Loading a page throws exactly when the hash names an anchor with no element after it, if all
  -- its tabs have the attribute `data-togglable`, nothing is highlighted, no message stands in the
  -- way and the bookmarks of its blocks are buttons. Else the handlers of the left column and of
  -- the theme button are set, the theme of the samples is chosen, the height of the bar is known,
  -- exactly the element that the hash names is highlighted, and the filters, if the page has them,
  -- are displayed.
  pub load-Loaded :
      All AllTagged d.anchored.tabs.sections
      → d.anchored.highlighted_anchor ≡ none
      → d.anchored.highlights ≡ []
      → ((p : FiltersPage)
          → d.filter_section ≡ some p
          → (p.messages ≡ []) × All ButtonRow p.containers)
      → Loaded (is_safe d.anchored.hash d.anchored.anchors) (load env d)
  unfolding load
  load-Loaded tagged no_name no_highlight fresh =
      let (tabs, e) = init_tabs-returns d.anchored.tabs tagged in
      let filters = filter_if env d.filter_section in
      let p = record d.anchored { tabs = tabs } in
      let r = handle_anchor env.is_none p in
      subst
        (λ (o : Option Tabs).
          Loaded (is_safe d.anchored.hash d.anchored.anchors)
            (after_tabs env (record d { filtering_context = filters }) o))
        (sym e)
        (subst
          (λ (b : Bool). Loaded b (after_anchor env (record d { filtering_context = filters }) r))
          (handle_anchor-finishes env.is_none p)
          (after_anchor-Loaded filters r (filter_if-Filtered d.filter_section fresh) (
            handle_anchor-Highlighted env.is_none d.anchored.anchors p refl
              (no_highlight ∙ ap list_of (sym no_name)))))
