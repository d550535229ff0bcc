-- ===== src/Site/Filters/Display.antt =====
-- platform-content-handler.js, lines 324-362 and 388-397: what the page shows is up to date with
-- the active filters after any clicks on the filter buttons.
use arrow_resilience_kit.Base.{
  ℕ, ◌≡◌, refl, ap, ◌∙◌, Bool, true, false, Option, none, some, List, [], ◌∷◌, ◌++◌, map, arith,
  if_elim, get, All, ◌⊎◌, inl, inr,
}
use arrow_resilience_kit.Site.Text.{Text, text_discrete, in_list}
use arrow_resilience_kit.Site.Filters.{
  FilterButton, Filterable, Page, Filters, Target, except, current_of, refresh_button,
  refresh_filterable, remove_message, refresh_page, refresh_no_content_notification,
  refresh_filtering, initialize_filtering, filters_of, initial_filters,
  add_sourceset_filter_to_cache, remove_sourceset_filter_from_cache, remove_all_from_cache,
  filter_sourceset, push_active, reactivate, by_length, unfilter_sourceset, handle,
  filter_button_handler,
}
use arrow_resilience_kit.Site.Platforms.Shown.{shows, available, ButtonRow}
use arrow_resilience_kit.Site.Filters.Blocks.{refresh-ButtonRow, blocks_follow}
use arrow_resilience_kit.Site.Filters.Sets.{in_list-none}
use arrow_resilience_kit.Site.Filters.Persistence.{after, clicks}

-- The main content gives way to exactly one message when all is filtered.
pub Noticed : List Text → Page → Type 0
Noticed [] p =
    (p.main_displayed ≡ false)
    × ((m : ℕ) × (p.messages ≡ m ∷ []) × (p.sourceset_notification ≡ some m))
Noticed (_ ∷ _) p = (p.main_displayed ≡ true) × (p.messages ≡ [])

pub record Displayed (active : List Text) (p : Page) : Type 0 where
  buttons_lit : All (λ b. b.active ≡ in_list b.filter active) p.buttons
  elements_current :
      All (λ e. e.filterable_current ≡ current_of active e.filterable_set) p.filterables
  blocks_buttons : All ButtonRow p.containers
  blocks_shown : All (λ c. shows c.row ≡ available c.row) p.containers
  noticed : Noticed active p

buttons_follow :
    (active : List Text) (bs : List FilterButton)
    → All (λ b. b.active ≡ in_list b.filter active) (map (refresh_button active) bs)
unfolding refresh_button
buttons_follow active [] = tt
buttons_follow active (b ∷ bs) = (refl, buttons_follow active bs)

elements_follow :
    (active : List Text) (es : List Filterable)
    → All
        (λ e. e.filterable_current ≡ current_of active e.filterable_set)
        (map (refresh_filterable active) es)
unfolding refresh_filterable
elements_follow active [] = tt
elements_follow active (e ∷ es) = (refl, elements_follow active es)

-- What a page must have for a refresh to leave at most one message: none, or one that goes.
Ready : List Text → Page → Type 0
Ready active p =
    (p.messages ≡ [])
    ⊎ ((t : Text) × (ts : List Text) × (m : ℕ) × (active ≡ t ∷ ts)
        × (p.messages ≡ m ∷ [])
        × (p.sourceset_notification ≡ some m))

remove_message-none : (e : Option ℕ) → remove_message e [] ≡ []
unfolding remove_message
remove_message-none none = refl
remove_message-none (some e) = refl

remove_message-last : (m : ℕ) → remove_message (some m) (m ∷ []) ≡ []
unfolding remove_message
remove_message-last m = ground arith

refresh-Displayed :
    (active : List Text) (p : Page)
    → All ButtonRow p.containers
    → Ready active p
    → Displayed active (refresh_page active p)
unfolding refresh_page refresh_no_content_notification Ready Noticed
refresh-Displayed [] p rows (inl none_yet) = record {
  buttons_lit = buttons_follow [] p.buttons;
  elements_current = elements_follow [] p.filterables;
  blocks_buttons = refresh-ButtonRow [] p.containers rows;
  blocks_shown = blocks_follow [] p.containers rows;
  noticed = (refl, (p.next_element, ap (◌∷◌ p.next_element) none_yet, refl));
}
refresh-Displayed [] p rows (inr (t, ts, m, e, one, held)) = cc e
refresh-Displayed (t ∷ ts) p rows (inl none_yet) = record {
  buttons_lit = buttons_follow (t ∷ ts) p.buttons;
  elements_current = elements_follow (t ∷ ts) p.filterables;
  blocks_buttons = refresh-ButtonRow (t ∷ ts) p.containers rows;
  blocks_shown = blocks_follow (t ∷ ts) p.containers rows;
  noticed = (
    refl,
    ap (remove_message p.sourceset_notification) none_yet
        ∙ remove_message-none p.sourceset_notification,
  );
}
refresh-Displayed (t ∷ ts) p rows (inr (t', ts', m, e, one, held)) = record {
  buttons_lit = buttons_follow (t ∷ ts) p.buttons;
  elements_current = elements_follow (t ∷ ts) p.filterables;
  blocks_buttons = refresh-ButtonRow (t ∷ ts) p.containers rows;
  blocks_shown = blocks_follow (t ∷ ts) p.containers rows;
  noticed = (
    refl,
    ap (λ n. remove_message n p.messages) held
        ∙ ap (remove_message (some m)) one
        ∙ remove_message-last m,
  );
}

-- While something is shown there is no message.
full-Ready :
    (before active : List Text) (p : Page) (f : Text)
    → Noticed before p
    → in_list f before ≡ true
    → Ready active p
unfolding Ready Noticed
full-Ready [] active p f n h = cc (h, in_list-none f)
full-Ready (_ ∷ _) active p f n h = inl (n.1)

push-Ready :
    (before : List Text) (f : Text) (xs : List Text) (p : Page)
    → Noticed before p
    → Ready (xs ++ f ∷ []) p
unfolding Ready Noticed
push-Ready [] f [] p n = inr (f, [], n.1.0, refl, n.1.1, n.1.2)
push-Ready [] f (x ∷ xs) p n = inr (x, xs ++ f ∷ [], n.1.0, refl, n.1.1, n.1.2)
push-Ready (_ ∷ _) f xs p n = inl (n.1)

-- What a state shows.
pub Shown : Filters → Type 0
Shown s = Displayed s.active_filters s.page

filter-Shown :
    (f : Text) (s : Filters)
    → Shown s
    → in_list f s.active_filters ≡ true
    → Shown (filter_sourceset f s)
unfolding Shown filter_sourceset add_sourceset_filter_to_cache refresh_filtering
filter-Shown f s h is_active =
    refresh-Displayed (except f s.active_filters) s.page h.blocks_buttons
      (full-Ready s.active_filters (except f s.active_filters) s.page f h.noticed is_active)

unfilter-Shown :
    (f : Text) (s : Filters)
    → Shown s
    → (found : Option (List Text)) → (active : List Text)
    → Shown (
        after s (
          by_length active
            (reactivate f s found)
            (some (remove_sourceset_filter_from_cache f (refresh_filtering (push_active f s))))))
unfolding Shown after reactivate remove_sourceset_filter_from_cache remove_all_from_cache
    refresh_filtering push_active
unfilter-Shown f s h none [] = h
unfilter-Shown f s h (some ds) [] =
    refresh-Displayed (ds ++ f ∷ []) s.page h.blocks_buttons
      (push-Ready s.active_filters f ds s.page h.noticed)
unfilter-Shown f s h found (_ ∷ _) =
    refresh-Displayed (s.active_filters ++ f ∷ []) s.page h.blocks_buttons
      (push-Ready s.active_filters f s.active_filters s.page h.noticed)

handle-Shown :
    (is_button : Bool) (data_filter : Option Text) (s : Filters)
    → Shown s
    → Shown (after s (handle is_button data_filter s))
unfolding handle after unfilter_sourceset
handle-Shown true (some f) s h =
    if_elim (λ r. Shown (after s r)) (in_list f s.active_filters) _ _ (λ e. filter-Shown f s h e)
      (λ _. unfilter-Shown f s h (get text_discrete f s.dependencies) s.active_filters)
handle-Shown true none s h = h
handle-Shown false data_filter s h = h

run-Shown : (ts : List Target) (s : Filters) → Shown s → Shown (clicks ts s)
unfolding clicks filter_button_handler
run-Shown [] s h = h
run-Shown (t ∷ ts) s h = run-Shown ts _ (handle-Shown t.is_button t.data_filter s h)

pub initialize-Displayed :
    (dependencies : List (Text × List Text)) (cached : Option (List Text)) (p : Page)
    → p.messages ≡ []
    → All ButtonRow p.containers
    → Displayed
        (initialize_filtering dependencies cached p).active_filters
        (initialize_filtering dependencies cached p).page
unfolding initialize_filtering refresh_filtering Ready
initialize-Displayed dependencies cached p none_yet rows =
    refresh-Displayed (initial_filters (filters_of p.buttons) cached) p rows (inl none_yet)

-- On a page that starts with no message, and with blocks whose bookmarks are all buttons, after the
-- filters are initialised and any clicks on the filter buttons, a filter button is lit exactly when
-- its source set is active, each filterable element carries the active ones of its source sets,
-- each block shows an available platform if it has one, and the main content is hidden exactly when
-- no source set is active, with exactly one message in its place, which is gone when something is
-- shown again.
pub clicks-Displayed :
    (dependencies : List (Text × List Text)) (cached : Option (List Text)) (p : Page)
    (ts : List Target)
    → p.messages ≡ []
    → All ButtonRow p.containers
    → Displayed
        (clicks ts (initialize_filtering dependencies cached p)).active_filters
        (clicks ts (initialize_filtering dependencies cached p)).page
unfolding Shown
clicks-Displayed dependencies cached p ts none_yet rows =
    run-Shown ts (initialize_filtering dependencies cached p)
      (initialize-Displayed dependencies cached p none_yet rows)
