-- ===== src/Site/Filters/Choice.antt =====
-- platform-content-handler.js, lines 202-249: the active filters refine a choice of source sets.
use arrow_resilience_kit.Base.{
  ◌≡◌, refl, sym, ap, ◌∙◌, Bool, true, false, Option, none, some, List, [], ◌∷◌, arith,
  if◌then◌else◌, if_elim, keep, get, has-keep, All,
}
use arrow_resilience_kit.Site.Text.{Text, text_discrete, in_list}
use arrow_resilience_kit.Site.Filters.{
  Page, Filters, Target, refresh_filtering, filters_of, restrict, initialize_filtering,
  add_sourceset_filter_to_cache, remove_sourceset_filter_from_cache, remove_all_from_cache,
  filter_sourceset, push_active, reactivate, by_length, unfilter_sourceset, handle,
  filter_button_handler,
}
use arrow_resilience_kit.Site.Filters.Sets.{
  enabled, in_list-none, in_list-initial, in_list-except, in_list-push,
}
use arrow_resilience_kit.Site.Filters.Persistence.{
  Persisted, initialize-Persisted, handle-Persisted, active-named, OnPage, after, clicks,
}
use arrow_resilience_kit.Site.Filters.Switch.{
  Choice, any_of, with_dependencies, switch, choose_if, choose, kept, any_of-none, any_of-member,
  in_list-head, get-restricted, is_other,
}

-- The state has the choice as its active filters.
abbrev Chosen : Filters → Choice → Type 0
Chosen s chosen = (q : Text) → in_list q s.active_filters ≡ chosen q

-- Nothing is active exactly when none of the source sets with a button is chosen.
any_of-active :
    (names : List Text) (s : Filters) (chosen : Choice) (active : List Text)
    → s.active_filters ≡ active
    → Chosen s chosen
    → Persisted names s
    → any_of chosen names ≡ by_length active false true
any_of-active names s chosen [] e h k =
    any_of-none chosen names (λ q. sym (h q) ∙ ap (in_list q) e ∙ in_list-none q)
any_of-active names s chosen (a ∷ active) e h k =
    let i = ap (in_list a) e ∙ in_list-head a active in
    any_of-member chosen names a (active-named names s a k i) (sym (h a) ∙ i)

module _ (dependencies : List (Text × List Text)) (names : List Text) (f : Text) (s : Filters)
    (chosen : Choice) (h : Chosen s chosen) where
  filter-Chosen :
      chosen f ≡ true → Chosen (filter_sourceset f s) (switch dependencies names f chosen)
  unfolding filter_sourceset refresh_filtering add_sourceset_filter_to_cache switch
  filter-Chosen i q = ground (arith, h q, i, in_list-except q f s.active_filters, is_other f q)

  push-Chosen :
      chosen f ≡ false
      → any_of chosen names ≡ true
      → Chosen
          (remove_sourceset_filter_from_cache f (refresh_filtering (push_active f s)))
          (switch dependencies names f chosen)
  unfolding remove_sourceset_filter_from_cache refresh_filtering push_active switch
  push-Chosen i j q = ground (arith, h q, i, j, in_list-push q f s.active_filters)

  reactivate-Chosen :
      chosen f ≡ false
      → any_of chosen names ≡ false
      → (found : Option (List Text)) → get text_discrete f dependencies ≡ found
      → Chosen (after s (reactivate f s (kept names found))) (switch dependencies names f chosen)
  unfolding after reactivate remove_all_from_cache refresh_filtering switch
  reactivate-Chosen i j none e q =
      ground (arith, h q, i, j, ap (λ found. with_dependencies names f chosen found q) e)
  reactivate-Chosen i j (some ds) e q = ground (
    arith,
    i,
    j,
    ap (λ found. with_dependencies names f chosen found q) e,
    in_list-push q f (keep (λ r. in_list r names) ds),
    has-keep text_discrete (λ (r : Text). in_list r names) q ds,
  )

  unfilter-Chosen :
      s.dependencies ≡ restrict names dependencies
      → chosen f ≡ false
      → (active : List Text) → any_of chosen names ≡ by_length active false true
      → Chosen
          (after s (
            by_length active
              (reactivate f s (get text_discrete f s.dependencies))
              (some (remove_sourceset_filter_from_cache f (refresh_filtering (push_active f s))))))
          (switch dependencies names f chosen)
  unfolding after
  unfilter-Chosen e i [] j q =
      ap (λ found. in_list q (after s (reactivate f s found)).active_filters)
        (ap (get text_discrete f) e ∙ get-restricted names dependencies f)
      ∙ reactivate-Chosen i j (get text_discrete f dependencies) refl q
  unfilter-Chosen e i (_ ∷ _) j q = push-Chosen i j q

  button-Chosen :
      s.dependencies ≡ restrict names dependencies
      → Persisted names s
      → Chosen
          (after s (
            if in_list f s.active_filters
            then some (filter_sourceset f s)
            else unfilter_sourceset f s))
          (switch dependencies names f chosen)
  unfolding after unfilter_sourceset
  button-Chosen e k =
      if_elim (λ r. Chosen (after s r) (switch dependencies names f chosen))
        (in_list f s.active_filters) _ _ (λ i. filter-Chosen (sym (h f) ∙ i))
        (λ i.
          unfilter-Chosen e (sym (h f) ∙ i) s.active_filters
            (any_of-active names s chosen s.active_filters refl h k))

-- The dependencies stay as they are.
reactivate-dependencies :
    (f : Text) (s : Filters) (found : Option (List Text))
    → (after s (reactivate f s found)).dependencies ≡ s.dependencies
unfolding after reactivate remove_all_from_cache refresh_filtering
reactivate-dependencies f s none = refl
reactivate-dependencies f s (some ds) = refl

unfilter-dependencies :
    (f : Text) (s : Filters) (active : List Text)
    → (after s (
        by_length active (reactivate f s (get text_discrete f s.dependencies)) (
          some (
            remove_sourceset_filter_from_cache f
              (refresh_filtering (push_active f s)))))).dependencies
      ≡ s.dependencies
unfolding after remove_sourceset_filter_from_cache refresh_filtering push_active
unfilter-dependencies f s [] = reactivate-dependencies f s (get text_discrete f s.dependencies)
unfilter-dependencies f s (_ ∷ _) = refl

handle-dependencies :
    (is_button : Bool) (data_filter : Option Text) (s : Filters)
    → (after s (handle is_button data_filter s)).dependencies ≡ s.dependencies
unfolding after handle unfilter_sourceset filter_sourceset refresh_filtering
    add_sourceset_filter_to_cache
handle-dependencies true (some f) s =
    if_elim (λ r. (after s r).dependencies ≡ s.dependencies) (in_list f s.active_filters) _ _
      (λ _. refl) (λ _. unfilter-dependencies f s s.active_filters)
handle-dependencies true none s = refl
handle-dependencies false data_filter s = refl

handle-Chosen :
    (dependencies : List (Text × List Text)) (names : List Text) (is_button : Bool)
    (data_filter : Option Text) (s : Filters) (chosen : Choice)
    → Chosen s chosen
    → s.dependencies ≡ restrict names dependencies
    → Persisted names s
    → Chosen
        (after s (handle is_button data_filter s))
        (choose_if dependencies names is_button data_filter chosen)
unfolding after handle
handle-Chosen dependencies names true (some f) s chosen h e k =
    button-Chosen dependencies names f s chosen h e k
handle-Chosen dependencies names true none s chosen h e k = h
handle-Chosen dependencies names false data_filter s chosen h e k = h

events-Chosen :
    (dependencies : List (Text × List Text)) (names : List Text) (ts : List Target) (s : Filters)
    (chosen : Choice)
    → Chosen s chosen
    → s.dependencies ≡ restrict names dependencies
    → Persisted names s
    → All (OnPage names) ts
    → Chosen (clicks ts s) (choose dependencies names ts chosen)
unfolding clicks choose filter_button_handler
events-Chosen dependencies names [] s chosen h e k on = h
events-Chosen dependencies names (t ∷ ts) s chosen h e k on =
    events-Chosen dependencies names ts _ _
      (handle-Chosen dependencies names t.is_button t.data_filter s chosen h e k)
      (handle-dependencies t.is_button t.data_filter s ∙ e)
      (handle-Persisted names t.is_button t.data_filter s k on.0) on.1

-- The active filters after any clicks on the filter buttons of a page refine a choice of source
-- sets without an order: at first those with a button that are not stored as inactive; a click on
-- one that is chosen takes it out, one on another adds it, and when none is chosen also those with
-- a button that it depends on, unless it has no dependencies listed: then nothing changes.
pub clicks-choose :
    (dependencies : List (Text × List Text)) (cached : Option (List Text)) (p : Page)
    (ts : List Target) (q : Text)
    → All (OnPage (filters_of p.buttons)) ts
    → in_list q (clicks ts (initialize_filtering dependencies cached p)).active_filters
      ≡ choose dependencies (filters_of p.buttons) ts (enabled (filters_of p.buttons) cached) q
unfolding initialize_filtering refresh_filtering
clicks-choose dependencies cached p ts q on =
    events-Chosen dependencies (filters_of p.buttons) ts
      (initialize_filtering dependencies cached p) _ (in_list-initial (filters_of p.buttons) cached)
      refl (initialize-Persisted dependencies cached p) on q
