-- ===== src/Site/Filters/Persistence.antt =====
-- platform-content-handler.js: the local storage has what the active filters are, so that a reload
-- of the page restores them.
use arrow_resilience_kit.Base.{
  ◌≡◌, refl, sym, ap, ◌∙◌, Bool, true, false, Option, none, some, List, [], ◌∷◌, ◌++◌, arith,
  if◌then◌else◌, if_elim, get, All, Bool-cases, inl, inr,
}
use arrow_resilience_kit.Site.Text.{Text, text_discrete, in_list}
use arrow_resilience_kit.Site.Filters.{
  Page, Filters, Target, refresh_filtering, filters_of, initial_filters, initialize_filtering,
  is_none, add_sourceset_filter_to_cache, remove_sourceset_filter_from_cache, remove_all_from_cache,
  filter_sourceset, push_active, reactivate, by_length, unfilter_sourceset, handle,
  filter_button_handler,
}
use arrow_resilience_kit.Site.Filters.Sets.{
  enabled, in_list-none, in_list-initial, in_list-except, in_list-push, in_list-with_inactive,
  in_list-without_inactive, in_list-without_all, get-restrict,
}

-- `names` are the filters of the buttons.
pub record Persisted (names : List Text) (s : Filters) : Type 0 where
  agrees :
      (q : Text)
      → in_list q s.active_filters ≡ enabled s.restricted_dependencies s.inactive_filters q
  fixed : s.restricted_dependencies ≡ names
  alone : s.shared ≡ true → s.active_filters ≡ s.restricted_dependencies
  closed :
      (f q : Text) (ds : List Text)
      → get text_discrete f s.dependencies ≡ some ds
      → in_list q ds ≡ true
      → in_list q s.restricted_dependencies ≡ true

alone_initially :
    (restricted : List Text) (cached : Option (List Text))
    → is_none cached ≡ true
    → initial_filters restricted cached ≡ restricted
unfolding initial_filters
alone_initially restricted none h = refl
alone_initially restricted (some inactive) h = cc h

pub initialize-Persisted :
    (dependencies : List (Text × List Text)) (cached : Option (List Text)) (p : Page)
    → Persisted (filters_of p.buttons) (initialize_filtering dependencies cached p)
unfolding initialize_filtering refresh_filtering
initialize-Persisted dependencies cached p = record {
  agrees = in_list-initial (filters_of p.buttons) cached;
  fixed = refl;
  alone = alone_initially (filters_of p.buttons) cached;
  closed = λ f q ds. get-restrict (filters_of p.buttons) dependencies f q ds;
}

filter-Persisted :
    (names : List Text) (f : Text) (s : Filters)
    → Persisted names s
    → Persisted names (filter_sourceset f s)
unfolding filter_sourceset add_sourceset_filter_to_cache refresh_filtering enabled
filter-Persisted names f s h = record {
  agrees = λ q. ground (
    arith,
    h.agrees q,
    in_list-except q f s.active_filters,
    in_list-with_inactive q f s.inactive_filters,
  );
  fixed = h.fixed;
  alone = λ e. cc e;
  closed = h.closed;
}

-- Only a source set that has a button is active.
pub active-named :
    (names : List Text) (s : Filters) (q : Text)
    → Persisted names s
    → in_list q s.active_filters ≡ true
    → in_list q names ≡ true
unfolding enabled
active-named names s q h i = ground (arith, h.agrees q, ap (in_list q) h.fixed, i)

-- The state after a handler, which leaves it alone when it throws.
unfoldable pub after : Filters → Option Filters → Filters
after s none = s
after s (some s') = s'

-- The page `p` loaded again, with what the local storage has.
pub reload : List (Text × List Text) → Page → Filters → Filters
unfolding initialize_filtering
reload dependencies p s = initialize_filtering dependencies s.inactive_filters p

module _ (names : List Text) (f : Text) (s : Filters) (h : Persisted names s)
    (is_restricted : in_list f s.restricted_dependencies ≡ true) where
  unshared : in_list f s.active_filters ≡ false → s.shared ≡ false
  unshared out = elim (Bool-cases s.shared) [
    | inl e ↦ cc (out, ap (in_list f) (h.alone e), is_restricted)
    | inr e ↦ e
  ]

  pushed : List Text
  pushed = if s.shared then s.restricted_dependencies ++ f ∷ [] else s.restricted_dependencies

  pushed_same : in_list f s.active_filters ≡ false → pushed ≡ s.restricted_dependencies
  unfolding pushed
  pushed_same out =
      ap (λ b. if b then s.restricted_dependencies ++ f ∷ [] else s.restricted_dependencies)
        (unshared out)

  push-Persisted :
      in_list f s.active_filters ≡ false
      → Persisted names (remove_sourceset_filter_from_cache f (refresh_filtering (push_active f s)))
  unfolding remove_sourceset_filter_from_cache refresh_filtering push_active enabled pushed
  push-Persisted out = record {
    agrees = λ q. ground (
      arith,
      h.agrees q,
      is_restricted,
      ap (in_list q) (pushed_same out),
      in_list-push q f s.active_filters,
      in_list-without_inactive q f s.inactive_filters,
    );
    fixed = pushed_same out ∙ h.fixed;
    alone = λ e. cc (e, unshared out);
    closed = λ g q ds e i. ap (in_list q) (pushed_same out) ∙ h.closed g q ds e i;
  }

  reactivate-Persisted :
      (ds : List Text)
      → s.active_filters ≡ []
      → get text_discrete f s.dependencies ≡ some ds
      → Persisted names (
          remove_all_from_cache
            (ds ++ f ∷ [])
            (refresh_filtering (record s { active_filters = ds ++ f ∷ []; shared = false })))
  unfolding remove_all_from_cache refresh_filtering enabled
  reactivate-Persisted ds empty found = record {
    agrees = λ q. ground (
      arith,
      h.agrees q,
      is_restricted,
      ap (in_list q) empty,
      in_list-none q,
      h.closed f q ds found,
      in_list-push q f ds,
      in_list-without_all q (ds ++ f ∷ []) s.inactive_filters,
    );
    fixed = h.fixed;
    alone = λ e. cc e;
    closed = h.closed;
  }

  -- A handler that throws leaves the state as it was.
  reactivate-after :
      s.active_filters ≡ []
      → (found : Option (List Text)) → get text_discrete f s.dependencies ≡ found
      → Persisted names (after s (reactivate f s found))
  unfolding reactivate after
  reactivate-after empty none e = h
  reactivate-after empty (some ds) e = reactivate-Persisted ds empty e

  unfilter-after :
      in_list f s.active_filters ≡ false
      → (active : List Text) → s.active_filters ≡ active
      → Persisted names (
          after s (
            by_length active
              (reactivate f s (get text_discrete f s.dependencies))
              (some (remove_sourceset_filter_from_cache f (refresh_filtering (push_active f s))))))
  unfolding after
  unfilter-after out [] e = reactivate-after e (get text_discrete f s.dependencies) refl
  unfilter-after out (_ ∷ _) e = push-Persisted out

  handle-button : Persisted names (
      after s (
        if in_list f s.active_filters then some (filter_sourceset f s) else unfilter_sourceset f s))
  unfolding after unfilter_sourceset
  handle-button =
      if_elim (λ r. Persisted names (after s r)) (in_list f s.active_filters) _ _
        (λ _. filter-Persisted names f s h) (λ out. unfilter-after out s.active_filters refl)

-- A click on one of the buttons, or beside them.
abbrev pub OnPage : List Text → Target → Type 0
OnPage names target = (f : Text) → target.data_filter ≡ some f → in_list f names ≡ true

pub handle-Persisted :
    (names : List Text) (is_button : Bool) (data_filter : Option Text) (s : Filters)
    → Persisted names s
    → ((f : Text) → data_filter ≡ some f → in_list f names ≡ true)
    → Persisted names (after s (handle is_button data_filter s))
unfolding handle after
handle-Persisted names true (some f) s h on =
    handle-button names f s h (ap (in_list f) h.fixed ∙ on f refl)
handle-Persisted names true none s h on = h
handle-Persisted names false f s h on = h

-- The clicks one after the other.
unfoldable pub clicks : List Target → Filters → Filters
clicks [] s = s
clicks (t ∷ ts) s = clicks ts (after s (filter_button_handler t s))

clicks-Persisted :
    (names : List Text) (ts : List Target) (s : Filters)
    → Persisted names s
    → All (OnPage names) ts
    → Persisted names (clicks ts s)
unfolding clicks filter_button_handler
clicks-Persisted names [] s h on = h
clicks-Persisted names (t ∷ ts) s h on =
    clicks-Persisted names ts _ (handle-Persisted names t.is_button t.data_filter s h on.0) on.1

-- Whatever the local storage has at the start, after any clicks on the filter buttons of a page,
-- some of which may throw, a reload makes the same source sets active: those that have a button and
-- are not among the stored inactive ones.
pub reload-restores :
    (dependencies : List (Text × List Text)) (cached : Option (List Text)) (p : Page)
    (ts : List Target) (q : Text)
    → All (OnPage (filters_of p.buttons)) ts
    → in_list q
        (reload dependencies p
          (clicks ts (initialize_filtering dependencies cached p))).active_filters
      ≡ in_list q (clicks ts (initialize_filtering dependencies cached p)).active_filters
unfolding reload
reload-restores dependencies cached p ts q on =
    let s = clicks ts (initialize_filtering dependencies cached p) in
    let h =
      clicks-Persisted (filters_of p.buttons) ts _ (initialize-Persisted dependencies cached p)
        on in
    in_list-initial (filters_of p.buttons) s.inactive_filters q
    ∙ ap (λ names. enabled names s.inactive_filters q) (sym h.fixed)
    ∙ sym (h.agrees q)
