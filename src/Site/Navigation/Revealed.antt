-- ===== src/Site/Navigation/Revealed.antt =====
-- navigation-loader.js, lines 35-58: the loop ends, and the menu shows the part of the page with
-- those around it.
use arrow_resilience_kit.Base.{
  ℕ, zero, suc, ◌<◌, ◌≡◌, refl, sym, ap, subst, ◌∙◌, Bool, true, false, not, ◌&&◌, ◌||◌, Option,
  none, some, List, [], ◌∷◌, ◌++◌, map, ◌==◌, if◌then◌else◌, length, arith, All,
}
use arrow_resilience_kit.Site.Text.{Text, slash}
use arrow_resilience_kit.Site.Navigation.{
  Part, SideMenu, contains, cut_at, before_slash, or_empty, truncate, update, unhide,
  reveal_parents, select, reveal, visit_if, visit_all, has_slash, reveal_loop,
  reveal_navigation_for_current_page, scroll_navigation_to_selected_element, hide, with_scroll,
  display_navigation_from_page, starts_with,
}

-- The first part whose id contains a text.
unfoldable pub first_match : Text → List Part → Option Part
first_match c [] = none
first_match c (p ∷ ps) = if contains c p.page_id then some p else first_match c ps

-- The part of the page: the first that matches its id, or its id less the last segment, and so on
-- while a slash is left.
pub data Search (parts : List Part) : Text → Option Part → Type 0 where
  here : {c : Text} {p : Part} → first_match c parts ≡ some p → Search parts c (some p)
  shorter :
      {c : Text} {r : Option Part}
      → first_match c parts ≡ none
      → has_slash (truncate c) ≡ true
      → Search parts (truncate c) r
      → Search parts c r
  nowhere :
      {c : Text} → first_match c parts ≡ none → has_slash (truncate c) ≡ false → Search parts c none

unfoldable pub among : ℕ → List ℕ → Bool
among e [] = false
among e (x ∷ xs) = e == x || among e xs

-- The parts when `r` is the part of the page: it and those around it are visible, and only it is
-- active.
unfoldable pub shown_part : Option Part → Part → Part
shown_part none p = record p { hidden = true; active = false }
shown_part (some r) p = record p {
  hidden = not (p.element == r.element || among p.element r.ancestors);
  active = p.element == r.element;
}

or_empty-cut : (b : Bool) → length (or_empty (if b then some [] else none)) ≡ zero
or_empty-cut true = refl
or_empty-cut false = refl

cut_at-length :
    (x : ℕ) (s t : Text) (found : Option Text)
    → ((u : Text) → found ≡ some u → length u < length s)
    → cut_at x found ≡ some t
    → length t < suc (length s)
cut_at-length x s t (some u) h e = omega (arith, h u refl, ap (λ o. length (or_empty o)) e)
cut_at-length x s t none h e =
    omega (arith, or_empty-cut (x == slash), ap (λ o. length (or_empty o)) e)

before_slash-length : (s t : Text) → before_slash s ≡ some t → length t < length s
unfolding before_slash
before_slash-length [] t h = cc h
before_slash-length (x ∷ s) t h =
    cut_at-length x s t (before_slash s) (λ u. before_slash-length s u) h

or_empty-length :
    (s : Text) (found : Option Text)
    → ((u : Text) → found ≡ some u → length u < length s)
    → has_slash (or_empty found) ≡ true
    → length (or_empty found) < length s
unfolding contains starts_with
or_empty-length s none h e = cc e
or_empty-length s (some u) h e = h u refl

truncate-length : (s : Text) → has_slash (truncate s) ≡ true → length (truncate s) < length s
unfolding truncate
truncate-length s = or_empty-length s (before_slash s) (before_slash-length s)

visit_if-found :
    (matches : Bool) (p : Part) (ps : List Part) → visit_if matches p (true, ps) ≡ (true, ps)
visit_if-found true p ps = refl
visit_if-found false p ps = refl

visit_all-found : (c : Text) (parts ps : List Part) → visit_all c parts (true, ps) ≡ (true, ps)
unfolding visit_all
visit_all-found c [] ps = refl
visit_all-found c (p ∷ parts) ps =
    ap (visit_all c parts) (visit_if-found (contains c p.page_id) p ps) ∙ visit_all-found c parts ps

abbrev found_state : Option Part → List Part → Bool × List Part
found_state none ps = (false, ps)
found_state (some p) ps = (true, reveal p ps)

visit_if-first :
    (matches : Bool) (c : Text) (p : Part) (parts ps : List Part)
    → visit_all c parts (false, ps) ≡ found_state (first_match c parts) ps
    → visit_all c parts (visit_if matches p (false, ps))
      ≡ found_state (if matches then some p else first_match c parts) ps
visit_if-first true c p parts ps h = visit_all-found c parts (reveal p ps)
visit_if-first false c p parts ps h = h

visit_all-first_match :
    (c : Text) (parts ps : List Part)
    → visit_all c parts (false, ps) ≡ found_state (first_match c parts) ps
unfolding visit_all first_match
visit_all-first_match c [] ps = refl
visit_all-first_match c (p ∷ parts) ps =
    visit_if-first (contains c p.page_id) c p parts ps (visit_all-first_match c parts ps)

-- What a run of the loop gives on enough fuel.
Finds : List Part → Text → List Part → Option (Bool × List Part) → Type 0
Finds parts c ps result = (r : Option Part) × Search parts c r × (result ≡ some (found_state r ps))

loop_step :
    (parts : List Part) (c : Text) (ps : List Part) (first : Option Part) (slashed : Bool)
    (rest : Option Part → Option (Bool × List Part))
    → first_match c parts ≡ first
    → has_slash (truncate c) ≡ slashed
    → (slashed ≡ true → Finds parts (truncate c) ps (rest none))
    → Finds parts c ps (
        if slashed && not (found_state first ps).0 then rest first else some (found_state first ps))
unfolding Finds
loop_step parts c ps (some p) true rest e k h = (some p, here e, refl)
loop_step parts c ps (some p) false rest e k h = (some p, here e, refl)
loop_step parts c ps none true rest e k h =
    let (r, found, eq) = h refl in (r, shorter e k found, eq)
loop_step parts c ps none false rest e k h = (none, nowhere e k, refl)

reveal_loop-Finds :
    (fuel : ℕ) (c : Text) (parts ps : List Part)
    → length c < fuel
    → Finds parts c ps (reveal_loop fuel c parts (false, ps))
unfolding reveal_loop
reveal_loop-Finds zero c parts ps h = absurd (ground (arith, h))
reveal_loop-Finds (suc fuel) c parts ps h =
    subst
      (λ st. Finds parts c ps (
        if has_slash (truncate c) && not st.0
        then reveal_loop fuel (truncate c) parts st
        else some st))
      (sym (visit_all-first_match c parts ps))
      (loop_step parts c ps (first_match c parts) (has_slash (truncate c))
        (λ first. reveal_loop fuel (truncate c) parts (found_state first ps)) refl refl
        (λ k. reveal_loop-Finds fuel (truncate c) parts ps (omega (arith, truncate-length c k, h))))

-- What `reveal_parents` does to one part.
unhidden : List ℕ → Part → Part
unhidden es p = record p { hidden = p.hidden && not (among p.element es) }

reveal_parents-update :
    (e : ℕ) (es : List ℕ) (ps : List Part)
    → map (unhidden es) (update e unhide ps) ≡ map (unhidden (e ∷ es)) ps
unfolding unhidden among update
reveal_parents-update e es [] = refl
reveal_parents-update e es (p ∷ ps) = ground (arith, reveal_parents-update e es ps)

unhidden-none : (ps : List Part) → map (unhidden []) ps ≡ ps
unfolding unhidden among
unhidden-none [] = refl
unhidden-none (p ∷ ps) = ground (arith, unhidden-none ps)

reveal_parents-map : (es : List ℕ) (ps : List Part) → reveal_parents es ps ≡ map (unhidden es) ps
unfolding reveal_parents
reveal_parents-map [] ps = sym (unhidden-none ps)
reveal_parents-map (e ∷ es) ps =
    reveal_parents-map es (update e unhide ps) ∙ reveal_parents-update e es ps

-- A part that is hidden and not active, as all are before the loop.
select-hide :
    (r : Part) (ps : List Part)
    → All (λ p. p.active ≡ false) ps
    → map (unhidden (r.element ∷ r.ancestors)) (update r.element select (map hide ps))
      ≡ map (shown_part (some r)) ps
unfolding unhidden among update select hide shown_part
select-hide r [] h = refl
select-hide r (p ∷ ps) h = ground (arith, h.0, select-hide r ps h.1)

hide-none :
    (ps : List Part) → All (λ p. p.active ≡ false) ps → map hide ps ≡ map (shown_part none) ps
unfolding hide shown_part
hide-none [] h = refl
hide-none (p ∷ ps) h = ground (arith, h.0, hide-none ps h.1)

found_state-shown :
    (r : Option Part) (ps : List Part)
    → All (λ p. p.active ≡ false) ps
    → (found_state r (map hide ps)).1 ≡ map (shown_part r) ps
unfolding reveal
found_state-shown none ps h = hide-none ps h
found_state-shown (some r) ps h =
    reveal_parents-map (r.element ∷ r.ancestors) (update r.element select (map hide ps))
    ∙ select-hide r ps h

-- When no part of navigation.html is active, the loop ends, and the menu is displayed with the path
-- to the root before each link, all parts hidden but the part of the page and those around it, only
-- the part of the page active, and scrolled to it. The part of the page is the first whose id
-- contains that of the page, or this id less its last segments, the fewest possible, as long as a
-- slash is left.
pub display_navigation-reveals :
    (path_to_root page_id : Text) (menu : SideMenu)
    → All (λ p. p.active ≡ false) menu.parts
    → (r : Option Part) × Search (map hide menu.parts) page_id r
      × (display_navigation_from_page path_to_root page_id menu
          ≡ some (
            record {
              links = map (λ href. path_to_root ++ href) menu.links;
              parts = map (shown_part r) menu.parts;
            },
            scroll_navigation_to_selected_element (map (shown_part r) menu.parts),
          ))
unfolding display_navigation_from_page reveal_navigation_for_current_page Finds
display_navigation-reveals path_to_root page_id menu h =
    let links = map (λ href. path_to_root ++ href) menu.links in
    let ps = map hide menu.parts in
    let (r, found, e) = reveal_loop-Finds (suc (length page_id)) page_id ps ps (omega arith) in
    (
      r,
      found,
      ap (with_scroll links) e
          ∙ ap
              (λ shown. some (
                record { links = links; parts = shown },
                scroll_navigation_to_selected_element shown,
              ))
              (found_state-shown r menu.parts h),
    )
