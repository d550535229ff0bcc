-- ===== src/Site/Tabs/Restored.antt =====
-- platform-content-handler.js, lines 179-200: a reload of a page shows the tab chosen last.
use arrow_resilience_kit.Base.{
  ℕ, zero, suc, ◌≡◌, refl, sym, ap, ◌∙◌, Bool, true, false, Option, none, some, List, [], ◌∷◌, map,
  arith, if◌then◌else◌, length, All, if_elim, ◌&&◌,
}
use arrow_resilience_kit.Site.Text.{Text, comma, split}
use arrow_resilience_kit.Site.Tabs.{
  Tab, Tabs, activate_tab, toggle_sections, toggle_sections_event_handler, click, active_button,
  toggle_found, toggle_button, show_corresponding_tab_body, section_at, and_then, init_sections,
  has_tab, in_sections, restore_tab, init_tabs,
}
use arrow_resilience_kit.Site.Tabs.Repeated.{plain, sections_again, plain_again, click-once}

has_tab-activate : (v w : Text) (ts : List Tab) → has_tab v (map (activate_tab w) ts) ≡ has_tab v ts
unfolding has_tab activate_tab
has_tab-activate v w [] = refl
has_tab-activate v w (t ∷ ts) = ground (arith, has_tab-activate v w ts)

in_sections-activate :
    (v w : Text) (ss : List (List Tab))
    → in_sections v (map (map (activate_tab w)) ss) ≡ in_sections v ss
unfolding in_sections
in_sections-activate v w [] = refl
in_sections-activate v w (s ∷ ss) =
    ground (arith, has_tab-activate v w s, in_sections-activate v w ss)

abbrev is_tagged : Option Text → Bool
is_tagged none = false
is_tagged (some _) = true

-- Every child of a section has the attribute.
unfoldable pub AllTagged : List Tab → Type 0
AllTagged = All (λ t. is_tagged t.togglable ≡ true)

tagged_tabs : (w : Text) (ts : List Tab) → AllTagged ts → AllTagged (map (activate_tab w) ts)
unfolding AllTagged activate_tab
tagged_tabs w [] h = tt
tagged_tabs w (t ∷ ts) h = (h.0, tagged_tabs w ts h.1)

tagged_sections :
    (w : Text) (ss : List (List Tab))
    → All AllTagged ss
    → All AllTagged (map (map (activate_tab w)) ss)
tagged_sections w [] h = tt
tagged_sections w (s ∷ ss) h = (tagged_tabs w s h.0, tagged_sections w ss h.1)

-- `q` is the page `p` with other tabs active.
record Turned (p q : Tabs) : Type 0 where
  same_sections : (v : Text) → (toggle_sections v q).sections ≡ (toggle_sections v p).sections
  same_bodies : (v : Text) → plain (toggle_sections v q).bodies ≡ plain (toggle_sections v p).bodies
  same_tabs : (v : Text) → in_sections v q.sections ≡ in_sections v p.sections
  tagged : All AllTagged q.sections

toggle-Turned : (p q : Tabs) (w : Text) → Turned p q → Turned p (toggle_sections w q)
unfolding toggle_sections
toggle-Turned p q w h = record {
  same_sections = λ v. sections_again v w q.sections ∙ h.same_sections v;
  same_bodies = λ v. plain_again (split comma v) (split comma w) q.bodies ∙ h.same_bodies v;
  same_tabs = λ v. in_sections-activate v w q.sections ∙ h.same_tabs v;
  tagged = tagged_sections w q.sections h.tagged;
}

-- The entry of the local storage plays no part.
cached-Turned :
    (p q : Tabs) (cached : Option Text) → Turned p q → Turned p (record q { active_tab = cached })
unfolding toggle_sections
cached-Turned p q cached h = record {
  same_sections = h.same_sections;
  same_bodies = h.same_bodies;
  same_tabs = h.same_tabs;
  tagged = h.tagged;
}

handler-Turned :
    (p q : Tabs) (target : Option Text)
    → Turned p q
    → Turned p (toggle_sections_event_handler target q)
unfolding toggle_sections_event_handler
handler-Turned p q none h = h
handler-Turned p q (some []) h = h
handler-Turned p q (some (c ∷ cs)) h =
    toggle-Turned p _ (c ∷ cs) (cached-Turned p q (some (c ∷ cs)) h)

-- The clicks one after the other.
unfoldable pub clicks : List (Option Text) → Tabs → Tabs
unfolding click
clicks [] p = p
clicks (t ∷ ts) p = clicks ts (click t p)

clicks-Turned :
    (p : Tabs) (ts : List (Option Text)) (q : Tabs) → Turned p q → Turned p (clicks ts q)
unfolding clicks click
clicks-Turned p [] q h = h
clicks-Turned p (t ∷ ts) q h = clicks-Turned p ts _ (handler-Turned p _ t (handler-Turned p q t h))

-- The page that a step gives instead of throwing.
Steps : Tabs → Option Tabs → Type 0
Steps p found = (q : Tabs) × (found ≡ some q) × Turned p q

found_tagged :
    (p q : Tabs) (togglable : Option Text)
    → is_tagged togglable ≡ true
    → Turned p q
    → Steps p (toggle_found togglable q)
unfolding Steps
found_tagged p q none h k = cc h
found_tagged p q (some target) h k = (toggle_sections target q, refl, toggle-Turned p q target k)

show_tagged :
    (p q : Tabs) (ts : List Tab)
    → AllTagged ts
    → Turned p q
    → Steps p (toggle_button (active_button ts) q)
unfolding Steps active_button AllTagged
show_tagged p q [] all h = (q, refl, h)
show_tagged p q (t ∷ ts) all h =
    if_elim (λ b. Steps p (toggle_button b q)) (t.is_button && t.active) _ _
      (λ _. found_tagged p q t.togglable all.0 h) (λ _. show_tagged p q ts all.1 h)

section_at-AllTagged :
    (i : ℕ) (ss : List (List Tab)) → All AllTagged ss → AllTagged (section_at i ss)
unfolding section_at AllTagged
section_at-AllTagged i [] h = tt
section_at-AllTagged zero (s ∷ ss) h = h.0
section_at-AllTagged (suc i) (s ∷ ss) h = section_at-AllTagged i ss h.1

init-Steps : (p : Tabs) (n i : ℕ) (q : Tabs) → Turned p q → Steps p (init_sections n i q)
unfolding init_sections Steps show_corresponding_tab_body
init-Steps p zero i q h = (q, refl, h)
init-Steps p (suc n) i q h =
    let (r, e, k) =
      show_tagged p q (section_at i q.sections) (section_at-AllTagged i q.sections h.tagged) h in
    let (r', e', k') = init-Steps p n (suc i) r k in
    (r', ap (λ o. and_then o (init_sections n (suc i))) e ∙ e', k')

restore-Steps : (p q : Tabs) (cached : Option Text) → Turned p q → Steps p (restore_tab cached q)
unfolding Steps
restore-Steps p q none h = (q, refl, h)
restore-Steps p q (some parsed) h =
    if_elim (λ o. Steps p o) (in_sections parsed q.sections) _ _
      (λ _. (toggle_sections parsed q, refl, toggle-Turned p q parsed h)) (λ _. (q, refl, h))

init_tabs-Steps : (p q : Tabs) → Turned p q → Steps p (init_tabs q)
unfolding init_tabs Steps
init_tabs-Steps p q h =
    let (r, e, k) = init-Steps p (length q.sections) zero q h in
    let (r', e', k') = restore-Steps p r q.active_tab k in
    (r', ap (λ o. and_then o (restore_tab q.active_tab)) e ∙ e', k')

self-Turned : (p : Tabs) → All AllTagged p.sections → Turned p p
self-Turned p tagged = record {
  same_sections = λ v. refl;
  same_bodies = λ v. refl;
  same_tabs = λ v. refl;
  tagged = tagged;
}

pub init_tabs-returns : (p : Tabs) → All AllTagged p.sections → (q : Tabs) × (init_tabs p ≡ some q)
unfolding Steps
init_tabs-returns p tagged = let (q, e, h) = init_tabs-Steps p p (self-Turned p tagged) in (q, e)

-- The page loaded with a tab of it in the local storage has this tab chosen.
init_tabs-cached :
    (p : Tabs) (v : Text)
    → All AllTagged p.sections
    → in_sections v p.sections ≡ true
    → (r : Tabs) × (init_tabs (record p { active_tab = some v }) ≡ some (toggle_sections v r))
      × Turned p r
unfolding init_tabs Steps
init_tabs-cached p v tagged is_tab =
    let (r, e, k) =
      init-Steps p (length p.sections) zero (record p { active_tab = some v })
        (cached-Turned p p (some v) (self-Turned p tagged)) in
    (
      r,
      ap (λ o. and_then o (restore_tab (some v))) e
          ∙ ap (λ b. if b then some (toggle_sections v r) else some r) (k.same_tabs v ∙ is_tab),
      k,
    )

click-active_tab :
    (c : ℕ) (cs : Text) (p : Tabs) → (click (some (c ∷ cs)) p).active_tab ≡ some (c ∷ cs)
unfolding click toggle_sections_event_handler toggle_sections
click-active_tab c cs p = refl

click-sections :
    (p q : Tabs) (c : ℕ) (cs : Text)
    → Turned p q
    → (click (some (c ∷ cs)) q).sections ≡ (toggle_sections (c ∷ cs) p).sections
unfolding toggle_sections_event_handler toggle_sections
click-sections p q c cs h =
    ap (λ o. o.sections) (click-once (some (c ∷ cs)) q) ∙ h.same_sections (c ∷ cs)

click-bodies :
    (p q : Tabs) (c : ℕ) (cs : Text)
    → Turned p q
    → plain (click (some (c ∷ cs)) q).bodies ≡ plain (toggle_sections (c ∷ cs) p).bodies
unfolding toggle_sections_event_handler toggle_sections
click-bodies p q c cs h =
    ap (λ o. plain o.bodies) (click-once (some (c ∷ cs)) q) ∙ h.same_bodies (c ∷ cs)

-- On a page whose tabs all have the attribute `data-togglable`, after any clicks and then one on a
-- tab of the page, a reload does not throw, and it makes active the same tabs and the same bodies,
-- those of a source set aside.
pub init_tabs-restores :
    (p : Tabs) (ts : List (Option Text)) (c : ℕ) (cs : Text)
    → All AllTagged p.sections
    → in_sections (c ∷ cs) p.sections ≡ true
    → (s r : Tabs) × (init_tabs p ≡ some s)
      × (init_tabs (record p { active_tab = (click (some (c ∷ cs)) (clicks ts s)).active_tab })
          ≡ some r)
      × (r.sections ≡ (click (some (c ∷ cs)) (clicks ts s)).sections)
      × (plain r.bodies ≡ plain (click (some (c ∷ cs)) (clicks ts s)).bodies)
unfolding Steps
init_tabs-restores p ts c cs tagged is_tab =
    let (s, e, h) = init_tabs-Steps p p (self-Turned p tagged) in
    let k = clicks-Turned p ts s h in
    let (r, e', h') = init_tabs-cached p (c ∷ cs) tagged is_tab in
    (
      s,
      toggle_sections (c ∷ cs) r,
      e,
      ap (λ cached. init_tabs (record p { active_tab = cached }))
            (click-active_tab c cs (clicks ts s))
          ∙ e',
      h'.same_sections (c ∷ cs) ∙ sym (click-sections p (clicks ts s) c cs k),
      h'.same_bodies (c ∷ cs) ∙ sym (click-bodies p (clicks ts s) c cs k),
    )
