-- ===== src/Site/Tabs/Repeated.antt =====
-- platform-content-handler.js, lines 269-300: toggling the tabs again forgets what was toggled
-- before, and the two listeners of a section act as one.
use arrow_resilience_kit.Base.{
  ◌≡◌, refl, ap, false, Option, none, some, List, [], ◌∷◌, map, arith, if◌then◌else◌,
}
use arrow_resilience_kit.Site.Text.{Text, comma, split}
use arrow_resilience_kit.Site.Tabs.{
  Tab, Body, Tabs, activate_tab, activate_body, toggle_sections, toggle_sections_event_handler,
  click,
}

-- The bodies that belong to no source set.
unfoldable pub plain : List Body → List Body
plain [] = []
plain (b ∷ bs) = if b.is_sourceset_dependent then plain bs else b ∷ plain bs

tabs_again :
    (v w : Text) (ts : List Tab)
    → map (activate_tab v) (map (activate_tab w) ts) ≡ map (activate_tab v) ts
unfolding activate_tab
tabs_again v w [] = refl
tabs_again v w (t ∷ ts) = ap (◌∷◌ (activate_tab v t)) (tabs_again v w ts)

pub sections_again :
    (v w : Text) (ss : List (List Tab))
    → map (map (activate_tab v)) (map (map (activate_tab w)) ss) ≡ map (map (activate_tab v)) ss
sections_again v w [] = refl
sections_again v w (s ∷ ss) = λ i. tabs_again v w s i ∷ sections_again v w ss i

body_again :
    (xs : List Text) (b : Body) → activate_body xs (activate_body xs b) ≡ activate_body xs b
unfolding activate_body
body_again xs b = ground arith

pub bodies_again :
    (xs : List Text) (bs : List Body)
    → map (activate_body xs) (map (activate_body xs) bs) ≡ map (activate_body xs) bs
bodies_again xs [] = refl
bodies_again xs (b ∷ bs) = λ i. body_again xs b i ∷ bodies_again xs bs i

plain_body :
    (xs ys : List Text) (b : Body)
    → b.is_sourceset_dependent ≡ false
    → activate_body xs (activate_body ys b) ≡ activate_body xs b
unfolding activate_body
plain_body xs ys b h = ground (arith, h)

kept_dependent :
    (xs : List Text) (b : Body)
    → (activate_body xs b).is_sourceset_dependent ≡ b.is_sourceset_dependent
unfolding activate_body
kept_dependent xs b = ground arith

pub plain_again :
    (xs ys : List Text) (bs : List Body)
    → plain (map (activate_body xs) (map (activate_body ys) bs)) ≡ plain (map (activate_body xs) bs)
unfolding plain
plain_again xs ys [] = refl
plain_again xs ys (b ∷ bs) = ground (
  arith,
  kept_dependent xs b,
  kept_dependent ys b,
  kept_dependent xs (activate_body ys b),
  plain_body xs ys b,
  plain_again xs ys bs,
)

-- The listeners that `load` and `initTabs` both add to a section do what one of them does.
pub click-once :
    (target : Option Text) (p : Tabs) → click target p ≡ toggle_sections_event_handler target p
unfolding click toggle_sections_event_handler toggle_sections
click-once none p = refl
click-once (some []) p = refl
click-once (some (c ∷ cs)) p = λ i. record {
  sections = sections_again (c ∷ cs) (c ∷ cs) p.sections i;
  bodies = bodies_again (split comma (c ∷ cs)) p.bodies i;
  active_tab = some (c ∷ cs);
}
