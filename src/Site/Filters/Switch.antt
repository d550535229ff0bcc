-- ===== src/Site/Filters/Switch.antt =====
-- platform-content-handler.js, lines 202-249: a choice of source sets, without an order, on which a
-- click on a filter is a switch.
use mathlib.Core.Logic.{ite, if_neg}
use arrow_resilience_kit.Base.{
  ◌≡◌, refl, sym, ap, ◌∙◌, Bool, true, false, not, ◌&&◌, ◌||◌, Option, none, some, List, [], ◌∷◌,
  arith, if◌then◌else◌, keep, has, get,
}
use arrow_resilience_kit.Site.Text.{Text, text_discrete, in_list}
use arrow_resilience_kit.Site.Filters.{Target, restrict}

abbrev pub Choice : Type 0
Choice = Text → Bool

abbrev pub is_same : Text → Text → Bool
is_same p q = ite (text_discrete p q) true false

-- Whether one of these is chosen.
unfoldable pub any_of : Choice → List Text → Bool
any_of chosen [] = false
any_of chosen (n ∷ names) = chosen n || any_of chosen names

-- The choice when nothing was chosen: the source set and those that it depends on, if it is listed.
abbrev pub with_dependencies : List Text → Text → Choice → Option (List Text) → Choice
with_dependencies names f chosen none q = chosen q
with_dependencies names f chosen (some ds) q = in_list q ds && in_list q names || is_same f q

module _ (dependencies : List (Text × List Text)) (names : List Text) where
  unfoldable pub switch : Text → Choice → Choice
  unfolding any_of
  switch f chosen q =
      if chosen f
      then chosen q && not (is_same f q)
      else if any_of chosen names
      then chosen q || is_same f q
      else with_dependencies names f chosen (get text_discrete f dependencies) q

  abbrev pub choose_if : Bool → Option Text → Choice → Choice
  choose_if true (some f) chosen = switch f chosen
  choose_if true none chosen = chosen
  choose_if false data_filter chosen = chosen

  -- The choice after clicks.
  unfoldable pub choose : List Target → Choice → Choice
  unfolding switch
  choose [] chosen = chosen
  choose (t ∷ ts) chosen = choose ts (choose_if t.is_button t.data_filter chosen)

abbrev pub kept : List Text → Option (List Text) → Option (List Text)
kept names none = none
kept names (some ds) = some (keep (λ q. in_list q names) ds)

pub any_of-none :
    (chosen : Choice) (names : List Text)
    → ((q : Text) → chosen q ≡ false)
    → any_of chosen names ≡ false
unfolding any_of
any_of-none chosen [] h = refl
any_of-none chosen (n ∷ names) h = ground (arith, h n, any_of-none chosen names h)

pub any_of-member :
    (chosen : Choice) (names : List Text) (q : Text)
    → in_list q names ≡ true
    → chosen q ≡ true
    → any_of chosen names ≡ true
unfolding any_of has
any_of-member chosen [] q i h = cc i
any_of-member chosen (n ∷ names) q i h = elim (text_discrete n q) [
  | yes e ↦ ground (arith, ap chosen e, h)
  | no k ↦
      ground (arith, any_of-member chosen names q (sym (if_neg (text_discrete n q) k _ _) ∙ i) h)
]

pub in_list-head : (q : Text) (qs : List Text) → in_list q (q ∷ qs) ≡ true
unfolding has
in_list-head q qs = ground arith

pub get-restricted :
    (names : List Text) (m : List (Text × List Text)) (f : Text)
    → get text_discrete f (restrict names m) ≡ kept names (get text_discrete f m)
unfolding restrict get
get-restricted names [] f = refl
get-restricted names ((p, ds) ∷ m) f = ground (arith, get-restricted names m f)

pub is_other : (f q : Text) → ite (text_discrete q f) false true ≡ not (is_same f q)
is_other f q = ground arith
