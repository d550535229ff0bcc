-- ===== src/Site/Filters/Sets.antt =====
-- platform-content-handler.js: the lists of the filters as sets, and what the local storage keeps.
use mathlib.Core.Logic.{ite}
use arrow_resilience_kit.Base.{
  ◌≡◌, refl, ap, ◌∙◌, Bool, true, false, not, ◌&&◌, ◌||◌, Option, none, some, List, [], ◌∷◌, ◌++◌,
  map, arith, has, get, has-append, has-keep, has-one,
}
use arrow_resilience_kit.Site.Text.{Text, text_discrete, in_list}
use arrow_resilience_kit.Site.Filters.{
  FilterButton, except, refresh_button, filters_of, restrict, initial_filters, with_inactive,
  without_inactive, without_all,
}

abbrev pub inactive_of : Option (List Text) → List Text
inactive_of none = []
inactive_of (some inactive) = inactive

-- What a reload makes active: what has a button and is not stored as inactive.
unfoldable pub enabled : List Text → Option (List Text) → Text → Bool
enabled restricted cached q = in_list q restricted && not (in_list q (inactive_of cached))

pub in_list-none : (q : Text) → in_list q [] ≡ false
unfolding has
in_list-none q = refl

pub in_list-initial :
    (restricted : List Text) (cached : Option (List Text)) (q : Text)
    → in_list q (initial_filters restricted cached) ≡ enabled restricted cached q
unfolding initial_filters enabled
in_list-initial restricted none q = ground (arith, in_list-none q)
in_list-initial restricted (some inactive) q =
    has-keep text_discrete (λ p. not (in_list p inactive)) q restricted

pub in_list-except :
    (q f : Text) (xs : List Text)
    → in_list q (except f xs) ≡ (in_list q xs && ite (text_discrete q f) false true)
unfolding except
in_list-except q f xs = has-keep text_discrete (λ p. ite (text_discrete p f) false true) q xs

pub in_list-push :
    (q f : Text) (xs : List Text)
    → in_list q (xs ++ f ∷ []) ≡ (in_list q xs || ite (text_discrete f q) true false)
in_list-push q f xs =
    has-append text_discrete q xs (f ∷ []) ∙ ap (λ b. in_list q xs || b) (has-one text_discrete q f)

pub in_list-with_inactive :
    (q f : Text) (cached : Option (List Text))
    → in_list q (with_inactive cached f)
      ≡ (in_list q (inactive_of cached) || ite (text_discrete f q) true false)
in_list-with_inactive q f none = ground (arith, in_list-none q, has-one text_discrete q f)
in_list-with_inactive q f (some parsed) = in_list-push q f parsed

pub in_list-without_inactive :
    (q f : Text) (cached : Option (List Text))
    → in_list q (inactive_of (without_inactive cached f))
      ≡ (in_list q (inactive_of cached) && ite (text_discrete q f) false true)
in_list-without_inactive q f none = ground (arith, in_list-none q)
in_list-without_inactive q f (some parsed) = in_list-except q f parsed

pub filters_of-refresh :
    (active : List Text) (bs : List FilterButton)
    → filters_of (map (refresh_button active) bs) ≡ filters_of bs
unfolding filters_of refresh_button
filters_of-refresh active [] = refl
filters_of-refresh active (b ∷ bs) = ap (◌∷◌ b.filter) (filters_of-refresh active bs)

-- The dependencies that are kept all have a button.
pub get-restrict :
    (restricted : List Text) (m : List (Text × List Text)) (f q : Text) (ds : List Text)
    → get text_discrete f (restrict restricted m) ≡ some ds
    → in_list q ds ≡ true
    → in_list q restricted ≡ true
unfolding restrict get
get-restrict restricted [] f q ds h i = cc h
get-restrict restricted ((p, ps) ∷ m) f q ds h i = ground (
  arith,
  has-keep text_discrete (λ (r : Text). in_list r restricted) q ps,
  get-restrict restricted m f q ds,
)

pub in_list-without_all :
    (q : Text) (ps : List Text) (cached : Option (List Text))
    → in_list q (inactive_of (without_all ps cached))
      ≡ (in_list q (inactive_of cached) && not (in_list q ps))
unfolding without_all has
in_list-without_all q [] cached = ground arith
in_list-without_all q (p ∷ ps) cached = ground (
  arith,
  in_list-without_all q ps (without_inactive cached p),
  in_list-without_inactive q p cached,
)
