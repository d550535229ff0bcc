-- ===== src/Site/Clipboard/Timers.antt =====
-- clipboard.js, lines 40-53: the popups that are shown and the timers that take them away.
use arrow_resilience_kit.Base.{
  ℕ, ◌≡◌, ap, Bool, true, false, not, ◌||◌, Option, none, some, List, [], ◌∷◌, ◌++◌, ◌==◌, if_elim,
  All, arith,
}
use arrow_resilience_kit.Site.Clipboard.{Icon, among, add_class, remove_class}

abbrev pub is_sibling : ℕ → Option ℕ → Bool
is_sibling s none = false
is_sibling s (some s') = s == s'

-- Whether a timer runs that takes the popup away.
unfoldable pub waits : List Icon → ℕ → Bool
waits [] s = false
waits (i ∷ is) s = is_sibling s i.next_sibling || waits is s

-- Every popup has such a timer.
unfoldable pub Timed : List Icon → List ℕ → Type 0
Timed timers = All (λ s. waits timers s ≡ true)

pub waits-append :
    (is : List Icon) (i : Icon) (s : ℕ)
    → waits (is ++ i ∷ []) s ≡ (waits is s || is_sibling s i.next_sibling)
unfolding waits
waits-append [] i s = ground arith
waits-append (j ∷ is) i s = ground (arith, waits-append is i s)

pub Timed-append : (is : List Icon) (i : Icon) (ps : List ℕ) → Timed is ps → Timed (is ++ i ∷ []) ps
unfolding Timed
Timed-append is i [] h = tt
Timed-append is i (p ∷ ps) h = (ground (arith, waits-append is i p, h.0), Timed-append is i ps h.1)

pub add_class-Timed :
    (is : List Icon) (s : ℕ) (ps : List ℕ)
    → waits is s ≡ true
    → Timed is ps
    → Timed is (add_class s ps)
unfolding Timed
add_class-Timed is s ps w h = if_elim (Timed is) (among s ps) _ _ (λ _. h) (λ _. (w, h))

pub remove_class-Timed :
    (is : List Icon) (i : Icon) (s : ℕ) (ps : List ℕ)
    → i.next_sibling ≡ some s
    → Timed (i ∷ is) ps
    → Timed is (remove_class s ps)
unfolding Timed waits
remove_class-Timed is i s [] e h = tt
remove_class-Timed is i s (p ∷ ps) e h =
    if_elim (Timed is) (not (p == s)) _ _
      (λ other.
        (ground (arith, h.0, other, ap (is_sibling p) e), remove_class-Timed is i s ps e h.1))
      (λ _. remove_class-Timed is i s ps e h.1)

pub no_sibling-Timed :
    (is : List Icon) (i : Icon) (ps : List ℕ)
    → i.next_sibling ≡ none
    → Timed (i ∷ is) ps
    → Timed is ps
unfolding Timed waits
no_sibling-Timed is i [] e h = tt
no_sibling-Timed is i (p ∷ ps) e h =
    (ground (arith, h.0, ap (is_sibling p) e), no_sibling-Timed is i ps e h.1)
