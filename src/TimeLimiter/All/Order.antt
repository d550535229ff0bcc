-- ===== src/TimeLimiter/All/Order.antt =====
-- TimeLimiter.kt, lines 321-333: where the calls of `executeAll` are after an order of turns does
-- not depend on the limiter.
use arrow_resilience_kit.Base.{
  ℕ, zero, suc, ◌≡◌, refl, sym, ap, ◌∙◌, Option, none, some, List, [], ◌∷◌, heads, tails, Outcome,
  returned, thrown,
}
use arrow_resilience_kit.TimeLimiter.{TimeLimiter, after_or_null}
use arrow_resilience_kit.TimeLimiter.All.{
  Phase, waiting, in_flight, ended, Call, take_turn, turn, turn_at, interleave,
}

module _ {E T : Type 0} where
  abbrev pub next : Outcome E (Option T) → Phase E T → Phase E T
  next o waiting = in_flight
  next o in_flight = ended o
  next o (ended o') = ended o'

  abbrev pub moved : Call E T → Call E T
  moved x = record x { phase = next x.outcome x.phase }

  unfoldable pub moved_times : ℕ → Call E T → Call E T
  moved_times zero x = x
  moved_times (suc n) x = moved_times n (moved x)

  unfoldable pub advance_all : List ℕ → List (Call E T) → List (Call E T)
  advance_all order [] = []
  advance_all order (x ∷ calls) = moved_times (heads order) x ∷ advance_all (tails order) calls

  outcome_kept :
      (timeout ms : ℕ) (s : TimeLimiter E) (o : Outcome E (Option T))
      → (after_or_null timeout ms (s, o)).1 ≡ o
  unfolding after_or_null
  outcome_kept timeout ms s (returned (some v)) = refl
  outcome_kept timeout ms s (returned none) = refl
  outcome_kept timeout ms s (thrown e) = refl

  module _ (timeout : ℕ) where
    phase-moved :
        (x : Call E T) (p : Phase E T) (s : TimeLimiter E)
        → ◌≡◌ {A = Call E T}
            (record x { phase = (take_turn timeout x p s).1 })
            (record x { phase = next x.outcome p })
    phase-moved x waiting s = refl
    phase-moved x in_flight s =
        ap (λ o. record x { phase = ended o }) (outcome_kept timeout x.ms s x.outcome)
    phase-moved x (ended o) s = refl

    turn-moved : (x : Call E T) (s : TimeLimiter E) → (turn timeout x s).1 ≡ moved x
    unfolding turn
    turn-moved x s = phase-moved x x.phase s

    advance_all-turn :
        (i : ℕ) (order : List ℕ) (s : TimeLimiter E) (calls : List (Call E T))
        → advance_all order (turn_at timeout i s calls).1 ≡ advance_all (i ∷ order) calls
    unfolding advance_all turn_at heads tails moved_times
    advance_all-turn i order s [] = refl
    advance_all-turn zero order s (x ∷ calls) =
        ap (λ y. moved_times (heads order) y ∷ advance_all (tails order) calls) (turn-moved x s)
    advance_all-turn (suc i) order s (x ∷ calls) =
        ap (λ rest. moved_times (heads order) x ∷ rest) (advance_all-turn i (tails order) s calls)

    advance_all-nil : (calls : List (Call E T)) → advance_all [] calls ≡ calls
    unfolding advance_all heads tails moved_times
    advance_all-nil [] = refl
    advance_all-nil (x ∷ calls) = ap (λ rest. x ∷ rest) (advance_all-nil calls)

    pub interleave-advance :
        (order : List ℕ) (s : TimeLimiter E) (calls : List (Call E T))
        → (interleave timeout order s calls).1 ≡ advance_all order calls
    unfolding interleave
    interleave-advance [] s calls = sym (advance_all-nil calls)
    interleave-advance (i ∷ order) s calls =
        let (s', calls') = turn_at timeout i s calls in
        interleave-advance order s' calls' ∙ advance_all-turn i order s calls
