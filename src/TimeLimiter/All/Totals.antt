-- ===== src/TimeLimiter/All/Totals.antt =====
-- TimeLimiter.kt, lines 321-333: what the turns of the calls of `executeAll` add to the counters,
-- in any order.
use arrow_resilience_kit.Base.{
  ℕ, zero, suc, ◌+◌, ◌%◌, ◌≡◌, refl, Option, none, some, List, [], ◌∷◌, arith, long_inc, long_range,
  Outcome, returned, thrown,
}
use arrow_resilience_kit.TimeLimiter.{TimeLimiter, begin, succeed, time_out, fail, after_or_null}
use arrow_resilience_kit.TimeLimiter.All.{
  Phase, waiting, in_flight, ended, Call, take_turn, turn, turn_at, interleave,
}

module _ {E T : Type 0} where
  -- What a phase stands for in a counter `g` of the limiter, if each turn adds it to the counter.
  abbrev pub Adds : ℕ → (Phase E T → ℕ) → (TimeLimiter E → ℕ) → Type 0
  Adds timeout f g =
      (x : Call E T) (p : Phase E T) (s : TimeLimiter E)
      → (g (take_turn timeout x p s).0 + f p) % long_range
        ≡ (g s + f (take_turn timeout x p s).1) % long_range

  unfoldable pub total_of : (Phase E T → ℕ) → List (Call E T) → ℕ
  total_of f [] = 0
  total_of f (x ∷ calls) = f x.phase + total_of f calls

  module _ (timeout : ℕ) (f : Phase E T → ℕ) (g : TimeLimiter E → ℕ) (adds : Adds timeout f g) where
    turn_at-Adds :
        (i : ℕ) (s : TimeLimiter E) (calls : List (Call E T))
        → (g (turn_at timeout i s calls).0 + total_of f calls) % long_range
          ≡ (g s + total_of f (turn_at timeout i s calls).1) % long_range
    unfolding turn_at turn total_of
    turn_at-Adds i s [] = refl
    turn_at-Adds zero s (x ∷ calls) = omega (arith, adds x x.phase s)
    turn_at-Adds (suc i) s (x ∷ calls) = omega (arith, turn_at-Adds i s calls)

    pub interleave-Adds :
        (order : List ℕ) (s : TimeLimiter E) (calls : List (Call E T))
        → (g (interleave timeout order s calls).0 + total_of f calls) % long_range
          ≡ (g s + total_of f (interleave timeout order s calls).1) % long_range
    unfolding interleave
    interleave-Adds [] s calls = refl
    interleave-Adds (i ∷ order) s calls =
        let (s', calls') = turn_at timeout i s calls in
        omega (arith, turn_at-Adds i s calls, interleave-Adds order s' calls')

  abbrev pub begun : Phase E T → ℕ
  begun waiting = 0
  begun _ = 1

  abbrev pub gave : Phase E T → ℕ
  gave (ended (returned (some v))) = 1
  gave _ = 0

  abbrev pub gave_null : Phase E T → ℕ
  gave_null (ended (returned none)) = 1
  gave_null _ = 0

  abbrev pub threw : Phase E T → ℕ
  threw (ended (thrown e)) = 1
  threw _ = 0

  -- The end of a call, whichever it is.
  ending-Adds :
      (timeout ms : ℕ) (s : TimeLimiter E) (o : Outcome E (Option T))
      → let (s', o') = after_or_null timeout ms (s, o) in
        (s'.total_calls ≡ s.total_calls)
        × (s'.successful_calls % long_range ≡ (s.successful_calls + gave (ended o')) % long_range)
        × (s'.timed_out_calls % long_range
            ≡ (s.timed_out_calls + gave_null (ended o')) % long_range)
        × (s'.failed_calls % long_range ≡ (s.failed_calls + threw (ended o')) % long_range)
  unfolding after_or_null succeed time_out fail long_inc
  ending-Adds timeout ms s (returned (some v)) = omega arith
  ending-Adds timeout ms s (returned none) = omega arith
  ending-Adds timeout ms s (thrown e) = omega arith

  pub begun-Adds : (timeout : ℕ) → Adds timeout begun (λ s. s.total_calls)
  unfolding begin long_inc
  begun-Adds timeout x waiting s = omega arith
  begun-Adds timeout x in_flight s = omega (arith, ending-Adds timeout x.ms s x.outcome)
  begun-Adds timeout x (ended o) s = refl

  pub gave-Adds : (timeout : ℕ) → Adds timeout gave (λ s. s.successful_calls)
  unfolding begin
  gave-Adds timeout x waiting s = refl
  gave-Adds timeout x in_flight s = omega (arith, ending-Adds timeout x.ms s x.outcome)
  gave-Adds timeout x (ended o) s = refl

  pub gave_null-Adds : (timeout : ℕ) → Adds timeout gave_null (λ s. s.timed_out_calls)
  unfolding begin
  gave_null-Adds timeout x waiting s = refl
  gave_null-Adds timeout x in_flight s = omega (arith, ending-Adds timeout x.ms s x.outcome)
  gave_null-Adds timeout x (ended o) s = refl

  pub threw-Adds : (timeout : ℕ) → Adds timeout threw (λ s. s.failed_calls)
  unfolding begin
  threw-Adds timeout x waiting s = refl
  threw-Adds timeout x in_flight s = omega (arith, ending-Adds timeout x.ms s x.outcome)
  threw-Adds timeout x (ended o) s = refl
