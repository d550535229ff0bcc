-- ===== src/RateLimiter/Starvation.antt =====
-- How the loop of `execute` (RateLimiter.kt, lines 130-163 and 282-310) ends, and when it does not:
-- a refill counts whole milliseconds but moves `lastRefillTime` up to the clock.
use arrow_resilience_kit.Base.{
  ℕ, ◌+◌, ◌-◌, ◌/◌, ◌≤◌, ◌<◌, true, false, none, List, [], ◌∷◌, ◌≡◌, refl, ap, ◌∙◌, arith, ltb,
  long_inc, Bool-cases, inl, inr, lt→ltb, le→leb, Outcome,
}
use arrow_resilience_kit.RateLimiter.Arithmetic.{Doubles}
use arrow_resilience_kit.RateLimiter.{
  RateLimiterConfig, RateLimiter, tokens_to_add, do_refill_tokens, try_acquire, wait_for_tokens,
  Exception, execute,
}
use arrow_resilience_kit.RateLimiter.Bounds.{IsRate, Level, le-min_of}

-- From `last` on, the clock moves by less than a millisecond from one reading to the next.
abbrev pub Dense : ℕ → List ℕ → Type 0
Dense last [] = Unit
Dense last (now ∷ clocks) = (last ≤ now) × (now < last + 1000000) × Dense now clocks

module _ (d : Doubles) (c : RateLimiterConfig d) where
  open d use {le, of_ℕ, plus}

  no_tokens : IsRate d c → (elapsed : ℕ) → elapsed < 1000000 → tokens_to_add d c elapsed ≡ of_ℕ 0
  unfolding tokens_to_add
  no_tokens rate elapsed h =
      ap (λ (n : ℕ). d.over (d.times (of_ℕ n) c.permits_per_second) (of_ℕ 1000)) zero_whole
      ∙ ap (λ x. d.over x (of_ℕ 1000)) (d.times-zero _ rate.finite rate.nonneg)
      ∙ d.zero-over
    where
      zero_whole : elapsed / 1000000 ≡ 0
      zero_whole = omega arith

  -- A refill after less than a millisecond adds nothing, and forgets the time that has passed.
  refill-dense :
      IsRate d c
      → (now : ℕ) (r : RateLimiter d) → Level d c r.tokens
      → r.last_refill_time ≤ now
      → now < r.last_refill_time + 1000000
      → do_refill_tokens d c now r ≡ record r { last_refill_time = now }
  unfolding do_refill_tokens
  refill-dense rate now r v h k = elim (Bool-cases (ltb r.last_refill_time now)) [
    | inl e ↦ rw e (
        rw (no_tokens rate (now - r.last_refill_time) (omega arith), d.plus-zero r.tokens v.0, v.1)
          refl)
    | inr e ↦ rw e (ap (λ (n : ℕ). record r { last_refill_time = n }) (ground arith))
  ]

  -- A round of the loop that finds too few tokens, less than a millisecond after the last one.
  acquire-dense :
      IsRate d c
      → (permits now : ℕ) (r : RateLimiter d) → Level d c r.tokens
      → le (of_ℕ permits) r.tokens ≡ false
      → r.last_refill_time ≤ now
      → now < r.last_refill_time + 1000000
      → try_acquire d c permits now r ≡ (
        record r {
          last_refill_time = now;
          total_requests = long_inc r.total_requests;
          rejected_requests = long_inc r.rejected_requests;
        },
        false,
      )
  unfolding try_acquire
  acquire-dense rate permits now r v few h k =
      rw
        (refill-dense rate now (record r { total_requests = long_inc r.total_requests }) v h k, few)

  starve :
      IsRate d c
      → (permits : ℕ) (clocks : List ℕ) (r : RateLimiter d) → Level d c r.tokens
      → le (of_ℕ permits) r.tokens ≡ false
      → Dense r.last_refill_time clocks
      → ((wait_for_tokens d c permits clocks r).1 ≡ false)
        × ((wait_for_tokens d c permits clocks r).0.tokens ≡ r.tokens)
  unfolding wait_for_tokens
  starve rate permits [] r v few h = (refl, refl)
  starve rate permits (now ∷ clocks) r v few h =
      rw (acquire-dense rate permits now r v few h.0 h.1) (
        starve rate permits clocks
          (record r {
            last_refill_time = now;
            total_requests = long_inc r.total_requests;
            rejected_requests = long_inc r.rejected_requests;
          })
          v few h.2)

  -- For a finite rate, and a limiter with fewer tokens than `permits`: as long as less than a
  -- millisecond passes between two rounds of its loop, `execute` keeps waiting, without running its
  -- block, and no token is ever added, however long that lasts.
  pub execute_starves :
      {E A : Type 0} (permits : ℕ) (clocks : List ℕ)
      (block : RateLimiter d → RateLimiter d × Outcome (Exception E) A) (r : RateLimiter d)
      → IsRate d c
      → Level d c r.tokens
      → 0 < permits
      → permits ≤ c.burst_capacity
      → le (of_ℕ permits) r.tokens ≡ false
      → Dense r.last_refill_time clocks
      → ((execute d c permits clocks block r).1 ≡ none)
        × ((execute d c permits clocks block r).0.tokens ≡ r.tokens)
  unfolding execute
  execute_starves permits clocks block r rate v pos fits few h =
      let stuck = starve rate permits clocks r v few h in
      rw (lt→ltb 0 permits pos, le→leb permits c.burst_capacity fits, stuck.0) (refl, stuck.1)

  -- A round of the loop of `execute` acquires its permits, at most the burst capacity, if the
  -- tokens there are and those that have been earned since the last refill together suffice.
  wait_ends :
      (permits now : ℕ) (clocks : List ℕ) (r : RateLimiter d)
      → permits ≤ c.burst_capacity
      → r.last_refill_time < now
      → le (of_ℕ permits) (plus r.tokens (tokens_to_add d c (now - r.last_refill_time))) ≡ true
      → (wait_for_tokens d c permits (now ∷ clocks) r).1 ≡ true
  unfolding wait_for_tokens try_acquire do_refill_tokens
  wait_ends permits now clocks r fits later enough = rw (
    lt→ltb r.last_refill_time now later,
    le-min_of d (plus r.tokens (tokens_to_add d c (now - r.last_refill_time)))
        (of_ℕ c.burst_capacity) (of_ℕ permits) enough (d.le-of_ℕ permits c.burst_capacity fits),
  )
