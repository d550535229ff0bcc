-- ===== src/RateLimiter.antt =====
-- RateLimiter.kt, lines 65-362: the token bucket. Instants are nanoseconds, and each `clock.now()`
-- is an argument. The arithmetic of `Double` is a parameter (Arithmetic), with the laws of IEEE 754
-- that the limiter relies on, for the doubles that are not NaN; a rate is finite.
pub mod Arithmetic
pub mod Bounds
pub mod Starvation
mod Tests
use arrow_resilience_kit.Base.{
  ℕ, ◌+◌, ◌-◌, ◌/◌, Bool, true, false, not, ◌&&◌, Option, none, some, List, [], ◌∷◌, ltb, leb,
  if◌then◌else◌, long_inc, Outcome, returned, thrown,
}
use Arithmetic.{Doubles}

pub data Exception {ℓ} (E : Type ℓ) : Type ℓ where
  illegal_argument_exception : Exception E
  other : E → Exception E

module _ (d : Doubles) where
  open d use {Double, le, of_ℕ, plus, minus, times, over, to_ℕ}

  pub record RateLimiterConfig : Type 0 where
    pub permits_per_second : Double
    pub burst_capacity : ℕ

  -- The `require`s of the constructor; `none` is the exception.
  unfoldable pub create_config : Double → ℕ → Option RateLimiterConfig
  create_config permits capacity =
      if not (le permits (of_ℕ 0)) && ltb 0 capacity
      then some (record { permits_per_second = permits; burst_capacity = capacity })
      else none

  pub record RateLimiter : Type 0 where
    pub tokens : Double
    pub last_refill_time : ℕ
    pub total_requests : ℕ
    pub accepted_requests : ℕ
    pub rejected_requests : ℕ

  unfoldable pub create : RateLimiterConfig → ℕ → RateLimiter
  create c now = record {
    tokens = of_ℕ c.burst_capacity;
    last_refill_time = now;
    total_requests = 0;
    accepted_requests = 0;
    rejected_requests = 0;
  }

  -- `minOf` on two doubles.
  abbrev pub min_of : Double → Double → Double
  min_of x y = if le x y then x else y

  -- `elapsed.inWholeMilliseconds`, for a positive duration.
  abbrev pub whole_milliseconds : ℕ → ℕ
  whole_milliseconds n = n / 1000000

  unfoldable pub tokens_to_add : RateLimiterConfig → ℕ → Double
  tokens_to_add c elapsed =
      over (times (of_ℕ (whole_milliseconds elapsed)) c.permits_per_second) (of_ℕ 1000)

  unfoldable pub do_refill_tokens : RateLimiterConfig → ℕ → RateLimiter → RateLimiter
  do_refill_tokens c now r =
      if ltb r.last_refill_time now
      then record r {
        tokens =
            min_of (plus r.tokens (tokens_to_add c (now - r.last_refill_time)))
              (of_ℕ c.burst_capacity);
        last_refill_time = now;
      }
      else r

  unfoldable pub available_tokens : RateLimiterConfig → ℕ → RateLimiter → RateLimiter × Double
  unfolding do_refill_tokens
  available_tokens c now r = let r' = do_refill_tokens c now r in (r', r'.tokens)

  -- The transaction of `tryAcquire`, for positive `permits`.
  unfoldable pub try_acquire : RateLimiterConfig → ℕ → ℕ → RateLimiter → RateLimiter × Bool
  try_acquire c permits now r =
      let r' = do_refill_tokens c now (record r { total_requests = long_inc r.total_requests }) in
      if le (of_ℕ permits) r'.tokens
      then (
        record r' {
          tokens = minus r'.tokens (of_ℕ permits);
          accepted_requests = long_inc r'.accepted_requests;
        },
        true,
      )
      else (record r' { rejected_requests = long_inc r'.rejected_requests }, false)

  unfoldable pub reset_statistics : RateLimiter → RateLimiter
  reset_statistics r = record r { total_requests = 0; accepted_requests = 0; rejected_requests = 0 }

  unfoldable pub reset : RateLimiterConfig → ℕ → RateLimiter → RateLimiter
  reset c now r = record r {
    tokens = of_ℕ c.burst_capacity;
    last_refill_time = now;
    total_requests = 0;
    accepted_requests = 0;
    rejected_requests = 0;
  }

  -- In milliseconds: `toLong` drops the fraction.
  unfoldable pub calculate_wait_time : RateLimiterConfig → ℕ → ℕ
  calculate_wait_time c permits =
      to_ℕ (over (times (of_ℕ permits) (of_ℕ 1000)) c.permits_per_second)

  -- The loop of `execute`. Each round reads the clock once, in `tryAcquire`; `clocks` holds what it
  -- shows in the rounds to come, and `false` says that the loop still waits after those.
  unfoldable pub wait_for_tokens : RateLimiterConfig → ℕ → List ℕ → RateLimiter → RateLimiter × Bool
  wait_for_tokens c permits [] r = (r, false)
  wait_for_tokens c permits (now ∷ clocks) r =
      let rest = wait_for_tokens c permits clocks (try_acquire c permits now r).0 in
      if (try_acquire c permits now r).1 then ((try_acquire c permits now r).0, true) else rest

  module _ {E A : Type 0} where
    -- The block is run on the limiter, which other calls may change while it runs.
    unfoldable pub try_execute :
        RateLimiterConfig
        → ℕ
        → ℕ
        → (RateLimiter → RateLimiter × Outcome (Exception E) (Option A))
        → RateLimiter
        → RateLimiter × Outcome (Exception E) (Option A)
    unfolding try_acquire
    try_execute c permits now block r =
        if ltb 0 permits
        then (if (try_acquire c permits now r).1
            then block (try_acquire c permits now r).0
            else ((try_acquire c permits now r).0, returned none))
        else (r, thrown illegal_argument_exception)

    -- The clock of the last round is that of the acquisition. `none`: the call still waits after
    -- the rounds of `clocks`.
    unfoldable pub execute :
        RateLimiterConfig
        → ℕ
        → List ℕ
        → (RateLimiter → RateLimiter × Outcome (Exception E) A)
        → RateLimiter
        → RateLimiter × Option (Outcome (Exception E) A)
    unfolding wait_for_tokens
    execute c permits clocks block r =
        if ltb 0 permits && leb permits c.burst_capacity
        then (if (wait_for_tokens c permits clocks r).1
            then (let (r', o) = block (wait_for_tokens c permits clocks r).0 in (r', some o))
            else ((wait_for_tokens c permits clocks r).0, none))
        else (r, some (thrown illegal_argument_exception))

    -- `tryExecute(permits, block) ?: fallback()`
    unfoldable pub or_fallback :
        (RateLimiter → RateLimiter × Outcome (Exception E) A)
        → RateLimiter × Outcome (Exception E) (Option A)
        → RateLimiter × Outcome (Exception E) A
    or_fallback fallback (r, returned (some a)) = (r, returned a)
    or_fallback fallback (r, returned none) = fallback r
    or_fallback fallback (r, thrown e) = (r, thrown e)

    unfoldable pub execute_or_fallback :
        RateLimiterConfig
        → ℕ
        → ℕ
        → (RateLimiter → RateLimiter × Outcome (Exception E) A)
        → (RateLimiter → RateLimiter × Outcome (Exception E) (Option A))
        → RateLimiter
        → RateLimiter × Outcome (Exception E) A
    unfolding try_execute or_fallback
    execute_or_fallback c permits now fallback block r =
        or_fallback fallback (try_execute c permits now block r)
