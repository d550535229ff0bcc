-- ===== src/SlidingWindow.antt =====
-- RateLimiter.kt, lines 443-625: the sliding window rate limiter. Instants and durations are
-- nanoseconds, and each `clock.now()` is an argument; the counters are `Long`s and wrap.
pub mod Ideal
pub mod Counters
mod Tests
use arrow_resilience_kit.Base.{
  ℕ, ◌+◌, Bool, true, false, ◌&&◌, Option, none, some, List, [], ◌∷◌, ◌++◌, ltb, leb, length, keep,
  if◌then◌else◌, long_inc, Outcome, returned, thrown,
}

pub record SlidingWindowConfig : Type 0 where
  pub max_requests : ℕ
  pub window_duration : ℕ

-- The `require`s of the constructor; `none` is the exception.
unfoldable pub create_config : ℕ → ℕ → Option SlidingWindowConfig
create_config requests duration =
    if ltb 0 requests && ltb 0 duration
    then some (record { max_requests = requests; window_duration = duration })
    else none

pub record SlidingWindowRateLimiter : Type 0 where
  pub request_timestamps : List ℕ
  pub total_requests : ℕ
  pub accepted_requests : ℕ
  pub rejected_requests : ℕ

unfoldable pub create : SlidingWindowRateLimiter
create = record {
  request_timestamps = [];
  total_requests = 0;
  accepted_requests = 0;
  rejected_requests = 0;
}

-- `it >= now - windowDuration`, over the integers.
abbrev pub is_recent : SlidingWindowConfig → ℕ → ℕ → Bool
is_recent c now it = leb now (it + c.window_duration)

unfoldable pub do_cleanup_old_requests :
    SlidingWindowConfig → ℕ → SlidingWindowRateLimiter → SlidingWindowRateLimiter
do_cleanup_old_requests c now w = record w {
  request_timestamps = keep (is_recent c now) w.request_timestamps;
}

unfoldable pub current_requests :
    SlidingWindowConfig → ℕ → SlidingWindowRateLimiter → SlidingWindowRateLimiter × ℕ
unfolding do_cleanup_old_requests
current_requests c now w =
    let w' = do_cleanup_old_requests c now w in (w', length w'.request_timestamps)

pub record SlidingWindowStatistics : Type 0 where
  pub current_requests : ℕ
  pub total_requests : ℕ
  pub accepted_requests : ℕ
  pub rejected_requests : ℕ

unfoldable pub statistics :
    SlidingWindowConfig
    → ℕ
    → SlidingWindowRateLimiter
    → SlidingWindowRateLimiter × SlidingWindowStatistics
unfolding do_cleanup_old_requests
statistics c now w =
    let w' = do_cleanup_old_requests c now w in
    (
      w',
      record {
        current_requests = length w'.request_timestamps;
        total_requests = w'.total_requests;
        accepted_requests = w'.accepted_requests;
        rejected_requests = w'.rejected_requests;
      },
    )

-- `at` is the clock in the clean-up, and `now` the clock for the new timestamp.
unfoldable pub try_acquire :
    SlidingWindowConfig → ℕ → ℕ → SlidingWindowRateLimiter → SlidingWindowRateLimiter × Bool
unfolding do_cleanup_old_requests
try_acquire c at now w =
    let w' =
      do_cleanup_old_requests c at (record w { total_requests = long_inc w.total_requests }) in
    if ltb (length w'.request_timestamps) c.max_requests
    then (
      record w' {
        request_timestamps = w'.request_timestamps ++ now ∷ [];
        accepted_requests = long_inc w'.accepted_requests;
      },
      true,
    )
    else (record w' { rejected_requests = long_inc w'.rejected_requests }, false)

unfoldable pub reset : SlidingWindowRateLimiter → SlidingWindowRateLimiter
reset w = record w {
  request_timestamps = [];
  total_requests = 0;
  accepted_requests = 0;
  rejected_requests = 0;
}

pub data Exception {ℓ} (E : Type ℓ) : Type ℓ where
  rate_limit_exceeded_exception : Exception E
  other : E → Exception E

module _ {ℓ} {E A : Type ℓ} where
  -- The block is run on the limiter, which other calls may change while it runs.
  unfoldable pub execute :
      SlidingWindowConfig
      → ℕ
      → ℕ
      → (SlidingWindowRateLimiter → SlidingWindowRateLimiter × Outcome (Exception E) A)
      → SlidingWindowRateLimiter
      → SlidingWindowRateLimiter × Outcome (Exception E) A
  unfolding try_acquire
  execute c at now block w =
      let (w', acquired) = try_acquire c at now w in
      if acquired then block w' else (w', thrown rate_limit_exceeded_exception)

  -- `null` when the limit is reached; a block that throws throws.
  unfoldable pub try_execute :
      SlidingWindowConfig
      → ℕ
      → ℕ
      → (SlidingWindowRateLimiter → SlidingWindowRateLimiter × Outcome (Exception E) (Option A))
      → SlidingWindowRateLimiter
      → SlidingWindowRateLimiter × Outcome (Exception E) (Option A)
  unfolding try_acquire
  try_execute c at now block w =
      let (w', acquired) = try_acquire c at now w in
      if acquired then block w' else (w', returned none)
