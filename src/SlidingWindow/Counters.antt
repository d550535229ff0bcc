-- ===== src/SlidingWindow/Counters.antt =====
-- The counters and the size of the window of the limiter (RateLimiter.kt, lines 443-625), in any
-- order of the operations and with a clock that may jump in either direction.
use arrow_resilience_kit.Base.{
  ℕ, ◌+◌, ◌%◌, ◌≤◌, List, [], ◌∷◌, ◌≡◌, arith, length, keep, length-append, length-keep, count-le,
  long_range, long_inc_left, long_inc_right,
}
use arrow_resilience_kit.SlidingWindow.{
  SlidingWindowConfig, SlidingWindowRateLimiter, create, is_recent, current_requests, statistics,
  try_acquire, reset,
}

pub data Operation : Type 0 where
  acquires : ℕ → ℕ → Operation
  observes : ℕ → Operation
  reports : ℕ → Operation
  resets : Operation

unfoldable pub perform :
    SlidingWindowConfig → Operation → SlidingWindowRateLimiter → SlidingWindowRateLimiter
perform c (acquires at now) w = (try_acquire c at now w).0
perform c (observes at) w = (current_requests c at w).0
perform c (reports at) w = (statistics c at w).0
perform c resets w = reset w

unfoldable pub perform_all :
    SlidingWindowConfig → List Operation → SlidingWindowRateLimiter → SlidingWindowRateLimiter
unfolding perform
perform_all c [] w = w
perform_all c (o ∷ os) w = perform_all c os (perform c o w)

-- The counters partition the requests, modulo 2^64, and the window is never over-full.
pub record IsValid (c : SlidingWindowConfig) (w : SlidingWindowRateLimiter) : Type 0 where
  pub partition : w.total_requests ≡ (w.accepted_requests + w.rejected_requests) % long_range
  pub bounded : length w.request_timestamps ≤ c.max_requests

perform-IsValid :
    (c : SlidingWindowConfig) (o : Operation) (w : SlidingWindowRateLimiter)
    → IsValid c w
    → IsValid c (perform c o w)
unfolding perform try_acquire current_requests statistics reset
perform-IsValid c (acquires at now) w v = ground (
  arith,
  length-keep {0} (is_recent c at) w.request_timestamps,
  count-le {0} (is_recent c at) w.request_timestamps,
  length-append {0} (keep (is_recent c at) w.request_timestamps) (now ∷ []),
  long_inc_left w.total_requests w.accepted_requests w.rejected_requests,
  long_inc_right w.total_requests w.accepted_requests w.rejected_requests,
)
perform-IsValid c (observes at) w v = ground (
  arith,
  length-keep {0} (is_recent c at) w.request_timestamps,
  count-le {0} (is_recent c at) w.request_timestamps,
)
perform-IsValid c (reports at) w v = ground (
  arith,
  length-keep {0} (is_recent c at) w.request_timestamps,
  count-le {0} (is_recent c at) w.request_timestamps,
)
perform-IsValid c resets w v = ground arith

all-IsValid :
    (c : SlidingWindowConfig) (os : List Operation) (w : SlidingWindowRateLimiter)
    → IsValid c w
    → IsValid c (perform_all c os w)
unfolding perform_all
all-IsValid c [] w v = v
all-IsValid c (o ∷ os) w v = all-IsValid c os (perform c o w) (perform-IsValid c o w v)

create-IsValid : (c : SlidingWindowConfig) → IsValid c create
unfolding create
create-IsValid c = omega arith

-- After any operations, whatever the clock shows at each, the total of a new limiter is its
-- accepted and its rejected requests together, modulo 2^64, and it holds at most `maxRequests`
-- timestamps.
pub perform_all-IsValid :
    (c : SlidingWindowConfig) (os : List Operation) → IsValid c (perform_all c os create)
perform_all-IsValid c os = all-IsValid c os create (create-IsValid c)
