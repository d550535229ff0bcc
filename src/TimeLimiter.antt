-- ===== src/TimeLimiter.antt =====
-- TimeLimiter.kt, lines 60-374: the time limiter. A block acts on the limiter, which other calls
-- may change while it runs. `withTimeout` and `withTimeoutOrNull`, applied to their block, are
-- parameters, and so are the milliseconds `ms` that a call took by the clock. A block of
-- `executeOrNull` returns a value or null. `events` records the calls of the listeners, in order.
pub mod Counts
pub mod Retrying
pub mod All
mod Tests
use arrow_resilience_kit.Base.{
  ℕ, suc, zero, ◌+◌, ◌%◌, ◌/◌, Bool, true, false, Option, none, some, List, [], ◌∷◌, ◌++◌, ltb,
  if◌then◌else◌, int_inc, int_ge, long_inc, long_range, Outcome, returned, thrown,
}

pub record TimeLimiterConfig : Type 0 where
  pub timeout : ℕ

-- The `require` of the constructor; `none` is the exception.
unfoldable pub create_config : ℕ → Option TimeLimiterConfig
create_config timeout = if ltb 0 timeout then some (record { timeout = timeout }) else none

pub data Event (E : Type 0) : Type 0 where
  on_success : ℕ → Event E
  on_timeout : ℕ → Event E
  on_failure : E → Event E

pub record TimeLimiter (E : Type 0) : Type 0 where
  pub total_calls : ℕ
  pub successful_calls : ℕ
  pub timed_out_calls : ℕ
  pub failed_calls : ℕ
  pub total_timeout_duration : ℕ
  pub events : List (Event E)

pub record TimeLimiterStatistics : Type 0 where
  pub total : ℕ
  pub successful : ℕ
  pub timed_out : ℕ
  pub failed : ℕ
  pub average_timeout_duration : ℕ

unfoldable pub create : {E : Type 0} → TimeLimiter E
create = record {
  total_calls = 0;
  successful_calls = 0;
  timed_out_calls = 0;
  failed_calls = 0;
  total_timeout_duration = 0;
  events = [];
}

unfoldable pub effective_timeout : TimeLimiterConfig → Option ℕ → ℕ
effective_timeout c none = c.timeout
effective_timeout c (some timeout) = timeout

module _ {E : Type 0} where
  -- The division of two `Long`s that are not negative.
  unfoldable pub statistics : TimeLimiter E → TimeLimiterStatistics
  statistics s = record {
    total = s.total_calls;
    successful = s.successful_calls;
    timed_out = s.timed_out_calls;
    failed = s.failed_calls;
    average_timeout_duration =
        if ltb 0 s.timed_out_calls then s.total_timeout_duration / s.timed_out_calls else 0;
  }

  unfoldable pub reset_statistics : TimeLimiter E → TimeLimiter E
  reset_statistics s = record s {
    total_calls = 0;
    successful_calls = 0;
    timed_out_calls = 0;
    failed_calls = 0;
    total_timeout_duration = 0;
  }

  -- The transaction before the block, and those after it with their notifications.
  unfoldable pub begin : TimeLimiter E → TimeLimiter E
  begin s = record s { total_calls = long_inc s.total_calls }

  unfoldable pub succeed : ℕ → TimeLimiter E → TimeLimiter E
  succeed ms s = record s {
    successful_calls = long_inc s.successful_calls;
    events = s.events ++ on_success ms ∷ [];
  }

  unfoldable pub time_out : ℕ → ℕ → TimeLimiter E → TimeLimiter E
  time_out timeout ms s = record s {
    timed_out_calls = long_inc s.timed_out_calls;
    total_timeout_duration = (s.total_timeout_duration + ms) % long_range;
    events = s.events ++ on_timeout timeout ∷ [];
  }

  unfoldable pub fail : E → TimeLimiter E → TimeLimiter E
  fail e s = record s {
    failed_calls = long_inc s.failed_calls;
    events = s.events ++ on_failure e ∷ [];
  }

  module _ {T : Type 0} where
    unfoldable pub after_or_null :
        ℕ → ℕ → TimeLimiter E × Outcome E (Option T) → TimeLimiter E × Outcome E (Option T)
    unfolding succeed time_out fail
    after_or_null timeout ms (s, returned (some v)) = (succeed ms s, returned (some v))
    after_or_null timeout ms (s, returned none) = (time_out timeout ms s, returned none)
    after_or_null timeout ms (s, thrown e) = (fail e s, thrown e)

    -- `guarded t` is `withTimeoutOrNull(t) { block() }`.
    unfoldable pub execute_or_null :
        TimeLimiterConfig
        → Option ℕ
        → ℕ
        → (ℕ → TimeLimiter E → TimeLimiter E × Outcome E (Option T))
        → TimeLimiter E
        → TimeLimiter E × Outcome E (Option T)
    unfolding begin after_or_null effective_timeout
    execute_or_null c timeout ms guarded s =
        let t = effective_timeout c timeout in after_or_null t ms (guarded t (begin s))

    abbrev pub or_default : T → TimeLimiter E × Outcome E (Option T) → TimeLimiter E × Outcome E T
    or_default default (s, returned (some v)) = (s, returned v)
    or_default default (s, returned none) = (s, returned default)
    or_default default (s, thrown e) = (s, thrown e)

    unfoldable pub execute_or_default :
        TimeLimiterConfig
        → Option ℕ
        → ℕ
        → T
        → (ℕ → TimeLimiter E → TimeLimiter E × Outcome E (Option T))
        → TimeLimiter E
        → TimeLimiter E × Outcome E T
    unfolding execute_or_null
    execute_or_default c timeout ms default guarded s =
        or_default default (execute_or_null c timeout ms guarded s)

  -- `is_timeout` tells a `TimeoutCancellationException`, whoever threw it.
  module _ {T : Type 0} (is_timeout : E → Bool) where
    unfoldable pub after : ℕ → ℕ → TimeLimiter E × Outcome E T → TimeLimiter E × Outcome E T
    unfolding succeed time_out fail
    after timeout ms (s, returned v) = (succeed ms s, returned v)
    after timeout ms (s, thrown e) =
        if is_timeout e then (time_out timeout ms s, thrown e) else (fail e s, thrown e)

    -- `guarded t` is `withTimeout(t) { block() }`.
    unfoldable pub execute :
        TimeLimiterConfig
        → Option ℕ
        → ℕ
        → (ℕ → TimeLimiter E → TimeLimiter E × Outcome E T)
        → TimeLimiter E
        → TimeLimiter E × Outcome E T
    unfolding begin after effective_timeout
    execute c timeout ms guarded s =
        let t = effective_timeout c timeout in after t ms (guarded t (begin s))

    unfoldable pub or_fallback :
        (E → TimeLimiter E → TimeLimiter E × Outcome E T)
        → TimeLimiter E × Outcome E T
        → TimeLimiter E × Outcome E T
    or_fallback fallback (s, returned v) = (s, returned v)
    or_fallback fallback (s, thrown e) = if is_timeout e then fallback e s else (s, thrown e)

    unfoldable pub execute_or_fallback :
        TimeLimiterConfig
        → Option ℕ
        → ℕ
        → (E → TimeLimiter E → TimeLimiter E × Outcome E T)
        → (ℕ → TimeLimiter E → TimeLimiter E × Outcome E T)
        → TimeLimiter E
        → TimeLimiter E × Outcome E T
    unfolding execute or_fallback
    execute_or_fallback c timeout ms fallback guarded s =
        or_fallback fallback (execute c timeout ms guarded s)

    -- `run` is `execute(timeout, block)`; `null_pointer` is what `lastException!!` throws on null.
    module _ (run : TimeLimiter E → TimeLimiter E × Outcome E T) (null_pointer : E)
        (retries : ℕ) where
      unfoldable pub retry_after :
          (Option E → TimeLimiter E → Option (TimeLimiter E × Outcome E T))
          → TimeLimiter E × Outcome E T
          → Option (TimeLimiter E × Outcome E T)
      retry_after continue (s, returned v) = some (s, returned v)
      retry_after continue (s, thrown e) =
          if is_timeout e then continue (some e) s else some (s, thrown e)

      abbrev pub last_of : Option E → E
      last_of none = null_pointer
      last_of (some e) = e

      -- `none` is a loop that runs out of fuel.
      unfoldable pub retry_loop :
          ℕ → ℕ → Option E → TimeLimiter E → Option (TimeLimiter E × Outcome E T)
      unfolding retry_after
      retry_loop zero attempt last s = none
      retry_loop (suc fuel) attempt last s =
          let continue = retry_loop fuel (int_inc attempt) in
          if int_ge retries attempt
          then retry_after continue (run s)
          else some (s, thrown (last_of last))

    unfoldable pub execute_with_retry :
        (TimeLimiter E → TimeLimiter E × Outcome E T)
        → E
        → ℕ
        → TimeLimiter E
        → Option (TimeLimiter E × Outcome E T)
    unfolding retry_loop
    execute_with_retry run null_pointer retries s =
        retry_loop run null_pointer retries (suc (suc retries)) 0 none s
