-- ===== src/TimeLimiter/Tests.antt =====
-- TimeLimiter.kt: runs of the limiter, and instances of its theorems.
use arrow_resilience_kit.Base.{
  ℕ, ◌+◌, ◌%◌, List, [], ◌∷◌, long_range, count, values, length, heads, tails, ◌≡◌, refl, arith,
  Bool, false, inl, Option, none, some, ◌==◌, if◌then◌else◌, long_inc, Outcome, returned, thrown,
}
use arrow_resilience_kit.TimeLimiter.{
  TimeLimiterConfig, TimeLimiter, create, statistics, reset_statistics, begin, succeed, time_out,
  after_or_null, effective_timeout, execute, execute_or_null, execute_with_retry,
}
use arrow_resilience_kit.TimeLimiter.Counts.{created, begins, Partition, execute-Partition}
use arrow_resilience_kit.TimeLimiter.All.{execute_all, interleave, start, turn_at, turn, await_all}
use arrow_resilience_kit.TimeLimiter.All.Results.{
  given, Enough, is_value, is_null, execute_all-Totals,
}
use arrow_resilience_kit.TimeLimiter.Retrying.{
  ends_in_timeout, Timeouts, no_more, then_out, execute_with_retry-ends,
}

abbrev config : TimeLimiterConfig
config = record { timeout = 30 }

-- 1 is a `TimeoutCancellationException`.
abbrev is_one : ℕ → Bool
is_one e = e == 1

abbrev answers : ℕ → TimeLimiter ℕ → TimeLimiter ℕ × Outcome ℕ ℕ
answers t s = (s, returned 70)

abbrev times_out : ℕ → TimeLimiter ℕ → TimeLimiter ℕ × Outcome ℕ ℕ
times_out t s = (s, thrown 1)

abbrev answers_null : ℕ → TimeLimiter ℕ → TimeLimiter ℕ × Outcome ℕ (Option ℕ)
answers_null t s = (s, returned none)

-- A block that returns null in time counts as timed out.
null_counts : (execute_or_null config none 4 answers_null create).0.timed_out_calls ≡ 1
unfolding execute_or_null after_or_null begin time_out create effective_timeout long_inc
null_counts = refl

-- The statistics that are reset during a call show one successful call out of none.
resets_in_flight :
    statistics {E = ℕ} (succeed 4 (reset_statistics (begin create)))
    ≡ record { total = 0; successful = 1; timed_out = 0; failed = 0; average_timeout_duration = 0 }
unfolding statistics succeed reset_statistics begin create long_inc
resets_in_flight = refl

execute-Partition_example :
    Partition 0 (execute is_one config (some 5) 4 times_out create).0
    × Partition 0 (execute_or_null config (some 5) 4 answers_null create).0
execute-Partition_example =
    execute-Partition is_one config (some 5) 4 0 times_out answers_null create (λ t. begins created)
      (λ t. begins created)

-- A run that times out until two calls have been counted.
abbrev third : TimeLimiter ℕ → TimeLimiter ℕ × Outcome ℕ ℕ
third s = (begin s, if s.total_calls == 2 then returned 70 else thrown 1)

third_times_out : Timeouts is_one third 2 create (begin (begin create))
unfolding create begin long_inc ends_in_timeout
third_times_out = then_out refl (then_out refl no_more)

third_returns : ends_in_timeout is_one (third (begin (begin create))).1 ≡ false
unfolding create begin long_inc ends_in_timeout
third_returns = refl

execute_with_retry-ends_example :
    execute_with_retry is_one third 9 3 create ≡ some (third (begin (begin create)))
execute_with_retry-ends_example =
    execute_with_retry-ends is_one third 9 3 2 create (begin (begin create)) (omega arith)
      third_times_out (omega arith) (inl third_returns)

-- Two blocks in time, and one that times out between them.
abbrev blocks : List (ℕ × Option ℕ)
blocks = (4, some 70) ∷ (30, none) ∷ (6, some 71) ∷ []

abbrev order : List ℕ
order = 2 ∷ 0 ∷ 1 ∷ 1 ∷ 2 ∷ 0 ∷ []

order-Enough : Enough order blocks
unfolding Enough heads tails
order-Enough = (omega arith, (omega arith, (omega arith, tt)))

execute_all_lem :
    (execute_all {E = ℕ} config none order (given blocks) create).1
    ≡ some (some 70 ∷ none ∷ some 71 ∷ [])
unfolding execute_all interleave start turn_at turn await_all begin after_or_null given
execute_all_lem = refl

abbrev busy : TimeLimiter ℕ
busy = record {
  total_calls = 5;
  successful_calls = 5;
  timed_out_calls = 0;
  failed_calls = 0;
  total_timeout_duration = 0;
  events = [];
}

execute_all-Totals_example :
    let (s', results) = execute_all config none order (given blocks) busy in
    (results ≡ some (values blocks))
    × (s'.total_calls % long_range ≡ (busy.total_calls + length blocks) % long_range)
    × (s'.successful_calls % long_range
        ≡ (busy.successful_calls + count is_value (values blocks)) % long_range)
    × (s'.timed_out_calls % long_range
        ≡ (busy.timed_out_calls + count is_null (values blocks)) % long_range)
    × (s'.failed_calls % long_range ≡ busy.failed_calls % long_range)
execute_all-Totals_example = execute_all-Totals config none order blocks busy order-Enough
