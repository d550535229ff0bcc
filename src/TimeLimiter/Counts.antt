-- ===== src/TimeLimiter/Counts.antt =====
-- TimeLimiter.kt: the counters under interleaved calls.
use arrow_resilience_kit.Base.{
  ℕ, suc, ◌+◌, ◌%◌, ◌≡◌, Bool, Option, none, some, arith, if_elim, long_inc, long_range, Outcome,
  returned, thrown,
}
use arrow_resilience_kit.TimeLimiter.{
  TimeLimiterConfig, TimeLimiter, create, reset_statistics, begin, succeed, time_out, fail,
  effective_timeout, after, after_or_null, execute, execute_or_null,
}

module _ {E : Type 0} where
  -- The states of a limiter with the number of calls in flight, where the transactions of the calls
  -- come in any order, and the statistics are reset only while no call is in flight.
  pub data Reach : ℕ → TimeLimiter E → Type 0 where
    created : Reach 0 create
    begins : {n : ℕ} {s : TimeLimiter E} → Reach n s → Reach (suc n) (begin s)
    succeeds : {n : ℕ} {s : TimeLimiter E} (ms : ℕ) → Reach (suc n) s → Reach n (succeed ms s)
    times_out :
        {n : ℕ} {s : TimeLimiter E} (timeout ms : ℕ)
        → Reach (suc n) s
        → Reach n (time_out timeout ms s)
    fails : {n : ℕ} {s : TimeLimiter E} (e : E) → Reach (suc n) s → Reach n (fail e s)
    resets : {s : TimeLimiter E} → Reach 0 s → Reach 0 (reset_statistics s)

  -- The calls that ended and the `n` in flight are all the calls, modulo 2^64.
  pub Partition : ℕ → TimeLimiter E → Type 0
  Partition n s =
      (s.successful_calls + s.timed_out_calls + s.failed_calls + n) % long_range ≡ s.total_calls

  Reach-Partition : {n : ℕ} {s : TimeLimiter E} → Reach n s → Partition n s
  unfolding create begin succeed time_out fail reset_statistics long_inc Partition
  Reach-Partition created = omega arith
  Reach-Partition (begins r) = omega (arith, Reach-Partition r)
  Reach-Partition (succeeds ms r) = omega (arith, Reach-Partition r)
  Reach-Partition (times_out timeout ms r) = omega (arith, Reach-Partition r)
  Reach-Partition (fails e r) = omega (arith, Reach-Partition r)
  Reach-Partition (resets r) = omega arith

  module _ {T : Type 0} where
    after_or_null-Reach :
        (timeout ms : ℕ) {n : ℕ} (r : TimeLimiter E × Outcome E (Option T))
        → Reach (suc n) r.0
        → Reach n (after_or_null timeout ms r).0
    unfolding after_or_null
    after_or_null-Reach timeout ms (s, returned (some v)) h = succeeds ms h
    after_or_null-Reach timeout ms (s, returned none) h = times_out timeout ms h
    after_or_null-Reach timeout ms (s, thrown e) h = fails e h

    after-Reach :
        (is_timeout : E → Bool) (timeout ms : ℕ) {n : ℕ} (r : TimeLimiter E × Outcome E T)
        → Reach (suc n) r.0
        → Reach n (after is_timeout timeout ms r).0
    unfolding after
    after-Reach is_timeout timeout ms (s, returned v) h = succeeds ms h
    after-Reach is_timeout timeout ms {n = n} (s, thrown e) h =
        if_elim (λ (r : TimeLimiter E × Outcome E T). Reach n r.0) (is_timeout e) _ _
          (λ _. times_out timeout ms h) (λ _. fails e h)

    -- Let a block leave the limiter in a state that interleaved calls reach while this one is in
    -- flight. After `execute`, and after `executeOrNull`, the successful, timed out and failed
    -- calls and the `n` other calls in flight add up to the total calls, modulo 2^64, whichever way
    -- the call ended.
    pub execute-Partition :
        (is_timeout : E → Bool) (c : TimeLimiterConfig) (timeout : Option ℕ) (ms n : ℕ)
        (guarded : ℕ → TimeLimiter E → TimeLimiter E × Outcome E T)
        (guarded_or_null : ℕ → TimeLimiter E → TimeLimiter E × Outcome E (Option T))
        (s : TimeLimiter E)
        → ((t : ℕ) → Reach (suc n) (guarded t (begin s)).0)
        → ((t : ℕ) → Reach (suc n) (guarded_or_null t (begin s)).0)
        → Partition n (execute is_timeout c timeout ms guarded s).0
          × Partition n (execute_or_null c timeout ms guarded_or_null s).0
    unfolding execute execute_or_null
    execute-Partition is_timeout c timeout ms n guarded guarded_or_null s h k = (
      Reach-Partition (
          after-Reach is_timeout (effective_timeout c timeout) ms
            (guarded (effective_timeout c timeout) (begin s)) (h (effective_timeout c timeout))),
      Reach-Partition (
          after_or_null-Reach (effective_timeout c timeout) ms
            (guarded_or_null (effective_timeout c timeout) (begin s))
            (k (effective_timeout c timeout))),
    )
