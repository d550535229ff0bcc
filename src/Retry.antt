-- ===== src/Retry.antt =====
-- RetryRepeat.kt, lines 170-406 and 680-726: the retries that the file implements itself. `block`
-- and `pause`, which is `delay` with its jitter, act on a world `S`; `pause` returns the exception
-- of a cancelled delay. A `Long` that `require` bounds below by 0 is a natural number.
pub mod Loop
pub mod Recording
pub mod History
pub mod Repeat
pub mod Rounds
mod Tests
use arrow_resilience_kit.Base.{
  ℕ, suc, zero, ◌+◌, ◌*◌, ◌%◌, Bool, true, false, not, ◌||◌, Option, none, some, leb, ltb,
  if◌then◌else◌, int_range, int_half, long_inc, long_range, Outcome, returned, thrown,
}

-- `base * fib1.toInt()`, where a negative duration is no delay.
unfoldable pub fib_delay : ℕ → ℕ × ℕ → ℕ
fib_delay base (fib1, fib2) =
    if ltb (fib1 % int_range) int_half then base * (fib1 % int_range) else 0

unfoldable pub next_fib : ℕ × ℕ → ℕ × ℕ
next_fib (fib1, fib2) = ((fib1 + fib2) % long_range, fib1)

module _ {ℓ} {S E R : Type ℓ} (is_cancellation : E → Bool) (block : S → S × Outcome E R)
    (pause : ℕ → S → S × Option E) where
  -- The loops of `retryIf`, `retryWithFibonacci` and `retryWithCappedBackoff`, which differ in the
  -- test of the exception, in the delay that the state `d` of the backoff gives, and in its next
  -- state. The condition `attempt <= retries` of the first always holds: its body throws at
  -- `attempt >= retries`.
  module _ {D : Type 0} (retries : ℕ) (should_retry : E → Bool) (delay_of : D → ℕ)
      (next : D → D) where
    unfoldable pub after_pause :
        ℕ → D → (ℕ → D → S → Option (S × Outcome E R)) → S × Option E → Option (S × Outcome E R)
    after_pause attempt d continue (s, none) = continue (long_inc attempt) (next d) s
    after_pause attempt d continue (s, some e) = some (s, thrown e)

    unfoldable pub after_call :
        ℕ → D → (ℕ → D → S → Option (S × Outcome E R)) → S × Outcome E R → Option (S × Outcome E R)
    unfolding after_pause
    after_call attempt d continue (s, returned v) = some (s, returned v)
    after_call attempt d continue (s, thrown e) =
        if is_cancellation e || (leb retries attempt || not (should_retry e))
        then some (s, thrown e)
        else after_pause attempt d continue (pause (delay_of d) s)

    -- `none` is a loop that runs out of fuel.
    unfoldable pub retry_loop : ℕ → ℕ → D → S → Option (S × Outcome E R)
    unfolding after_call
    retry_loop zero attempt d s = none
    retry_loop (suc fuel) attempt d s = after_call attempt d (retry_loop fuel) (block s)

  unfoldable pub retry_if : ℕ → ℕ → (E → Bool) → S → Option (S × Outcome E R)
  unfolding retry_loop
  retry_if retries delay should_retry s =
      retry_loop retries should_retry (λ d. d) (λ d. d) (suc retries) 0 delay s

  unfoldable pub retry_with_fibonacci : ℕ → ℕ → S → Option (S × Outcome E R)
  unfolding retry_loop fib_delay next_fib
  retry_with_fibonacci retries base s =
      retry_loop retries (λ _. true) (fib_delay base) next_fib (suc retries) 0 (1, 1) s

  -- `scale` is the product of a duration with the factor, which is a `Double`.
  unfoldable pub retry_with_capped_backoff : ℕ → ℕ → ℕ → (ℕ → ℕ) → S → Option (S × Outcome E R)
  unfolding retry_loop
  retry_with_capped_backoff retries base max_delay scale s =
      retry_loop retries (λ _. true) (λ d. if ltb max_delay d then max_delay else d) scale
        (suc retries) 0 base s
