-- ===== src/Retry/Loop.antt =====
-- RetryRepeat.kt: how many calls the retrying loops make and which of them they end with, where the
-- outcome of a call depends on how many calls came before it.
use arrow_resilience_kit.Base.{
  ℕ, suc, zero, ◌+◌, ◌≤◌, ◌<◌, ◌≡◌, refl, ap, ◌∙◌, ◌⊎◌, inl, inr, Bool, true, false, not, ◌&&◌,
  Option, none, some, arith, dec_lt, ltb, if◌then◌else◌, long_inc, long_range, Outcome, returned,
  thrown,
}
use arrow_resilience_kit.Retry.{
  after_pause, after_call, fib_delay, next_fib, retry_loop, retry_if, retry_with_fibonacci,
  retry_with_capped_backoff,
}

long_inc-suc : (n : ℕ) → suc n < long_range → long_inc n ≡ suc n
unfolding long_inc
long_inc-suc n h = ground (arith, h)

module _ {E R : Type 0} (is_cancellation : E → Bool) where
  unfoldable pub is_retryable : (E → Bool) → Outcome E R → Bool
  is_retryable should_retry (returned v) = false
  is_retryable should_retry (thrown e) = not (is_cancellation e) && should_retry e

  -- The `n`-th call, from 0, is the first that is not to be retried, or the last one allowed.
  unfoldable pub EndsAt : ℕ → (E → Bool) → (ℕ → Outcome E R) → ℕ → Type 0
  EndsAt retries should_retry outcome n =
      (n ≤ retries)
      × ((i : ℕ) → i < n → is_retryable should_retry (outcome i) ≡ true)
      × ((is_retryable should_retry (outcome n) ≡ false) ⊎ (n ≡ retries))

module _ {E R : Type 0} (is_cancellation : E → Bool) (outcome : ℕ → Outcome E R) where
  abbrev pub nth_call : ℕ → ℕ × Outcome E R
  nth_call i = (suc i, outcome i)

  abbrev pub pass : ℕ → ℕ → ℕ × Option E
  pass d i = (i, none)

  module _ {D : Type 0} (retries : ℕ) (should_retry : E → Bool) (delay_of : D → ℕ) (next : D → D)
      (small : suc retries < long_range) where
    after_call_final :
        (a : ℕ) (d : D) (continue : ℕ → D → ℕ → Option (ℕ × Outcome E R)) (s : ℕ) (o : Outcome E R)
        → (is_retryable is_cancellation should_retry o ≡ false) ⊎ (retries ≤ a)
        → after_call is_cancellation nth_call pass retries should_retry delay_of next a d continue
            (s, o)
          ≡ some (s, o)
    unfolding after_call is_retryable
    after_call_final a d continue s (returned v) h = refl
    after_call_final a d continue s (thrown e) h = ground (arith, h)

    after_call_retry :
        (a : ℕ) (d : D) (continue : ℕ → D → ℕ → Option (ℕ × Outcome E R)) (s : ℕ) (o : Outcome E R)
        → is_retryable is_cancellation should_retry o ≡ true
        → a < retries
        → after_call is_cancellation nth_call pass retries should_retry delay_of next a d continue
            (s, o)
          ≡ continue (long_inc a) (next d) s
    unfolding after_call after_pause is_retryable
    after_call_retry a d continue s (returned v) h l = absurd (cc h)
    after_call_retry a d continue s (thrown e) h l = ground (arith, h, l)

    retry_loop_ends :
        (n : ℕ)
        → EndsAt is_cancellation retries should_retry outcome n
        → (fuel a : ℕ) (d : D) → a ≤ n
        → n < a + fuel
        → retry_loop is_cancellation nth_call pass retries should_retry delay_of next fuel a d a
          ≡ some (suc n, outcome n)
    unfolding retry_loop EndsAt
    retry_loop_ends n h zero a d l f = absurd (omega (arith, l, f))
    retry_loop_ends n h (suc fuel) a d l f = elim (dec_lt a n) [
      | yes b ↦
          after_call_retry a d
            (retry_loop is_cancellation nth_call pass retries should_retry delay_of next fuel)
            (suc a) (outcome a) (h.1 a b) (omega (arith, b, h.0))
          ∙ ap
              (λ x.
                retry_loop is_cancellation nth_call pass retries should_retry delay_of next fuel x
                  (next d) (suc a))
              (long_inc-suc a (omega (arith, b, h.0, small)))
          ∙ retry_loop_ends n h fuel (suc a) (next d) (omega (arith, b)) (omega (arith, f))
      | no b ↦
          let e : a ≡ n = omega (arith, b, l) in
          after_call_final a d
            (retry_loop is_cancellation nth_call pass retries should_retry delay_of next fuel)
            (suc a) (outcome a)
            (elim h.2 [
              | inl r ↦ inl (ap (λ i. is_retryable is_cancellation should_retry (outcome i)) e ∙ r)
              | inr q ↦ inr (omega (arith, e, q))
            ])
          ∙ ap (λ i. some (suc i, outcome i)) e
    ]

  -- Let the outcome of the `i`-th call, from 0, be `outcome i`, and let no delay be cancelled. If
  -- the `n`-th call is the first one that returns, is cancelled or throws an exception that is not
  -- to be retried, or is the last one allowed, with `n` at most `retries`, a `Long`, then the loop
  -- makes `n + 1` calls and ends with the outcome of the last: in `retryIf`, with its test, and in
  -- `retryWithFibonacci` and `retryWithCappedBackoff`, which retry all exceptions.
  pub retries_end :
      (retries delay base max_delay : ℕ) (scale : ℕ → ℕ) (should_retry : E → Bool) (n m : ℕ)
      → suc retries < long_range
      → EndsAt is_cancellation retries should_retry outcome n
      → EndsAt is_cancellation retries (λ _. true) outcome m
      → (retry_if is_cancellation nth_call pass retries delay should_retry 0
          ≡ some (suc n, outcome n))
        × (retry_with_fibonacci is_cancellation nth_call pass retries base 0
            ≡ some (suc m, outcome m))
        × (retry_with_capped_backoff is_cancellation nth_call pass retries base max_delay scale 0
            ≡ some (suc m, outcome m))
  unfolding retry_if retry_with_fibonacci retry_with_capped_backoff EndsAt
  retries_end retries delay base max_delay scale should_retry n m small h k = (
    retry_loop_ends retries should_retry (λ d. d) (λ d. d) small n h (suc retries) 0 delay
        (omega arith) (omega (arith, h.0)),
    retry_loop_ends retries (λ _. true) (fib_delay base) next_fib small m k (suc retries) 0 (1, 1)
        (omega arith) (omega (arith, k.0)),
    retry_loop_ends retries (λ _. true) (λ d. if ltb max_delay d then max_delay else d) scale small
        m k (suc retries) 0 base (omega arith) (omega (arith, k.0)),
  )
