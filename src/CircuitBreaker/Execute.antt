-- ===== src/CircuitBreaker/Execute.antt =====
-- `execute` of CircuitBreaker.kt, one lemma for each state in which a call may find the breaker.
-- The block may do anything to the breaker.
use arrow_resilience_kit.Base.{
  ℕ, ◌+◌, true, false, none, some, ◌≡◌, ap, ◌∙◌, arith, leb, Outcome, thrown,
}
use arrow_resilience_kit.CircuitBreaker.{
  CircuitBreakerConfig, CircuitBreakerState, closed, opened, half_open, CircuitBreaker, is_open,
  to_half_open, check_and_update_state, Exception, circuit_breaker_open_exception,
  execute_in_closed_state, execute_in_half_open_state, dispatch, execute,
}

module _ (c : CircuitBreakerConfig) (start : ℕ) (b : CircuitBreaker) where
  check_idle : is_open b.state ≡ false → check_and_update_state c start b ≡ b
  unfolding check_and_update_state
  check_idle e = ground arith

  check_unset : b.last_failure_time ≡ none → check_and_update_state c start b ≡ b
  unfolding check_and_update_state
  check_unset e = ground arith

  check_waiting :
      (t : ℕ)
      → b.last_failure_time ≡ some t
      → leb (t + c.reset_timeout) start ≡ false
      → check_and_update_state c start b ≡ b
  unfolding check_and_update_state
  check_waiting t e h = ground arith

  check_expired :
      (t : ℕ)
      → is_open b.state ≡ true
      → b.last_failure_time ≡ some t
      → leb (t + c.reset_timeout) start ≡ true
      → check_and_update_state c start b ≡ to_half_open b
  unfolding check_and_update_state
  check_expired t o e h = ground arith

to_half_open-state : (b : CircuitBreaker) → b.state ≡ opened → (to_half_open b).state ≡ half_open
unfolding to_half_open
to_half_open-state b e = ground arith

module _ {ℓ} {E A : Type ℓ} (c : CircuitBreakerConfig) (start now : ℕ)
    (block : CircuitBreaker → CircuitBreaker × Outcome (Exception E) A) (b : CircuitBreaker) where
  -- `execute` on the breaker and the state that the check leaves.
  execute_after :
      (b' : CircuitBreaker) (s : CircuitBreakerState)
      → check_and_update_state c start b ≡ b'
      → b'.state ≡ s
      → execute c start now block b ≡ dispatch c now block s b'
  unfolding execute
  execute_after b' s p q =
      ap (λ (x : CircuitBreaker). dispatch c now block x.state x) p
      ∙ ap (λ x. dispatch c now block x b') q

  pub execute_closed :
      b.state ≡ closed → execute c start now block b ≡ execute_in_closed_state c now (block b)
  unfolding dispatch
  execute_closed e = execute_after b closed (check_idle c start b (ground arith)) e

  pub execute_half_open :
      b.state ≡ half_open → execute c start now block b ≡ execute_in_half_open_state c now (block b)
  unfolding dispatch
  execute_half_open e = execute_after b half_open (check_idle c start b (ground arith)) e

  pub execute_waiting :
      (t : ℕ)
      → b.state ≡ opened
      → b.last_failure_time ≡ some t
      → leb (t + c.reset_timeout) start ≡ false
      → execute c start now block b ≡ (b, thrown circuit_breaker_open_exception)
  unfolding dispatch
  execute_waiting t e p h = execute_after b opened (check_waiting c start b t p h) e

  pub execute_stuck :
      b.state ≡ opened
      → b.last_failure_time ≡ none
      → execute c start now block b ≡ (b, thrown circuit_breaker_open_exception)
  unfolding dispatch
  execute_stuck e p = execute_after b opened (check_unset c start b p) e

  pub execute_expired :
      (t : ℕ)
      → b.state ≡ opened
      → b.last_failure_time ≡ some t
      → leb (t + c.reset_timeout) start ≡ true
      → execute c start now block b ≡ execute_in_half_open_state c now (block (to_half_open b))
  unfolding dispatch
  execute_expired t e p h =
      execute_after (to_half_open b) half_open (check_expired c start b t (ground arith) p h)
        (to_half_open-state b e)
