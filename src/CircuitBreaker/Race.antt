-- ===== src/CircuitBreaker/Race.antt =====
-- Two things that happen when calls of CircuitBreaker.kt overlap: a call that has counted the last
-- failure opens a breaker that `reset` has just cleared, and trial calls are not limited.
use arrow_resilience_kit.Base.{
  ℕ, zero, suc, none, some, List, [], ◌∷◌, ◌++◌, ◌≡◌, refl, subst, arith, Outcome, thrown,
}
use arrow_resilience_kit.CircuitBreaker.{
  CircuitBreakerConfig, opened, half_open, CircuitBreaker, reset_transaction, reset, pending_since,
  open_transaction, open_circuit, Exception, circuit_breaker_open_exception, execute,
}
use arrow_resilience_kit.CircuitBreaker.Execute.{execute_stuck}
use arrow_resilience_kit.CircuitBreaker.Interleaving.{
  Phase, starting, deciding, in_half_open, opening, check_none, admit_half_open, break_circuit,
  System, to_list, told, enter, manual_reset, move, Reach, later, announce-Reach,
}

reset-open_circuit :
    (b : CircuitBreaker)
    → ((open_circuit (reset b)).state ≡ opened)
      × ((open_circuit (reset b)).last_failure_time ≡ none)
unfolding open_circuit reset
reset-open_circuit b = ground arith

-- `reset` and the opening of the circuit, each followed by its notification, are steps of a call.
reset_told :
    (c : CircuitBreakerConfig) (s : System) (calls : List Phase)
    → s.calls ≡ calls
    → Reach c s
    → Reach c (record { breaker = reset s.breaker; calls = calls })
unfolding reset
reset_told c s calls e r =
    announce-Reach (reset_transaction s.breaker).0 (reset_transaction s.breaker).1 calls (
      subst
        (λ calls. Reach c (record {
          breaker = (reset_transaction s.breaker).0;
          calls = to_list (told (reset_transaction s.breaker).1) ++ calls;
        }))
        e (later r manual_reset))

open_told :
    (c : CircuitBreakerConfig) (rest : List Phase) (b : CircuitBreaker)
    → Reach c (record { breaker = b; calls = opening ∷ rest })
    → Reach c (record { breaker = open_circuit b; calls = rest })
unfolding open_circuit
open_told c rest b r =
    announce-Reach (open_transaction b).0 (open_transaction b).1 rest
      (later r (move [] rest opening _ _ refl break_circuit))

-- If `reset` runs while a call is between counting the last failure and opening the circuit, then
-- the system comes to a breaker that rejects every call at every later time, and is left unchanged
-- by it: the timeout never starts to count.
pub reset_locks_open :
    {E A : Type 0} (c : CircuitBreakerConfig) (s : System) (rest : List Phase) (start now : ℕ)
    (block : CircuitBreaker → CircuitBreaker × Outcome (Exception E) A)
    → Reach c s
    → s.calls ≡ opening ∷ rest
    → Reach c (record { breaker = open_circuit (reset s.breaker); calls = rest })
      × (execute c start now block (open_circuit (reset s.breaker))
          ≡ (open_circuit (reset s.breaker), thrown circuit_breaker_open_exception))
reset_locks_open c s rest start now block r e = (
  open_told c rest _ (reset_told c s (opening ∷ rest) e r),
  execute_stuck c start now block _ (reset-open_circuit s.breaker).0
      (reset-open_circuit s.breaker).1,
)

abbrev pub trials : ℕ → List Phase
trials zero = []
trials (suc n) = in_half_open ∷ trials n

idle-pending : (b : CircuitBreaker) → b.state ≡ half_open → pending_since b ≡ none
unfolding pending_since
idle-pending b e = ground arith

-- While the circuit is half-open, any number of new calls can be running as trials at once,
-- whatever `halfOpenMaxCalls` is.
trials_unbounded :
    (c : CircuitBreakerConfig) (s : System) (n : ℕ)
    → Reach c s
    → s.breaker.state ≡ half_open
    → Reach c (record { breaker = s.breaker; calls = trials n ++ s.calls })
trials_unbounded c s zero r e = r
trials_unbounded c s (suc n) r e =
    later
      (later (later (trials_unbounded c s n r e) enter)
        (move [] _ starting _ (some deciding) refl (check_none (idle-pending s.breaker e))))
      (move [] _ deciding _ (some in_half_open) refl (admit_half_open e))
