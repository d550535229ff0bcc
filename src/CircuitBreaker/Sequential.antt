-- ===== src/CircuitBreaker/Sequential.antt =====
-- Calls of `execute` one after the other (CircuitBreaker.kt), against an abstract circuit that
-- keeps one number for each state.
use arrow_resilience_kit.Base.{
  ℕ, ◌+◌, ◌<◌, some, List, [], ◌∷◌, ◌≡◌, refl, arith, leb, int_inc-add, int_ge-leb, int_ge,
  Bool-cases, inl, inr, subst, ap, ◌∙◌, lt→leb_false, length, if◌then◌else◌, Outcome, returned,
  thrown,
}
use arrow_resilience_kit.CircuitBreaker.{
  CircuitBreakerConfig, closed, opened, half_open, CircuitBreaker, create, Exception, other,
  circuit_breaker_open_exception, execute, on_success, on_failure, on_success_in_half_open,
  on_failure_in_half_open, to_half_open, execute_in_closed_state, execute_in_half_open_state,
}
use arrow_resilience_kit.CircuitBreaker.Execute.{
  execute_closed, execute_half_open, execute_waiting, execute_expired,
}
use arrow_resilience_kit.CircuitBreaker.Interleaving.Progress.{IsValid}

-- The promise: the number of failures in a row, the time of the failure that opened the circuit, or
-- the number of trial calls that succeeded.
pub data Circuit : Type 0 where
  closed_after : ℕ → Circuit
  opened_at : ℕ → Circuit
  recovering : ℕ → Circuit

module _ {E A : Type 0} where
  -- A block that ends with `o` while no other call touches the breaker.
  abbrev pub alone :
      Outcome (Exception E) A → CircuitBreaker → CircuitBreaker × Outcome (Exception E) A
  alone o b = (b, o)

  -- What a trial call does to a circuit with `m` successful trials.
  abbrev pub trial :
      CircuitBreakerConfig → ℕ → ℕ → Outcome (Exception E) A → Circuit × Outcome (Exception E) A
  trial c m now (returned a) = (
    if leb c.half_open_success_threshold (m + 1) then closed_after 0 else recovering (m + 1),
    returned a,
  )
  trial c m now (thrown e) = (opened_at now, thrown e)

  abbrev pub call :
      CircuitBreakerConfig
      → ℕ
      → ℕ
      → Outcome (Exception E) A
      → Circuit
      → Circuit × Outcome (Exception E) A
  call c start now (returned a) (closed_after n) = (closed_after 0, returned a)
  call c start now (thrown e) (closed_after n) =
      (if leb c.failure_threshold (n + 1) then opened_at now else closed_after (n + 1), thrown e)
  call c start now o (opened_at t) =
      if leb (t + c.reset_timeout) start
      then trial c 0 now o
      else (opened_at t, thrown circuit_breaker_open_exception)
  call c start now o (recovering m) = trial c m now o

-- The breaker stands for the circuit.
abbrev pub Models : CircuitBreakerConfig → CircuitBreaker → Circuit → Type 0
Models c b (closed_after n) = (b.state ≡ closed) × (b.failure_count ≡ n) × (n < c.failure_threshold)
Models c b (opened_at t) = (b.state ≡ opened) × (b.last_failure_time ≡ some t)
Models c b (recovering m) =
    (b.state ≡ half_open) × (b.success_count ≡ m) × (m < c.half_open_success_threshold)

module _ {E A : Type 0} (c : CircuitBreakerConfig) (v : IsValid c) (now : ℕ) where
  -- What holds of a call's result, and of the circuit that the breaker stands for after it.
  abbrev Meets :
      CircuitBreaker × Outcome (Exception E) A → Circuit × Outcome (Exception E) A → Type 0
  Meets (b, r) (w, q) = Models c b w × (r ≡ q)

  trial-Meets :
      (o : Outcome (Exception E) A) (m : ℕ) (b : CircuitBreaker)
      → Models c b (recovering m)
      → Meets (execute_in_half_open_state c now (b, o)) (trial c m now o)
  unfolding execute_in_half_open_state on_success_in_half_open on_failure_in_half_open
  trial-Meets (returned a) m b h =
      ground (arith, int_inc-add b.success_count, int_ge-leb (m + 1) c.half_open_success_threshold)
  trial-Meets (thrown e) m b h = ground arith

  closed-Meets :
      (o : Outcome (Exception E) A) (start n : ℕ) (b : CircuitBreaker)
      → Models c b (closed_after n)
      → Meets (execute_in_closed_state c now (b, o)) (call c start now o (closed_after n))
  unfolding execute_in_closed_state on_success on_failure int_ge
  closed-Meets (returned a) start n b h = ground arith
  closed-Meets (thrown e) start n b h =
      ground (arith, int_inc-add b.failure_count, int_ge-leb (n + 1) c.failure_threshold)

to_half_open-Models :
    (c : CircuitBreakerConfig) (v : IsValid c) (b : CircuitBreaker) (t : ℕ)
    → Models c b (opened_at t)
    → Models c (to_half_open b) (recovering 0)
unfolding to_half_open
to_half_open-Models c v b t h = ground arith

-- A call that no other call overlaps does to the breaker, and for its caller, what the abstract
-- circuit promises: it counts failures in a row while closed, rejects until the timeout has passed,
-- and then counts trials, for thresholds that are positive `Int`s.
pub execute-Models :
    {E A : Type 0} (c : CircuitBreakerConfig) (b : CircuitBreaker) (w : Circuit) (start now : ℕ)
    (o : Outcome (Exception E) A)
    → IsValid c
    → Models c b w
    → Models c (execute c start now (alone o) b).0 (call c start now o w).0
      × ((execute c start now (alone o) b).1 ≡ (call c start now o w).1)
execute-Models {E} {A} c b (closed_after n) start now o v h =
    rw (execute_closed c start now (alone o) b h.0) (closed-Meets c v now o start n b h)
execute-Models {E} {A} c b (opened_at t) start now o v h =
    elim (Bool-cases (leb (t + c.reset_timeout) start)) [
      | inl e ↦
          rw (execute_expired c start now (alone o) b t h.0 h.1 e, e)
            (trial-Meets c v now o 0 (to_half_open b) (to_half_open-Models c v b t h))
      | inr e ↦ rw (execute_waiting c start now (alone o) b t h.0 h.1 e, e) (h, refl)
    ]
execute-Models {E} {A} c b (recovering m) start now o v h =
    rw (execute_half_open c start now (alone o) b h.0) (trial-Meets c v now o m b h)

-- A history of calls: for each the clock as it starts and as its block ends, and the block's end.
unfoldable pub run :
    {E A : Type 0}
    → CircuitBreakerConfig
    → List (ℕ × ℕ × Outcome (Exception E) A)
    → CircuitBreaker
    → CircuitBreaker
run c [] b = b
run c ((start, now, o) ∷ calls) b = run c calls (execute c start now (alone o) b).0

abbrev pub run_circuit :
    {E A : Type 0}
    → CircuitBreakerConfig
    → List (ℕ × ℕ × Outcome (Exception E) A)
    → Circuit
    → Circuit
run_circuit c [] w = w
run_circuit c ((start, now, o) ∷ calls) w = run_circuit c calls (call c start now o w).0

pub run-Models :
    {E A : Type 0} (c : CircuitBreakerConfig) (calls : List (ℕ × ℕ × Outcome (Exception E) A))
    (b : CircuitBreaker) (w : Circuit)
    → IsValid c
    → Models c b w
    → Models c (run c calls b) (run_circuit c calls w)
unfolding run
run-Models c [] b w v h = h
run-Models c ((start, now, o) ∷ calls) b w v h =
    run-Models c calls _ _ v (execute-Models c b w start now o v h).0

create-Models : (c : CircuitBreakerConfig) → IsValid c → Models c create (closed_after 0)
unfolding create
create-Models c v = (refl, refl, v.failures_pos)

-- Calls that fail, with the clock as each starts and ends.
abbrev pub failing :
    {E : Type 0} (A : Type 0) → E → List (ℕ × ℕ) → List (ℕ × ℕ × Outcome (Exception E) A)
failing A e [] = []
failing A e ((start, now) ∷ times) = (start, now, thrown (other e)) ∷ failing A e times

failing-closed :
    {E : Type 0} (A : Type 0) (c : CircuitBreakerConfig) (e : E) (times : List (ℕ × ℕ)) (n : ℕ)
    → n + length times < c.failure_threshold
    → run_circuit c (failing A e times) (closed_after n) ≡ closed_after (n + length times)
failing-closed A c e [] n h = ground arith
failing-closed A c e ((start, now) ∷ times) n h =
    ap (λ x. run_circuit c (failing A e times) (if x then opened_at now else closed_after (n + 1)))
      (lt→leb_false c.failure_threshold (n + 1) (omega arith))
    ∙ failing-closed A c e times (n + 1) (omega arith)
    ∙ ap closed_after (omega arith)

-- A new breaker that meets fewer failures in a row than the threshold, and no other call between
-- them, is still closed and has counted them all; one more failure opens it, at the clock of that
-- failure, if and only if it makes up the threshold.
failures_open :
    {E : Type 0} (A : Type 0) (c : CircuitBreakerConfig) (e : E) (times : List (ℕ × ℕ))
    (start now : ℕ)
    → IsValid c
    → length times < c.failure_threshold
    → Models c (run c (failing A e times) create) (closed_after (length times))
      × Models c
          (execute {A = A} c start now
            (alone (thrown (other e)))
            (run c (failing A e times) create)).0
          (if leb c.failure_threshold (length times + 1)
            then opened_at now
            else closed_after (length times + 1))
failures_open A c e times start now v h = (
  counted,
  (execute-Models {A = A} c (run c (failing A e times) create) (closed_after (length times)) start
      now (thrown (other e)) v counted).0,
)
  where
    counted : Models c (run c (failing A e times) create) (closed_after (length times))
    counted =
        subst (Models c (run c (failing A e times) create))
          (failing-closed A c e times 0 (omega arith) ∙ ap closed_after (omega arith))
          (run-Models c (failing A e times) create (closed_after 0) v (create-Models c v))
