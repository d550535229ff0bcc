-- ===== src/CircuitBreaker.antt =====
-- CircuitBreaker.kt, lines 76-390: the class, one function for each STM transaction and their
-- composition, its configuration and its states. `clock.now()` is an argument of each function that
-- reads the clock; times and durations are nanoseconds. `notified` records the calls of
-- `notifyListeners`, in order (a listener's exception is swallowed and a listener returns nothing).
pub mod Diagram
pub mod Execute
pub mod Sequential
pub mod Interleaving
pub mod Race
mod Tests
use arrow_resilience_kit.Base.{
  ℕ, ◌+◌, Bool, true, false, ◌&&◌, Option, none, some, List, [], ◌∷◌, ◌++◌, ltb, leb, if◌then◌else◌,
  int_inc, int_ge, Outcome, returned, thrown,
}

pub record CircuitBreakerConfig : Type 0 where
  pub failure_threshold : ℕ
  pub reset_timeout : ℕ
  pub half_open_success_threshold : ℕ
  pub half_open_max_calls : ℕ

-- The `require`s of the constructor; `none` is the exception.
unfoldable pub create_config : ℕ → ℕ → ℕ → ℕ → Option CircuitBreakerConfig
create_config failures timeout successes calls =
    if ltb 0 failures && ltb 0 timeout && ltb 0 successes && ltb 0 calls
    then some (record {
      failure_threshold = failures;
      reset_timeout = timeout;
      half_open_success_threshold = successes;
      half_open_max_calls = calls;
    })
    else none

pub data CircuitBreakerState : Type 0 where
  closed opened half_open : CircuitBreakerState

abbrev pub is_closed : CircuitBreakerState → Bool
is_closed closed = true
is_closed _ = false

abbrev pub is_open : CircuitBreakerState → Bool
is_open opened = true
is_open _ = false

abbrev pub is_half_open : CircuitBreakerState → Bool
is_half_open half_open = true
is_half_open _ = false

pub record CircuitBreaker : Type 0 where
  pub state : CircuitBreakerState
  pub failure_count : ℕ
  pub success_count : ℕ
  pub last_failure_time : Option ℕ
  pub notified : List (CircuitBreakerState × CircuitBreakerState)

unfoldable pub create : CircuitBreaker
create = record {
  state = closed;
  failure_count = 0;
  success_count = 0;
  last_failure_time = none;
  notified = [];
}

abbrev pub notify_listeners :
    CircuitBreakerState → CircuitBreakerState → CircuitBreaker → CircuitBreaker
notify_listeners old new b = record b { notified = b.notified ++ (old, new) ∷ [] }

-- What follows a transaction: if it made a transition, the listeners are told of it. This is not
-- part of the transaction: in the functions below no other call comes between the two, and in
-- Interleaving they are two steps.
abbrev pub announce :
    CircuitBreaker × Option (CircuitBreakerState × CircuitBreakerState) → CircuitBreaker
announce (b, none) = b
announce (b, some (old, new)) = notify_listeners old new b

-- The transactions that change the state, each with the transition that it made.
abbrev pub reset_transaction :
    CircuitBreaker → CircuitBreaker × Option (CircuitBreakerState × CircuitBreakerState)
reset_transaction b = (
  record b { failure_count = 0; success_count = 0; last_failure_time = none; state = closed },
  if is_closed b.state then none else some (b.state, closed),
)

unfoldable pub reset : CircuitBreaker → CircuitBreaker
reset b = announce (reset_transaction b)

abbrev pub trip_transaction :
    ℕ → CircuitBreaker → CircuitBreaker × Option (CircuitBreakerState × CircuitBreakerState)
trip_transaction now b = (
  record b { state = opened; last_failure_time = some now },
  if is_open b.state then none else some (b.state, opened),
)

unfoldable pub trip : ℕ → CircuitBreaker → CircuitBreaker
trip now b = announce (trip_transaction now b)

-- `checkAndUpdateState`: its first transaction, the test outside, its second transaction.
unfoldable pub pending_since : CircuitBreaker → Option ℕ
pending_since b = if is_open b.state then b.last_failure_time else none

-- `now - last >= resetTimeout`, on times that may run backwards.
unfoldable pub is_due : CircuitBreakerConfig → ℕ → ℕ → Bool
is_due c now last = leb (last + c.reset_timeout) now

abbrev pub half_open_transaction :
    CircuitBreaker → CircuitBreaker × Option (CircuitBreakerState × CircuitBreakerState)
half_open_transaction b =
    if is_open b.state
    then (record b { state = half_open; success_count = 0 }, some (b.state, half_open))
    else (b, none)

unfoldable pub to_half_open : CircuitBreaker → CircuitBreaker
to_half_open b = announce (half_open_transaction b)

unfoldable pub check_and_update_state : CircuitBreakerConfig → ℕ → CircuitBreaker → CircuitBreaker
unfolding pending_since is_due to_half_open
check_and_update_state c now b = elim (pending_since b) [
  | none ↦ b
  | some last ↦ if is_due c now last then to_half_open b else b
]

unfoldable pub on_success : CircuitBreaker → CircuitBreaker
on_success b = if int_ge 0 b.failure_count then b else record b { failure_count = 0 }

-- `onFailure`: its first transaction returns `shouldOpen`.
unfoldable pub count_failure : CircuitBreakerConfig → ℕ → CircuitBreaker → CircuitBreaker × Bool
count_failure c now b =
    let failures = int_inc b.failure_count in
    (
      record b { failure_count = failures; last_failure_time = some now },
      int_ge failures c.failure_threshold,
    )

abbrev pub open_transaction :
    CircuitBreaker → CircuitBreaker × Option (CircuitBreakerState × CircuitBreakerState)
open_transaction b =
    if is_closed b.state then (record b { state = opened }, some (b.state, opened)) else (b, none)

unfoldable pub open_circuit : CircuitBreaker → CircuitBreaker
open_circuit b = announce (open_transaction b)

unfoldable pub on_failure : CircuitBreakerConfig → ℕ → CircuitBreaker → CircuitBreaker
unfolding count_failure open_circuit
on_failure c now b =
    let (b', should_open) = count_failure c now b in if should_open then open_circuit b' else b'

-- `onSuccessInHalfOpen`: its first transaction returns `shouldClose`.
unfoldable pub count_success : CircuitBreakerConfig → CircuitBreaker → CircuitBreaker × Bool
count_success c b =
    let successes = int_inc b.success_count in
    (record b { success_count = successes }, int_ge successes c.half_open_success_threshold)

abbrev pub close_transaction :
    CircuitBreaker → CircuitBreaker × Option (CircuitBreakerState × CircuitBreakerState)
close_transaction b =
    if is_half_open b.state
    then (record b { failure_count = 0; success_count = 0; state = closed }, some (b.state, closed))
    else (b, none)

unfoldable pub close_circuit : CircuitBreaker → CircuitBreaker
close_circuit b = announce (close_transaction b)

unfoldable pub on_success_in_half_open : CircuitBreakerConfig → CircuitBreaker → CircuitBreaker
unfolding count_success close_circuit
on_success_in_half_open c b =
    let (b', should_close) = count_success c b in if should_close then close_circuit b' else b'

abbrev pub reopen_transaction :
    ℕ → CircuitBreaker → CircuitBreaker × Option (CircuitBreakerState × CircuitBreakerState)
reopen_transaction now b =
    if is_half_open b.state
    then (
      record b { success_count = 0; last_failure_time = some now; state = opened },
      some (b.state, opened),
    )
    else (b, none)

unfoldable pub on_failure_in_half_open : ℕ → CircuitBreaker → CircuitBreaker
on_failure_in_half_open now b = announce (reopen_transaction now b)

-- The exceptions that a block may throw: `CircuitBreakerOpenException` (of a nested breaker, say),
-- or another.
pub data Exception {ℓ} (E : Type ℓ) : Type ℓ where
  circuit_breaker_open_exception : Exception E
  other : E → Exception E

module _ {ℓ} {E A : Type ℓ} where
  -- A block is run on the breaker, which other calls may change while it runs, and leaves it as it
  -- is when the block ends, at `now`.
  unfoldable pub execute_in_closed_state :
      CircuitBreakerConfig
      → ℕ
      → CircuitBreaker × Outcome (Exception E) A
      → CircuitBreaker × Outcome (Exception E) A
  execute_in_closed_state c now (b, returned a) = (on_success b, returned a)
  execute_in_closed_state c now (b, thrown e) = (on_failure c now b, thrown e)

  unfoldable pub execute_in_half_open_state :
      CircuitBreakerConfig
      → ℕ
      → CircuitBreaker × Outcome (Exception E) A
      → CircuitBreaker × Outcome (Exception E) A
  execute_in_half_open_state c now (b, returned a) = (on_success_in_half_open c b, returned a)
  execute_in_half_open_state c now (b, thrown e) = (on_failure_in_half_open now b, thrown e)

  -- The `when` of `execute`.
  unfoldable pub dispatch :
      CircuitBreakerConfig
      → ℕ
      → (CircuitBreaker → CircuitBreaker × Outcome (Exception E) A)
      → CircuitBreakerState
      → CircuitBreaker
      → CircuitBreaker × Outcome (Exception E) A
  unfolding execute_in_closed_state execute_in_half_open_state
  dispatch c now block opened b = (b, thrown circuit_breaker_open_exception)
  dispatch c now block half_open b = execute_in_half_open_state c now (block b)
  dispatch c now block closed b = execute_in_closed_state c now (block b)

  -- `start` is the clock in `checkAndUpdateState`.
  unfoldable pub execute :
      CircuitBreakerConfig
      → ℕ
      → ℕ
      → (CircuitBreaker → CircuitBreaker × Outcome (Exception E) A)
      → CircuitBreaker
      → CircuitBreaker × Outcome (Exception E) A
  unfolding dispatch check_and_update_state
  execute c start now block b =
      let b' = check_and_update_state c start b in dispatch c now block b'.state b'

  -- The `catch` of `executeOrFallback`.
  unfoldable pub catch_open :
      (CircuitBreaker → CircuitBreaker × Outcome (Exception E) A)
      → CircuitBreaker × Outcome (Exception E) A
      → CircuitBreaker × Outcome (Exception E) A
  catch_open fallback (b, returned a) = (b, returned a)
  catch_open fallback (b, thrown (other e)) = (b, thrown (other e))
  catch_open fallback (b, thrown circuit_breaker_open_exception) = fallback b

  unfoldable pub execute_or_fallback :
      CircuitBreakerConfig
      → ℕ
      → ℕ
      → (CircuitBreaker → CircuitBreaker × Outcome (Exception E) A)
      → (CircuitBreaker → CircuitBreaker × Outcome (Exception E) A)
      → CircuitBreaker
      → CircuitBreaker × Outcome (Exception E) A
  unfolding execute catch_open
  execute_or_fallback c start now fallback block b =
      catch_open fallback (execute c start now block b)
