-- ===== src/CircuitBreaker/Interleaving.antt =====
-- Calls of one breaker that overlap: every STM transaction of CircuitBreaker.kt is one step, and
-- so is every call of `notifyListeners`, which comes after its transaction and outside of it. The
-- calls in flight, those of `reset` and `trip` included, take their steps in any order. A call is
-- not cancelled between its steps.
pub mod Progress
pub mod Told
use arrow_resilience_kit.Base.{
  ℕ, ◌<◌, Bool, true, false, Option, none, some, List, [], ◌∷◌, ◌++◌, ◌≡◌, refl, int_half,
}
use arrow_resilience_kit.CircuitBreaker.{
  CircuitBreakerConfig, CircuitBreakerState, closed, opened, half_open, CircuitBreaker, create,
  notify_listeners, announce, reset_transaction, trip_transaction, pending_since, is_due,
  half_open_transaction, on_success, count_failure, open_transaction, count_success,
  close_transaction, reopen_transaction,
}

-- Where a call stands between two steps: `telling` and `telling_turn` have made a transition, of
-- which the listeners are still to be told.
pub data Phase : Type 0 where
  starting : Phase
  checked : ℕ → Phase
  due : Phase
  deciding : Phase
  in_closed : Phase
  in_half_open : Phase
  opening : Phase
  closing : Phase
  telling : CircuitBreakerState × CircuitBreakerState → Phase
  telling_turn : CircuitBreakerState × CircuitBreakerState → Phase

-- What follows a transaction that ends a call, and the one of `checkAndUpdateState`.
abbrev pub told : Option (CircuitBreakerState × CircuitBreakerState) → Option Phase
told none = none
told (some n) = some (telling n)

abbrev pub after_turn : Option (CircuitBreakerState × CircuitBreakerState) → Phase
after_turn none = deciding
after_turn (some n) = telling_turn n

-- One transaction of a call, or one test or notification outside; `none` is the end of the call.
pub data Move (c : CircuitBreakerConfig) (b : CircuitBreaker)
    : Phase → CircuitBreaker → Option Phase → Type 0 where
  check_pending :
      (last : ℕ) → pending_since b ≡ some last → Move c b starting b (some (checked last))
  check_none : pending_since b ≡ none → Move c b starting b (some deciding)
  expired : (last now : ℕ) → is_due c now last ≡ true → Move c b (checked last) b (some due)
  not_yet : (last now : ℕ) → is_due c now last ≡ false → Move c b (checked last) b (some deciding)
  turn : Move c b due (half_open_transaction b).0 (some (after_turn (half_open_transaction b).1))
  tell_turn :
      (n : CircuitBreakerState × CircuitBreakerState)
      → Move c b (telling_turn n) (notify_listeners n.0 n.1 b) (some deciding)
  reject : b.state ≡ opened → Move c b deciding b none
  admit_closed : b.state ≡ closed → Move c b deciding b (some in_closed)
  admit_half_open : b.state ≡ half_open → Move c b deciding b (some in_half_open)
  succeed : Move c b in_closed (on_success b) none
  fail :
      (now : ℕ)
      → (count_failure c now b).1 ≡ false
      → Move c b in_closed (count_failure c now b).0 none
  fail_last :
      (now : ℕ)
      → (count_failure c now b).1 ≡ true
      → Move c b in_closed (count_failure c now b).0 (some opening)
  break_circuit : Move c b opening (open_transaction b).0 (told (open_transaction b).1)
  recover : (count_success c b).1 ≡ false → Move c b in_half_open (count_success c b).0 none
  recover_last :
      (count_success c b).1 ≡ true → Move c b in_half_open (count_success c b).0 (some closing)
  restore_circuit : Move c b closing (close_transaction b).0 (told (close_transaction b).1)
  relapse :
      (now : ℕ)
      → Move c b in_half_open (reopen_transaction now b).0 (told (reopen_transaction now b).1)
  tell :
      (n : CircuitBreakerState × CircuitBreakerState)
      → Move c b (telling n) (notify_listeners n.0 n.1 b) none

pub record System : Type 0 where
  pub breaker : CircuitBreaker
  pub calls : List Phase

abbrev pub to_list : Option Phase → List Phase
to_list none = []
to_list (some p) = p ∷ []

pub data Step (c : CircuitBreakerConfig) (s : System) : System → Type 0 where
  enter : Step c s (record s { calls = starting ∷ s.calls })
  manual_reset : Step c s (record {
    breaker = (reset_transaction s.breaker).0;
    calls = to_list (told (reset_transaction s.breaker).1) ++ s.calls;
  })
  manual_trip :
      (now : ℕ)
      → Step c s (record {
        breaker = (trip_transaction now s.breaker).0;
        calls = to_list (told (trip_transaction now s.breaker).1) ++ s.calls;
      })
  move :
      (before after : List Phase) (p : Phase) (b : CircuitBreaker) (q : Option Phase)
      → s.calls ≡ before ++ p ∷ after
      → Move c s.breaker p b q
      → Step c s (record { breaker = b; calls = before ++ (to_list q ++ after) })

abbrev pub start : System
start = record { breaker = create; calls = [] }

pub data Reach (c : CircuitBreakerConfig) : System → Type 0 where
  fresh : Reach c start
  later : {s t : System} → Reach c s → Step c s t → Reach c t

-- A call may tell the listeners right after its transaction.
pub announce-Reach :
    {c : CircuitBreakerConfig} (b : CircuitBreaker)
    (n : Option (CircuitBreakerState × CircuitBreakerState)) (calls : List Phase)
    → Reach c (record { breaker = b; calls = to_list (told n) ++ calls })
    → Reach c (record { breaker = announce (b, n); calls = calls })
announce-Reach b none calls r = r
announce-Reach b (some n) calls r = later r (move [] calls (telling n) _ none refl (tell n))
