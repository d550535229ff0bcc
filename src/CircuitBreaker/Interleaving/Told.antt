-- ===== src/CircuitBreaker/Interleaving/Told.antt =====
-- The calls of `notifyListeners` in CircuitBreaker.kt, when calls of the breaker overlap.
use arrow_resilience_kit.Base.{
  ◌+◌, Bool, Option, none, some, List, [], ◌∷◌, ◌++◌, ◌≡◌, refl, ap, arith, count, count-append,
}
use arrow_resilience_kit.CircuitBreaker.{
  CircuitBreakerConfig, CircuitBreakerState, CircuitBreaker, create, notify_listeners,
  reset_transaction, trip_transaction, half_open_transaction, open_transaction, close_transaction,
  reopen_transaction,
}
use arrow_resilience_kit.CircuitBreaker.Diagram.{
  Follows, log, Extends, stayed-Extends, open_transaction-Extends, close_transaction-Extends,
  half_open_transaction-Extends, reopen_transaction-Extends, reset_transaction-Extends,
  trip_transaction-Extends, on_success-Extends, count_failure-Extends, count_success-Extends,
  created-Follows,
}
use arrow_resilience_kit.CircuitBreaker.Interleaving.{
  Phase, telling, telling_turn, told, after_turn, Move, check_pending, check_none, expired, not_yet,
  turn, tell_turn, reject, admit_closed, admit_half_open, succeed, fail, fail_last, break_circuit,
  recover, recover_last, restore_circuit, relapse, tell, System, to_list, enter, manual_reset,
  manual_trip, move, Reach, fresh, later,
}

-- The transition that a step of a call makes.
abbrev pub made :
    {c : CircuitBreakerConfig} {b : CircuitBreaker} {p : Phase} {b' : CircuitBreaker}
    {q : Option Phase}
    → Move c b p b' q
    → Option (CircuitBreakerState × CircuitBreakerState)
made {b} turn = (half_open_transaction b).1
made {b} break_circuit = (open_transaction b).1
made {b} restore_circuit = (close_transaction b).1
made {b} (relapse now) = (reopen_transaction now b).1
made _ = none

-- The transitions of a run, in the order in which its transactions made them.
abbrev pub history :
    {c : CircuitBreakerConfig} {s : System}
    → Reach c s
    → List (CircuitBreakerState × CircuitBreakerState)
history fresh = []
history (later r enter) = history r
history (later {s} r manual_reset) = history r ++ log (reset_transaction s.breaker).1
history (later {s} r (manual_trip now)) = history r ++ log (trip_transaction now s.breaker).1
history (later r (move before after p b q e m)) = history r ++ log (made m)

-- The transitions of which a call in flight is still to tell the listeners.
abbrev pub carried : Phase → List (CircuitBreakerState × CircuitBreakerState)
carried (telling n) = n ∷ []
carried (telling_turn n) = n ∷ []
carried _ = []

abbrev pub untold : List Phase → List (CircuitBreakerState × CircuitBreakerState)
untold [] = []
untold (p ∷ ps) = carried p ++ untold ps

-- The transitions `ns` are a legal chain up to the breaker's state, and each of them has been told
-- to the listeners once, or is told once by a call in flight.
pub record Told (s : System) (ns : List (CircuitBreakerState × CircuitBreakerState)) : Type 0 where
  pub follows : Follows ns s.breaker.state
  pub once :
      (t : CircuitBreakerState × CircuitBreakerState → Bool)
      → count t s.breaker.notified + count t (untold s.calls) ≡ count t ns

untold-append :
    (t : CircuitBreakerState × CircuitBreakerState → Bool) (xs ys : List Phase)
    → count t (untold (xs ++ ys)) ≡ count t (untold xs) + count t (untold ys)
untold-append t [] ys = omega arith
untold-append t (x ∷ xs) ys = omega (
  arith,
  untold-append t xs ys,
  count-append {0} t (carried x) (untold (xs ++ ys)),
  count-append {0} t (carried x) (untold xs),
)

-- A step from `b` to `b'` makes the transition `n`, or none, tells the listeners of what `p`
-- carries, and leaves `q` to tell of the rest.
record Moved (b : CircuitBreaker) (p : List Phase) (b' : CircuitBreaker) (q : List Phase)
    (n : Option (CircuitBreakerState × CircuitBreakerState)) : Type 0 where
  follows :
      (ns : List (CircuitBreakerState × CircuitBreakerState))
      → Follows ns b.state
      → Follows (ns ++ log n) b'.state
  once :
      (t : CircuitBreakerState × CircuitBreakerState → Bool)
      → count t b'.notified + count t (untold q)
        ≡ count t b.notified + (count t (untold p) + count t (log n))

told-untold :
    (t : CircuitBreakerState × CircuitBreakerState → Bool)
    (n : Option (CircuitBreakerState × CircuitBreakerState))
    → count t (untold (to_list (told n))) ≡ count t (log n)
told-untold t none = refl
told-untold t (some n) = refl

after_turn-untold :
    (t : CircuitBreakerState × CircuitBreakerState → Bool)
    (n : Option (CircuitBreakerState × CircuitBreakerState))
    → count t (untold (after_turn n ∷ [])) ≡ count t (log n)
after_turn-untold t none = refl
after_turn-untold t (some n) = refl

-- A transaction of a call that carries nothing.
transaction-Moved :
    (b : CircuitBreaker) (r : CircuitBreaker × Option (CircuitBreakerState × CircuitBreakerState))
    (p q : List Phase)
    → Extends b r
    → untold p ≡ []
    → ((t : CircuitBreakerState × CircuitBreakerState → Bool)
        → count t (untold q) ≡ count t (log r.1))
    → Moved b p r.0 q r.1
transaction-Moved b r p q x e h = record {
  follows = x.follows;
  once = λ t. omega (arith, ap (count t) x.quiet, ap (count t) e, h t);
}

tell-Moved :
    (b : CircuitBreaker) (n : CircuitBreakerState × CircuitBreakerState) (p q : List Phase)
    → untold p ≡ n ∷ []
    → untold q ≡ []
    → Moved b p (notify_listeners n.0 n.1 b) q none
tell-Moved b n p q e h = record {
  follows = (stayed-Extends b b refl refl).follows;
  once = λ t. omega (arith, count-append {0} t b.notified (n ∷ []), ap (count t) e, ap (count t) h);
}

Move-Moved :
    {c : CircuitBreakerConfig} {b : CircuitBreaker} {p : Phase} {b' : CircuitBreaker}
    {q : Option Phase} (m : Move c b p b' q)
    → Moved b (p ∷ []) b' (to_list q) (made m)
Move-Moved {b} (check_pending last h) =
    transaction-Moved b _ _ _ (stayed-Extends b b refl refl) refl (λ t. refl)
Move-Moved {b} (check_none h) =
    transaction-Moved b _ _ _ (stayed-Extends b b refl refl) refl (λ t. refl)
Move-Moved {b} (expired last now h) =
    transaction-Moved b _ _ _ (stayed-Extends b b refl refl) refl (λ t. refl)
Move-Moved {b} (not_yet last now h) =
    transaction-Moved b _ _ _ (stayed-Extends b b refl refl) refl (λ t. refl)
Move-Moved {b} turn =
    transaction-Moved b _ _ _ (half_open_transaction-Extends b) refl (λ t. after_turn-untold t _)
Move-Moved (tell_turn n) = tell-Moved _ n _ _ refl refl
Move-Moved {b} (reject h) =
    transaction-Moved b _ _ _ (stayed-Extends b b refl refl) refl (λ t. refl)
Move-Moved {b} (admit_closed h) =
    transaction-Moved b _ _ _ (stayed-Extends b b refl refl) refl (λ t. refl)
Move-Moved {b} (admit_half_open h) =
    transaction-Moved b _ _ _ (stayed-Extends b b refl refl) refl (λ t. refl)
Move-Moved {b} succeed = transaction-Moved b _ _ _ (on_success-Extends b) refl (λ t. refl)
Move-Moved {c} {b} (fail now h) =
    transaction-Moved b _ _ _ (count_failure-Extends b c now) refl (λ t. refl)
Move-Moved {c} {b} (fail_last now h) =
    transaction-Moved b _ _ _ (count_failure-Extends b c now) refl (λ t. refl)
Move-Moved {b} break_circuit =
    transaction-Moved b _ _ _ (open_transaction-Extends b) refl (λ t. told-untold t _)
Move-Moved {c} {b} (recover h) =
    transaction-Moved b _ _ _ (count_success-Extends b c) refl (λ t. refl)
Move-Moved {c} {b} (recover_last h) =
    transaction-Moved b _ _ _ (count_success-Extends b c) refl (λ t. refl)
Move-Moved {b} restore_circuit =
    transaction-Moved b _ _ _ (close_transaction-Extends b) refl (λ t. told-untold t _)
Move-Moved {b} (relapse now) =
    transaction-Moved b _ _ _ (reopen_transaction-Extends b now) refl (λ t. told-untold t _)
Move-Moved (tell n) = tell-Moved _ n _ _ refl refl

insert-Told :
    (s : System) (b : CircuitBreaker) (n : Option (CircuitBreakerState × CircuitBreakerState))
    (ns : List (CircuitBreakerState × CircuitBreakerState)) (before p q after : List Phase)
    → s.calls ≡ before ++ (p ++ after)
    → Moved s.breaker p b q n
    → Told s ns
    → Told (record { breaker = b; calls = before ++ (q ++ after) }) (ns ++ log n)
insert-Told s b n ns before p q after e m h = record {
  follows = m.follows ns h.follows;
  once = λ t. omega (
    arith,
    m.once t,
    h.once t,
    ap (λ calls. count t (untold calls)) e,
    untold-append t before (p ++ after),
    untold-append t p after,
    untold-append t before (q ++ after),
    untold-append t q after,
    count-append {0} t ns (log n),
  );
}

-- However the steps of the calls, `reset` and `trip` included, interleave, the transitions that
-- the transactions made chain up from `closed` to the breaker's state, in the order in which they
-- were made, each an edge of the diagram; and the listeners have been told of each of them once, in
-- whatever order, or a call in flight is still to tell them of it.
pub Reach-Told : {c : CircuitBreakerConfig} {s : System} (r : Reach c s) → Told s (history r)
unfolding create
Reach-Told fresh = record { follows = created-Follows; once = λ t. refl }
Reach-Told (later r enter) = record { follows = (Reach-Told r).follows; once = (Reach-Told r).once }
Reach-Told (later {s} r manual_reset) =
    insert-Told s _ _ _ [] [] _ s.calls refl
      (transaction-Moved s.breaker _ [] _ (reset_transaction-Extends s.breaker) refl
        (λ t. told-untold t _))
      (Reach-Told r)
Reach-Told (later {s} r (manual_trip now)) =
    insert-Told s _ _ _ [] [] _ s.calls refl
      (transaction-Moved s.breaker _ [] _ (trip_transaction-Extends s.breaker now) refl
        (λ t. told-untold t _))
      (Reach-Told r)
Reach-Told (later {s} r (move before after p b q e m)) =
    insert-Told s b _ _ before (p ∷ []) (to_list q) after e (Move-Moved m) (Reach-Told r)
