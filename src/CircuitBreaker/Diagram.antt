-- ===== src/CircuitBreaker/Diagram.antt =====
-- The transitions between the states of the breaker (CircuitBreaker.kt, lines 27-33), and the
-- histories of them that the transactions make.
use mathlib.Core.List.{append-nil}
use arrow_resilience_kit.Base.{
  ℕ, true, false, Option, none, some, List, [], ◌∷◌, ◌++◌, ◌≡◌, refl, arith, All, All-append, sym,
  subst, Bool-cases, inl, inr,
}
use arrow_resilience_kit.CircuitBreaker.{
  CircuitBreakerConfig, CircuitBreakerState, closed, opened, half_open, CircuitBreaker, is_closed,
  is_open, is_half_open, reset_transaction, trip_transaction, half_open_transaction, on_success,
  count_failure, open_transaction, count_success, close_transaction, reopen_transaction,
}

-- An edge of the diagram: the four of the documentation, and those of `reset` and `trip`.
pub data Edge : CircuitBreakerState × CircuitBreakerState → Type 0 where
  exceed : Edge (closed, opened)
  expire : Edge (opened, half_open)
  recover : Edge (half_open, closed)
  relapse : Edge (half_open, opened)
  manual : Edge (opened, closed)

ruleset edges = (exceed, expire, recover, relapse, manual)

-- The notifications chain up from `closed` to the state of the breaker.
abbrev pub Chain :
    CircuitBreakerState
    → List (CircuitBreakerState × CircuitBreakerState)
    → CircuitBreakerState
    → Type 0
Chain s [] t = s ≡ t
Chain s (n ∷ ns) t = (n.0 ≡ s) × Chain n.1 ns t

Chain-append :
    (s : CircuitBreakerState) (ns : List (CircuitBreakerState × CircuitBreakerState))
    (t u : CircuitBreakerState)
    → Chain s ns t
    → Chain s (ns ++ (t, u) ∷ []) u
Chain-append s [] t u h = (sym h, refl)
Chain-append s (n ∷ ns) t u h = (h.0, Chain-append n.1 ns t u h.1)

-- A history of transitions that starts at `closed` and ends at `t`, each an edge of the diagram.
pub record Follows (history : List (CircuitBreakerState × CircuitBreakerState))
    (t : CircuitBreakerState) : Type 0 where
  pub legal : All Edge history
  pub chain : Chain closed history t

abbrev pub log :
    Option (CircuitBreakerState × CircuitBreakerState)
    → List (CircuitBreakerState × CircuitBreakerState)
log none = []
log (some n) = n ∷ []

-- A transaction on `b` makes the transition that it gives, or none, and tells no listener.
pub record Extends (b : CircuitBreaker)
    (r : CircuitBreaker × Option (CircuitBreakerState × CircuitBreakerState)) : Type 0 where
  pub follows :
      (history : List (CircuitBreakerState × CircuitBreakerState))
      → Follows history b.state
      → Follows (history ++ log r.1) r.0.state
  pub quiet : r.0.notified ≡ b.notified

moved-Extends :
    (b : CircuitBreaker) (new : CircuitBreakerState) (b' : CircuitBreaker)
    → Edge (b.state, new)
    → b'.state ≡ new
    → b'.notified ≡ b.notified
    → Extends b (b', some (b.state, new))
moved-Extends b new b' e q p = record {
  follows = λ history f. record {
    legal = All-append Edge history ((b.state, new) ∷ []) f.legal (e, tt);
    chain = rw q (Chain-append closed history b.state new f.chain);
  };
  quiet = p;
}

pub stayed-Extends :
    (b b' : CircuitBreaker) → b'.state ≡ b.state → b'.notified ≡ b.notified → Extends b (b', none)
stayed-Extends b b' q p = record {
  follows = λ history f.
      subst (λ h. Follows h b'.state) (sym (append-nil history))
        (subst (Follows history) (sym q) f);
  quiet = p;
}

Edge-from_closed : (s : CircuitBreakerState) → is_closed s ≡ false → Edge (s, closed)
Edge-from_closed closed h = cc
Edge-from_closed opened h = manual
Edge-from_closed half_open h = recover

Edge-to_opened : (s : CircuitBreakerState) → is_open s ≡ false → Edge (s, opened)
Edge-to_opened closed h = exceed
Edge-to_opened opened h = cc
Edge-to_opened half_open h = relapse

Edge-exceed : (s : CircuitBreakerState) → is_closed s ≡ true → Edge (s, opened)
Edge-exceed closed h = exceed
Edge-exceed opened h = cc
Edge-exceed half_open h = cc

Edge-expire : (s : CircuitBreakerState) → is_open s ≡ true → Edge (s, half_open)
Edge-expire closed h = cc
Edge-expire opened h = expire
Edge-expire half_open h = cc

Edge-leave_half_open :
    (s : CircuitBreakerState) → is_half_open s ≡ true → Edge (s, closed) × Edge (s, opened)
Edge-leave_half_open closed h = cc
Edge-leave_half_open opened h = cc
Edge-leave_half_open half_open h = (recover, relapse)

-- `b` is any breaker: a transaction may meet any state, also one that other calls made.
module _ (b : CircuitBreaker) where
  pub open_transaction-Extends : Extends b (open_transaction b)
  open_transaction-Extends = elim (Bool-cases (is_closed b.state)) [
    | inl e ↦ rw e (moved-Extends b opened _ (Edge-exceed b.state e) refl refl)
    | inr e ↦ rw e (stayed-Extends b b refl refl)
  ]

  pub close_transaction-Extends : Extends b (close_transaction b)
  close_transaction-Extends = elim (Bool-cases (is_half_open b.state)) [
    | inl e ↦ rw e (moved-Extends b closed _ (Edge-leave_half_open b.state e).0 refl refl)
    | inr e ↦ rw e (stayed-Extends b b refl refl)
  ]

  pub half_open_transaction-Extends : Extends b (half_open_transaction b)
  half_open_transaction-Extends = elim (Bool-cases (is_open b.state)) [
    | inl e ↦ rw e (moved-Extends b half_open _ (Edge-expire b.state e) refl refl)
    | inr e ↦ rw e (stayed-Extends b b refl refl)
  ]

  pub reopen_transaction-Extends : (now : ℕ) → Extends b (reopen_transaction now b)
  reopen_transaction-Extends now = elim (Bool-cases (is_half_open b.state)) [
    | inl e ↦ rw e (moved-Extends b opened _ (Edge-leave_half_open b.state e).1 refl refl)
    | inr e ↦ rw e (stayed-Extends b b refl refl)
  ]

  pub reset_transaction-Extends : Extends b (reset_transaction b)
  reset_transaction-Extends = elim (Bool-cases (is_closed b.state)) [
    | inl e ↦ rw e (stayed-Extends b _ (ground arith) refl)
    | inr e ↦ rw e (moved-Extends b closed _ (Edge-from_closed b.state e) refl refl)
  ]

  pub trip_transaction-Extends : (now : ℕ) → Extends b (trip_transaction now b)
  trip_transaction-Extends now = elim (Bool-cases (is_open b.state)) [
    | inl e ↦ rw e (stayed-Extends b _ (ground arith) refl)
    | inr e ↦ rw e (moved-Extends b opened _ (Edge-to_opened b.state e) refl refl)
  ]

  pub on_success-Extends : Extends b (on_success b, none)
  unfolding on_success
  on_success-Extends = stayed-Extends b _ (ground arith) (ground arith)

  pub count_failure-Extends :
      (c : CircuitBreakerConfig) (now : ℕ) → Extends b ((count_failure c now b).0, none)
  unfolding count_failure
  count_failure-Extends c now = stayed-Extends b _ refl refl

  pub count_success-Extends : (c : CircuitBreakerConfig) → Extends b ((count_success c b).0, none)
  unfolding count_success
  count_success-Extends c = stayed-Extends b _ refl refl

pub created-Follows : Follows [] closed
created-Follows = record { legal = tt; chain = refl }
