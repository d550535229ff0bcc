-- ===== src/CircuitBreaker/Interleaving/Progress.antt =====
-- No transition is lost when calls overlap: a threshold that has been reached has a call that is
-- about to act on it.
use mathlib.Core.Path.{subst₂}
use arrow_resilience_kit.Base.{
  sym, ap, ◌∙◌, ℕ, ◌+◌, ◌<◌, Bool, true, false, ◌&&◌, List, [], ◌∷◌, ◌++◌, ◌≡◌, ◌==◌, Option, none,
  some, arith, int_half, int_ge, count, count-append,
}
use arrow_resilience_kit.CircuitBreaker.{
  CircuitBreakerConfig, CircuitBreakerState, CircuitBreaker, is_closed, is_half_open, create,
  notify_listeners, reset_transaction, trip_transaction, half_open_transaction, on_success,
  count_failure, open_transaction, count_success, close_transaction, reopen_transaction,
}
use arrow_resilience_kit.CircuitBreaker.Interleaving.{
  Phase, opening, closing, told, after_turn, Move, check_pending, check_none, expired, not_yet,
  turn, tell_turn, reject, admit_closed, admit_half_open, succeed, fail, fail_last, break_circuit,
  recover, recover_last, restore_circuit, relapse, tell, System, to_list, enter, manual_reset,
  manual_trip, move, Reach, fresh, later,
}

abbrev pub is_opening : Phase → Bool
is_opening opening = true
is_opening _ = false

abbrev pub is_closing : Phase → Bool
is_closing closing = true
is_closing _ = false

-- The thresholds are positive `Int`s.
pub record IsValid (c : CircuitBreakerConfig) : Type 0 where
  pub failures_pos : 0 < c.failure_threshold
  pub failures_int : c.failure_threshold < int_half
  pub successes_pos : 0 < c.half_open_success_threshold
  pub successes_int : c.half_open_success_threshold < int_half

-- `o` calls are about to open the circuit, and `k` to close it.
record Kept (c : CircuitBreakerConfig) (b : CircuitBreaker) (o k : ℕ) : Type 0 where
  opens : (is_closed b.state && int_ge b.failure_count c.failure_threshold && o == 0) ≡ false
  closes :
      (is_half_open b.state && int_ge b.success_count c.half_open_success_threshold && k == 0)
      ≡ false

below : (n : ℕ) → 0 < n → n < int_half → int_ge 0 n ≡ false
unfolding int_ge
below n p h = ground arith

nonpositive : (a n : ℕ) → 0 < n → n < int_half → int_ge 0 a ≡ true → int_ge a n ≡ false
unfolding int_ge
nonpositive a n p h e = ground arith

module _ (c : CircuitBreakerConfig) (v : IsValid c) (b : CircuitBreaker) (o k : ℕ) where
  reset_transaction-Kept : Kept c (reset_transaction b).0 o k
  reset_transaction-Kept = ground (
    arith,
    below c.failure_threshold v.failures_pos v.failures_int,
    below c.half_open_success_threshold v.successes_pos v.successes_int,
  )

  trip_transaction-Kept : (now : ℕ) → Kept c (trip_transaction now b).0 o k
  trip_transaction-Kept now = ground arith

  half_open_transaction-Kept : Kept c b o k → Kept c (half_open_transaction b).0 o k
  half_open_transaction-Kept h =
      ground (arith, below c.half_open_success_threshold v.successes_pos v.successes_int)

  on_success-Kept : Kept c b o k → Kept c (on_success b) o k
  unfolding on_success
  on_success-Kept h = ground (arith, below c.failure_threshold v.failures_pos v.failures_int)

  count_failure-Kept :
      (now : ℕ)
      → Kept c b o k
      → (count_failure c now b).1 ≡ false
      → Kept c (count_failure c now b).0 o k
  unfolding count_failure
  count_failure-Kept now h e = ground arith

  count_last_failure-Kept :
      (now n : ℕ) → Kept c b n k → 0 < o → Kept c (count_failure c now b).0 o k
  unfolding count_failure
  count_last_failure-Kept now n h p = ground arith

  open_transaction-Kept : (n : ℕ) → Kept c b n k → Kept c (open_transaction b).0 o k
  open_transaction-Kept n h = ground arith

  count_success-Kept :
      Kept c b o k → (count_success c b).1 ≡ false → Kept c (count_success c b).0 o k
  unfolding count_success
  count_success-Kept h e = ground arith

  count_last_success-Kept : (n : ℕ) → Kept c b o n → 0 < k → Kept c (count_success c b).0 o k
  unfolding count_success
  count_last_success-Kept n h p = ground arith

  close_transaction-Kept : (n : ℕ) → Kept c b o n → Kept c (close_transaction b).0 o k
  close_transaction-Kept n h =
      ground (arith, below c.failure_threshold v.failures_pos v.failures_int)

  reopen_transaction-Kept : (now : ℕ) → Kept c b o k → Kept c (reopen_transaction now b).0 o k
  reopen_transaction-Kept now h = ground arith

-- What a phase adds to the two counts.
abbrev opens_in : List Phase → ℕ
opens_in = count is_opening

abbrev closes_in : List Phase → ℕ
closes_in = count is_closing

notify-Kept :
    {c : CircuitBreakerConfig} {b : CircuitBreaker} (n : CircuitBreakerState × CircuitBreakerState)
    (o k : ℕ)
    → Kept c b o k
    → Kept c (notify_listeners n.0 n.1 b) o k
notify-Kept n o k h = record { opens = h.opens; closes = h.closes }

-- A call that is to tell the listeners of a transition counts in neither.
uncounted :
    {c : CircuitBreakerConfig} {b : CircuitBreaker} (o k : ℕ)
    (n : Option (CircuitBreakerState × CircuitBreakerState))
    → Kept c b (0 + o) (0 + k)
    → Kept c b (opens_in (to_list (told n)) + o) (closes_in (to_list (told n)) + k)
uncounted o k none h = h
uncounted o k (some n) h = h

uncounted_turn :
    {c : CircuitBreakerConfig} {b : CircuitBreaker} (o k : ℕ)
    (n : Option (CircuitBreakerState × CircuitBreakerState))
    → Kept c b (0 + o) (0 + k)
    → Kept c b (opens_in (after_turn n ∷ []) + o) (closes_in (after_turn n ∷ []) + k)
uncounted_turn o k none h = h
uncounted_turn o k (some n) h = h

Move-Kept :
    {c : CircuitBreakerConfig} {b : CircuitBreaker} {p : Phase} {b' : CircuitBreaker}
    {q : Option Phase} (v : IsValid c) (o k : ℕ)
    → Move c b p b' q
    → Kept c b (opens_in (p ∷ []) + o) (closes_in (p ∷ []) + k)
    → Kept c b' (opens_in (to_list q) + o) (closes_in (to_list q) + k)
Move-Kept {c} {b} v o k (check_pending last e) h = h
Move-Kept {c} {b} v o k (check_none e) h = h
Move-Kept {c} {b} v o k (expired last now e) h = h
Move-Kept {c} {b} v o k (not_yet last now e) h = h
Move-Kept {c} {b} v o k turn h = uncounted_turn o k _ (half_open_transaction-Kept c v b _ _ h)
Move-Kept v o k (tell_turn n) h = notify-Kept n _ _ h
Move-Kept {c} {b} v o k (reject e) h = h
Move-Kept {c} {b} v o k (admit_closed e) h = h
Move-Kept {c} {b} v o k (admit_half_open e) h = h
Move-Kept {c} {b} v o k succeed h = on_success-Kept c v b _ _ h
Move-Kept {c} {b} v o k (fail now e) h = count_failure-Kept c v b _ _ now h e
Move-Kept {c} {b} v o k (fail_last now e) h =
    count_last_failure-Kept c v b _ _ now _ h (omega arith)
Move-Kept {c} {b} v o k break_circuit h = uncounted o k _ (open_transaction-Kept c v b _ _ _ h)
Move-Kept {c} {b} v o k (recover e) h = count_success-Kept c v b _ _ h e
Move-Kept {c} {b} v o k (recover_last e) h = count_last_success-Kept c v b _ _ _ h (omega arith)
Move-Kept {c} {b} v o k restore_circuit h = uncounted o k _ (close_transaction-Kept c v b _ _ _ h)
Move-Kept {c} {b} v o k (relapse now) h = uncounted o k _ (reopen_transaction-Kept c v b _ _ now h)
Move-Kept v o k (tell n) h = notify-Kept n _ _ h

count-insert :
    (t : Phase → Bool) (xs ys zs : List Phase)
    → count t (xs ++ (ys ++ zs)) ≡ count t ys + (count t xs + count t zs)
count-insert t xs ys zs = omega (arith, count-append {0} t xs (ys ++ zs), count-append {0} t ys zs)

insert-Kept :
    (c : CircuitBreakerConfig) {b b' : CircuitBreaker} {p : Phase} {q : Option Phase}
    (before after calls : List Phase)
    → IsValid c
    → calls ≡ before ++ p ∷ after
    → Move c b p b' q
    → Kept c b (opens_in calls) (closes_in calls)
    → Kept c b'
        (opens_in (before ++ (to_list q ++ after)))
        (closes_in (before ++ (to_list q ++ after)))
insert-Kept c {b} {b'} {p} {q} before after calls v e m h =
    subst₂ (Kept c b') (sym (count-insert is_opening before (to_list q) after))
      (sym (count-insert is_closing before (to_list q) after))
      (Move-Kept v _ _ m (
        subst₂ (Kept c b) (ap opens_in e ∙ count-insert is_opening before (p ∷ []) after)
          (ap closes_in e ∙ count-insert is_closing before (p ∷ []) after) h))

Reach-Kept :
    {c : CircuitBreakerConfig} {s : System}
    → IsValid c
    → Reach c s
    → Kept c s.breaker (opens_in s.calls) (closes_in s.calls)
unfolding create
Reach-Kept {c} v fresh = ground (arith, below c.failure_threshold v.failures_pos v.failures_int)
Reach-Kept v (later r enter) = Reach-Kept v r
Reach-Kept {c} v (later {s} r manual_reset) =
    subst₂ (Kept c (reset_transaction s.breaker).0)
      (sym (count-insert is_opening [] (to_list (told (reset_transaction s.breaker).1)) s.calls))
      (sym (count-insert is_closing [] (to_list (told (reset_transaction s.breaker).1)) s.calls))
      (uncounted _ _ (reset_transaction s.breaker).1 (reset_transaction-Kept c v s.breaker _ _))
Reach-Kept {c} v (later {s} r (manual_trip now)) =
    subst₂ (Kept c (trip_transaction now s.breaker).0)
      (sym (count-insert is_opening [] (to_list (told (trip_transaction now s.breaker).1)) s.calls))
      (sym (count-insert is_closing [] (to_list (told (trip_transaction now s.breaker).1)) s.calls))
      (uncounted _ _ (trip_transaction now s.breaker).1
        (trip_transaction-Kept c v s.breaker _ _ now))
Reach-Kept {c} v (later {s} r (move before after p b q e m)) =
    insert-Kept c before after s.calls v e m (Reach-Kept v r)

-- Whatever the order of the steps, a closed circuit never has its failure count at the threshold
-- with no call in flight that is about to open it, nor a half-open one its success count at the
-- threshold with no call in flight that is about to close it.
pub none_lost :
    (c : CircuitBreakerConfig) (s : System)
    → IsValid c
    → Reach c s
    → ((is_closed s.breaker.state
          && int_ge s.breaker.failure_count c.failure_threshold
          && count is_opening s.calls == 0)
        ≡ false)
      × ((is_half_open s.breaker.state
            && int_ge s.breaker.success_count c.half_open_success_threshold
            && count is_closing s.calls == 0)
          ≡ false)
none_lost c s v r = ((Reach-Kept v r).opens, (Reach-Kept v r).closes)
