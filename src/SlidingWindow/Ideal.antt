-- ===== src/SlidingWindow/Ideal.antt =====
-- The limiter of RateLimiter.kt, lines 443-625, against an ideal one that forgets no accepted
-- request, and the bound that the ideal one keeps in every window.
use mathlib.Core.List.{append-nil}
use arrow_resilience_kit.Base.{
  sym, ap, ◌∙◌, ℕ, ◌≤◌, Bool, true, false, ◌&&◌, List, [], ◌∷◌, ◌++◌, ◌≡◌, refl, arith, ltb, leb,
  keep, count, count-append, length-keep, if◌then◌else◌,
}
use arrow_resilience_kit.SlidingWindow.{
  SlidingWindowConfig, SlidingWindowRateLimiter, create, is_recent, current_requests, try_acquire,
}

-- A call of `tryAcquire`, with its two clock readings, or of an operation that only cleans up.
pub data Call : Type 0 where
  acquire : ℕ → ℕ → Call
  observe : ℕ → Call

-- The clock does not run backwards, from `a` on.
abbrev pub Ordered : ℕ → List Call → Type 0
Ordered a [] = Unit
Ordered a (acquire at now ∷ calls) = (a ≤ at) × (at ≤ now) × Ordered now calls
Ordered a (observe at ∷ calls) = (a ≤ at) × Ordered at calls

-- The limiter after the calls, and the instants of the requests that it accepted.
unfoldable pub run :
    SlidingWindowConfig
    → List Call
    → SlidingWindowRateLimiter
    → List ℕ
    → SlidingWindowRateLimiter × List ℕ
run c [] w log = (w, log)
run c (acquire at now ∷ calls) w log =
    let (w', acquired) = try_acquire c at now w in
    run c calls w' (if acquired then log ++ now ∷ [] else log)
run c (observe at ∷ calls) w log = run c calls (current_requests c at w).0 log

-- The promise: a request is accepted exactly when fewer than `max_requests` of all the requests
-- ever accepted are still in the window.
abbrev pub ideal : SlidingWindowConfig → List Call → List ℕ → List ℕ
ideal c [] log = log
ideal c (acquire at now ∷ calls) log =
    ideal c calls (if ltb (count (is_recent c at) log) c.max_requests then log ++ now ∷ [] else log)
ideal c (observe at ∷ calls) log = ideal c calls log

-- From `a` on, the limiter remembers every accepted request that a window can still hold.
pub record Remembers (c : SlidingWindowConfig) (a : ℕ) (log : List ℕ) (ts : List ℕ) : Type 0 where
  pub recall : (t : ℕ) → a ≤ t → count (is_recent c t) log ≡ count (is_recent c t) ts

count-keep :
    (c : SlidingWindowConfig) (a t : ℕ) (ts : List ℕ)
    → a ≤ t
    → count (is_recent c t) (keep (is_recent c a) ts) ≡ count (is_recent c t) ts
count-keep c a t [] h = refl
count-keep c a t (s ∷ ts) h = ground (arith, count-keep c a t ts h)

module _ (c : SlidingWindowConfig) (at now : ℕ) (w : SlidingWindowRateLimiter) where
  acquired :
      (try_acquire c at now w).1 ≡ ltb (count (is_recent c at) w.request_timestamps) c.max_requests
  unfolding try_acquire
  acquired = ground (arith, length-keep {0} (is_recent c at) w.request_timestamps)

  timestamps :
      (try_acquire c at now w).0.request_timestamps
      ≡ keep (is_recent c at) w.request_timestamps
        ++ (if (try_acquire c at now w).1 then now ∷ [] else [])
  unfolding try_acquire
  timestamps = ground (arith, append-nil (keep (is_recent c at) w.request_timestamps))

extend :
    (b : Bool) (now : ℕ) (log : List ℕ)
    → (if b then log ++ now ∷ [] else log) ≡ log ++ (if b then now ∷ [] else [])
extend true now log = refl
extend false now log = sym (append-nil log)

module _ (c : SlidingWindowConfig) (a at now : ℕ) (w : SlidingWindowRateLimiter) (log : List ℕ)
    (r : Remembers c a log w.request_timestamps) where
  acquired-ideal :
      a ≤ at → (try_acquire c at now w).1 ≡ ltb (count (is_recent c at) log) c.max_requests
  acquired-ideal h = acquired c at now w ∙ ap (λ n. ltb n c.max_requests) (sym (r.recall at h))

  acquire-Remembers :
      a ≤ at
      → at ≤ now
      → Remembers c now
          (if (try_acquire c at now w).1 then log ++ now ∷ [] else log)
          (try_acquire c at now w).0.request_timestamps
  acquire-Remembers h k = record {
    recall = λ t le.
        rw (extend (try_acquire c at now w).1 now log, timestamps c at now w)
          (omega (
            arith,
            count-append {0} (is_recent c t) log
                (if (try_acquire c at now w).1 then now ∷ [] else []),
            count-append {0} (is_recent c t) (keep (is_recent c at) w.request_timestamps)
                (if (try_acquire c at now w).1 then now ∷ [] else []),
            r.recall t (omega arith),
            count-keep c at t w.request_timestamps (omega arith),
          ));
  }

  observe-Remembers : a ≤ at → Remembers c at log (current_requests c at w).0.request_timestamps
  unfolding current_requests
  observe-Remembers h = record {
    recall =
        λ t le. omega (arith, r.recall t (omega arith), count-keep c at t w.request_timestamps le);
  }

-- On a clock that does not run backwards, a limiter that remembers what windows can still hold
-- accepts exactly the requests that the ideal one accepts.
run-ideal :
    (c : SlidingWindowConfig) (calls : List Call) (a : ℕ) (w : SlidingWindowRateLimiter)
    (log : List ℕ)
    → Ordered a calls
    → Remembers c a log w.request_timestamps
    → (run c calls w log).1 ≡ ideal c calls log
unfolding run
run-ideal c [] a w log o r = refl
run-ideal c (acquire at now ∷ calls) a w log o r =
    rw (← acquired-ideal c a at now w log r o.0)
      (run-ideal c calls now _ _ o.2 (acquire-Remembers c a at now w log r o.0 o.1))
run-ideal c (observe at ∷ calls) a w log o r =
    run-ideal c calls at _ log o.1 (observe-Remembers c a at at w log r o.0)

-- At most `max_requests` of the logged instants lie in the window that ends at `t`.
abbrev pub in_window : SlidingWindowConfig → ℕ → ℕ → Bool
in_window c t s = leb s t && is_recent c t s

in_window-le :
    (c : SlidingWindowConfig) (t : ℕ) (log : List ℕ)
    → count (in_window c t) log ≤ count (is_recent c t) log
in_window-le c t [] = omega arith
in_window-le c t (s ∷ log) = ground (arith, in_window-le c t log)

recent-le :
    (c : SlidingWindowConfig) (a t : ℕ) (log : List ℕ)
    → a ≤ t
    → count (is_recent c t) log ≤ count (is_recent c a) log
recent-le c a t [] h = omega arith
recent-le c a t (s ∷ log) h = ground (arith, recent-le c a t log h)

record Bounded (c : SlidingWindowConfig) (log : List ℕ) : Type 0 where
  bound : (t : ℕ) → count (in_window c t) log ≤ c.max_requests

acquire-Bounded :
    (c : SlidingWindowConfig) (at now : ℕ) (log : List ℕ)
    → at ≤ now
    → Bounded c log
    → Bounded c (if ltb (count (is_recent c at) log) c.max_requests then log ++ now ∷ [] else log)
acquire-Bounded c at now log h v = record {
  bound = λ t. ground (
    arith,
    v.bound t,
    count-append {0} (in_window c t) log (now ∷ []),
    in_window-le c t log,
    recent-le c at t log,
  );
}

ideal-Bounded :
    (c : SlidingWindowConfig) (calls : List Call) (a : ℕ) (log : List ℕ)
    → Ordered a calls
    → Bounded c log
    → Bounded c (ideal c calls log)
ideal-Bounded c [] a log o v = v
ideal-Bounded c (acquire at now ∷ calls) a log o v =
    ideal-Bounded c calls now _ o.2 (acquire-Bounded c at now log o.1 v)
ideal-Bounded c (observe at ∷ calls) a log o v = ideal-Bounded c calls at log o.1 v

create-Remembers : (c : SlidingWindowConfig) → Remembers c 0 [] create.request_timestamps
unfolding create
create-Remembers c = record { recall = λ t h. refl }

-- On a clock that does not run backwards, a new limiter accepts exactly the requests that the ideal
-- limiter accepts, which forgets none: those with fewer than `maxRequests` accepted requests in the
-- window.
pub run-eq-ideal :
    (c : SlidingWindowConfig) (calls : List Call)
    → Ordered 0 calls
    → (run c calls create []).1 ≡ ideal c calls []
run-eq-ideal c calls o = run-ideal c calls 0 create [] o (create-Remembers c)

-- On a clock that does not run backwards, no window of the configured length, wherever it ends,
-- holds more than `maxRequests` of the requests that a new limiter accepts.
pub run_bounded :
    (c : SlidingWindowConfig) (calls : List Call) (t : ℕ)
    → Ordered 0 calls
    → count (in_window c t) (run c calls create []).1 ≤ c.max_requests
run_bounded c calls t o =
    rw (run-eq-ideal c calls o)
      ((ideal-Bounded c calls 0 [] o (record { bound = λ u. omega arith })).bound t)
