-- ===== src/Stm/Window.antt =====
-- stm/StmHelpers.kt, lines 319-365, against the sliding window of RateLimiter.kt.
use arrow_resilience_kit.Base.{
  ℕ, suc, ◌*◌, ◌+◌, ◌≤◌, ◌<◌, inl, inr, Bool-cases, ◌++◌, sym, ◌≡◌, refl, ap, ◌∙◌, Bool, List, [],
  ◌∷◌, arith, ltb, length, keep,
}
use arrow_resilience_kit.Stm.{
  StmRateWindow, create_window, is_active, try_acquire, current_count, reset,
}
use arrow_resilience_kit.SlidingWindow.{
  SlidingWindowConfig, SlidingWindowRateLimiter, is_recent, create,
}
use arrow_resilience_kit.SlidingWindow

-- A transaction at an instant, and what it returns.
pub data Call : Type 0 where
  acquires : ℕ → Call
  counts : ℕ → Call
  resets : Call

pub data Answer : Type 0 where
  allowed : Bool → Answer
  counted : ℕ → Answer
  done : Answer

unfoldable pub call_window : ℕ → Call → StmRateWindow → StmRateWindow × Answer
unfolding try_acquire current_count reset
call_window max_requests (acquires now) w =
    let (w', b) = try_acquire max_requests now w in (w', allowed b)
call_window max_requests (counts now) w = let (w', n) = current_count now w in (w', counted n)
call_window max_requests resets w = (reset w, done)

-- The times of a window are milliseconds, and those of a limiter nanoseconds.
abbrev pub nanoseconds : ℕ → ℕ
nanoseconds ms = ms * 1000000

-- The same on a sliding window limiter, whose clock shows this instant at both readings.
unfoldable pub call_limiter :
    SlidingWindowConfig → Call → SlidingWindowRateLimiter → SlidingWindowRateLimiter × Answer
unfolding SlidingWindow.try_acquire SlidingWindow.current_requests SlidingWindow.reset
call_limiter c (acquires now) w =
    let (w', b) = SlidingWindow.try_acquire c (nanoseconds now) (nanoseconds now) w in
    (w', allowed b)
call_limiter c (counts now) w =
    let (w', n) = SlidingWindow.current_requests c (nanoseconds now) w in (w', counted n)
call_limiter c resets w = (SlidingWindow.reset w, done)

unfoldable pub run_window : ℕ → List Call → StmRateWindow → List Answer
unfolding call_window
run_window max_requests [] w = []
run_window max_requests (x ∷ xs) w =
    let (w', a) = call_window max_requests x w in a ∷ run_window max_requests xs w'

unfoldable pub run_limiter :
    SlidingWindowConfig → List Call → SlidingWindowRateLimiter → List Answer
unfolding call_limiter
run_limiter c [] w = []
run_limiter c (x ∷ xs) w = let (w', a) = call_limiter c x w in a ∷ run_limiter c xs w'

abbrev scaled : List ℕ → List ℕ
scaled [] = []
scaled (t ∷ ts) = nanoseconds t ∷ scaled ts

length-scaled : (ts : List ℕ) → length (scaled ts) ≡ length ts
length-scaled [] = refl
length-scaled (t ∷ ts) = ap suc (length-scaled ts)

scaled-append : (ts : List ℕ) (t : ℕ) → scaled (ts ++ t ∷ []) ≡ scaled ts ++ nanoseconds t ∷ []
scaled-append [] t = refl
scaled-append (u ∷ ts) t = ap (λ us. nanoseconds u ∷ us) (scaled-append ts t)

-- A window of `window_ms` milliseconds keeps what is less old than that, and a limiter what is not
-- older than its window, which is shorter by up to a millisecond.
module _ (c : SlidingWindowConfig) (window_ms : ℕ)
    (long : nanoseconds window_ms ≤ c.window_duration + 1000000)
    (longer : c.window_duration < nanoseconds window_ms) where
  active-recent :
      (now t : ℕ) → is_active window_ms now t ≡ is_recent c (nanoseconds now) (nanoseconds t)
  active-recent now t = ground arith

  keep-scaled :
      (now : ℕ) (ts : List ℕ)
      → keep (is_recent c (nanoseconds now)) (scaled ts)
        ≡ scaled (keep (is_active window_ms now) ts)
  keep-scaled now [] = refl
  keep-scaled now (t ∷ ts) = elim (Bool-cases (is_active window_ms now t)) [
    | inl e ↦ rw (e, sym (active-recent now t) ∙ e, keep-scaled now ts) refl
    | inr e ↦ rw (e, sym (active-recent now t) ∙ e, keep-scaled now ts) refl
  ]

  -- The two hold the same instants.
  record Same (w : StmRateWindow) (l : SlidingWindowRateLimiter) : Type 0 where
    same_requests : l.request_timestamps ≡ scaled w.requests
    same_window : w.window_ms ≡ window_ms

  kept :
      (now : ℕ) (w : StmRateWindow) (l : SlidingWindowRateLimiter)
      → Same w l
      → keep (is_recent c (nanoseconds now)) l.request_timestamps
        ≡ scaled (keep (is_active w.window_ms now) w.requests)
  kept now w l h =
      ap (keep (is_recent c (nanoseconds now))) h.same_requests
      ∙ keep-scaled now w.requests
      ∙ ap (λ n. scaled (keep (is_active n now) w.requests)) (sym h.same_window)

  as_many :
      (now : ℕ) (w : StmRateWindow) (l : SlidingWindowRateLimiter)
      → Same w l
      → length (keep (is_recent c (nanoseconds now)) l.request_timestamps)
        ≡ length (keep (is_active w.window_ms now) w.requests)
  as_many now w l h = ap length (kept now w l h) ∙ length-scaled _

  acquire-Same :
      (now : ℕ) (w : StmRateWindow) (l : SlidingWindowRateLimiter)
      → Same w l
      → ((try_acquire c.max_requests now w).1
          ≡ (SlidingWindow.try_acquire c (nanoseconds now) (nanoseconds now) l).1)
        × Same
            (try_acquire c.max_requests now w).0
            (SlidingWindow.try_acquire c (nanoseconds now) (nanoseconds now) l).0
  unfolding try_acquire SlidingWindow.try_acquire SlidingWindow.do_cleanup_old_requests
  acquire-Same now w l h =
      elim (Bool-cases
        (ltb (length (keep (is_active w.window_ms now) w.requests)) c.max_requests)) [
          | inl e ↦ (
            rw (as_many now w l h, e) refl,
            rw (as_many now w l h, e)
                (record {
                  same_requests =
                      ap (λ ts. ts ++ nanoseconds now ∷ []) (kept now w l h)
                      ∙ sym (scaled-append _ now);
                  same_window = h.same_window;
                }),
          )
          | inr e ↦ (
            rw (as_many now w l h, e) refl,
            rw (as_many now w l h, e)
                (record { same_requests = kept now w l h; same_window = h.same_window }),
          )
        ]

  counts-Same :
      (now : ℕ) (w : StmRateWindow) (l : SlidingWindowRateLimiter)
      → Same w l
      → ((current_count now w).1 ≡ (SlidingWindow.current_requests c (nanoseconds now) l).1)
        × Same (current_count now w).0 (SlidingWindow.current_requests c (nanoseconds now) l).0
  unfolding current_count SlidingWindow.current_requests SlidingWindow.do_cleanup_old_requests
  counts-Same now w l h = (
    sym (as_many now w l h),
    record { same_requests = kept now w l h; same_window = h.same_window },
  )

  call-Same :
      (x : Call) (w : StmRateWindow) (l : SlidingWindowRateLimiter)
      → Same w l
      → ((call_window c.max_requests x w).1 ≡ (call_limiter c x l).1)
        × Same (call_window c.max_requests x w).0 (call_limiter c x l).0
  unfolding call_window call_limiter reset SlidingWindow.reset
  call-Same (acquires now) w l h = let (e, k) = acquire-Same now w l h in (ap allowed e, k)
  call-Same (counts now) w l h = let (e, k) = counts-Same now w l h in (ap counted e, k)
  call-Same resets w l h = (refl, record { same_requests = refl; same_window = h.same_window })

  run-Same :
      (xs : List Call) (w : StmRateWindow) (l : SlidingWindowRateLimiter)
      → Same w l
      → run_window c.max_requests xs w ≡ run_limiter c xs l
  unfolding run_window run_limiter
  run-Same [] w l h = refl
  run-Same (x ∷ xs) w l h = let (e, k) = call-Same x w l h in λ i. e i ∷ run-Same xs _ _ k i

-- On any sequence of transactions, at any instants in milliseconds, a rate window answers as does a
-- sliding window limiter of the same limit, with the same instants on its clock, whose window is
-- shorter than that of the rate window, by a millisecond at most.
pub run_window-eq-run_limiter :
    (c : SlidingWindowConfig) (window_ms : ℕ) (xs : List Call)
    → nanoseconds window_ms ≤ c.window_duration + 1000000
    → c.window_duration < nanoseconds window_ms
    → run_window c.max_requests xs (create_window window_ms) ≡ run_limiter c xs SlidingWindow.create
unfolding create_window SlidingWindow.create
run_window-eq-run_limiter c window_ms xs long longer =
    run-Same c window_ms long longer xs _ _ (record { same_requests = refl; same_window = refl })
