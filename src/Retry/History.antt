-- ===== src/Retry/History.antt =====
-- RetryRepeat.kt: what the result of `retryWithHistory` records.
use arrow_resilience_kit.Base.{
  ℕ, suc, zero, ◌+◌, ◌%◌, ◌≤◌, ◌<◌, ◌≡◌, refl, sym, subst, ◌⊎◌, inl, inr, Bool, true, false, Option,
  none, some, List, [], ◌∷◌, ◌++◌, arith, leb, leb→le, if_elim, length, length-append, All,
  All-append, int_range, long_inc, Outcome, returned, thrown, is_returned,
}
use arrow_resilience_kit.Retry.Recording.{
  AttemptResult, RetryResult, Rest, finish, go_on, add_attempt, record_attempt, history_loop,
  retry_with_history,
}

module _ {E R Δ : Type 0} where
  -- The attempts are numbered from `n`.
  abbrev pub Numbered : ℕ → List (AttemptResult E R Δ) → Type 0
  Numbered n [] = Unit
  Numbered n (a ∷ rest) = (a.attempt_number ≡ n) × Numbered (suc n) rest

  -- Failed attempts and then the one with the final result, which failed only if no retry was left.
  abbrev pub Complete : ℕ → RetryResult E R Δ → Type 0
  Complete retries r =
      (failed : List (AttemptResult E R Δ)) × (last : AttemptResult E R Δ) × (r.attempts
        ≡ failed ++ last ∷ [])
      × (last.result ≡ r.final_result)
      × All (λ a. is_returned a.result ≡ false) failed
      × Numbered 1 r.attempts
      × (length r.attempts ≤ suc retries)
      × ((is_returned r.final_result ≡ true) ⊎ (length r.attempts ≡ suc retries))

  Numbered-append :
      (n : ℕ) (front : List (AttemptResult E R Δ)) (a : AttemptResult E R Δ)
      → Numbered n front
      → a.attempt_number ≡ n + length front
      → Numbered n (front ++ a ∷ [])
  Numbered-append n [] a h e = (omega (arith, e), tt)
  Numbered-append n (x ∷ front) a h e =
      (h.0, Numbered-append (suc n) front a h.1 (omega (arith, e)))

module _ {S E R T Δ : Type 0} (is_cancellation : E → Bool) (block : S → S × Outcome E R)
    (pause : ℕ → S → S × Option E) (now : S → T) (elapsed : T → T → Δ) (scale : ℕ → ℕ)
    (retries : ℕ) where
  -- A loop that ended, with a complete result or a cancellation.
  abbrev pub Ends : Option (S × Outcome E (RetryResult E R Δ)) → Type 0
  Ends none = ⊥
  Ends (some (s, returned r)) = Complete retries r
  Ends (some (s, thrown e)) = is_cancellation e ≡ true

  -- What the recorded attempts of a running loop satisfy before attempt number `n`, from 0.
  abbrev pub Running : ℕ → List (AttemptResult E R Δ) → Type 0
  Running n attempts =
      (length attempts ≡ n) × All (λ a. is_returned a.result ≡ false) attempts × Numbered 1 attempts

  module _ (start : T) (small : suc retries < int_range) where
    attempts_after :
        ℕ → T → S → Outcome E R → List (AttemptResult E R Δ) → List (AttemptResult E R Δ)
    unfolding add_attempt
    attempts_after n t s o attempts =
        add_attempt is_cancellation block pause now elapsed scale retries start n t s o attempts

    attempts_after-Running :
        (n : ℕ) (t : T) (s : S) (e : E) (attempts : List (AttemptResult E R Δ))
        → n ≤ retries
        → Running n attempts
        → Running (suc n) (attempts_after n t s (thrown e) attempts)
    unfolding attempts_after
    attempts_after-Running n t s e attempts l h = (
      omega (arith, h.0, length-append attempts (attempt_of (thrown e) ∷ [])),
      All-append _ attempts (attempt_of (thrown e) ∷ []) h.1 (refl, tt),
      Numbered-append 1 attempts (attempt_of (thrown e)) h.2 (omega (arith, h.0, l, small)),
    )
      where
        attempt_of : Outcome E R → AttemptResult E R Δ
        attempt_of o = record {
          attempt_number = (n + 1) % int_range;
          result = o;
          duration = elapsed t (now s);
        }

    finish-Ends :
        (n : ℕ) (t : T) (s : S) (o : Outcome E R) (attempts : List (AttemptResult E R Δ))
        → n ≤ retries
        → Running n attempts
        → (is_returned o ≡ true) ⊎ (retries ≤ n)
        → Ends (
            finish is_cancellation block pause now elapsed scale retries start s o
              (attempts_after n t s o attempts))
    unfolding finish attempts_after
    finish-Ends n t s o attempts l h final = (
      attempts,
      attempt_of,
      refl,
      refl,
      h.1,
      Numbered-append 1 attempts attempt_of h.2 (omega (arith, h.0, l, small)),
      omega (arith, h.0, l, length-append attempts (attempt_of ∷ [])),
      elim final [
        | inl r ↦ inl r
        | inr m ↦ inr (omega (arith, h.0, l, m, length-append attempts (attempt_of ∷ [])))
      ],
    )
      where
        attempt_of : AttemptResult E R Δ
        attempt_of = record {
          attempt_number = (n + 1) % int_range;
          result = o;
          duration = elapsed t (now s);
        }

    -- The loop from attempt number `n` on ends well.
    Good : Rest is_cancellation block pause now elapsed scale retries start → ℕ → Type 0
    Good continue n =
        (d : ℕ) (attempts : List (AttemptResult E R Δ)) (s : S)
        → Running n attempts
        → Ends (continue n d attempts s)

    long_inc-suc : (n : ℕ) → n < retries → long_inc n ≡ suc n
    unfolding long_inc
    long_inc-suc n l = omega (arith, l, small)

    go_on-Ends :
        (n d : ℕ) (attempts : List (AttemptResult E R Δ))
        (continue : Rest is_cancellation block pause now elapsed scale retries start)
        (p : S × Option E)
        → ((e : E) → p.1 ≡ some e → is_cancellation e ≡ true)
        → n < retries
        → Running (suc n) attempts
        → Good continue (suc n)
        → Ends (
            go_on is_cancellation block pause now elapsed scale retries start n d attempts continue
              p)
    unfolding go_on Good
    go_on-Ends n d attempts continue (s, some e) c l h k = c e refl
    go_on-Ends n d attempts continue (s, none) c l h k =
        subst (λ m. Ends (continue m (scale d) attempts s)) (sym (long_inc-suc n l))
          (k (scale d) attempts s h)

    module _
        (cancelled : (d : ℕ) (s : S) (e : E)
          → (pause d s).1 ≡ some e
          → is_cancellation e ≡ true) where
      record_attempt-Ends :
          (n d : ℕ) (t : T) (attempts : List (AttemptResult E R Δ))
          (continue : Rest is_cancellation block pause now elapsed scale retries start)
          (r : S × Outcome E R)
          → n ≤ retries
          → Running n attempts
          → (n < retries → Good continue (suc n))
          → Ends (
              record_attempt is_cancellation block pause now elapsed scale retries start n d t
                attempts continue r)
      unfolding record_attempt attempts_after
      record_attempt-Ends n d t attempts continue (s, returned v) l h k =
          finish-Ends n t s (returned v) attempts l h (inl refl)
      record_attempt-Ends n d t attempts continue (s, thrown e) l h k =
          if_elim Ends (is_cancellation e) _ _ (λ c. c)
            (λ _.
              if_elim Ends (leb retries n) _ _
                (λ b. finish-Ends n t s (thrown e) attempts l h (inr (leb→le retries n b)))
                (λ b.
                  go_on-Ends n d (attempts_after n t s (thrown e) attempts) continue (pause d s)
                    (cancelled d s) (ground (arith, b))
                    (attempts_after-Running n t s e attempts l h) (k (ground (arith, b)))))

      history_loop-Ends :
          (fuel n d : ℕ) (attempts : List (AttemptResult E R Δ)) (s : S)
          → n ≤ retries
          → retries < n + fuel
          → Running n attempts
          → Ends (
              history_loop is_cancellation block pause now elapsed scale retries start fuel n d
                attempts s)
      unfolding history_loop Good
      history_loop-Ends zero n d attempts s l f h = absurd (omega (arith, l, f))
      history_loop-Ends (suc fuel) n d attempts s l f h =
          record_attempt-Ends n d (now s) attempts
            (history_loop is_cancellation block pause now elapsed scale retries start fuel)
            (block s) l h
            (λ b d' attempts' s' h'.
              history_loop-Ends fuel (suc n) d' attempts' s' (omega (arith, b)) (omega (arith, f))
                h')

-- With fewer than 2^32 - 1 retries, and delays that throw only cancellations, `retryWithHistory`
-- ends. It throws only a cancellation. Otherwise its attempts are numbered from 1, all but the last
-- failed, the last one has the final result, and there are at most `retries + 1`; if the final
-- result is a failure, there are exactly that many.
pub retry_with_history-Complete :
    {S E R T Δ : Type 0} (is_cancellation : E → Bool) (block : S → S × Outcome E R)
    (pause : ℕ → S → S × Option E) (now : S → T) (elapsed : T → T → Δ) (scale : ℕ → ℕ)
    (retries base : ℕ) (s : S)
    → suc retries < int_range
    → ((d : ℕ) (s : S) (e : E) → (pause d s).1 ≡ some e → is_cancellation e ≡ true)
    → Ends is_cancellation block pause now elapsed scale retries
        (retry_with_history is_cancellation block pause now elapsed scale retries base s)
unfolding retry_with_history
retry_with_history-Complete is_cancellation block pause now elapsed scale retries base s small
      cancelled =
    history_loop-Ends is_cancellation block pause now elapsed scale retries (now s) small cancelled
      (suc retries) 0 base [] s (omega arith) (omega arith) (refl, tt, tt)
