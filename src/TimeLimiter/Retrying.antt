-- ===== src/TimeLimiter/Retrying.antt =====
-- TimeLimiter.kt, lines 286-309: `executeWithRetry`.
use arrow_resilience_kit.Base.{
  ℕ, suc, zero, ◌+◌, ◌≤◌, ◌<◌, ◌≡◌, refl, sym, ap, ◌∙◌, ◌⊎◌, inl, inr, Bool, true, false, Option,
  none, some, arith, if◌then◌else◌, int_inc, int_ge, int_half, int_ge-leb, le→leb, lt→leb_false,
  Bool-cases, Outcome, returned, thrown,
}
use arrow_resilience_kit.TimeLimiter.{
  TimeLimiter, retry_after, retry_loop, execute_with_retry, last_of,
}

module _ {E T : Type 0} (is_timeout : E → Bool) where
  unfoldable pub ends_in_timeout : Outcome E T → Bool
  ends_in_timeout (returned v) = false
  ends_in_timeout (thrown e) = is_timeout e

  module _ (run : TimeLimiter E → TimeLimiter E × Outcome E T) where
    -- `n` executions one after the other, all of which time out.
    pub data Timeouts : ℕ → TimeLimiter E → TimeLimiter E → Type 0 where
      no_more : {s : TimeLimiter E} → Timeouts 0 s s
      then_out :
          {n : ℕ} {s s' : TimeLimiter E}
          → ends_in_timeout (run s).1 ≡ true
          → Timeouts n (run s).0 s'
          → Timeouts (suc n) s s'

    module _ (null_pointer : E) (retries : ℕ) (small : suc retries < int_half) where
      Loop : Type 0
      Loop = Option E → TimeLimiter E → Option (TimeLimiter E × Outcome E T)

      retry_after_again :
          (continue : Option E → TimeLimiter E → Option (TimeLimiter E × Outcome E T))
          (r : TimeLimiter E × Outcome E T)
          → ends_in_timeout r.1 ≡ true
          → (e : E) × (r.1 ≡ thrown e)
            × (retry_after is_timeout run null_pointer retries continue r ≡ continue (some e) r.0)
      unfolding retry_after ends_in_timeout
      retry_after_again continue (s, returned v) h = absurd (cc h)
      retry_after_again continue (s, thrown e) h =
          (e, refl, ap (λ b. if b then continue (some e) s else some (s, thrown e)) h)

      retry_after_final :
          (continue : Option E → TimeLimiter E → Option (TimeLimiter E × Outcome E T))
          (r : TimeLimiter E × Outcome E T)
          → ends_in_timeout r.1 ≡ false
          → retry_after is_timeout run null_pointer retries continue r ≡ some r
      unfolding retry_after ends_in_timeout
      retry_after_final continue (s, returned v) h = refl
      retry_after_final continue (s, thrown e) h =
          ap (λ b. if b then continue (some e) s else some (s, thrown e)) h

      int_inc-suc : (a : ℕ) → a ≤ retries → int_inc a ≡ suc a
      unfolding int_inc
      int_inc-suc a l = omega (arith, l, small)

      int_ge_in : (a : ℕ) → a ≤ retries → int_ge retries a ≡ true
      int_ge_in a l =
          int_ge-leb retries a (omega (arith, small)) (omega (arith, small, l)) ∙ le→leb a retries l

      int_ge_out : int_ge retries (suc retries) ≡ false
      int_ge_out =
          int_ge-leb retries (suc retries) (omega (arith, small)) small
          ∙ lt→leb_false (suc retries) retries (omega arith)

      retry_loop_in :
          (fuel a : ℕ) (last : Option E) (s : TimeLimiter E)
          → a ≤ retries
          → retry_loop is_timeout run null_pointer retries (suc fuel) a last s
            ≡ retry_after is_timeout run null_pointer retries
                (retry_loop is_timeout run null_pointer retries fuel (suc a))
                (run s)
      unfolding retry_loop
      retry_loop_in fuel a last s l =
          ap
            (λ b.
              if b
              then retry_after is_timeout run null_pointer retries
                  (retry_loop is_timeout run null_pointer retries fuel (int_inc a)) (run s)
              else some (s, thrown (last_of is_timeout run null_pointer retries last)))
            (int_ge_in a l)
          ∙ ap
              (λ i.
                retry_after is_timeout run null_pointer retries
                  (retry_loop is_timeout run null_pointer retries fuel i) (run s))
              (int_inc-suc a l)

      retry_loop_out :
          (fuel : ℕ) (e : E) (s : TimeLimiter E)
          → retry_loop is_timeout run null_pointer retries (suc fuel) (suc retries) (some e) s
            ≡ some (s, thrown e)
      unfolding retry_loop
      retry_loop_out fuel e s =
          ap
            (λ b.
              if b
              then retry_after is_timeout run null_pointer retries
                  (retry_loop is_timeout run null_pointer retries fuel (int_inc (suc retries)))
                  (run s)
              else some (s, thrown e))
            int_ge_out

      -- The last execution that the loop makes.
      last_run :
          (fuel a : ℕ) (s : TimeLimiter E)
          → a ≤ retries
          → suc retries < a + suc fuel
          → (ends_in_timeout (run s).1 ≡ false) ⊎ (a ≡ retries)
          → retry_after is_timeout run null_pointer retries
              (retry_loop is_timeout run null_pointer retries fuel (suc a))
              (run s)
            ≡ some (run s)
      last_run fuel a s l f (inl b) =
          retry_after_final (retry_loop is_timeout run null_pointer retries fuel (suc a)) (run s) b
      last_run zero a s l f (inr q) = absurd (omega (arith, f, q))
      last_run (suc fuel) a s l f (inr q) = elim (Bool-cases (ends_in_timeout (run s).1)) [
        | inr b ↦
            retry_after_final (retry_loop is_timeout run null_pointer retries (suc fuel) (suc a))
              (run s) b
        | inl b ↦
            let (e, p, again) =
              retry_after_again (retry_loop is_timeout run null_pointer retries (suc fuel) (suc a))
                (run s) b in
            again
            ∙ ap
                (λ i.
                  retry_loop is_timeout run null_pointer retries (suc fuel) (suc i) (some e)
                    (run s).0)
                q
            ∙ retry_loop_out fuel e (run s).0
            ∙ ap (λ o. some ((run s).0, o)) (sym p)
      ]

      retry_loop_ends :
          (fuel a : ℕ) (last : Option E) {n : ℕ} {s s' : TimeLimiter E}
          → Timeouts n s s'
          → a + n ≤ retries
          → suc retries < a + fuel
          → (ends_in_timeout (run s').1 ≡ false) ⊎ (a + n ≡ retries)
          → retry_loop is_timeout run null_pointer retries fuel a last s ≡ some (run s')
      retry_loop_ends zero a last t l f h = absurd (omega (arith, l, f))
      retry_loop_ends (suc fuel) a last {s = s} no_more l f h =
          retry_loop_in fuel a last s (omega (arith, l))
          ∙ last_run fuel a s (omega (arith, l)) f
              (elim h [ inl b ↦ inl b | inr e ↦ inr (omega (arith, e)) ])
      retry_loop_ends (suc fuel) a last {s = s} (then_out b t) l f h =
          let (e, _, again) =
            retry_after_again (retry_loop is_timeout run null_pointer retries fuel (suc a)) (run s)
              b in
          retry_loop_in fuel a last s (omega (arith, l))
          ∙ again
          ∙ retry_loop_ends fuel (suc a) (some e) t (omega (arith, l)) (omega (arith, f))
              (elim h [ inl b ↦ inl b | inr e ↦ inr (omega (arith, e)) ])

  -- With fewer than 2^31 - 1 retries: if `n` executions in a row time out, `n` at most `retries`,
  -- and the next one does not, or is the last allowed, `executeWithRetry` ends as that one does,
  -- with no other execution.
  pub execute_with_retry-ends :
      (run : TimeLimiter E → TimeLimiter E × Outcome E T) (null_pointer : E) (retries n : ℕ)
      (s s' : TimeLimiter E)
      → suc retries < int_half
      → Timeouts run n s s'
      → n ≤ retries
      → (ends_in_timeout (run s').1 ≡ false) ⊎ (n ≡ retries)
      → execute_with_retry is_timeout run null_pointer retries s ≡ some (run s')
  unfolding execute_with_retry
  execute_with_retry-ends run null_pointer retries n s s' small t l h =
      retry_loop_ends run null_pointer retries small (suc (suc retries)) 0 none t (omega (arith, l))
        (omega arith) (elim h [ inl b ↦ inl b | inr e ↦ inr (omega (arith, e)) ])
