-- ===== src/Retry/Rounds.antt =====
-- RetryRepeat.kt: which call `repeatUntil` ends with, where the value of a call depends on how many
-- calls came before it, and the number of calls that a `Long` is cut down to.
use arrow_resilience_kit.Base.{
  ℕ, suc, zero, ◌+◌, ◌%◌, ◌≤◌, ◌<◌, ◌≡◌, ◌⊎◌, inl, inr, sym, ap, ◌∙◌, Bool, true, false, Option,
  none, arith, dec_lt, if◌then◌else◌, int_range, int_half, Outcome, returned, thrown, some,
}
use arrow_resilience_kit.Retry.Repeat.{rounds, paused, pause_between, until, repeat_until}

rounds_id : (n : ℕ) → n < int_half → rounds n ≡ n
unfolding rounds
rounds_id n h = ground (arith, h)

rounds_none : (n : ℕ) → int_half ≤ n % int_range → rounds n ≡ 0
unfolding rounds
rounds_none n h = ground (arith, h)

rounds-cases :
    (n r : ℕ) → ((n < int_half) × (r ≡ n)) ⊎ ((int_half ≤ n % int_range) × (r ≡ 0)) → rounds n ≡ r
rounds-cases n r (inl (h, e)) = rounds_id n h ∙ sym e
rounds-cases n r (inr (h, e)) = rounds_none n h ∙ sym e

module _ {R : Type 0} (value : ℕ → R) (condition : R → Bool) where
  -- `some n`: of the first `max` calls, call `n`, from 0, is the first whose value meets the
  -- condition; `none`: none of them meets it.
  unfoldable pub FirstMet : ℕ → Option ℕ → Type 0
  FirstMet max (some n) =
      ((i : ℕ) → i < n → condition (value i) ≡ false) × (condition (value n) ≡ true) × (n < max)
  FirstMet max none = (i : ℕ) → i < max → condition (value i) ≡ false

module _ {E R : Type 0} (value : ℕ → R) (condition : R → Bool) (not_met : E) where
  abbrev pub nth_value : ℕ → ℕ × Outcome E R
  nth_value i = (suc i, returned (value i))

  abbrev pub pass : ℕ → ℕ → ℕ × Option E
  pass d i = (i, none)

  pause_between-pass :
      (continue : ℕ → ℕ × Outcome E R) (max a d i : ℕ)
      → paused nth_value pass continue (pause_between nth_value pass max a d i) ≡ continue i
  unfolding pause_between
  pause_between-pass continue max a d i = ground arith

  until_go :
      (max d a m : ℕ)
      → condition (value a) ≡ false
      → until nth_value pass condition not_met max d a (suc m) a
        ≡ until nth_value pass condition not_met max d (suc a) m (suc a)
  unfolding until
  until_go max d a m h =
      ap
        (λ b.
          if b
          then (suc a, returned (value a))
          else paused nth_value pass (until nth_value pass condition not_met max d (suc a) m)
              (pause_between nth_value pass max a d (suc a)))
        h
      ∙ pause_between-pass (until nth_value pass condition not_met max d (suc a) m) max a d (suc a)

  until_now :
      (max d a n m : ℕ)
      → a ≡ n
      → condition (value n) ≡ true
      → until nth_value pass condition not_met max d a (suc m) a ≡ (suc n, returned (value n))
  unfolding until
  until_now max d a n m e t =
      ap
        (λ b.
          if b
          then (suc a, returned (value a))
          else paused nth_value pass (until nth_value pass condition not_met max d (suc a) m)
              (pause_between nth_value pass max a d (suc a)))
        (ap (λ i. condition (value i)) e ∙ t)
      ∙ ap (λ i. (suc i, returned (value i))) e

  until_met :
      (max d a n m : ℕ)
      → ((i : ℕ) → i < n → condition (value i) ≡ false)
      → condition (value n) ≡ true
      → a ≤ n
      → n < a + m
      → until nth_value pass condition not_met max d a m a ≡ (suc n, returned (value n))
  until_met max d a n zero h t l f = absurd (omega (arith, l, f))
  until_met max d a n (suc m) h t l f = elim (dec_lt a n) [
    | yes b ↦
        until_go max d a m (h a b)
        ∙ until_met max d (suc a) n m h t (omega (arith, b)) (omega (arith, f))
    | no b ↦ until_now max d a n m (omega (arith, b, l)) t
  ]

  until_unmet :
      (max d a m : ℕ)
      → ((i : ℕ) → i < a + m → condition (value i) ≡ false)
      → until nth_value pass condition not_met max d a m a ≡ (a + m, thrown not_met)
  unfolding until
  until_unmet max d a zero h = ap (λ n. (n, thrown not_met)) (omega arith)
  until_unmet max d a (suc m) h =
      until_go max d a m (h a (omega arith))
      ∙ until_unmet max d (suc a) m (λ i l. h i (omega (arith, l)))
      ∙ ap (λ n. (n, thrown not_met)) (omega arith)

  abbrev pub expected : ℕ → Option ℕ → ℕ × Outcome E R
  expected max (some n) = (suc n, returned (value n))
  expected max none = (max, thrown not_met)

  -- Let every call return, and no delay be cancelled, and let `r` be the number of rounds:
  -- `maxAttempts` where that is in the positive range of `Int`, and 0 where its low 32 bits are a
  -- negative `Int`, such as those of 2^31. If call `n`, from 0, is the first whose
  -- value meets the condition and is among the first `r`, `repeatUntil` returns that value after
  -- `n + 1` calls; if no such call meets it, `repeatUntil` throws after `r` calls.
  pub repeat_until-first :
      (max d r : ℕ) (first : Option ℕ)
      → ((max < int_half) × (r ≡ max)) ⊎ ((int_half ≤ max % int_range) × (r ≡ 0))
      → FirstMet value condition r first
      → repeat_until nth_value pass condition not_met max d 0 ≡ expected r first
  unfolding repeat_until FirstMet
  repeat_until-first max d r (some n) cases (h, t, l) =
      ap (λ k. until nth_value pass condition not_met max d 0 k 0) (rounds-cases max r cases)
      ∙ until_met max d 0 n r h t (omega arith) (omega (arith, l))
  repeat_until-first max d r none cases h =
      ap (λ k. until nth_value pass condition not_met max d 0 k 0) (rounds-cases max r cases)
      ∙ until_unmet max d 0 r (λ i l. h i (omega (arith, l)))
      ∙ ap (λ n. (n, thrown not_met)) (omega arith)
