-- ===== src/Retry/Recording.antt =====
-- RetryRepeat.kt, lines 330-406 and 619-672: `retryWithHistory` and its results. `now` reads the
-- clock, `elapsed` is the subtraction of instants, and `scale` the product of a duration with the
-- factor.
use arrow_resilience_kit.Base.{
  ℕ, suc, zero, ◌+◌, ◌%◌, Bool, Option, none, some, List, [], ◌∷◌, ◌++◌, leb, if◌then◌else◌, length,
  int_range, long_inc, Outcome, returned, thrown, is_returned,
}

pub record AttemptResult {ℓ} (E R Δ : Type ℓ) : Type ℓ where
  pub attempt_number : ℕ
  pub result : Outcome E R
  pub duration : Δ

pub record RetryResult {ℓ} (E R Δ : Type ℓ) : Type ℓ where
  pub final_result : Outcome E R
  pub attempts : List (AttemptResult E R Δ)
  pub total_duration : Δ

unfoldable pub is_success {ℓ} : {E R Δ : Type ℓ} → RetryResult E R Δ → Bool
is_success r = is_returned r.final_result

unfoldable pub attempt_count {ℓ} : {E R Δ : Type ℓ} → RetryResult E R Δ → ℕ
attempt_count r = length r.attempts

module _ {ℓ} {S E R T Δ : Type ℓ} (is_cancellation : E → Bool) (block : S → S × Outcome E R)
    (pause : ℕ → S → S × Option E) (now : S → T) (elapsed : T → T → Δ) (scale : ℕ → ℕ) (retries : ℕ)
    (start : T) where
  abbrev pub Recorded : Type ℓ
  Recorded = Option (S × Outcome E (RetryResult E R Δ))

  abbrev pub Rest : Type ℓ
  Rest = ℕ → ℕ → List (AttemptResult E R Δ) → S → Recorded

  unfoldable pub finish : S → Outcome E R → List (AttemptResult E R Δ) → Recorded
  finish s o attempts = some (
    s,
    returned
        (record { final_result = o; attempts = attempts; total_duration = elapsed start (now s) }),
  )

  unfoldable pub go_on : ℕ → ℕ → List (AttemptResult E R Δ) → Rest → S × Option E → Recorded
  go_on attempt delay attempts continue (s, none) =
      continue (long_inc attempt) (scale delay) attempts s
  go_on attempt delay attempts continue (s, some e) = some (s, thrown e)

  unfoldable pub add_attempt :
      ℕ → T → S → Outcome E R → List (AttemptResult E R Δ) → List (AttemptResult E R Δ)
  add_attempt attempt attempt_start s o attempts =
      attempts
      ++ record {
        attempt_number = (attempt + 1) % int_range;
        result = o;
        duration = elapsed attempt_start (now s);
      }
        ∷ []

  unfoldable pub record_attempt :
      ℕ → ℕ → T → List (AttemptResult E R Δ) → Rest → S × Outcome E R → Recorded
  unfolding finish go_on add_attempt
  record_attempt attempt delay attempt_start attempts continue (s, returned v) =
      finish s (returned v) (add_attempt attempt attempt_start s (returned v) attempts)
  record_attempt attempt delay attempt_start attempts continue (s, thrown e) =
      if is_cancellation e
      then some (s, thrown e)
      else if leb retries attempt
      then finish s (thrown e) (add_attempt attempt attempt_start s (thrown e) attempts)
      else go_on attempt delay (add_attempt attempt attempt_start s (thrown e) attempts) continue
          (pause delay s)

  -- `none` is a loop that runs out of fuel.
  unfoldable pub history_loop : ℕ → ℕ → ℕ → List (AttemptResult E R Δ) → S → Recorded
  unfolding record_attempt
  history_loop zero attempt delay attempts s = none
  history_loop (suc fuel) attempt delay attempts s =
      record_attempt attempt delay (now s) attempts (history_loop fuel) (block s)

module _ {ℓ} {S E R T Δ : Type ℓ} (is_cancellation : E → Bool) (block : S → S × Outcome E R)
    (pause : ℕ → S → S × Option E) (now : S → T) (elapsed : T → T → Δ) (scale : ℕ → ℕ) where
  unfoldable pub retry_with_history : ℕ → ℕ → S → Option (S × Outcome E (RetryResult E R Δ))
  unfolding history_loop
  retry_with_history retries base s =
      history_loop is_cancellation block pause now elapsed scale retries (now s) (suc retries) 0
        base [] s
