-- ===== src/Retry/Repeat.antt =====
-- RetryRepeat.kt, lines 434-581 and 730-798: the repetitions. `repeat(n.toInt())` runs its body for
-- the indices below the `Int` with the low 32 bits of `n`, and not at all if that is negative.
use arrow_resilience_kit.Base.{
  ℕ, suc, zero, ◌+◌, ◌%◌, Bool, Option, none, some, List, [], ◌∷◌, ◌++◌, ltb, if◌then◌else◌,
  int_range, int_half, Outcome, returned, thrown,
}

-- How often the body of `repeat(n.toInt())` runs.
unfoldable pub rounds : ℕ → ℕ
rounds n = if ltb (n % int_range) int_half then n % int_range else 0

module _ {ℓ} {S E R : Type ℓ} (block : S → S × Outcome E R) (pause : ℕ → S → S × Option E) where
  abbrev pub paused : {A : Type ℓ} → (S → S × Outcome E A) → S × Option E → S × Outcome E A
  paused continue (s, none) = continue s
  paused continue (s, some e) = (s, thrown e)

  abbrev pub with_result :
      {A : Type ℓ} → (R → S → S × Outcome E A) → S × Outcome E R → S × Outcome E A
  with_result continue (s, returned v) = continue v s
  with_result continue (s, thrown e) = (s, thrown e)

  -- `result` is the value of the last call.
  unfoldable pub repeat_fixed : ℕ → ℕ → R → S → S × Outcome E R
  repeat_fixed zero delay result s = (s, returned result)
  repeat_fixed (suc n) delay result s =
      paused (λ s'. with_result (repeat_fixed n delay) (block s')) (pause delay s)

  unfoldable pub repeat_with_fixed_delay : ℕ → ℕ → S → S × Outcome E R
  unfolding repeat_fixed rounds
  repeat_with_fixed_delay times delay s = with_result (repeat_fixed (rounds times) delay) (block s)

  unfoldable pub repeat_exponential : (ℕ → ℕ) → ℕ → ℕ → R → S → S × Outcome E R
  repeat_exponential scale zero delay result s = (s, returned result)
  repeat_exponential scale (suc n) delay result s =
      paused (λ s'. with_result (repeat_exponential scale n (scale delay)) (block s'))
        (pause delay s)

  unfoldable pub repeat_with_exponential_backoff : (ℕ → ℕ) → ℕ → ℕ → S → S × Outcome E R
  unfolding repeat_exponential rounds
  repeat_with_exponential_backoff scale times base s =
      with_result (repeat_exponential scale (rounds times) base) (block s)

  unfoldable pub collect : ℕ → ℕ → List R → S → S × Outcome E (List R)
  collect zero delay results s = (s, returned results)
  collect (suc n) delay results s =
      paused (λ s'. with_result (λ v. collect n delay (results ++ v ∷ [])) (block s'))
        (pause delay s)

  unfoldable pub repeat_and_collect : ℕ → ℕ → S → S × Outcome E (List R)
  unfolding collect rounds
  repeat_and_collect times delay s =
      with_result (λ v. collect (rounds times) delay (v ∷ [])) (block s)

  -- `delay` between two attempts, when this is not the last one that `maxAttempts` allows.
  unfoldable pub pause_between : ℕ → ℕ → ℕ → S → S × Option E
  pause_between max attempt delay s = if ltb (attempt + 1) max then pause delay s else (s, none)

  unfoldable pub until : (R → Bool) → E → ℕ → ℕ → ℕ → ℕ → S → S × Outcome E R
  unfolding pause_between
  until condition not_met max delay attempt zero s = (s, thrown not_met)
  until condition not_met max delay attempt (suc n) s =
      let rest = until condition not_met max delay (suc attempt) n in
      with_result
        (λ v s'.
          if condition v
          then (s', returned v)
          else paused rest (pause_between max attempt delay s'))
        (block s)

  -- `not_met` is the `IllegalStateException` at the end.
  unfoldable pub repeat_until : (R → Bool) → E → ℕ → ℕ → S → S × Outcome E R
  unfolding until rounds
  repeat_until condition not_met max_attempts delay s =
      until condition not_met max_attempts delay 0 (rounds max_attempts) s

  unfoldable pub while_holds : (R → Bool) → ℕ → ℕ → ℕ → ℕ → List R → S → S × Outcome E (List R)
  unfolding pause_between
  while_holds predicate max delay attempt zero results s = (s, returned results)
  while_holds predicate max delay attempt (suc n) results s =
      let rest = while_holds predicate max delay (suc attempt) n in
      with_result
        (λ v s'.
          if predicate v
          then paused (rest (results ++ v ∷ [])) (pause_between max attempt delay s')
          else (s', returned (results ++ v ∷ [])))
        (block s)

  unfoldable pub repeat_while : (R → Bool) → ℕ → ℕ → S → S × Outcome E (List R)
  unfolding while_holds rounds
  repeat_while predicate max_attempts delay s =
      while_holds predicate max_attempts delay 0 (rounds max_attempts) [] s

  -- The handler of `repeatOrElse` gets every exception of a delay or a call after the first.
  module _ (on_error : E → ℕ → S → S × Outcome E R) where
    abbrev pub handled : ℕ → S × Outcome E R → (R → S → S × Outcome E R) → S × Outcome E R
    handled attempt (s, returned v) continue = continue v s
    handled attempt (s, thrown e) continue = on_error e attempt s

    unfoldable pub or_else : ℕ → ℕ → ℕ → R → S → S × Outcome E R
    or_else zero delay attempt result s = (s, returned result)
    or_else (suc n) delay attempt result s =
        handled (suc attempt) (paused block (pause delay s)) (or_else n delay (suc attempt))

    unfoldable pub repeat_or_else : ℕ → ℕ → S → S × Outcome E R
    unfolding or_else rounds
    repeat_or_else times delay s = with_result (or_else (rounds times) delay 0) (block s)
