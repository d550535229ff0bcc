-- ===== src/Retry/Tests.antt =====
-- RetryRepeat.kt: the loops on concrete outcomes, and instances of their theorems.
use arrow_resilience_kit.Base.{
  ℕ, zero, suc, ◌+◌, ◌*◌, ◌-◌, ◌<◌, ◌≡◌, refl, ap, Bool, true, arith, inl, Option, none, some, [],
  ◌∷◌, ltb, lt→ltb, if◌then◌else◌, ◌==◌, Outcome, returned, thrown,
}
use arrow_resilience_kit.Retry.{
  fib_delay, next_fib, retry_if, retry_with_fibonacci, retry_with_capped_backoff,
}
use arrow_resilience_kit.Retry.Loop.{is_retryable, EndsAt, nth_call, retries_end}
use arrow_resilience_kit.Retry.Recording.{retry_with_history}
use arrow_resilience_kit.Retry.History.{Ends, retry_with_history-Complete}
use arrow_resilience_kit.Retry.Repeat.{
  until, rounds, repeat_until, repeat_with_fixed_delay, repeat_fixed, repeat_or_else, or_else,
}
use arrow_resilience_kit.Retry.Rounds.{FirstMet, nth_value, repeat_until-first}

-- 0 is a cancellation; the third call returns.
abbrev is_zero : ℕ → Bool
is_zero e = e == 0

abbrev third : ℕ → Outcome ℕ ℕ
third i = if ltb i 2 then thrown 9 else returned 70

abbrev pass : ℕ → ℕ → ℕ × Option ℕ
pass d i = (i, none)

third_retryable : (i : ℕ) → i < 2 → is_retryable is_zero (λ _. true) (third i) ≡ true
unfolding is_retryable
third_retryable i h =
    ap (λ b. is_retryable {R = ℕ} is_zero (λ _. true) (if b then thrown 9 else returned 70))
      (lt→ltb i 2 h)

third_ends : EndsAt is_zero 5 (λ _. true) third 2
unfolding EndsAt is_retryable
third_ends = (omega arith, third_retryable, inl refl)

retries_end_example :
    (retry_if is_zero (nth_call is_zero third) pass 5 10 (λ _. true) 0 ≡ some (3, returned 70))
    × (retry_with_fibonacci is_zero (nth_call is_zero third) pass 5 10 0 ≡ some (3, returned 70))
    × (retry_with_capped_backoff is_zero (nth_call is_zero third) pass 5 10 30 (λ d. d * 2) 0
        ≡ some (3, returned 70))
retries_end_example =
    retries_end is_zero third 5 10 10 30 (λ d. d * 2) (λ _. true) 2 2 (omega arith) third_ends
      third_ends

-- The delays follow 1, 2, 3, 5, …; the 46th number is negative as an `Int`, which is no delay.
abbrev fib_state : ℕ → ℕ × ℕ
fib_state zero = (1, 1)
fib_state (suc n) = next_fib (fib_state n)

fib_delays :
    fib_delay 10 (1, 1)
      ∷ fib_delay 10 (next_fib (1, 1))
      ∷ fib_delay 10 (next_fib (next_fib (1, 1)))
      ∷ []
    ≡ 10 ∷ 20 ∷ 30 ∷ []
unfolding fib_delay next_fib
fib_delays = refl

fib_delay_wraps : fib_delay 10 (2971215073, 1836311903) ≡ 0
unfolding fib_delay
fib_delay_wraps = refl

retry_with_history-Complete_example :
    Ends {S = ℕ} is_zero
      (nth_call is_zero third)
      pass
      (λ s. s)
      (λ a b. b - a)
      (λ d. d * 2)
      5
      (retry_with_history is_zero
        (nth_call is_zero third)
        pass
        (λ s. s)
        (λ a b. b - a)
        (λ d. d * 2)
        5
        10
        0)
retry_with_history-Complete_example =
    retry_with_history-Complete is_zero (nth_call is_zero third) pass (λ s. s) (λ a b. b - a)
      (λ d. d * 2) 5 10 0 (omega arith) (λ d s e h. absurd (cc h))

abbrev is_three : ℕ → Bool
is_three v = v == 3

abbrev successor : ℕ → ℕ
successor i = i + 1

third_is_first : FirstMet successor is_three 5 (some 2)
unfolding FirstMet
third_is_first = (λ i h. ground (arith, h), refl, omega arith)

repeat_until-first_example :
    repeat_until (nth_value successor is_three 9) pass is_three 9 5 10 0 ≡ (3, returned 3)
repeat_until-first_example =
    repeat_until-first successor is_three 9 5 10 5 (some 2) (inl (omega arith, refl)) third_is_first

abbrev counts : ℕ → ℕ × Outcome ℕ ℕ
counts i = (suc i, returned i)

-- 2^31 attempts are none.
never_called : repeat_until counts pass (λ v. true) 9 2147483648 10 0 ≡ (0, thrown 9)
unfolding repeat_until until rounds
never_called = refl

-- `repeat(times.toInt())` with 2^32 repetitions runs none.
repeat_truncates : repeat_with_fixed_delay counts pass 4294967296 10 0 ≡ (1, returned 0)
unfolding repeat_with_fixed_delay repeat_fixed rounds
repeat_truncates = refl

-- The handler of `repeatOrElse` also gets a cancellation.
repeat_or_else_cancelled :
    repeat_or_else counts (λ d i. (i, some 0)) (λ e attempt i. (i, returned 77)) 3 10 0
    ≡ (1, returned 77)
unfolding repeat_or_else or_else rounds
repeat_or_else_cancelled = refl
