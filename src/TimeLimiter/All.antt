-- ===== src/TimeLimiter/All.antt =====
-- TimeLimiter.kt, lines 321-333: `executeAll`. The calls of `executeOrNull` run as coroutines: a
-- turn of a call is its first transaction, or its block with what follows it. A block ends, within
-- the timeout or at it, after the milliseconds and with the outcome that are given for it, and
-- leaves the limiter alone.
pub mod Order
pub mod Totals
pub mod Results
use arrow_resilience_kit.Base.{
  ℕ, zero, suc, Option, none, some, List, [], ◌∷◌, Outcome, returned, thrown,
}
use arrow_resilience_kit.TimeLimiter.{
  TimeLimiterConfig, TimeLimiter, begin, after_or_null, effective_timeout,
}

pub data Phase (E T : Type 0) : Type 0 where
  waiting in_flight : Phase E T
  ended : Outcome E (Option T) → Phase E T

-- The milliseconds and the outcome of `withTimeoutOrNull`, and where the call is.
pub record Call (E T : Type 0) : Type 0 where
  pub ms : ℕ
  pub outcome : Outcome E (Option T)
  pub phase : Phase E T

module _ {E T : Type 0} where
  unfoldable pub start : List (ℕ × Outcome E (Option T)) → List (Call E T)
  start [] = []
  start ((ms, o) ∷ blocks) = record { ms = ms; outcome = o; phase = waiting } ∷ start blocks

  -- The results in the order of the blocks, with null for a timeout; `none` while one has not
  -- ended, or where one has thrown.
  abbrev pub and_await : Phase E T → Option (List (Option T)) → Option (List (Option T))
  and_await (ended (returned v)) (some vs) = some (v ∷ vs)
  and_await _ _ = none

  unfoldable pub await_all : List (Call E T) → Option (List (Option T))
  await_all [] = some []
  await_all (x ∷ calls) = and_await x.phase (await_all calls)

  module _ (timeout : ℕ) where
    abbrev pub take_turn : Call E T → Phase E T → TimeLimiter E → TimeLimiter E × Phase E T
    take_turn x waiting s = (begin s, in_flight)
    take_turn x in_flight s =
        let (s', o) = after_or_null timeout x.ms (s, x.outcome) in (s', ended o)
    take_turn x (ended o) s = (s, ended o)

    unfoldable pub turn : Call E T → TimeLimiter E → TimeLimiter E × Call E T
    unfolding begin after_or_null
    turn x s = let (s', p) = take_turn x x.phase s in (s', record x { phase = p })

    unfoldable pub turn_at : ℕ → TimeLimiter E → List (Call E T) → TimeLimiter E × List (Call E T)
    unfolding turn
    turn_at i s [] = (s, [])
    turn_at zero s (x ∷ calls) = let (s', x') = turn x s in (s', x' ∷ calls)
    turn_at (suc i) s (x ∷ calls) = let (s', calls') = turn_at i s calls in (s', x ∷ calls')

    unfoldable pub interleave :
        List ℕ → TimeLimiter E → List (Call E T) → TimeLimiter E × List (Call E T)
    unfolding turn_at
    interleave [] s calls = (s, calls)
    interleave (i ∷ order) s calls =
        let (s', calls') = turn_at i s calls in interleave order s' calls'

  -- With the turns in this order. Where a block throws, the scope cancels the other calls and
  -- throws: that is left out, and there is no result.
  unfoldable pub execute_all :
      TimeLimiterConfig
      → Option ℕ
      → List ℕ
      → List (ℕ × Outcome E (Option T))
      → TimeLimiter E
      → TimeLimiter E × Option (List (Option T))
  unfolding effective_timeout interleave start await_all
  execute_all c timeout order blocks s =
      let (s', calls) = interleave (effective_timeout c timeout) order s (start blocks) in
      (s', await_all calls)
