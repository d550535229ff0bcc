-- ===== src/Bulkhead.antt =====
-- Bulkhead.kt, lines 96-354: the bulkhead. `execute` is a chain of transactions with the
-- acquisition of a permit and the block between them; the state has the variables, and `events`
-- records the calls of the listeners. Ints and Longs are bit patterns.
pub mod Interleaving
pub mod Bounds
pub mod Registry
mod Tests
use arrow_resilience_kit.Base.{
  ℕ, ◌+◌, ◌-◌, ◌%◌, int_range, Bool, true, false, ◌&&◌, ◌||◌, Option, none, some, List, [], ◌∷◌,
  ◌++◌, leb, ltb, if◌then◌else◌, int_inc, int_dec, int_lt, long_inc, Outcome, returned, thrown,
}

pub record BulkheadConfig : Type 0 where
  pub max_concurrent_calls : ℕ
  pub max_waiting_calls : ℕ
  pub max_wait_duration : Option ℕ

pub data Event (E : Type 0) : Type 0 where
  on_call_entered on_call_exited on_call_succeeded on_call_rejected : Event E
  on_call_failed : E → Event E

abbrev pub is_positive : Option ℕ → Bool
is_positive none = true
is_positive (some n) = ltb 0 n

-- The `require`s of the constructor, for a `maxWaitingCalls` that is not negative; `none` is the
-- exception.
unfoldable pub create_config : ℕ → ℕ → Option ℕ → Option BulkheadConfig
create_config concurrent waiting wait =
    if ltb 0 concurrent && is_positive wait
    then some (record {
      max_concurrent_calls = concurrent;
      max_waiting_calls = waiting;
      max_wait_duration = wait;
    })
    else none

-- What became of an acquisition: a permit, none in time, or an exception.
pub data Acquired (E : Type 0) : Type 0 where
  permit timeout : Acquired E
  cancelled : E → Acquired E

pub record Bulkhead (E : Type 0) : Type 0 where
  pub active_calls : ℕ
  pub waiting_calls : ℕ
  pub total_calls : ℕ
  pub successful_calls : ℕ
  pub failed_calls : ℕ
  pub rejected_calls : ℕ
  pub events : List (Event E)

unfoldable pub create : {E : Type 0} → Bulkhead E
create = record {
  active_calls = 0;
  waiting_calls = 0;
  total_calls = 0;
  successful_calls = 0;
  failed_calls = 0;
  rejected_calls = 0;
  events = [];
}

-- `BulkheadStatistics`, without the ratio.
pub record BulkheadStatistics : Type 0 where
  pub total_calls : ℕ
  pub successful_calls : ℕ
  pub failed_calls : ℕ
  pub rejected_calls : ℕ
  pub available_capacity : ℕ

module _ {E : Type 0} where
  unfoldable pub statistics : BulkheadConfig → Bulkhead E → BulkheadStatistics
  statistics c s = record {
    total_calls = s.total_calls;
    successful_calls = s.successful_calls;
    failed_calls = s.failed_calls;
    rejected_calls = s.rejected_calls;
    available_capacity = (c.max_concurrent_calls + (int_range - s.active_calls)) % int_range;
  }

  unfoldable pub reset_statistics : Bulkhead E → Bulkhead E
  reset_statistics s = record s {
    total_calls = 0;
    successful_calls = 0;
    failed_calls = 0;
    rejected_calls = 0;
  }

  unfoldable pub can_accept : BulkheadConfig → Bulkhead E → Bool
  can_accept c s =
      int_lt s.active_calls c.max_concurrent_calls || int_lt s.waiting_calls c.max_waiting_calls

  -- The first transaction.
  unfoldable pub queue : BulkheadConfig → Bulkhead E → Bulkhead E × Bool
  unfolding can_accept
  queue c s =
      if can_accept c s
      then (record s { waiting_calls = int_inc s.waiting_calls }, true)
      else (s, false)

  unfoldable pub reject : Bulkhead E → Bulkhead E
  reject s = record s {
    total_calls = long_inc s.total_calls;
    rejected_calls = long_inc s.rejected_calls;
    events = s.events ++ on_call_rejected ∷ [];
  }

  -- No permit within `maxWaitDuration`.
  unfoldable pub give_up : Bulkhead E → Bulkhead E
  give_up s = record s {
    waiting_calls = int_dec s.waiting_calls;
    total_calls = long_inc s.total_calls;
    rejected_calls = long_inc s.rejected_calls;
    events = s.events ++ on_call_rejected ∷ [];
  }

  -- From waiting to active.
  unfoldable pub enter : Bulkhead E → Bulkhead E
  enter s = record s {
    waiting_calls = int_dec s.waiting_calls;
    active_calls = int_inc s.active_calls;
    total_calls = long_inc s.total_calls;
    events = s.events ++ on_call_entered ∷ [];
  }

  unfoldable pub succeed : Bulkhead E → Bulkhead E
  succeed s = record s {
    successful_calls = long_inc s.successful_calls;
    events = s.events ++ on_call_succeeded ∷ [];
  }

  unfoldable pub fail : E → Bulkhead E → Bulkhead E
  fail e s = record s {
    failed_calls = long_inc s.failed_calls;
    events = s.events ++ on_call_failed e ∷ [];
  }

  -- The `finally`: the transaction, and after the release of the permit the notification.
  unfoldable pub leave : Bulkhead E → Bulkhead E
  leave s =
      if int_lt 0 s.active_calls then record s { active_calls = int_dec s.active_calls } else s

  unfoldable pub exit : Bulkhead E → Bulkhead E
  exit s = record s { events = s.events ++ on_call_exited ∷ [] }

  module _ {T : Type 0} (full timed_out : E) where
    unfoldable pub after_block : Bulkhead E × Outcome E T → Bulkhead E × Outcome E T
    unfolding succeed fail leave exit
    after_block (s, returned v) = (exit (leave (succeed s)), returned v)
    after_block (s, thrown e) = (exit (leave (fail e s)), thrown e)

    unfoldable pub with_permit :
        (Bulkhead E → Bulkhead E × Outcome E T) → Bulkhead E × Acquired E → Bulkhead E × Outcome E T
    unfolding enter give_up after_block
    with_permit block (s, permit) = after_block (block (enter s))
    with_permit block (s, timeout) = (give_up s, thrown timed_out)
    with_permit block (s, cancelled e) = (s, thrown e)

    unfoldable pub accepted :
        (Option ℕ → Bulkhead E → Bulkhead E × Acquired E)
        → Option ℕ
        → (Bulkhead E → Bulkhead E × Outcome E T)
        → Bulkhead E × Bool
        → Bulkhead E × Outcome E T
    unfolding with_permit reject
    accepted acquire wait block (s, true) = with_permit block (acquire wait s)
    accepted acquire wait block (s, false) = (reject s, thrown full)

    -- `acquire wait` is the acquisition, within `wait` if there is one; other calls act on the
    -- bulkhead in the meantime, as they do while the block runs.
    unfoldable pub execute :
        BulkheadConfig
        → (Option ℕ → Bulkhead E → Bulkhead E × Acquired E)
        → (Bulkhead E → Bulkhead E × Outcome E T)
        → Bulkhead E
        → Bulkhead E × Outcome E T
    unfolding queue accepted
    execute c acquire block s = accepted acquire c.max_wait_duration block (queue c s)

    -- `is_rejection` tells a `BulkheadFullException` or a `BulkheadTimeoutException`, whoever threw
    -- it.
    unfoldable pub or_else :
        {U : Type 0}
        → (E → Bool)
        → (T → U)
        → (Bulkhead E → Bulkhead E × Outcome E U)
        → Bulkhead E × Outcome E T
        → Bulkhead E × Outcome E U
    or_else is_rejection keep_value fallback (s, returned v) = (s, returned (keep_value v))
    or_else is_rejection keep_value fallback (s, thrown e) =
        if is_rejection e then fallback s else (s, thrown e)

    unfoldable pub try_execute :
        (E → Bool)
        → BulkheadConfig
        → (Option ℕ → Bulkhead E → Bulkhead E × Acquired E)
        → (Bulkhead E → Bulkhead E × Outcome E T)
        → Bulkhead E
        → Bulkhead E × Outcome E (Option T)
    unfolding execute or_else
    try_execute is_rejection c acquire block s =
        or_else is_rejection some (λ s'. (s', returned none)) (execute c acquire block s)

    unfoldable pub execute_or_fallback :
        (E → Bool)
        → BulkheadConfig
        → (Option ℕ → Bulkhead E → Bulkhead E × Acquired E)
        → (Bulkhead E → Bulkhead E × Outcome E T)
        → (Bulkhead E → Bulkhead E × Outcome E T)
        → Bulkhead E
        → Bulkhead E × Outcome E T
    unfolding execute or_else
    execute_or_fallback is_rejection c acquire fallback block s =
        or_else is_rejection (λ v. v) fallback (execute c acquire block s)
