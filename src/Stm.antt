-- ===== src/Stm.antt =====
-- stm/StmHelpers.kt and stm/StmExtensions.kt: small shared objects over transactional variables.
-- Each operation is a function on the value of the variables, which runs inside a transaction. Ints
-- and Longs are bit patterns; instants are natural numbers, and their differences do not overflow.
mod Tests
pub mod Permits
pub mod Window
use mathlib.Core.Logic.{ite}
use arrow_resilience_kit.Base.{
  ℕ, ◌+◌, ◌-◌, ◌%◌, Bool, true, false, List, [], ◌∷◌, ◌++◌, ltb, length, keep, if◌then◌else◌,
  int_lt, int_inc, int_dec, long_inc, long_range,
}

-- `StmCounter`: the operations return the new value, which is the state.
unfoldable pub increment : ℕ → ℕ
increment v = long_inc v

unfoldable pub decrement : ℕ → ℕ
decrement v = (v + (long_range - 1)) % long_range

unfoldable pub add : ℕ → ℕ → ℕ
add amount v = (v + amount) % long_range

unfoldable pub set : ℕ → ℕ → ℕ
set value v = value

pub record StmGauge (D : Type 0) : Type 0 where
  pub value : D
  pub min : D
  pub max : D

module _ {D : Type 0} where
  unfoldable pub create_gauge : D → StmGauge D
  create_gauge initial = record { value = initial; min = initial; max = initial }

  -- `lt` is `<` on Doubles.
  unfoldable pub set_gauge : (D → D → Bool) → D → StmGauge D → StmGauge D
  set_gauge lt value g = record {
    value = value;
    min = if lt value g.min then value else g.min;
    max = if lt g.max value then value else g.max;
  }

module _ {ℓ} {S : Type ℓ} (dec : Discrete S) where
  -- `transitionIf` of `StmStateMachine`.
  unfoldable pub transition_if : S → S → S → S × Bool
  transition_if from to current = ite (dec current from) (to, true) (current, false)

  -- `compareAndSet`
  unfoldable pub compare_and_set : S → S → S → S × Bool
  compare_and_set expected new current = ite (dec current expected) (new, true) (current, false)

module _ {ℓ} {A : Type ℓ} where
  unfoldable pub transition : A → A → A
  transition to current = to

  unfoldable pub modify : (A → A) → A → A × A
  modify f current = let new = f current in (new, new)

  unfoldable pub get_and_set : A → A → A × A
  get_and_set value old = (value, old)

pub record StmSemaphore : Type 0 where
  pub permits : ℕ
  pub max_permits : ℕ

unfoldable pub create_semaphore : ℕ → StmSemaphore
create_semaphore permits = record { permits = permits; max_permits = permits }

unfoldable pub acquire : StmSemaphore → StmSemaphore × Bool
acquire s =
    if int_lt 0 s.permits then (record s { permits = int_dec s.permits }, true) else (s, false)

unfoldable pub release : StmSemaphore → StmSemaphore
release s = if int_lt s.permits s.max_permits then record s { permits = int_inc s.permits } else s

pub record StmRateWindow : Type 0 where
  pub requests : List ℕ
  pub window_ms : ℕ

unfoldable pub create_window : ℕ → StmRateWindow
create_window window = record { requests = []; window_ms = window }

-- `nowMs - it < windowMs`, over the integers.
abbrev pub is_active : ℕ → ℕ → ℕ → Bool
is_active window now it = ltb now (it + window)

unfoldable pub try_acquire : ℕ → ℕ → StmRateWindow → StmRateWindow × Bool
try_acquire max_requests now w =
    let requests = keep (is_active w.window_ms now) w.requests in
    if ltb (length requests) max_requests
    then (record w { requests = requests ++ now ∷ [] }, true)
    else (record w { requests = requests }, false)

unfoldable pub current_count : ℕ → StmRateWindow → StmRateWindow × ℕ
current_count now w =
    let requests = keep (is_active w.window_ms now) w.requests in
    (record w { requests = requests }, length requests)

unfoldable pub reset : StmRateWindow → StmRateWindow
reset w = record w { requests = [] }
