-- ===== src/Base/Word.antt =====
-- Kotlin's `Int` and `Long` as bit patterns below 2^32 and 2^64: additions wrap, and an order test
-- on `Int` is that of two's complement, an order of the patterns with the sign bit flipped.
use Prim.Native.Nat.{ℕ, ◌+◌, ◌-◌, ◌%◌, ◌<◌}
use mathlib.Core.Path.{◌≡◌}
use mathlib.Core.Bool.{Bool}
use native.Mathlib.Omega.{arith}
use arrow_resilience_kit.Base.Test.{ltb, leb}

abbrev pub int_range : ℕ
int_range = 4294967296

abbrev pub int_half : ℕ
int_half = 2147483648

abbrev pub long_range : ℕ
long_range = 18446744073709551616

-- `x + 1` on an `Int`, and on a `Long`.
unfoldable pub int_inc : ℕ → ℕ
int_inc n = (n + 1) % int_range

unfoldable pub long_inc : ℕ → ℕ
long_inc n = (n + 1) % long_range

-- `x - 1` on an `Int`.
unfoldable pub int_dec : ℕ → ℕ
int_dec n = (n + (int_range - 1)) % int_range

-- `a >= b` on `Int`s.
unfoldable pub int_ge : ℕ → ℕ → Bool
int_ge a b = leb ((b + int_half) % int_range) ((a + int_half) % int_range)

-- `a < b` on `Int`s.
unfoldable pub int_lt : ℕ → ℕ → Bool
int_lt a b = ltb ((a + int_half) % int_range) ((b + int_half) % int_range)

pub int_ge-leb : (a b : ℕ) → a < int_half → b < int_half → int_ge a b ≡ leb b a
unfolding int_ge
int_ge-leb a b h k = ground arith

pub int_lt-ltb : (a b : ℕ) → a < int_half → b < int_half → int_lt a b ≡ ltb a b
unfolding int_lt
int_lt-ltb a b h k = ground arith

pub int_inc-add : (a : ℕ) → a + 1 < int_range → int_inc a ≡ a + 1
unfolding int_inc
int_inc-add a h = omega arith

pub int_dec-inc : (a : ℕ) → a < int_range → int_dec (int_inc a) ≡ a
unfolding int_dec int_inc
int_dec-inc a h = omega arith

-- Two counters of a partition of a third: each is counted modulo 2^64.
pub long_inc_left :
    (t a r : ℕ) → t ≡ (a + r) % long_range → long_inc t ≡ (long_inc a + r) % long_range
unfolding long_inc
long_inc_left t a r h = omega arith

pub long_inc_right :
    (t a r : ℕ) → t ≡ (a + r) % long_range → long_inc t ≡ (a + long_inc r) % long_range
unfolding long_inc
long_inc_right t a r h = omega arith
