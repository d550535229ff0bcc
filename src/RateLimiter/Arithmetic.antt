-- ===== src/RateLimiter/Arithmetic.antt =====
-- The type `Double` of Kotlin, with the operations of RateLimiter.kt and the laws that it relies
-- on: IEEE 754 arithmetic on the doubles that are not NaN, where the two zeros count as one.
use arrow_resilience_kit.Base.{
  ℕ, ◌+◌, ◌-◌, ◌*◌, ◌/◌, ◌≤◌, Bool, true, false, ◌≡◌, refl, arith, leb, le→leb,
}

pub record Doubles : Type 1 where
  pub Double : Type 0
  pub le : Double → Double → Bool
  pub is_finite : Double → Bool
  -- `toDouble` of an `Int` or `Long` that is not negative, and `toLong`, which truncates.
  pub of_ℕ : ℕ → Double
  pub to_ℕ : Double → ℕ
  pub plus : Double → Double → Double
  pub minus : Double → Double → Double
  pub times : Double → Double → Double
  pub over : Double → Double → Double
  -- The order is total and transitive, and conversions keep it.
  pub le_refl : (x : Double) → le x x ≡ true
  pub le_total : (x y : Double) → le x y ≡ false → le y x ≡ true
  pub le_trans : (x y z : Double) → le x y ≡ true → le y z ≡ true → le x z ≡ true
  pub le-of_ℕ : (m n : ℕ) → m ≤ n → le (of_ℕ m) (of_ℕ n) ≡ true
  -- Rounding keeps the sign: of a sum, of a product of an integer and a finite number, of a
  -- quotient by 1000, and of a difference that starts from at most an integer.
  pub plus_nonneg :
      (x y : Double) → le (of_ℕ 0) x ≡ true → le (of_ℕ 0) y ≡ true → le (of_ℕ 0) (plus x y) ≡ true
  pub times_nonneg :
      (n : ℕ) (y : Double)
      → is_finite y ≡ true
      → le (of_ℕ 0) y ≡ true
      → le (of_ℕ 0) (times (of_ℕ n) y) ≡ true
  pub over_nonneg : (x : Double) → le (of_ℕ 0) x ≡ true → le (of_ℕ 0) (over x (of_ℕ 1000)) ≡ true
  pub minus_nonneg :
      (x : Double) (m n : ℕ)
      → le x (of_ℕ n) ≡ true
      → le (of_ℕ m) x ≡ true
      → le (of_ℕ 0) (minus x (of_ℕ m)) ≡ true
  -- No difference lies above the number that it starts from.
  pub minus-le : (x : Double) (m : ℕ) → le (minus x (of_ℕ m)) x ≡ true
  -- Zero times a finite number, and zero over 1000, are zero, which a sum absorbs.
  pub times-zero :
      (y : Double) → is_finite y ≡ true → le (of_ℕ 0) y ≡ true → times (of_ℕ 0) y ≡ of_ℕ 0
  pub zero-over : over (of_ℕ 0) (of_ℕ 1000) ≡ of_ℕ 0
  pub plus-zero : (x : Double) → le (of_ℕ 0) x ≡ true → plus x (of_ℕ 0) ≡ x

pub leb_refl : (x : ℕ) → leb x x ≡ true
leb_refl x = ground arith

pub leb_total : (x y : ℕ) → leb x y ≡ false → leb y x ≡ true
leb_total x y h = ground arith

pub leb_trans : (x y z : ℕ) → leb x y ≡ true → leb y z ≡ true → leb x z ≡ true
leb_trans x y z h k = ground arith

pub leb-zero : (x : ℕ) → leb 0 x ≡ true
leb-zero x = ground arith

pub leb-minus : (x m : ℕ) → leb (x - m) x ≡ true
leb-minus x m = ground arith

pub zero-times : (y : ℕ) → 0 * y ≡ 0
zero-times y = omega arith

pub add_zero : (x : ℕ) → x + 0 ≡ x
add_zero x = omega arith

-- The laws can be met: whole numbers of tokens, with quotients that round down.
abbrev pub whole : Doubles
whole = record {
  Double = ℕ;
  le = leb;
  is_finite = λ _. true;
  of_ℕ = λ n. n;
  to_ℕ = λ x. x;
  plus = λ x y. x + y;
  minus = λ x y. x - y;
  times = λ x y. x * y;
  over = λ x y. x / y;
  le_refl = leb_refl;
  le_total = leb_total;
  le_trans = leb_trans;
  le-of_ℕ = le→leb;
  plus_nonneg = λ x y h k. leb-zero (x + y);
  times_nonneg = λ n y f h. leb-zero (n * y);
  over_nonneg = λ x h. leb-zero (x / 1000);
  minus_nonneg = λ x m n h k. leb-zero (x - m);
  minus-le = leb-minus;
  times-zero = λ y f h. zero-times y;
  zero-over = refl;
  plus-zero = λ x h. add_zero x;
}
