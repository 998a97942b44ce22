-- ===== src/Decimal/Arith.antt =====
-- Rounding of the Decimal operations: quotients and products against exact arithmetic.
use native.Mathlib.Nat.{
  div-mul-le_self, lt-div-mul-add, mul-le-mul_right, mul-le-mul_left, le-div_iff_mul-le,
}
use hliquity.Base.{ℕ, ◌+◌, ◌-◌, ◌*◌, ◌/◌, ◌≤◌, ◌<◌, ◌≡◌, ok, err, Error, arith}
use hliquity.Decimal.{
  Decimal, digits, one, half, add, sub, mul, div, div_ceil, mul_div, rounded_mul,
}

-- Subtracting gives the difference, or throws where it would be negative.
pub sub_le : (a b : Decimal) → b ≤ a → sub a b ≡ ok (a - b)
unfolding sub
sub_le a b h = ground arith

pub sub_negative : (a b : Decimal) → a < b → sub a b ≡ err Error.negative_decimal
unfolding sub
sub_negative a b h = ground arith

-- `sub` undoes `add`.
pub sub-add : (a b : Decimal) → sub (add a b) b ≡ ok a
unfolding sub add
sub-add a b = ground arith

-- The quotient by a number other than zero is rounded down.
pub div_rounds_down :
    (d v : Decimal) → 0 < v → (div d v * v ≤ d * digits) × (d * digits < div d v * v + v)
unfolding div
div_rounds_down d v h =
    ground (arith, div-mul-le_self (d * digits) v, lt-div-mul-add {a = d * digits} h)

-- `_divCeil` by a number other than zero is rounded up.
pub div_ceil_rounds_up :
    (d v : Decimal) → 0 < v → (d * digits ≤ div_ceil d v * v) × (div_ceil d v * v < d * digits + v)
unfolding div_ceil
div_ceil_rounds_up d v h =
    ground
      (arith, div-mul-le_self (d * digits + (v - 1)) v, lt-div-mul-add {a = d * digits + (v - 1)} h)

-- The cross product over a divider other than zero is rounded down.
pub mul_div_rounds_down :
    (d m v : Decimal) → 0 < v → (mul_div d m v * v ≤ d * m) × (d * m < mul_div d m v * v + v)
unfolding mul_div
mul_div_rounds_down d m v h =
    ground (arith, div-mul-le_self (d * m) v, lt-div-mul-add {a = d * m} h)

-- A product is rounded down.
pub mul_rounds_down :
    (d m : Decimal) → (mul d m * digits ≤ d * m) × (d * m < mul d m * digits + digits)
unfolding mul
mul_rounds_down d m = omega arith

-- Multiplying by a fraction of at most one does not increase a number.
pub mul-le : (f d : Decimal) → f ≤ one → mul f d ≤ d
unfolding mul
mul-le f d h = omega (arith, mul-le-mul_right d h)

pub mul_mono : (f d e : Decimal) → d ≤ e → mul d f ≤ mul e f
unfolding mul
mul_mono f d e h = omega (arith, mul-le-mul_right f h)

-- The product of `roundedMul` is off by at most one half of a unit.
pub rounded_mul_nearest :
    (x y : ℕ)
    → (rounded_mul x y * digits ≤ x * y + half) × (x * y < rounded_mul x y * digits + half)
unfolding rounded_mul
rounded_mul_nearest x y = omega arith

pub rounded_mul-le_right : (x y : ℕ) → x ≤ one → rounded_mul x y ≤ y
unfolding rounded_mul
rounded_mul-le_right x y h = omega (arith, mul-le-mul_right y h)

pub rounded_mul-le_left : (x y : ℕ) → y ≤ one → rounded_mul x y ≤ x
unfolding rounded_mul
rounded_mul-le_left x y h = omega (arith, mul-le-mul_left x h)

-- On whole numbers nothing is rounded.
pub rounded_mul_whole : (a b : ℕ) → rounded_mul (a * digits) (b * digits) ≡ a * b * digits
unfolding rounded_mul
rounded_mul_whole a b = omega arith

pub quotient_mono : (m n v : ℕ) → 0 < v → m ≤ n → m / v ≤ n / v
quotient_mono m n v pos h =
    (le-div_iff_mul-le {k = v} {x = m / v} {y = n} pos).1 (omega (arith, div-mul-le_self m v))

-- A larger number has the larger quotient, also by zero.
pub div_mono : (d e v : Decimal) → d ≤ e → div d v ≤ div e v
unfolding div
div_mono d e v h = ground (arith, quotient_mono (d * digits) (e * digits) v)

pub mul_div_mono_left : (d e m v : Decimal) → d ≤ e → mul_div d m v ≤ mul_div e m v
unfolding mul_div
mul_div_mono_left d e m v h = ground (arith, quotient_mono (d * m) (e * m) v, mul-le-mul_right m h)

pub mul-le_left : (d f : Decimal) → f ≤ one → mul d f ≤ d
unfolding mul
mul-le_left d f h = omega (arith, mul-le-mul_left d h)
