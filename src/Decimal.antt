-- ===== src/Decimal.antt =====
-- packages/lib-base/src/Decimal.ts, class `Decimal`: fixed-point numbers.
-- A Decimal has one field, `_bigNumber`, which its private constructor keeps from being negative;
-- it is modelled by that number, in units of 10^-8. A Decimalish argument of an operation enters
-- as the Decimal that `Decimal.from` makes of it (Decimal/Text.antt).
pub mod Arith
pub mod Power
pub mod BigText
pub mod Text
mod Tests
use hliquity.Base.{
  ℕ, zero, suc, ◌+◌, ◌-◌, ◌*◌, ◌/◌, ◌%◌, ◌^◌, Bool, not, Option, some, none, Result, ok, err, Error,
  ltb, leb, ◌==◌, if◌then◌else◌, ℤ, pos, negsuc, sub_ℕ,
}

abbrev pub Decimal : Type 0
Decimal = ℕ

abbrev pub precision : ℕ
precision = 8

abbrev pub get_digits : ℕ → ℕ
get_digits num_digits = 10 ^ num_digits

abbrev pub digits : ℕ
digits = get_digits precision

abbrev pub infinity : Decimal
infinity = 2 ^ 256 - 1

abbrev pub half : Decimal
half = 50_000_000

abbrev pub one : Decimal
one = 100_000_000

-- The constructor: a negative number is refused.
unfoldable pub new_decimal : ℤ → Result Decimal
new_decimal (pos n) = ok n
new_decimal (negsuc n) = err Error.negative_decimal

-- `fromBigNumberStringWithPrecision`, of the number in the text.
unfoldable pub from_big_number_string_with_precision : ℕ → ℕ → Decimal
from_big_number_string_with_precision n precision = n * digits / get_digits precision

unfoldable pub add : Decimal → Decimal → Decimal
add d addend = d + addend

unfoldable pub sub : Decimal → Decimal → Result Decimal
unfolding new_decimal
sub d subtrahend = new_decimal (sub_ℕ d subtrahend)

unfoldable pub mul : Decimal → Decimal → Decimal
mul d multiplier = d * multiplier / digits

unfoldable pub is_zero : Decimal → Bool
is_zero d = d == 0

unfoldable pub div : Decimal → Decimal → Decimal
unfolding is_zero
div d divider = if is_zero divider then infinity else d * digits / divider

unfoldable pub div_ceil : Decimal → Decimal → Decimal
unfolding is_zero
div_ceil d divider = if is_zero divider then infinity else (d * digits + (divider - 1)) / divider

unfoldable pub mul_div : Decimal → Decimal → Decimal → Decimal
unfolding is_zero
mul_div d multiplier divider = if is_zero divider then infinity else d * multiplier / divider

unfoldable pub rounded_mul : ℕ → ℕ → ℕ
rounded_mul x y = (x * y + half) / digits

-- `for (; exponent > 1; exponent >>>= 1)`, with the rounds left; the result is `x` and `y`.
unfoldable pub pow_loop : ℕ → ℕ → ℕ → ℕ → ℕ × ℕ
pow_loop zero exponent x y = (x, y)
pow_loop (suc rounds) exponent x y =
    let rest =
      pow_loop rounds (exponent / 2) (rounded_mul x x)
        (if exponent % 2 == 1 then rounded_mul x y else y) in
    if ltb 1 exponent then rest else (x, y)

-- An exponent of 32 bits is halved to 1 in fewer than 32 rounds.
abbrev pub pow_rounds : ℕ
pow_rounds = 32

unfoldable pub pow : Decimal → ℕ → Result Decimal
pow d exponent =
    if ltb 0xffffffff exponent
    then err Error.assertion
    else if exponent == 0
    then ok one
    else if exponent == 1
    then ok d
    else let (x, y) = pow_loop pow_rounds exponent d digits in ok (rounded_mul x y)

unfoldable pub if_zero : Decimal → Option Decimal
unfolding is_zero
if_zero d = if is_zero d then some d else none

unfoldable pub non_zero : Decimal → Option Decimal
unfolding is_zero
non_zero d = if not (is_zero d) then some d else none

unfoldable pub lt : Decimal → Decimal → Bool
lt d that = ltb d that

unfoldable pub eq : Decimal → Decimal → Bool
eq d that = d == that

unfoldable pub gt : Decimal → Decimal → Bool
gt d that = ltb that d

unfoldable pub gte : Decimal → Decimal → Bool
gte d that = leb that d

unfoldable pub lte : Decimal → Decimal → Bool
lte d that = leb d that

unfoldable pub infinite : Decimal → Option Decimal
unfolding eq
infinite d = if eq d infinity then some d else none

unfoldable pub finite : Decimal → Option Decimal
unfolding eq
finite d = if not (eq d infinity) then some d else none

unfoldable pub min : Decimal → Decimal → Decimal
unfolding lt
min a b = if lt a b then a else b

unfoldable pub max : Decimal → Decimal → Decimal
unfolding gt
max a b = if gt a b then a else b
