-- ===== src/Decimal/Tests.antt =====
-- Tests of packages/lib-base/src/Decimal.ts.
use hliquity.Base.{◌*◌, ◌≡◌, refl, ok, err, Error, arith}
use hliquity.Decimal.{digits, one, infinity, pow, pow_loop, sub, div, rounded_mul}
use hliquity.Decimal.Power.{power, pow-power}

pow_of_fraction : pow 150_000_000 3 ≡ ok 337_500_000
unfolding pow pow_loop rounded_mul
pow_of_fraction = refl

sub_below_zero : sub 1 2 ≡ err Error.negative_decimal
unfolding sub
sub_below_zero = refl

div_by_zero : div one 0 ≡ infinity
unfolding div
div_by_zero = refl

pow-power_example : pow (3 * digits) 13 ≡ ok (power 3 13 * digits)
pow-power_example = pow-power 3 13 (omega arith)
