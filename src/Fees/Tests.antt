-- ===== src/Fees/Tests.antt =====
-- Tests of packages/lib-base/src/Fees.ts.
use hliquity.Base.{ℕ, ◌+◌, ◌≤◌, ◌≡◌, refl, ◌⊎◌, true, false, Option, none, some, ok, arith}
use hliquity.Decimal
use hliquity.Decimal.{Decimal}
use hliquity.Constants.{defaults}
use hliquity.Fees.{
  Fees, base_rate, borrowing_rate, redemption_rate, minutes_since_last_fee_operation,
  rate_with_fraction,
}
use hliquity.Fees.Bounds.{borrowing_rate_bounds, redemption_rate_bounds, redemption_rate_mono}

-- A base rate of 10%, one day after the last fee operation.
abbrev day_old : Fees
day_old = record {
  base_rate_without_decay = 10_000_000;
  minute_decay_factor = 99_903_775;
  beta = 200_000_000;
  last_fee_operation = 1_600_000_000_000;
  time_of_latest_block = 1_600_086_400_000;
  recovery_mode = false;
  constants = defaults;
}

borrowing_rate_bounds_example :
    (r : Decimal) × (borrowing_rate day_old none ≡ ok r)
    × (((day_old.recovery_mode ≡ true) × (r ≡ 0))
        ⊎ ((day_old.recovery_mode ≡ false) × (defaults.minimum_borrowing_rate ≤ r)))
    × (r ≤ defaults.maximum_borrowing_rate)
    × (r ≤ defaults.minimum_borrowing_rate + day_old.base_rate_without_decay)
unfolding minutes_since_last_fee_operation
borrowing_rate_bounds_example =
    borrowing_rate_bounds day_old none (omega arith) (omega arith) (omega arith)

redemption_rate_bounds_example :
    (r : Decimal) × (redemption_rate day_old 50_000_000 none ≡ ok r)
    × (defaults.minimum_redemption_rate ≤ r)
    × (r ≤ Decimal.one)
unfolding minutes_since_last_fee_operation
redemption_rate_bounds_example =
    redemption_rate_bounds day_old 50_000_000 none (omega arith) (omega arith) (omega arith)

-- At the time of the last fee operation.
abbrev at_once : Option ℕ
at_once = some 1_600_000_000_000

redemption_rate_small : redemption_rate day_old 1_000_000 at_once ≡ ok 11_000_000
unfolding redemption_rate base_rate Decimal.pow minutes_since_last_fee_operation Decimal.min
    Decimal.add rate_with_fraction Decimal.is_zero Decimal.div Decimal.mul
redemption_rate_small = refl

redemption_rate_large : redemption_rate day_old 50_000_000 at_once ≡ ok 35_500_000
unfolding redemption_rate base_rate Decimal.pow minutes_since_last_fee_operation Decimal.min
    Decimal.add rate_with_fraction Decimal.is_zero Decimal.div Decimal.mul
redemption_rate_large = refl

-- The rates of those two redemptions, in the order of their fractions.
redemption_rate_mono_example : 11_000_000 ≤ 35_500_000
redemption_rate_mono_example =
    redemption_rate_mono day_old 1_000_000 50_000_000 at_once (omega arith) redemption_rate_small
      redemption_rate_large
