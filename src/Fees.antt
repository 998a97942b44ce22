-- ===== src/Fees.antt =====
-- packages/lib-base/src/Fees.ts: the calculator for borrowing and redemption fees.
-- A Date is modelled by its `getTime()`, in milliseconds since 1970.
pub mod Bounds
mod Tests
use Prim.Native.Nat.{compare}
use hliquity.Base.{
  ℕ, ◌-◌, ◌/◌, Bool, true, false, ◌&&◌, Option, none, some, Result, ok, err, Error, ◌>>=◌, ◌>>◌,
  guard, ltb, ◌==◌, if◌then◌else◌,
}
use hliquity.Decimal
use hliquity.Decimal.{Decimal}
use hliquity.Constants.{Constants}

pub record Fees : Type 0 where
  pub base_rate_without_decay : Decimal
  pub minute_decay_factor : Decimal
  pub beta : Decimal
  pub last_fee_operation : ℕ
  pub time_of_latest_block : ℕ
  pub recovery_mode : Bool
  pub constants : Constants

-- The constructor, with its assertion.
unfoldable pub new_fees : Decimal → Decimal → Decimal → ℕ → ℕ → Bool → Constants → Result Fees
unfolding Decimal.lt
new_fees base_rate decay_factor beta last_fee_operation time_of_latest_block recovery_mode
      constants =
    do
      guard (Decimal.lt decay_factor Decimal.one) Error.assertion
      ok (record {
        base_rate_without_decay = base_rate;
        minute_decay_factor = decay_factor;
        beta = beta;
        last_fee_operation = last_fee_operation;
        time_of_latest_block = time_of_latest_block;
        recovery_mode = recovery_mode;
        constants = constants;
      })

unfoldable pub set_recovery_mode : Fees → Bool → Result Fees
unfolding new_fees
set_recovery_mode f recovery_mode =
    new_fees f.base_rate_without_decay f.minute_decay_factor f.beta f.last_fee_operation
      f.time_of_latest_block recovery_mode f.constants

-- `===` on Booleans.
abbrev pub same : Bool → Bool → Bool
same true b = b
same false true = false
same false false = true

unfoldable pub equals : Fees → Fees → Bool
unfolding Decimal.eq
equals f that =
    Decimal.eq f.base_rate_without_decay that.base_rate_without_decay
    && Decimal.eq f.minute_decay_factor that.minute_decay_factor
    && Decimal.eq f.beta that.beta
    && f.last_fee_operation == that.last_fee_operation
    && f.time_of_latest_block == that.time_of_latest_block
    && same f.recovery_mode that.recovery_mode

-- `when = this._timeOfLatestBlock`
abbrev pub time_or_latest : Fees → Option ℕ → ℕ
time_or_latest f none = f.time_of_latest_block
time_or_latest f (some when) = when

-- A negative elapsed time is clamped to 0.
unfoldable pub minutes_since_last_fee_operation : Fees → Option ℕ → ℕ
minutes_since_last_fee_operation f when =
    (if ltb f.last_fee_operation (time_or_latest f when)
      then time_or_latest f when - f.last_fee_operation
      else 0)
    / 60000

unfoldable pub base_rate : Fees → Option ℕ → Result Decimal
base_rate f when = do
  decay ← Decimal.pow f.minute_decay_factor (minutes_since_last_fee_operation f when)
  ok (Decimal.mul decay f.base_rate_without_decay)

unfoldable pub borrowing_rate : Fees → Option ℕ → Result Decimal
borrowing_rate f when = if f.recovery_mode then ok 0 else do
  rate ← base_rate f when
  ok (
      Decimal.min (Decimal.add f.constants.minimum_borrowing_rate rate)
        f.constants.maximum_borrowing_rate)

-- The base rate, raised by the redeemed fraction of the supply over beta.
unfoldable pub rate_with_fraction : Fees → Decimal → Decimal → Decimal
rate_with_fraction f redeemed_fraction_of_supply rate =
    if Decimal.is_zero redeemed_fraction_of_supply
    then rate
    else Decimal.add (Decimal.div redeemed_fraction_of_supply f.beta) rate

unfoldable pub redemption_rate : Fees → Decimal → Option ℕ → Result Decimal
redemption_rate f redeemed_fraction_of_supply when = do
  rate ← base_rate f when
  ok (
      Decimal.min
        (Decimal.add f.constants.minimum_redemption_rate
          (rate_with_fraction f redeemed_fraction_of_supply rate))
        Decimal.one)
