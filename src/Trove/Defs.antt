-- ===== src/Trove/Defs.antt =====
-- packages/lib-base/src/Trove.ts, class `Trove`: a combination of collateral and debt, with its
-- arithmetic and its collateral ratio.
use hliquity.Base.{Bool, ◌&&◌, Result, ok, err, Error, ◌>>=◌, if◌then◌else◌}
use hliquity.Decimal
use hliquity.Decimal.{Decimal}
use hliquity.Constants.{Constants}

pub record Trove : Type 0 where
  pub constants : Constants
  pub collateral : Decimal
  pub debt : Decimal

-- `new Trove(constants)`
abbrev pub empty : Constants → Trove
empty constants = record { constants = constants; collateral = 0; debt = 0 }

unfoldable pub is_empty : Trove → Bool
unfolding Decimal.is_zero
is_empty t = Decimal.is_zero t.collateral && Decimal.is_zero t.debt

unfoldable pub net_debt : Trove → Result Decimal
unfolding Decimal.lt Decimal.sub
net_debt t =
    if Decimal.lt t.debt t.constants.hchf_liquidation_reserve
    then err Error.net_debt_below_reserve
    else Decimal.sub t.debt t.constants.hchf_liquidation_reserve

-- `Decimal.from(100)`
abbrev pub nominal_collateral_ratio_precision : Decimal
nominal_collateral_ratio_precision = 10_000_000_000

unfoldable pub nominal_collateral_ratio : Trove → Decimal
nominal_collateral_ratio t = Decimal.mul_div t.collateral nominal_collateral_ratio_precision t.debt

unfoldable pub collateral_ratio : Trove → Decimal → Decimal
collateral_ratio t price = Decimal.mul_div t.collateral price t.debt

unfoldable pub collateral_ratio_is_below_minimum : Trove → Decimal → Bool
unfolding Decimal.lt
collateral_ratio_is_below_minimum t price =
    Decimal.lt (collateral_ratio t price) t.constants.minimum_collateral_ratio

unfoldable pub collateral_ratio_is_below_critical : Trove → Decimal → Bool
unfolding Decimal.lt
collateral_ratio_is_below_critical t price =
    Decimal.lt (collateral_ratio t price) t.constants.critical_collateral_ratio

unfoldable pub is_openable_in_recovery_mode : Trove → Decimal → Bool
unfolding Decimal.gte
is_openable_in_recovery_mode t price =
    Decimal.gte (collateral_ratio t price) t.constants.critical_collateral_ratio

unfoldable pub equals : Trove → Trove → Bool
unfolding Decimal.eq
equals t that = Decimal.eq t.collateral that.collateral && Decimal.eq t.debt that.debt

unfoldable pub add : Trove → Trove → Trove
unfolding Decimal.add
add t that = record {
  constants = t.constants;
  collateral = Decimal.add t.collateral that.collateral;
  debt = Decimal.add t.debt that.debt;
}

unfoldable pub add_collateral : Trove → Decimal → Trove
unfolding Decimal.add
add_collateral t collateral = record t { collateral = Decimal.add t.collateral collateral }

unfoldable pub add_debt : Trove → Decimal → Trove
unfolding Decimal.add
add_debt t debt = record t { debt = Decimal.add t.debt debt }

-- `a.gt(b) ? a.sub(b) : Decimal.ZERO`
unfoldable pub sub_or_zero : Decimal → Decimal → Result Decimal
unfolding Decimal.gt Decimal.sub
sub_or_zero a b = if Decimal.gt a b then Decimal.sub a b else ok 0

unfoldable pub subtract : Trove → Trove → Result Trove
subtract t that = do
  collateral ← sub_or_zero t.collateral that.collateral
  debt ← sub_or_zero t.debt that.debt
  ok (record { constants = t.constants; collateral = collateral; debt = debt })

unfoldable pub subtract_collateral : Trove → Decimal → Result Trove
subtract_collateral t collateral = do
  rest ← sub_or_zero t.collateral collateral
  ok (record t { collateral = rest })

unfoldable pub subtract_debt : Trove → Decimal → Result Trove
subtract_debt t debt = do rest ← sub_or_zero t.debt debt; ok (record t { debt = rest })

unfoldable pub multiply : Trove → Decimal → Trove
multiply t multiplier = record {
  constants = t.constants;
  collateral = Decimal.mul t.collateral multiplier;
  debt = Decimal.mul t.debt multiplier;
}

unfoldable pub set_collateral : Trove → Decimal → Trove
set_collateral t collateral = record t { collateral = collateral }

unfoldable pub set_debt : Trove → Decimal → Trove
set_debt t debt = record t { debt = debt }
