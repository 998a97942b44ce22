-- ===== src/Trove/Change.antt =====
-- packages/lib-base/src/Trove.ts: the change between two Troves, and its application.
use hliquity.Base.{◌&&◌, Option, none, some, Result, ok, err, Error, ◌>>=◌, not, if◌then◌else◌}
use hliquity.Decimal
use hliquity.Decimal.{Decimal}
use hliquity.Trove.Params
use hliquity.Trove.Params.{
  CollateralChange, DebtChange, TroveCreationParams, TroveClosureParams, TroveAdjustmentParams,
  TroveCreationError, SetToZero, collateral_only, debt_only, both, deposited, withdrawn, borrowed,
  repaid, missing_liquidation_reserve,
}
use hliquity.Trove.Defs.{
  Trove, empty, is_empty, net_debt, add, add_collateral, add_debt, subtract, subtract_collateral,
  subtract_debt, set_collateral, set_debt,
}

pub data TroveChange : Type 0 where
  invalid_creation : Trove → TroveCreationError → TroveChange
  creation : TroveCreationParams Decimal → TroveChange
  closure : TroveClosureParams Decimal → TroveChange
  adjustment : TroveAdjustmentParams Decimal → Option SetToZero → TroveChange

unfoldable pub apply_fee : Decimal → Decimal → Decimal
unfolding Decimal.add
apply_fee borrowing_rate debt_increase =
    Decimal.mul debt_increase (Decimal.add Decimal.one borrowing_rate)

unfoldable pub unapply_fee : Decimal → Decimal → Decimal
unfolding Decimal.add
unapply_fee borrowing_rate debt_increase =
    Decimal.div_ceil debt_increase (Decimal.add Decimal.one borrowing_rate)

-- The difference of two debts, `_debtChange`.
unfoldable pub debt_change : Trove → Trove → Decimal → Result (DebtChange Decimal)
unfolding Decimal.gt
debt_change t that borrowing_rate =
    if Decimal.gt that.debt t.debt
    then (do
      increase ← Decimal.sub that.debt t.debt
      ok (DebtChange.borrow_hchf (unapply_fee borrowing_rate increase)))
    else do decrease ← Decimal.sub t.debt that.debt; ok (DebtChange.repay_hchf decrease)

unfoldable pub collateral_change : Trove → Trove → Result (CollateralChange Decimal)
unfolding Decimal.gt
collateral_change t that =
    if Decimal.gt that.collateral t.collateral
    then (do
      increase ← Decimal.sub that.collateral t.collateral
      ok (CollateralChange.deposit_collateral increase))
    else do
      decrease ← Decimal.sub t.collateral that.collateral
      ok (CollateralChange.withdraw_collateral decrease)

-- `borrowingRate = this.constants.MINIMUM_BORROWING_RATE`
abbrev pub rate_or_minimum : Trove → Option Decimal → Decimal
rate_or_minimum t none = t.constants.minimum_borrowing_rate
rate_or_minimum t (some borrowing_rate) = borrowing_rate

-- `x.zero && key`
abbrev pub key_if_zero : Decimal → SetToZero → Option SetToZero
unfolding Decimal.is_zero
key_if_zero d key = if Decimal.is_zero d then some key else none

-- `a ?? b`
abbrev pub or_else : Option SetToZero → Option SetToZero → Option SetToZero
or_else (some key) other = some key
or_else none other = other

-- `this` is empty and `that` is not.
unfoldable pub what_created : Trove → Trove → Decimal → Result TroveChange
unfolding Decimal.lt
what_created t that rate =
    if Decimal.lt that.debt t.constants.hchf_liquidation_reserve
    then ok (TroveChange.invalid_creation that missing_liquidation_reserve)
    else do
      net ← net_debt that
      ok (
          TroveChange.creation
            (record { deposit_collateral = that.collateral; borrow_hchf = unapply_fee rate net }))

-- `that` is empty and `this` is not.
unfoldable pub what_closed : Trove → Result TroveChange
unfolding Decimal.non_zero
what_closed t = do
  net ← net_debt t
  ok (
      TroveChange.closure
        (record { withdraw_collateral = t.collateral; repay_hchf = Decimal.non_zero net }))

-- Neither is empty.
unfoldable pub what_adjusted : Trove → Trove → Decimal → Result TroveChange
unfolding Decimal.eq
what_adjusted t that rate =
    if Decimal.eq t.collateral that.collateral
    then (do
      debt ← debt_change t that rate
      ok (TroveChange.adjustment (debt_only debt) (key_if_zero that.debt SetToZero.debt)))
    else if Decimal.eq t.debt that.debt
    then (do
      collateral ← collateral_change t that
      ok (
          TroveChange.adjustment (collateral_only collateral)
            (key_if_zero that.collateral SetToZero.collateral)))
    else do
      debt ← debt_change t that rate
      collateral ← collateral_change t that
      ok (
          TroveChange.adjustment (both collateral debt) (
            or_else (key_if_zero that.debt SetToZero.debt)
              (key_if_zero that.collateral SetToZero.collateral)))

-- `none` where the Troves are equal.
unfoldable pub what_changed : Trove → Trove → Option Decimal → Result (Option TroveChange)
unfolding Decimal.eq
what_changed t that borrowing_rate =
    let rate = rate_or_minimum t borrowing_rate in
    if Decimal.eq t.collateral that.collateral && Decimal.eq t.debt that.debt
    then ok none
    else if is_empty t
    then (do change ← what_created t that rate; ok (some change))
    else if is_empty that
    then (do change ← what_closed t; ok (some change))
    else do change ← what_adjusted t that rate; ok (some change)

-- `x ?? Decimal.ZERO`
abbrev pub or_zero : Option Decimal → Decimal
or_zero none = 0
or_zero (some d) = d

-- `borrowHCHF ? applyFee(borrowingRate, borrowHCHF) : Decimal.ZERO`
abbrev pub increase_with_fee : Decimal → Option Decimal → Decimal
increase_with_fee rate none = 0
increase_with_fee rate (some borrow) = apply_fee rate borrow

-- The adjustment of a Trove, by `setToZero`.
unfoldable pub apply_adjustment :
    Trove → TroveAdjustmentParams Decimal → Option SetToZero → Decimal → Result Trove
apply_adjustment t params set_to_zero rate =
    let collateral_decrease = or_zero (withdrawn (Params.collateral_change params)) in
    let collateral_increase = or_zero (deposited (Params.collateral_change params)) in
    let debt_decrease = or_zero (repaid (Params.debt_change params)) in
    let debt_increase = increase_with_fee rate (borrowed (Params.debt_change params)) in
    elim set_to_zero [
      | some SetToZero.collateral ↦
          subtract_debt (add_debt (set_collateral t 0) debt_increase) debt_decrease
      | some SetToZero.debt ↦
          subtract_collateral (add_collateral (set_debt t 0) collateral_increase)
            collateral_decrease
      | none ↦
          subtract
            (add t (record {
              constants = t.constants;
              collateral = collateral_increase;
              debt = debt_increase;
            }))
            (record {
              constants = t.constants;
              collateral = collateral_decrease;
              debt = debt_decrease;
            })
    ]

-- `apply`; no change leaves the Trove as it is.
unfoldable pub apply : Trove → Option TroveChange → Option Decimal → Result Trove
apply t none borrowing_rate = ok t
apply t (some (TroveChange.invalid_creation invalid_trove error)) borrowing_rate =
    if not (is_empty t) then err Error.create_onto_existing else ok invalid_trove
apply t (some (TroveChange.creation params)) borrowing_rate =
    if not (is_empty t)
    then err Error.create_onto_existing
    else ok (record {
      constants = t.constants;
      collateral = params.deposit_collateral;
      debt =
          Decimal.add t.constants.hchf_liquidation_reserve
            (apply_fee (rate_or_minimum t borrowing_rate) params.borrow_hchf);
    })
apply t (some (TroveChange.closure params)) borrowing_rate =
    if is_empty t then err Error.close_empty else ok (empty t.constants)
apply t (some (TroveChange.adjustment params set_to_zero)) borrowing_rate =
    apply_adjustment t params set_to_zero (rate_or_minimum t borrowing_rate)
