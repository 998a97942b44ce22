-- ===== src/Trove/Params.antt =====
-- packages/lib-base/src/Trove.ts: the parameters of Trove transactions, for amounts of any type.
use hliquity.Base.{Option, none, some}

-- `_CollateralChange` and `_DebtChange`: one of the two, never both.
pub data CollateralChange (T : Type 0) : Type 0 where
  deposit_collateral : T → CollateralChange T
  withdraw_collateral : T → CollateralChange T

pub data DebtChange (T : Type 0) : Type 0 where
  borrow_hchf : T → DebtChange T
  repay_hchf : T → DebtChange T

pub record TroveCreationParams (T : Type 0) : Type 0 where
  pub deposit_collateral : T
  pub borrow_hchf : T

pub record TroveClosureParams (T : Type 0) : Type 0 where
  pub withdraw_collateral : T
  pub repay_hchf : Option T

-- At least one of the two changes.
pub data TroveAdjustmentParams (T : Type 0) : Type 0 where
  collateral_only : CollateralChange T → TroveAdjustmentParams T
  debt_only : DebtChange T → TroveAdjustmentParams T
  both : CollateralChange T → DebtChange T → TroveAdjustmentParams T

pub data TroveCreationError : Type 0 where
  missing_liquidation_reserve : TroveCreationError

-- The values of `setToZero`.
pub data SetToZero : Type 0 where
  collateral debt : SetToZero

-- The destructuring of adjustment params into four optional properties.
module _ {T : Type 0} where
  abbrev pub collateral_change : TroveAdjustmentParams T → Option (CollateralChange T)
  collateral_change (collateral_only c) = some c
  collateral_change (debt_only d) = none
  collateral_change (both c d) = some c

  abbrev pub debt_change : TroveAdjustmentParams T → Option (DebtChange T)
  debt_change (collateral_only c) = none
  debt_change (debt_only d) = some d
  debt_change (both c d) = some d

  abbrev pub deposited : Option (CollateralChange T) → Option T
  deposited (some (CollateralChange.deposit_collateral x)) = some x
  deposited _ = none

  abbrev pub withdrawn : Option (CollateralChange T) → Option T
  withdrawn (some (CollateralChange.withdraw_collateral x)) = some x
  withdrawn _ = none

  abbrev pub borrowed : Option (DebtChange T) → Option T
  borrowed (some (DebtChange.borrow_hchf x)) = some x
  borrowed _ = none

  abbrev pub repaid : Option (DebtChange T) → Option T
  repaid (some (DebtChange.repay_hchf x)) = some x
  repaid _ = none
