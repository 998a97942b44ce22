-- ===== src/Validation/TroveChecks.antt =====
-- packages/dev-frontend/src/components/Trove/validation/validateTroveChange.tsx: the checks of a
-- creation, an adjustment and a closure. A JSX element is modelled by what it tells the user.
use hliquity.Base.{ℕ, Bool, not, Option, none, some, Result, ok, ◌>>=◌, ◌==◌, if◌then◌else◌}
use hliquity.Decimal
use hliquity.Decimal.{Decimal}
use hliquity.Constants.{Constants}
use hliquity.Trove.Params
use hliquity.Trove.Params.{
  TroveCreationParams, TroveAdjustmentParams, TroveClosureParams, deposited, withdrawn, borrowed,
  repaid,
}
use hliquity.Trove.Change.{TroveChange}
use hliquity.Trove.Defs.{
  Trove, collateral_ratio, collateral_ratio_is_below_minimum, collateral_ratio_is_below_critical,
  is_openable_in_recovery_mode,
}

pub data Description : Type 0 where
  debt_at_least : Decimal → Description
  borrow_at_least : Decimal → Description
  open_below_critical_in_recovery : Description
  ratio_below_minimum : Description
  open_triggers_recovery : Description
  wallet_not_connected : Description
  deposit_exceeds_balance_by : Decimal → Description
  withdraw_in_recovery : Description
  borrow_below_critical_in_recovery : Description
  decrease_ratio_in_recovery : Description
  adjust_triggers_recovery : Description
  repay_exceeds_balance_by : Decimal → Description
  last_trove : Description
  close_in_recovery : Description
  close_needs_more : Decimal → Description
  close_triggers_recovery : Description
  trove_change : TroveChange → Description

pub record Context : Type 0 where
  pub price : Decimal
  pub total : Trove
  pub account_balance : Decimal
  pub hchf_balance : Decimal
  pub number_of_troves : ℕ
  pub original_trove : Trove
  pub resulting_trove : Trove
  pub recovery_mode : Bool
  pub would_trigger_recovery_mode : Bool
  pub has_connection : Bool

-- `if (amount.gt(balance)) return <describe amount.sub(balance) />`, and then `rest`.
unfoldable pub unless_exceeds :
    Decimal
    → Decimal
    → (Decimal → Description)
    → Result (Option Description)
    → Result (Option Description)
unfolding Decimal.gt Decimal.sub
unless_exceeds amount balance describe rest =
    if Decimal.gt amount balance
    then (do excess ← Decimal.sub amount balance; ok (some (describe excess)))
    else rest

-- The same for an optional amount, `amount?.gt(balance)`.
unfoldable pub unless_some_exceeds :
    Option Decimal
    → Decimal
    → (Decimal → Description)
    → Result (Option Description)
    → Result (Option Description)
unfolding unless_exceeds
unless_some_exceeds none balance describe rest = rest
unless_some_exceeds (some amount) balance describe rest =
    unless_exceeds amount balance describe rest

unfoldable pub validate_trove_creation :
    TroveCreationParams Decimal → Context → Constants → Result (Option Description)
unfolding unless_exceeds Decimal.lt
validate_trove_creation params c constants =
    let funded =
      if not c.has_connection
      then ok (some Description.wallet_not_connected)
      else unless_exceeds params.deposit_collateral c.account_balance
          Description.deposit_exceeds_balance_by (ok none) in
    if Decimal.lt params.borrow_hchf constants.hchf_minimum_net_debt
    then ok (some (Description.borrow_at_least constants.hchf_minimum_net_debt))
    else if c.recovery_mode
    then (if not (is_openable_in_recovery_mode c.resulting_trove c.price)
        then ok (some Description.open_below_critical_in_recovery)
        else funded)
    else if collateral_ratio_is_below_minimum c.resulting_trove c.price
    then ok (some Description.ratio_below_minimum)
    else if c.would_trigger_recovery_mode
    then ok (some Description.open_triggers_recovery)
    else funded

-- The checks of a repayment, then `rest`.
unfoldable pub check_repayment :
    Option Decimal → Context → Constants → Result (Option Description) → Result (Option Description)
unfolding unless_exceeds Decimal.lt
check_repayment none c constants rest = rest
check_repayment (some repay) c constants rest =
    if Decimal.lt c.resulting_trove.debt constants.hchf_minimum_debt
    then ok (some (Description.debt_at_least constants.hchf_minimum_debt))
    else unless_exceeds repay c.hchf_balance Description.repay_exceeds_balance_by rest

-- The check of the ratio when borrowing in recovery mode, then `rest`.
unfoldable pub check_borrowing_in_recovery :
    Option Decimal → Context → Result (Option Description) → Result (Option Description)
unfolding Decimal.lt
check_borrowing_in_recovery none c rest = rest
check_borrowing_in_recovery (some borrow) c rest =
    if collateral_ratio_is_below_critical c.resulting_trove c.price
    then ok (some Description.borrow_below_critical_in_recovery)
    else if Decimal.lt (collateral_ratio c.resulting_trove c.price)
        (collateral_ratio c.original_trove c.price)
    then ok (some Description.decrease_ratio_in_recovery)
    else rest

unfoldable pub validate_trove_adjustment :
    TroveAdjustmentParams Decimal → Context → Constants → Result (Option Description)
unfolding check_repayment check_borrowing_in_recovery unless_some_exceeds
validate_trove_adjustment params c constants =
    let deposit = deposited (Params.collateral_change params) in
    let withdrawal = withdrawn (Params.collateral_change params) in
    let borrow = borrowed (Params.debt_change params) in
    let repay = repaid (Params.debt_change params) in
    let funded = check_repayment repay c constants (
      unless_some_exceeds deposit c.account_balance Description.deposit_exceeds_balance_by
        (ok none)) in
    if c.recovery_mode
    then (elim withdrawal [
      | some amount ↦ ok (some Description.withdraw_in_recovery)
      | none ↦ check_borrowing_in_recovery borrow c funded
    ])
    else if collateral_ratio_is_below_minimum c.resulting_trove c.price
    then ok (some Description.ratio_below_minimum)
    else if c.would_trigger_recovery_mode
    then ok (some Description.adjust_triggers_recovery)
    else funded

unfoldable pub validate_trove_closure :
    TroveClosureParams Decimal → Context → Constants → Result (Option Description)
unfolding unless_some_exceeds
validate_trove_closure params c constants =
    if c.number_of_troves == 1
    then ok (some Description.last_trove)
    else if c.recovery_mode
    then ok (some Description.close_in_recovery)
    else unless_some_exceeds params.repay_hchf c.hchf_balance Description.close_needs_more (
        if c.would_trigger_recovery_mode
        then ok (some Description.close_triggers_recovery)
        else ok none)
