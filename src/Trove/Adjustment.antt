-- ===== src/Trove/Adjustment.antt =====
-- Adjustments of packages/lib-base/src/Trove.ts: `what_adjusted` and `apply_adjustment` without their
-- guards, and where an adjusted Trove arrives.
use hliquity.Base.{
  ◌+◌, ◌-◌, ◌≤◌, ◌<◌, ◌≡◌, refl, Option, none, some, ok, arith, if◌then◌else◌, Bool-cases, inl, inr,
  ◌⊎◌,
}
use hliquity.Decimal
use hliquity.Decimal.{Decimal}
use hliquity.Trove.Params
use hliquity.Trove.Params.{
  CollateralChange, DebtChange, TroveAdjustmentParams, SetToZero, collateral_only, debt_only, both,
  deposited, withdrawn, borrowed, repaid,
}
use hliquity.Trove.Defs.{Trove, add, add_collateral, add_debt, set_collateral, set_debt}
use hliquity.Trove.Laws.{subtract_lem, subtract_collateral_lem, subtract_debt_lem}
use hliquity.Trove.Rounding.{apply_fee-unapply_fee}
use hliquity.Trove.Change.{
  TroveChange, unapply_fee, debt_change, collateral_change, what_adjusted, apply_adjustment,
  increase_with_fee, or_zero, key_if_zero, or_else,
}

-- A Trove with the collateral of `that`, and its debt, or one unit more where debt was added.
pub record Reaches (t that t' : Trove) : Type 0 where
  pub same_collateral : t'.collateral ≡ that.collateral
  pub enough_debt : that.debt ≤ t'.debt
  pub rounded_debt : t'.debt ≤ that.debt + 1
  pub exact_debt : (t.debt < that.debt) ⊎ (t'.debt ≡ that.debt)

-- The changes without the guard of each subtraction.
debt_between : Trove → Trove → Decimal → DebtChange Decimal
unfolding Decimal.gt
debt_between t that rate =
    if Decimal.gt that.debt t.debt
    then DebtChange.borrow_hchf (unapply_fee rate (that.debt - t.debt))
    else DebtChange.repay_hchf (t.debt - that.debt)

collateral_between : Trove → Trove → CollateralChange Decimal
unfolding Decimal.gt
collateral_between t that =
    if Decimal.gt that.collateral t.collateral
    then CollateralChange.deposit_collateral (that.collateral - t.collateral)
    else CollateralChange.withdraw_collateral (t.collateral - that.collateral)

debt_change_lem :
    (t that : Trove) (rate : Decimal) → debt_change t that rate ≡ ok (debt_between t that rate)
unfolding debt_change debt_between Decimal.sub
debt_change_lem t that rate = ground arith

collateral_change_lem : (t that : Trove) → collateral_change t that ≡ ok (collateral_between t that)
unfolding collateral_change collateral_between Decimal.sub
collateral_change_lem t that = ground arith

-- The debt and the collateral after the parameters of an adjustment, a set to zero left aside.
debt_after : Trove → TroveAdjustmentParams Decimal → Decimal → Decimal
debt_after t params rate =
    t.debt
    + increase_with_fee rate (borrowed (Params.debt_change params))
    - or_zero (repaid (Params.debt_change params))

collateral_after : Trove → TroveAdjustmentParams Decimal → Decimal
collateral_after t params =
    t.collateral
    + or_zero (deposited (Params.collateral_change params))
    - or_zero (withdrawn (Params.collateral_change params))

-- An adjustment never throws. It adds and then takes away, and stops at zero.
pub adjusted : Trove → TroveAdjustmentParams Decimal → Option SetToZero → Decimal → Trove
unfolding debt_after collateral_after
adjusted t params none rate = record t {
  collateral = collateral_after t params;
  debt = debt_after t params rate;
}
adjusted t params (some SetToZero.collateral) rate = record t {
  collateral = 0;
  debt = debt_after t params rate;
}
adjusted t params (some SetToZero.debt) rate = record t {
  collateral = collateral_after t params;
  debt = 0;
}

pub apply_adjustment_lem :
    (t : Trove) (params : TroveAdjustmentParams Decimal) (set_to_zero : Option SetToZero)
    (rate : Decimal)
    → apply_adjustment t params set_to_zero rate ≡ ok (adjusted t params set_to_zero rate)
unfolding apply_adjustment adjusted add Decimal.add add_debt add_collateral set_debt set_collateral
apply_adjustment_lem t params none rate = rw subtract_lem refl
apply_adjustment_lem t params (some SetToZero.collateral) rate = rw subtract_debt_lem refl
apply_adjustment_lem t params (some SetToZero.debt) rate = rw subtract_collateral_lem refl

-- What a debt change leads to, when the fee is added again.
debt_between_bounds :
    (t that : Trove) (rate : Decimal)
    → rate ≤ Decimal.one
    → let c = some (debt_between t that rate) in
      let d = t.debt + increase_with_fee rate (borrowed c) - or_zero (repaid c) in
      (that.debt ≤ d) × (d ≤ that.debt + 1) × ((t.debt < that.debt) ⊎ (d ≡ that.debt))
unfolding debt_between
debt_between_bounds t that rate h =
    ground (arith, apply_fee-unapply_fee rate (that.debt - t.debt) h)

collateral_between_lem :
    (t that : Trove)
    → let c = some (collateral_between t that) in
      t.collateral + or_zero (deposited c) - or_zero (withdrawn c) ≡ that.collateral
unfolding collateral_between
collateral_between_lem t that = ground arith

-- The adjustment between two Troves that are not empty.
pub adjustment_params : Trove → Trove → Decimal → TroveAdjustmentParams Decimal
unfolding Decimal.eq
adjustment_params t that rate =
    if Decimal.eq t.collateral that.collateral
    then debt_only (debt_between t that rate)
    else if Decimal.eq t.debt that.debt
    then collateral_only (collateral_between t that)
    else both (collateral_between t that) (debt_between t that rate)

pub adjustment_zero : Trove → Trove → Option SetToZero
unfolding Decimal.eq
adjustment_zero t that =
    if Decimal.eq t.collateral that.collateral
    then key_if_zero that.debt SetToZero.debt
    else if Decimal.eq t.debt that.debt
    then key_if_zero that.collateral SetToZero.collateral
    else or_else (key_if_zero that.debt SetToZero.debt)
        (key_if_zero that.collateral SetToZero.collateral)

pub what_adjusted_lem :
    (t that : Trove) (rate : Decimal)
    → what_adjusted t that rate
      ≡ ok (TroveChange.adjustment (adjustment_params t that rate) (adjustment_zero t that))
unfolding what_adjusted adjustment_params adjustment_zero
what_adjusted_lem t that rate =
    ground (arith, debt_change_lem t that rate, collateral_change_lem t that)

-- The three cases of `what_adjusted`.
adjusted_debt_only :
    (t that : Trove) (c : DebtChange Decimal) (rate : Decimal)
    → t.collateral ≡ that.collateral
    → (let d = t.debt + increase_with_fee rate (borrowed (some c)) - or_zero (repaid (some c)) in
        (that.debt ≤ d) × (d ≤ that.debt + 1) × ((t.debt < that.debt) ⊎ (d ≡ that.debt)))
    → Reaches t that (adjusted t (debt_only c) (key_if_zero that.debt SetToZero.debt) rate)
unfolding adjusted Decimal.is_zero
adjusted_debt_only t that c rate e h = ground arith

adjusted_collateral_only :
    (t that : Trove) (c : CollateralChange Decimal) (rate : Decimal)
    → t.debt ≡ that.debt
    → t.collateral + or_zero (deposited (some c)) - or_zero (withdrawn (some c)) ≡ that.collateral
    → Reaches t that
        (adjusted t (collateral_only c) (key_if_zero that.collateral SetToZero.collateral) rate)
unfolding adjusted Decimal.is_zero
adjusted_collateral_only t that c rate e h = ground arith

adjusted_both :
    (t that : Trove) (c : CollateralChange Decimal) (d : DebtChange Decimal) (rate : Decimal)
    → t.collateral + or_zero (deposited (some c)) - or_zero (withdrawn (some c)) ≡ that.collateral
    → (let e = t.debt + increase_with_fee rate (borrowed (some d)) - or_zero (repaid (some d)) in
        (that.debt ≤ e) × (e ≤ that.debt + 1) × ((t.debt < that.debt) ⊎ (e ≡ that.debt)))
    → Reaches t that (
        adjusted t
          (both c d)
          (or_else
            (key_if_zero that.debt SetToZero.debt)
            (key_if_zero that.collateral SetToZero.collateral))
          rate)
unfolding adjusted Decimal.is_zero
adjusted_both t that c d rate h k = ground arith

pub adjusted-Reaches :
    (t that : Trove) (rate : Decimal)
    → rate ≤ Decimal.one
    → Reaches t that (adjusted t (adjustment_params t that rate) (adjustment_zero t that) rate)
unfolding adjustment_params adjustment_zero
adjusted-Reaches t that rate h =
    let d = debt_between_bounds t that rate h in
    let c = collateral_between_lem t that in
    elim (Bool-cases (Decimal.eq t.collateral that.collateral)) [
      | inl same ↦ rw same (
          adjusted_debt_only t that (debt_between t that rate) rate
            (unfold Decimal.eq in ground arith) d)
      | inr moved ↦ elim (Bool-cases (Decimal.eq t.debt that.debt)) [
        | inl same ↦
            rw (moved, same)
              (adjusted_collateral_only t that (collateral_between t that) rate
                (unfold Decimal.eq in ground arith) c)
        | inr other ↦
            rw (moved, other)
              (adjusted_both t that (collateral_between t that) (debt_between t that rate) rate c d)
      ]
    ]
