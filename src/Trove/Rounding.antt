-- ===== src/Trove/Rounding.antt =====
-- The borrowing fee of packages/lib-base/src/Trove.ts: taking it off and adding it again.
use native.Mathlib.Nat.{div-eq_of_lt}
use hliquity.Base.{◌+◌, ◌-◌, ◌/◌, ◌≤◌, ◌≡◌, arith}
use hliquity.Decimal
use hliquity.Decimal.{Decimal}
use hliquity.Decimal.Arith.{div_ceil_rounds_up, mul_rounds_down}
use hliquity.Trove.Change.{apply_fee, unapply_fee}

-- For a rate of at most 100%, adding the fee to the amount from which it was taken off gives the
-- debt increase, or one unit more.
pub apply_fee-unapply_fee :
    (rate d : Decimal)
    → rate ≤ Decimal.one
    → (d ≤ apply_fee rate (unapply_fee rate d)) × (apply_fee rate (unapply_fee rate d) ≤ d + 1)
unfolding apply_fee unapply_fee
apply_fee-unapply_fee rate d h =
    let v = Decimal.one + rate in
    let b = Decimal.div_ceil d v in
    let up = div_ceil_rounds_up d v (omega arith) in
    let down = mul_rounds_down b v in (omega arith, omega arith)

-- With no fee nothing is rounded.
pub apply_fee-unapply_fee_free : (d : Decimal) → apply_fee 0 (unapply_fee 0 d) ≡ d
unfolding apply_fee unapply_fee
apply_fee-unapply_fee_free d =
    let b = Decimal.div_ceil d Decimal.one in
    let up = div_ceil_rounds_up d Decimal.one (omega arith) in
    let down = mul_rounds_down b Decimal.one in omega arith

-- Nothing stays nothing, at every rate.
pub apply_fee-unapply_fee_zero : (rate : Decimal) → apply_fee rate (unapply_fee rate 0) ≡ 0
unfolding apply_fee unapply_fee Decimal.mul Decimal.div_ceil
apply_fee-unapply_fee_zero rate =
    let v = Decimal.one + rate in
    let none_left : (0 + (v - 1)) / v ≡ 0 = div-eq_of_lt (omega arith) in ground (arith, none_left)
