-- ===== src/Trove/Laws.antt =====
-- The arithmetic of packages/lib-base/src/Trove.ts: subtraction that stops at zero, and ratios.
use hliquity.Base.{◌-◌, ◌≤◌, ◌<◌, ◌≡◌, refl, ok, err, Error, arith}
use hliquity.Decimal
use hliquity.Decimal.{Decimal}
use hliquity.Trove.Defs.{
  Trove, net_debt, add, subtract, subtract_collateral, subtract_debt, sub_or_zero,
}

pub sub_or_zero_lem : (a b : Decimal) → sub_or_zero a b ≡ ok (a - b)
unfolding sub_or_zero
sub_or_zero_lem a b = ground arith

-- Subtraction never throws; it stops at zero in each component.
pub subtract_lem :
    (t that : Trove)
    → subtract t that
      ≡ ok (record t { collateral = t.collateral - that.collateral; debt = t.debt - that.debt })
unfolding subtract
subtract_lem t that =
    rw (sub_or_zero_lem t.collateral that.collateral, sub_or_zero_lem t.debt that.debt) refl

pub subtract_collateral_lem :
    (t : Trove) (c : Decimal)
    → subtract_collateral t c ≡ ok (record t { collateral = t.collateral - c })
unfolding subtract_collateral
subtract_collateral_lem t c = rw sub_or_zero_lem refl

pub subtract_debt_lem :
    (t : Trove) (d : Decimal) → subtract_debt t d ≡ ok (record t { debt = t.debt - d })
unfolding subtract_debt
subtract_debt_lem t d = rw sub_or_zero_lem refl

-- Subtracting what was added gives the Trove back.
pub subtract-add : (t that : Trove) → subtract (add t that) that ≡ ok t
unfolding add Decimal.add
subtract-add t that = rw subtract_lem (ground arith)

-- The net debt is the debt without the reserve; it throws exactly where the debt is smaller.
pub net_debt_le :
    (t : Trove)
    → t.constants.hchf_liquidation_reserve ≤ t.debt
    → net_debt t ≡ ok (t.debt - t.constants.hchf_liquidation_reserve)
unfolding net_debt
net_debt_le t h = ground arith

pub net_debt_lt :
    (t : Trove)
    → t.debt < t.constants.hchf_liquidation_reserve
    → net_debt t ≡ err Error.net_debt_below_reserve
unfolding net_debt
net_debt_lt t h = ground arith
