-- ===== src/Store/Derive.antt =====
-- packages/lib-base/src/HLiquityStore.ts: the derived state, and its reduction.
use hliquity.Base.{ℕ, ◌+◌, Bool, not, none, some, Result, ok, ◌>>=◌, if◌then◌else◌}
use hliquity.Decimal
use hliquity.Decimal.{Decimal}
use hliquity.Fees
use hliquity.Fees.{Fees}
use hliquity.Trove.Defs.{collateral_ratio_is_below_critical, collateral_ratio_is_below_minimum}
use hliquity.Trove.User
use hliquity.Trove.User.{UserTrove, apply_redistribution}
use hliquity.Store.State.{Obj, Whole, by_value, strict_equals_boolean, update_if_changed}

pub record DerivedState : Type 0 where
  pub trove : Obj UserTrove
  pub fees : Obj Fees
  pub borrowing_rate : Obj Decimal
  pub redemption_rate : Obj Decimal
  pub have_undercollateralized_troves : Bool

-- `_derive`; the objects that it makes have identities from `fresh` on.
unfoldable pub derive : ℕ → Whole → Result DerivedState
derive fresh base = do
  let recovery = collateral_ratio_is_below_critical base.total.content base.price.content
  fees ← Fees.set_recovery_mode base.fees_in_normal_mode.content recovery
  trove ←
      apply_redistribution base.trove_before_redistribution.content base.total_redistributed.content
  borrowing_rate ← Fees.borrowing_rate fees none
  redemption_rate ← Fees.redemption_rate fees 0 none
  riskiest ←
      apply_redistribution base.riskiest_trove_before_redistribution.content
        base.total_redistributed.content
  ok (record {
    trove = record { id = fresh; content = trove };
    fees = record { id = fresh + 1; content = fees };
    borrowing_rate = record { id = fresh + 2; content = borrowing_rate };
    redemption_rate = record { id = fresh + 3; content = redemption_rate };
    have_undercollateralized_troves =
        collateral_ratio_is_below_minimum riskiest.trove base.price.content;
  })

-- `_updateFees`
unfoldable pub update_fees : Obj Fees → Obj Fees → Obj Fees
update_fees prev next = if not (Fees.equals next.content prev.content) then next else prev

-- `_reduceDerived`
unfoldable pub reduce_derived : DerivedState → DerivedState → DerivedState
unfolding update_fees update_if_changed
reduce_derived state update = record {
  fees = update_fees state.fees update.fees;
  trove = update_if_changed (by_value User.equals) state.trove (some update.trove);
  borrowing_rate =
      update_if_changed (by_value Decimal.eq) state.borrowing_rate (some update.borrowing_rate);
  redemption_rate =
      update_if_changed (by_value Decimal.eq) state.redemption_rate (some update.redemption_rate);
  have_undercollateralized_troves =
      update_if_changed strict_equals_boolean state.have_undercollateralized_troves
        (some update.have_undercollateralized_troves);
}
