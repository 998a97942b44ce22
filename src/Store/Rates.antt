-- ===== src/Store/Rates.antt =====
-- The fees and the rates in the derived state of packages/lib-base/src/HLiquityStore.ts.
use hliquity.Base.{ℕ, ◌+◌, Bool, true, false, none, ok, ◌≡◌, refl, ◌≤◌, ◌⊎◌}
use hliquity.Decimal
use hliquity.Decimal.{Decimal}
use hliquity.Fees
use hliquity.Fees.{Fees, set_recovery_mode, borrowing_rate, redemption_rate}
use hliquity.Fees.Bounds.{
  IsValid, IsRecent, set_recovery_mode-IsValid, borrowing_rate_bounds, redemption_rate_bounds,
}
use hliquity.Trove.Defs.{collateral_ratio_is_below_critical, collateral_ratio_is_below_minimum}
use hliquity.Trove.User.{redistributed, apply_redistribution_lem}
use hliquity.Store.State.{Whole}
use hliquity.Store.Derive.{DerivedState, derive}

-- The mode of the system, by the total of all Troves and the price.
abbrev pub recovery : Whole → Bool
recovery base = collateral_ratio_is_below_critical base.total.content base.price.content

-- What the derived state says of the fees.
pub record HasRates (base : Whole) (d : DerivedState) : Type 0 where
  pub mode :
      d.fees.content ≡ record base.fees_in_normal_mode.content { recovery_mode = recovery base }
  pub borrowing :
      ((recovery base ≡ true) × (d.borrowing_rate.content ≡ 0))
      ⊎ ((recovery base ≡ false)
          × (base.fees_in_normal_mode.content.constants.minimum_borrowing_rate
              ≤ d.borrowing_rate.content))
  pub borrowing_maximum :
      d.borrowing_rate.content ≤ base.fees_in_normal_mode.content.constants.maximum_borrowing_rate
  pub redemption_minimum :
      base.fees_in_normal_mode.content.constants.minimum_redemption_rate ≤ d.redemption_rate.content
  pub redemption_maximum : d.redemption_rate.content ≤ Decimal.one

-- The derived state, by its two rates.
derived : ℕ → Whole → Decimal → Decimal → DerivedState
derived fresh base b r =
    let riskiest =
      redistributed base.riskiest_trove_before_redistribution.content
        base.total_redistributed.content in
    record {
      trove = record {
        id = fresh;
        content =
            redistributed base.trove_before_redistribution.content base.total_redistributed.content;
      };
      fees = record {
        id = fresh + 1;
        content = record base.fees_in_normal_mode.content { recovery_mode = recovery base };
      };
      borrowing_rate = record { id = fresh + 2; content = b };
      redemption_rate = record { id = fresh + 3; content = r };
      have_undercollateralized_troves =
          collateral_ratio_is_below_minimum riskiest.trove base.price.content;
    }

-- For valid fees of a block at most 0xffffffff minutes after the last fee operation, and constants
-- whose minimum rates are at most the maximum borrowing rate and 100%: the derived state is defined.
-- Its fees are those of normal mode, in recovery mode exactly if the total of all Troves is below
-- the critical ratio at the price; then its borrowing rate is 0, otherwise at least the minimum. The
-- borrowing rate is at most the maximum, and the redemption rate between its minimum and 100%.
pub derive-HasRates :
    (fresh : ℕ) (base : Whole)
    → IsValid base.fees_in_normal_mode.content
    → IsRecent base.fees_in_normal_mode.content none
    → base.fees_in_normal_mode.content.constants.minimum_borrowing_rate
      ≤ base.fees_in_normal_mode.content.constants.maximum_borrowing_rate
    → base.fees_in_normal_mode.content.constants.minimum_redemption_rate ≤ Decimal.one
    → (d : DerivedState) × (derive fresh base ≡ ok d) × HasRates base d
unfolding derive derived Fees.minutes_since_last_fee_operation
derive-HasRates fresh base valid recent ordered small =
    let normal = base.fees_in_normal_mode.content in
    let fees = record normal { recovery_mode = recovery base } in
    let (b, found_b, mode, b_max, b_decay) = borrowing_rate_bounds fees none valid recent ordered in
    let (r, found_r, r_min, r_max) = redemption_rate_bounds fees 0 none valid recent small in
    (
      derived fresh base b r,
      rw
          (
            set_recovery_mode-IsValid normal (recovery base) valid,
            apply_redistribution_lem base.trove_before_redistribution.content
                base.total_redistributed.content,
            found_b,
            found_r,
            apply_redistribution_lem base.riskiest_trove_before_redistribution.content
                base.total_redistributed.content,
          )
          refl,
      record {
        mode = refl;
        borrowing = mode;
        borrowing_maximum = b_max;
        redemption_minimum = r_min;
        redemption_maximum = r_max;
      },
    )
