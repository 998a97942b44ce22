-- ===== src/Transactions/Tests.antt =====
-- Tests of the transactions.
use hliquity.Base.{ℕ, ◌+◌, ◌≡◌, refl, true, Option, none, some, ok, err, Error, arith}
use hliquity.Decimal
use hliquity.Decimal.{Decimal}
use hliquity.Decimal.Text
use hliquity.Decimal.Text.{Decimalish, decimal}
use hliquity.Decimal.Text.Notation.{decimal_text, decimal_text-IsDecimal}
use hliquity.Constants.{defaults}
use hliquity.Fees
use hliquity.Fees.{Fees}
use hliquity.Trove.Params
use hliquity.Trove.Params.{
  TroveCreationParams, TroveAdjustmentParams, CollateralChange, DebtChange, both,
}
use hliquity.Trove.Defs
use hliquity.Trove.Change
use hliquity.Trove.User
use hliquity.Transactions.Redemptions
use hliquity.Trove.Defs.{Trove}
use hliquity.Trove.User.{UserTrove, open_trove}
use hliquity.Trove.Normalize.{create, adjust}
use hliquity.Hints
use hliquity.Hints.{Address}
use hliquity.Readings.Contracts
use hliquity.Readings.Contracts.Others.{get_fees}
use hliquity.Readings.Examples.{liquity}
use hliquity.Transactions.{PopulatedTransaction, Sources, find_hints}
use hliquity.Transactions.Troves.{
  creation_object, adjustment_object, populate_open_trove, populate_adjust_trove,
  populate_close_trove,
}
use hliquity.Transactions.Redemptions.{
  RedemptionContext, PopulatedRedemption, populate_redeem_hchf, increase_amount_by_minimum_net_debt,
}
use hliquity.Transactions.Effects.{tinybars, adjusted, adjust_trove_effect}
use hliquity.Trove.AdjustBy.{after}
use hliquity.Transactions.Opening.{created, opened, open_trove_effect}
use hliquity.Transactions.Limits.{IsSafe, redeem-IsSafe, increase_once}
use hliquity.Transactions.Receipts.{
  success, succeeded, MinedReceipt, IsMined, send_and_wait, send_and_wait_lem,
}

-- Without a search for hints: every trial answers alike.
abbrev sources : Sources
sources = record {
  big = decimal_text;
  liquity = liquity;
  get_first = ok "0x5";
  get_approx_hint =
      λ ratio n seed. ok (record { hint_address = "0x2"; latest_random_seed = seed; diff = 1 });
  find_insert_position = λ ratio a b. ok ("0x3", "0x4");
  parse_int = λ n. n;
  get_redemption_hints = λ amount price n. ok (record {
    first_redemption_hint = "0x6";
    partial_redemption_hint_nicr = 0;
    truncated_hchf_amount = 200_000_000_000;
  });
  number_of_trials = λ troves. 200;
  seed = 1;
}

fees_now : (fees : Fees) × (get_fees liquity none ≡ ok fees)
unfolding get_fees
fees_now = (_, refl)

rate_now : (rate : Decimal) × (Fees.borrowing_rate fees_now.0 none ≡ ok rate)
unfolding fees_now Fees.borrowing_rate Defs.collateral_ratio_is_below_critical Defs.collateral_ratio
    Decimal.mul_div Fees.base_rate Decimal.pow Fees.minutes_since_last_fee_operation
rate_now = (_, refl)

abbrev creation : TroveCreationParams Decimal
creation = record { deposit_collateral = 100_000_000_000; borrow_hchf = 200_000_000_000 }

creation_hints :
    (hints : Address × Address) × (find_hints sources
        (Defs.nominal_collateral_ratio (created defaults creation rate_now.0))
      ≡ ok hints)
unfolding rate_now Hints.find_hints_for_nominal_collateral_ratio Hints.find_by_trials
    Hints.collect_all Hints.collect_approx_hint Hints.closest Hints.closest_from
    Hints.generate_trials Hints.trials_loop Decimal.infinite Decimal.eq
    Contracts.get_number_of_troves Defs.nominal_collateral_ratio Decimal.mul_div Change.apply_fee
    Decimal.mul Decimal.min
creation_hints = (_, refl)

open_trove_effect_example :
    (tx : PopulatedTransaction) × (amount : ℕ) × (trove : Trove) × (populate_open_trove sources
        (creation_object creation)
        none
      ≡ ok tx)
    × (tinybars decimal_text tx.raw.amount ≡ ok amount)
    × (opened rate_now.0 defaults amount tx.raw.function_parameters ≡ ok trove)
    × (create decimal_text defaults (creation_object creation) (some rate_now.0) ≡ ok trove)
open_trove_effect_example =
    open_trove_effect sources decimal_text-IsDecimal creation fees_now.0 rate_now.0 creation_hints.0
      (λ e. omega arith) fees_now.1 rate_now.1 creation_hints.1

-- A deposit of 10 HBAR and a repayment of 100 HCHF.
abbrev adjustment : TroveAdjustmentParams Decimal
adjustment =
    both (CollateralChange.deposit_collateral 1_000_000_000) (DebtChange.repay_hchf 10_000_000_000)

owned : (u : UserTrove) × (Contracts.get_trove liquity (some "0x1") ≡ ok u)
unfolding Contracts.get_trove User.apply_redistribution Defs.subtract Defs.sub_or_zero
owned = (_, refl)

adjustment_hints :
    (hints : Address × Address) × (find_hints sources (
        Defs.nominal_collateral_ratio (
          after owned.0.trove
            (Params.collateral_change adjustment)
            (Params.debt_change adjustment)
            rate_now.0))
      ≡ ok hints)
unfolding rate_now owned after Hints.find_hints_for_nominal_collateral_ratio Hints.find_by_trials
    Hints.collect_all Hints.collect_approx_hint Hints.closest Hints.closest_from
    Hints.generate_trials Hints.trials_loop Decimal.infinite Decimal.eq
    Contracts.get_number_of_troves Defs.nominal_collateral_ratio Decimal.mul_div Change.apply_fee
    Decimal.mul Defs.multiply
adjustment_hints = (_, refl)

adjust_trove_effect_example :
    (tx : PopulatedTransaction) × (amount : ℕ) × (final : Trove) × (populate_adjust_trove sources
        (adjustment_object adjustment)
        none
        none
      ≡ ok tx)
    × (tinybars decimal_text tx.raw.amount ≡ ok amount)
    × (adjusted rate_now.0 owned.0.trove amount tx.raw.function_parameters ≡ ok final)
    × (adjust decimal_text owned.0.trove (adjustment_object adjustment) none ≡ ok final)
unfolding Contracts.get_address_or_user_address
adjust_trove_effect_example =
    adjust_trove_effect sources decimal_text-IsDecimal adjustment none owned.0 fees_now.0 rate_now.0
      adjustment_hints.0 ((omega arith, λ e. omega arith), omega arith) owned.1 fees_now.1
      rate_now.1 adjustment_hints.1

-- 3000 HCHF are asked for, of which the hints leave 2000.
redemption :
    (context : RedemptionContext) × (r : PopulatedRedemption) × (populate_redeem_hchf sources
        (decimal 300_000_000_000)
        none
      ≡ ok (context, r))
unfolding populate_redeem_hchf Redemptions.partial_hints Contracts.get_total Contracts.get_price
    get_fees Text.from Redemptions.default_max_redemption_rate Fees.redemption_rate Fees.base_rate
    Decimal.pow Fees.minutes_since_last_fee_operation
redemption = (_, _, refl)

redeem-IsSafe_example : IsSafe (redemption.0, redemption.1)
redeem-IsSafe_example =
    redeem-IsSafe sources (decimal 300_000_000_000) redemption.0 redemption.1 redemption.2

bigger :
    (b : PopulatedRedemption) × (increase_amount_by_minimum_net_debt sources redemption.0
        redemption.1 none
      ≡ ok b)
unfolding redemption increase_amount_by_minimum_net_debt Redemptions.default_max_redemption_rate
    Fees.redemption_rate Fees.base_rate Decimal.pow Fees.minutes_since_last_fee_operation
    Defs.collateral_ratio_is_below_critical Defs.collateral_ratio Decimal.mul_div
bigger = (_, refl)

increase_once_example :
    (redemption.1.is_truncated ≡ true)
    × (bigger.0.redeemable_hchf_amount
        ≡ redemption.1.redeemable_hchf_amount + defaults.hchf_minimum_net_debt)
    × (bigger.0.attempted_hchf_amount ≡ bigger.0.redeemable_hchf_amount)
    × ((another_rate : Option Decimalish)
        → increase_amount_by_minimum_net_debt sources redemption.0 bigger.0 another_rate
          ≡ err Error.not_truncated)
increase_once_example = increase_once sources redemption.0 redemption.1 bigger.0 none bigger.1

abbrev closure : MinedReceipt ℕ
closure = record { status = succeeded; raw_receipt = success; details = 7 }

send_and_wait_lem_example : (ok success ≡ ok success) × ((ok true ≡ ok true) × IsMined closure)
unfolding send_and_wait
send_and_wait_lem_example =
    send_and_wait_lem (λ tx. ok success) (populate_close_trove sources) (λ raw. ok 7) (ok true)
      closure true refl
