-- ===== src/Transactions/Effects.antt =====
-- What the transactions of packages/lib-hashgraph/src/HashgraphLiquity.ts ask the contract for, by the
-- names of its arguments, against the Troves for which their hints are sought.
use hliquity.Base.{
  ℕ, ◌+◌, ◌-◌, ◌<◌, ◌≡◌, ◌≢◌, refl, ap, ◌∙◌, true, false, Option, none, some, List, ◌∷◌, Result, ok,
  err, Error, ltb, if◌then◌else◌, arith,
}
use hliquity.Decimal
use hliquity.Decimal.{Decimal}
use hliquity.Decimal.BigText.{BigText, IsDecimal}
use hliquity.Decimal.Text.{Decimalish, decimal, string}
use hliquity.Decimal.Text
use hliquity.Decimal.Text.RoundTrip.{from-to_string}
use hliquity.Fees
use hliquity.Fees.{Fees}
use hliquity.Trove.Params
use hliquity.Trove.Params.{
  CollateralChange, DebtChange, TroveCreationParams, TroveAdjustmentParams, collateral_only,
  debt_only, both, deposited, withdrawn, borrowed, repaid,
}
use hliquity.Trove.Defs.{Trove, nominal_collateral_ratio}
use hliquity.Trove.User.{UserTrove}
use hliquity.Trove.Change.{apply_fee, or_zero, rate_or_minimum}
use hliquity.Trove.Normalize
use hliquity.Trove.Normalize.{normalize_trove_adjustment, normalize_trove_creation, create, adjust}
use hliquity.Trove.AdjustBy.{after, apply_params}
use hliquity.Hints.{Address}
use hliquity.Readings.Contracts.{get_address_or_user_address, get_trove}
use hliquity.Readings.Contracts.Others.{get_fees}
use hliquity.Transactions.{
  Parameter, uint256, boolean, Hbar, from_tinybars, from_string, PopulatedTransaction, Sources,
  find_hints,
}
use hliquity.Transactions.Troves.{
  adjustment_object, hbar_of, is_given, debt_amount, rate_if_borrowing, rate_with_tolerance,
  adjust_trove_transaction, populate_adjust_trove,
}

-- The tinybars of an amount.
abbrev pub tinybars : BigText → Hbar → Result ℕ
tinybars big (from_tinybars n) = ok n
tinybars big (from_string s) = Text.from big (string s)

-- The Trove that the arguments of `adjustTrove` ask for, for a fee rate that their limit allows.
abbrev pub adjusted : Decimal → Trove → ℕ → List Parameter → Result Trove
adjusted rate t amount
      (uint256 limit ∷ uint256 withdrawal ∷ uint256 change ∷ boolean true ∷ hints) =
    if ltb limit rate
    then err Error.call_rejected
    else ok (record t {
      collateral = t.collateral + amount - withdrawal;
      debt = t.debt + apply_fee rate change;
    })
adjusted rate t amount
      (uint256 limit ∷ uint256 withdrawal ∷ uint256 change ∷ boolean false ∷ hints) =
    ok (record t { collateral = t.collateral + amount - withdrawal; debt = t.debt - change })
adjusted rate t amount parameters = err Error.call_rejected

-- Positive amounts, which an object of normalized parameters has.
abbrev pub PositiveCollateral : CollateralChange Decimal → Type 0
PositiveCollateral (CollateralChange.deposit_collateral d) = (0 < d) × (d ≢ Decimal.infinity)
PositiveCollateral (CollateralChange.withdraw_collateral w) = 0 < w

abbrev pub PositiveDebt : DebtChange Decimal → Type 0
PositiveDebt (DebtChange.borrow_hchf b) = 0 < b
PositiveDebt (DebtChange.repay_hchf r) = 0 < r

abbrev pub IsPositive : TroveAdjustmentParams Decimal → Type 0
IsPositive (collateral_only c) = PositiveCollateral c
IsPositive (debt_only e) = PositiveDebt e
IsPositive (both c e) = PositiveCollateral c × PositiveDebt e

module _ (big : BigText) where
  -- Normalized parameters are normalized again to themselves.
  normalize_object :
      (p : TroveAdjustmentParams Decimal)
      → IsPositive p
      → normalize_trove_adjustment big (adjustment_object p) ≡ ok p
  unfolding normalize_trove_adjustment Normalize.defined Normalize.check_allowed_keys
      Normalize.bad_keys Normalize.decimalize Text.from Normalize.non_zero
      Normalize.trove_adjustment_params_from_entries Normalize.property Decimal.is_zero
  normalize_object (collateral_only (CollateralChange.deposit_collateral d)) h = ground arith
  normalize_object (collateral_only (CollateralChange.withdraw_collateral w)) h = ground arith
  normalize_object (debt_only (DebtChange.borrow_hchf b)) h = ground arith
  normalize_object (debt_only (DebtChange.repay_hchf r)) h = ground arith
  normalize_object (both (CollateralChange.deposit_collateral d) (DebtChange.borrow_hchf b)) h =
      ground arith
  normalize_object (both (CollateralChange.deposit_collateral d) (DebtChange.repay_hchf r)) h =
      ground arith
  normalize_object (both (CollateralChange.withdraw_collateral w) (DebtChange.borrow_hchf b)) h =
      ground arith
  normalize_object (both (CollateralChange.withdraw_collateral w) (DebtChange.repay_hchf r)) h =
      ground arith

-- The rate that is read for a change of debt: only a borrowing needs it.
abbrev pub rate_for : Option Decimal → Decimal → Option Decimal
rate_for none rate = none
rate_for (some borrow) rate = some rate

module _ (sources : Sources) (laws : IsDecimal sources.big) where
  amount_asked :
      (p : TroveAdjustmentParams Decimal)
      → IsPositive p
      → tinybars sources.big (hbar_of sources (deposited (Params.collateral_change p)))
        ≡ ok (or_zero (deposited (Params.collateral_change p)))
  amount_asked (collateral_only (CollateralChange.deposit_collateral d)) h =
      from-to_string sources.big laws d h.1
  amount_asked (collateral_only (CollateralChange.withdraw_collateral w)) h = refl
  amount_asked (debt_only e) h = refl
  amount_asked (both (CollateralChange.deposit_collateral d) e) h =
      from-to_string sources.big laws d h.0.1
  amount_asked (both (CollateralChange.withdraw_collateral w) e) h = refl

  -- The arguments ask for the Trove after the changes.
  debt_asked :
      (t : Trove) (c : Option (CollateralChange Decimal)) (e : Option (DebtChange Decimal))
      (rate : Decimal) (hints : List Parameter)
      → adjusted rate t (or_zero (deposited c)) (
          uint256 (rate_with_tolerance sources (rate_for (borrowed e) rate))
          ∷ uint256 (or_zero (withdrawn c))
          ∷ uint256 (debt_amount sources (borrowed e) (repaid e))
          ∷ boolean (is_given sources (borrowed e))
          ∷ hints)
        ≡ ok (after t c e rate)
  unfolding after Decimal.add
  debt_asked t c none rate hints = ground arith
  debt_asked t c (some (DebtChange.borrow_hchf b)) rate hints = ground arith
  debt_asked t c (some (DebtChange.repay_hchf r)) rate hints = ground arith

  rate_found :
      (p : TroveAdjustmentParams Decimal) (fees : Fees) (rate : Decimal)
      → get_fees sources.liquity none ≡ ok fees
      → Fees.borrowing_rate fees none ≡ ok rate
      → (borrow : Option Decimal) → rate_if_borrowing sources borrow ≡ ok (rate_for borrow rate)
  rate_found p fees rate at_fees at_rate none = refl
  rate_found p fees rate at_fees at_rate (some b) = rw (at_fees, at_rate) refl

  -- Without a borrowing the rate does not matter.
  after_rate :
      (t : Trove) (c : Option (CollateralChange Decimal)) (e : Option (DebtChange Decimal))
      (rate : Decimal)
      → after t c e (rate_or_minimum t (rate_for (borrowed e) rate)) ≡ after t c e rate
  unfolding after
  after_rate t c none rate = refl
  after_rate t c (some (DebtChange.borrow_hchf b)) rate = refl
  after_rate t c (some (DebtChange.repay_hchf r)) rate = refl

  adjust_object :
      (t : Trove) (p : TroveAdjustmentParams Decimal) (rate : Decimal)
      → IsPositive p
      → let debt = Params.debt_change p in
        adjust sources.big t (adjustment_object p) (rate_for (borrowed debt) rate)
        ≡ ok (after t (Params.collateral_change p) debt rate)
  unfolding adjust
  adjust_object t p rate h = rw (normalize_object sources.big p h) (
      apply_params t p _
      ∙ ap ok (after_rate t (Params.collateral_change p) (Params.debt_change p) rate))

  -- An adjustment by positive amounts, where the readings and the search for hints succeed, is
  -- populated: the amount that is sent and the arguments ask the contract for exactly the Trove that
  -- `adjust` computes and whose ratio the hints are sought for, and the default limit allows the
  -- current rate.
  pub adjust_trove_effect :
      (p : TroveAdjustmentParams Decimal) (from : Option Address) (owned : UserTrove) (fees : Fees)
      (rate : Decimal) (hints : Address × Address)
      → IsPositive p
      → get_trove sources.liquity (some (get_address_or_user_address sources.liquity from))
        ≡ ok owned
      → get_fees sources.liquity none ≡ ok fees
      → Fees.borrowing_rate fees none ≡ ok rate
      → find_hints sources (
          nominal_collateral_ratio
            (after owned.trove (Params.collateral_change p) (Params.debt_change p) rate))
        ≡ ok hints
      → (tx : PopulatedTransaction) × (amount : ℕ) × (final : Trove) × (populate_adjust_trove
            sources
            (adjustment_object p)
            none
            from
          ≡ ok tx)
        × (tinybars sources.big tx.raw.amount ≡ ok amount)
        × (adjusted rate owned.trove amount tx.raw.function_parameters ≡ ok final)
        × (adjust sources.big owned.trove
              (adjustment_object p)
              (rate_for (borrowed (Params.debt_change p)) rate)
            ≡ ok final)
  unfolding populate_adjust_trove adjust_trove_transaction
  adjust_trove_effect p from owned fees rate hints positive at_trove at_fees at_rate found =
      let collateral = Params.collateral_change p in
      let debt = Params.debt_change p in
      let limit = rate_with_tolerance sources (rate_for (borrowed debt) rate) in
      (
        adjust_trove_transaction sources p limit hints,
        or_zero (deposited collateral),
        after owned.trove collateral debt rate,
        rw
            (
              normalize_object sources.big p positive,
              at_trove,
              rate_found p fees rate at_fees at_rate (borrowed debt),
              adjust_object owned.trove p rate positive,
              found,
            )
            refl,
        amount_asked p positive,
        debt_asked owned.trove collateral debt rate _,
        adjust_object owned.trove p rate positive,
      )
