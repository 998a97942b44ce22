-- ===== src/Transactions/Troves.antt =====
-- packages/lib-hashgraph/src/HashgraphLiquity.ts: the transactions that open, adjust and close Troves.
use Prim.Native.String.{String}
use hliquity.Base.{
  ℕ, ◌+◌, Bool, true, false, Option, none, some, [], ◌∷◌, Result, ok, ◌>>=◌, if◌then◌else◌,
}
use hliquity.Decimal
use hliquity.Decimal.{Decimal}
use hliquity.Decimal.Text.{Decimalish, decimal}
use hliquity.Decimal.Text
use hliquity.Fees
use hliquity.Trove.Params
use hliquity.Trove.Params.{
  TroveCreationParams, TroveAdjustmentParams, TroveClosureParams, deposited, withdrawn, borrowed,
  repaid,
}
use hliquity.Trove.Defs.{Trove, nominal_collateral_ratio}
use hliquity.Trove.Change.{or_zero}
use hliquity.Trove.Normalize.{
  Entries, normalize_trove_creation, normalize_trove_adjustment, create, adjust,
}
use hliquity.Hints.{Address}
use hliquity.Readings.Contracts.{get_address_or_user_address, get_trove}
use hliquity.Readings.Contracts.Others.{get_fees}
use hliquity.Transactions.{
  uint256, address, boolean, Hbar, from_tinybars, from_string, borrower_operations,
  PopulatedTransaction, Sources, find_hints, typed_contract_execute_transaction, populated,
  populate, is_truthy, default_borrowing_rate_slippage_tolerance, gas_for_potential_list_traversal,
  gas_for_potential_last_fee_operation_time_update,
}

-- Normalized parameters, as the entries of their object.
abbrev pub creation_object : TroveCreationParams Decimal → Entries (Option Decimalish)
creation_object p =
    ("depositCollateral", some (decimal p.deposit_collateral))
    ∷ ("borrowHCHF", some (decimal p.borrow_hchf))
    ∷ []

abbrev pub as_value : Option Decimal → Option Decimalish
as_value none = none
as_value (some d) = some (decimal d)

abbrev pub adjustment_object : TroveAdjustmentParams Decimal → Entries (Option Decimalish)
adjustment_object p =
    ("depositCollateral", as_value (deposited (Params.collateral_change p)))
    ∷ ("withdrawCollateral", as_value (withdrawn (Params.collateral_change p)))
    ∷ ("borrowHCHF", as_value (borrowed (Params.debt_change p)))
    ∷ ("repayHCHF", as_value (repaid (Params.debt_change p)))
    ∷ []

-- An object with one property.
abbrev pub only : String → Decimalish → Entries (Option Decimalish)
only key amount = (key, some amount) ∷ []

module _ (sources : Sources) where
  abbrev pub max_rate_or : Decimal → Option Decimalish → Result Decimal
  max_rate_or default none = ok default
  max_rate_or default (some max_borrowing_rate) = Text.from sources.big max_borrowing_rate

  -- The transaction that opens a Trove with these parameters, limit and hints.
  unfoldable pub open_trove_transaction :
      TroveCreationParams Decimal → Decimal → Address × Address → PopulatedTransaction
  unfolding populated typed_contract_execute_transaction
  open_trove_transaction normalized final_max_borrowing_rate (upper, lower) =
      let gas =
        3_000_000 + gas_for_potential_last_fee_operation_time_update
        + gas_for_potential_list_traversal in
      populated
        (typed_contract_execute_transaction borrower_operations "openTrove" gas
          (some (from_string (Text.to_string sources.big normalized.deposit_collateral none)))
          (uint256 final_max_borrowing_rate
            ∷ uint256 normalized.borrow_hchf
            ∷ address upper
            ∷ address lower
            ∷ []))
        gas

  unfoldable pub populate_open_trove :
      Entries (Option Decimalish) → Option Decimalish → Result PopulatedTransaction
  unfolding open_trove_transaction
  populate_open_trove params max_borrowing_rate = do
    normalized ← normalize_trove_creation sources.big params
    fees ← get_fees sources.liquity none
    borrowing_rate ← Fees.borrowing_rate fees none
    new_trove ←
        create sources.big sources.liquity.constants (creation_object normalized)
          (some borrowing_rate)
    final_max_borrowing_rate ←
        max_rate_or (Decimal.add borrowing_rate default_borrowing_rate_slippage_tolerance)
          max_borrowing_rate
    hints ← find_hints sources (nominal_collateral_ratio new_trove)
    ok (open_trove_transaction normalized final_max_borrowing_rate hints)

  unfoldable pub populate_close_trove : PopulatedTransaction
  populate_close_trove = populate borrower_operations "closeTrove" 3_000_000 []

  -- The parameters of the closure that are reported, of the Trove before it.
  unfoldable pub closure_params : Trove → TroveClosureParams Decimal
  closure_params trove_before_closure = record {
    withdraw_collateral = trove_before_closure.collateral;
    repay_hchf = some trove_before_closure.debt;
  }

  -- `borrowHCHF && this.getFees()`, and its borrowing rate.
  abbrev pub rate_if_borrowing : Option Decimal → Result (Option Decimal)
  rate_if_borrowing none = ok none
  rate_if_borrowing (some amount) = do
    fees ← get_fees sources.liquity none
    borrowing_rate ← Fees.borrowing_rate fees none
    ok (some borrowing_rate)

  abbrev pub rate_with_tolerance : Option Decimal → Decimal
  rate_with_tolerance none = 0
  rate_with_tolerance (some borrowing_rate) =
      Decimal.add borrowing_rate default_borrowing_rate_slippage_tolerance

  -- A limit that does not count as true is replaced like one that is missing.
  abbrev pub max_rate_if_truthy : Option Decimal → Option Decimalish → Result Decimal
  max_rate_if_truthy borrowing_rate none = ok (rate_with_tolerance borrowing_rate)
  max_rate_if_truthy borrowing_rate (some max_borrowing_rate) =
      if is_truthy max_borrowing_rate
      then Text.from sources.big max_borrowing_rate
      else ok (rate_with_tolerance borrowing_rate)

  abbrev pub hbar_of : Option Decimal → Hbar
  hbar_of none = from_tinybars 0
  hbar_of (some deposit_collateral) =
      from_string (Text.to_string sources.big deposit_collateral none)

  abbrev pub is_given : Option Decimal → Bool
  is_given none = false
  is_given (some d) = true

  -- `borrowHCHF ?? repayHCHF ?? Decimal.ZERO`
  abbrev pub debt_amount : Option Decimal → Option Decimal → Decimal
  debt_amount (some borrow) repay = borrow
  debt_amount none repay = or_zero repay

  abbrev pub adjustment_gas : Option Decimal → ℕ
  adjustment_gas none = 3_000_000 + gas_for_potential_list_traversal
  adjustment_gas (some borrow) =
      3_000_000 + gas_for_potential_list_traversal
      + gas_for_potential_last_fee_operation_time_update

  -- The transaction of an adjustment with this limit and these hints.
  unfoldable pub adjust_trove_transaction :
      TroveAdjustmentParams Decimal → Decimal → Address × Address → PopulatedTransaction
  unfolding populated typed_contract_execute_transaction
  adjust_trove_transaction normalized final_max_borrowing_rate (upper, lower) =
      let collateral = Params.collateral_change normalized in
      let debt = Params.debt_change normalized in
      let gas = adjustment_gas (borrowed debt) in
      populated
        (typed_contract_execute_transaction borrower_operations "adjustTrove" gas
          (some (hbar_of (deposited collateral)))
          (uint256 final_max_borrowing_rate
            ∷ uint256 (or_zero (withdrawn collateral))
            ∷ uint256 (debt_amount (borrowed debt) (repaid debt))
            ∷ boolean (is_given (borrowed debt))
            ∷ address upper
            ∷ address lower
            ∷ []))
        gas

  -- `from` is the address of the options.
  unfoldable pub populate_adjust_trove :
      Entries (Option Decimalish)
      → Option Decimalish
      → (from : Option Address) → Result PopulatedTransaction
  unfolding adjust_trove_transaction
  populate_adjust_trove params max_borrowing_rate from = do
    normalized ← normalize_trove_adjustment sources.big params
    trove ← get_trove sources.liquity (some (get_address_or_user_address sources.liquity from))
    borrowing_rate ← rate_if_borrowing (borrowed (Params.debt_change normalized))
    final_trove ← adjust sources.big trove.trove (adjustment_object normalized) borrowing_rate
    final_max_borrowing_rate ← max_rate_if_truthy borrowing_rate max_borrowing_rate
    hints ← find_hints sources (nominal_collateral_ratio final_trove)
    ok (adjust_trove_transaction normalized final_max_borrowing_rate hints)

  unfoldable pub populate_deposit_collateral :
      Decimalish → Option Address → Result PopulatedTransaction
  unfolding populate_adjust_trove
  populate_deposit_collateral amount from =
      populate_adjust_trove (only "depositCollateral" amount) none from

  unfoldable pub populate_withdraw_collateral :
      Decimalish → Option Address → Result PopulatedTransaction
  unfolding populate_adjust_trove
  populate_withdraw_collateral amount from =
      populate_adjust_trove (only "withdrawCollateral" amount) none from

  unfoldable pub populate_borrow_hchf : Decimalish → Option Address → Result PopulatedTransaction
  unfolding populate_adjust_trove
  populate_borrow_hchf amount from = populate_adjust_trove (only "borrowHCHF" amount) none from

  unfoldable pub populate_repay_hchf : Decimalish → Option Address → Result PopulatedTransaction
  unfolding populate_adjust_trove
  populate_repay_hchf amount from = populate_adjust_trove (only "repayHCHF" amount) none from

  unfoldable pub populate_claim_collateral_surplus : PopulatedTransaction
  populate_claim_collateral_surplus = populate borrower_operations "claimCollateral" 3_000_000 []
