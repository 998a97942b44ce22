-- ===== src/Transactions/Opening.antt =====
-- What the transaction that opens a Trove asks the contract for, by the names of its arguments,
-- against the Trove for which its hints are sought.
use hliquity.Base.{
  ℕ, ◌+◌, ◌≡◌, ◌≢◌, refl, none, some, List, [], ◌∷◌, Result, ok, err, Error, ltb, if◌then◌else◌,
  arith,
}
use hliquity.Decimal
use hliquity.Decimal.{Decimal}
use hliquity.Decimal.BigText.{IsDecimal}
use hliquity.Decimal.Text.RoundTrip.{from-to_string}
use hliquity.Constants.{Constants}
use hliquity.Fees
use hliquity.Fees.{Fees}
use hliquity.Trove.Params.{TroveCreationParams}
use hliquity.Trove.Defs.{Trove, is_empty, nominal_collateral_ratio}
use hliquity.Trove.Change
use hliquity.Trove.Change.{apply_fee}
use hliquity.Trove.Normalize.{create}
use hliquity.Trove.Recreate.{normalize_creation_entries}
use hliquity.Hints.{Address}
use hliquity.Readings.Contracts.Others.{get_fees}
use hliquity.Transactions.{
  Parameter, uint256, address, PopulatedTransaction, Sources, find_hints,
  default_borrowing_rate_slippage_tolerance,
}
use hliquity.Transactions.Troves.{creation_object, open_trove_transaction, populate_open_trove}
use hliquity.Transactions.Effects.{tinybars}

-- The Trove that the arguments of `openTrove` ask for, for a fee rate that their limit allows.
abbrev pub opened : Decimal → Constants → ℕ → List Parameter → Result Trove
opened rate constants amount (uint256 limit ∷ uint256 borrow ∷ address upper ∷ address lower ∷ []) =
    if ltb limit rate
    then err Error.call_rejected
    else ok (record {
      constants = constants;
      collateral = amount;
      debt = constants.hchf_liquidation_reserve + apply_fee rate borrow;
    })
opened rate constants amount parameters = err Error.call_rejected

-- The Trove of the parameters.
abbrev pub created : Constants → TroveCreationParams Decimal → Decimal → Trove
created constants p rate = record {
  constants = constants;
  collateral = p.deposit_collateral;
  debt = constants.hchf_liquidation_reserve + apply_fee rate p.borrow_hchf;
}

module _ (sources : Sources) (laws : IsDecimal sources.big) where
  create_object :
      (p : TroveCreationParams Decimal) (rate : Decimal)
      → create sources.big sources.liquity.constants (creation_object p) (some rate)
        ≡ ok (created sources.liquity.constants p rate)
  unfolding create Change.apply is_empty Decimal.is_zero Decimal.add
  create_object p rate = rw (normalize_creation_entries sources.big p) refl

  limit_allows :
      (p : TroveCreationParams Decimal) (rate amount : Decimal) (upper lower : Address)
      → opened rate sources.liquity.constants amount
          (open_trove_transaction sources p
            (Decimal.add rate default_borrowing_rate_slippage_tolerance)
            (upper, lower)).raw.function_parameters
        ≡ ok (record (created sources.liquity.constants p rate) { collateral = amount })
  unfolding open_trove_transaction Decimal.add
  limit_allows p rate amount upper lower = ground arith

  -- The opening of a Trove with a finite deposit, where the readings and the search for hints
  -- succeed, is populated: the amount that is sent and the arguments ask the contract for exactly
  -- the Trove that `create` computes and whose ratio the hints are sought for, and the default
  -- limit allows the current rate.
  pub open_trove_effect :
      (p : TroveCreationParams Decimal) (fees : Fees) (rate : Decimal) (hints : Address × Address)
      → p.deposit_collateral ≢ Decimal.infinity
      → get_fees sources.liquity none ≡ ok fees
      → Fees.borrowing_rate fees none ≡ ok rate
      → find_hints sources (nominal_collateral_ratio (created sources.liquity.constants p rate))
        ≡ ok hints
      → (tx : PopulatedTransaction) × (amount : ℕ) × (trove : Trove) × (populate_open_trove sources
            (creation_object p)
            none
          ≡ ok tx)
        × (tinybars sources.big tx.raw.amount ≡ ok amount)
        × (opened rate sources.liquity.constants amount tx.raw.function_parameters ≡ ok trove)
        × (create sources.big sources.liquity.constants (creation_object p) (some rate) ≡ ok trove)
  unfolding populate_open_trove open_trove_transaction
  open_trove_effect p fees rate (upper, lower) finite at_fees at_rate found = (
    open_trove_transaction sources p (Decimal.add rate default_borrowing_rate_slippage_tolerance)
        (upper, lower),
    p.deposit_collateral,
    created sources.liquity.constants p rate,
    rw (normalize_creation_entries sources.big p, at_fees, at_rate, create_object p rate, found)
        refl,
    from-to_string sources.big laws p.deposit_collateral finite,
    limit_allows p rate p.deposit_collateral upper lower,
    create_object p rate,
  )
