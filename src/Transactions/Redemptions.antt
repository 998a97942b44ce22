-- ===== src/Transactions/Redemptions.antt =====
-- packages/lib-hashgraph/src/HashgraphLiquity.ts, `populateRedeemHCHF`: the transaction that redeems
-- HCHF, and the larger one that a truncated redemption offers.
use hliquity.Base.{
  ◌+◌, ◌*◌, Bool, Option, none, some, [], ◌∷◌, Result, ok, err, Error, ◌>>=◌, if◌then◌else◌,
}
use hliquity.Decimal
use hliquity.Decimal.{Decimal}
use hliquity.Decimal.Text.{Decimalish}
use hliquity.Decimal.Text
use hliquity.Fees
use hliquity.Fees.{Fees}
use hliquity.Trove.Defs.{Trove}
use hliquity.Hints.{Address, address_zero}
use hliquity.Readings.Contracts.{get_total, get_price}
use hliquity.Readings.Contracts.Others.{get_fees}
use hliquity.Transactions.{
  uint256, address, trove_manager, PopulatedTransaction, Sources, find_hints, populate, is_truthy,
  default_redemption_rate_slippage_tolerance, redeem_max_iterations,
  gas_for_potential_last_fee_operation_time_update,
}

-- What the redemption's closures hold on to.
pub record RedemptionContext : Type 0 where
  pub fees : Fees
  pub total : Trove
  pub first_redemption_hint : Address

-- The arguments of `populateRedemption`.
pub record RedemptionArguments : Type 0 where
  pub attempted_hchf_amount : Decimal
  pub max_redemption_rate : Option Decimal
  pub truncated_amount : Decimal
  pub upper_hint : Address
  pub lower_hint : Address
  pub hint_nicr : Decimal

pub record PopulatedRedemption : Type 0 where
  pub transaction : PopulatedTransaction
  pub attempted_hchf_amount : Decimal
  pub is_truncated : Bool
  pub redeemable_hchf_amount : Decimal
  -- what `increaseAmountByMinimumNetDebt` holds on to
  pub max_redemption_rate : Option Decimal

-- The arguments with their defaults.
abbrev pub with_defaults : Decimal → Option Decimal → RedemptionArguments
with_defaults attempted max_redemption_rate = record {
  attempted_hchf_amount = attempted;
  max_redemption_rate = max_redemption_rate;
  truncated_amount = attempted;
  upper_hint = address_zero;
  lower_hint = address_zero;
  hint_nicr = 0;
}

unfoldable pub default_max_redemption_rate : RedemptionContext → Decimal → Result Decimal
unfolding Decimal.min Decimal.add
default_max_redemption_rate context amount = do
  rate ← Fees.redemption_rate context.fees (Decimal.div amount context.total.debt) none
  ok (Decimal.min (Decimal.add rate default_redemption_rate_slippage_tolerance) Decimal.one)

abbrev pub max_rate_or_default :
    RedemptionContext → RedemptionArguments → Option Decimal → Result Decimal
max_rate_or_default context arguments none =
    default_max_redemption_rate context arguments.truncated_amount
max_rate_or_default context arguments (some max_redemption_rate) = ok max_redemption_rate

unfoldable pub redemption_transaction :
    RedemptionContext → RedemptionArguments → Decimal → PopulatedTransaction
redemption_transaction context arguments max_rate =
    populate trove_manager "redeemCollateral"
      (3_000_000 + gas_for_potential_last_fee_operation_time_update)
      (uint256 arguments.truncated_amount
        ∷ address context.first_redemption_hint
        ∷ address arguments.upper_hint
        ∷ address arguments.lower_hint
        ∷ uint256 arguments.hint_nicr
        ∷ uint256 (redeem_max_iterations * Decimal.digits)
        ∷ uint256 max_rate
        ∷ [])

-- The redemption with a limit.
unfoldable pub redemption_of :
    RedemptionContext → RedemptionArguments → Decimal → PopulatedRedemption
unfolding redemption_transaction Decimal.lt
redemption_of context arguments max_rate = record {
  transaction = redemption_transaction context arguments max_rate;
  attempted_hchf_amount = arguments.attempted_hchf_amount;
  is_truncated = Decimal.lt arguments.truncated_amount arguments.attempted_hchf_amount;
  redeemable_hchf_amount = arguments.truncated_amount;
  max_redemption_rate = arguments.max_redemption_rate;
}

-- `populateRedemption`
unfoldable pub populate_redemption :
    RedemptionContext → RedemptionArguments → Result PopulatedRedemption
unfolding redemption_of
populate_redemption context arguments = do
  max_rate ← max_rate_or_default context arguments arguments.max_redemption_rate
  ok (redemption_of context arguments max_rate)

module _ (sources : Sources) where
  -- A new rate that does not count as true leaves the old one.
  abbrev pub resolve_max_rate : Option Decimal → Option Decimalish → Result (Option Decimal)
  resolve_max_rate old none = ok old
  resolve_max_rate old (some new_max_redemption_rate) =
      if is_truthy new_max_redemption_rate
      then (do rate ← Text.from sources.big new_max_redemption_rate; ok (some rate))
      else ok old

  -- `increaseAmountByMinimumNetDebt`
  unfoldable pub increase_amount_by_minimum_net_debt :
      RedemptionContext → PopulatedRedemption → Option Decimalish → Result PopulatedRedemption
  unfolding populate_redemption Decimal.add
  increase_amount_by_minimum_net_debt context redemption new_max_redemption_rate =
      if redemption.is_truncated
      then (do
        max_rate ← resolve_max_rate redemption.max_redemption_rate new_max_redemption_rate
        populate_redemption context (
            with_defaults
              (Decimal.add redemption.redeemable_hchf_amount
                sources.liquity.constants.hchf_minimum_net_debt)
              max_rate))
      else err Error.not_truncated

  -- The hints of the partial redemption; a ratio of zero has none.
  unfoldable pub partial_hints : Decimal → Result (Address × Address)
  unfolding Decimal.eq
  partial_hints hint_nicr =
      if Decimal.eq hint_nicr 0
      then ok (address_zero, address_zero)
      else find_hints sources hint_nicr

  abbrev pub initial_max_rate : Option Decimalish → Result (Option Decimal)
  initial_max_rate max_redemption_rate = resolve_max_rate none max_redemption_rate

  -- `populateRedeemHCHF`, with the context that its closures hold on to.
  unfoldable pub populate_redeem_hchf :
      Decimalish → Option Decimalish → Result (RedemptionContext × PopulatedRedemption)
  unfolding Decimal.is_zero populate_redemption
  populate_redeem_hchf amount max_redemption_rate = do
    attempted ← Text.from sources.big amount
    fees ← get_fees sources.liquity none
    total ← get_total sources.liquity none
    price ← get_price sources.liquity none
    hints ← sources.get_redemption_hints attempted price redeem_max_iterations
    partial ← partial_hints hints.partial_redemption_hint_nicr
    let (upper, lower) = partial
    let context : RedemptionContext = record {
      fees = fees;
      total = total;
      first_redemption_hint = hints.first_redemption_hint;
    }
    if Decimal.is_zero hints.truncated_hchf_amount then err Error.amount_too_low_to_redeem else (do
      max_rate ← initial_max_rate max_redemption_rate
      redemption ← populate_redemption context (record {
        attempted_hchf_amount = attempted;
        max_redemption_rate = max_rate;
        truncated_amount = hints.truncated_hchf_amount;
        upper_hint = upper;
        lower_hint = lower;
        hint_nicr = hints.partial_redemption_hint_nicr;
      })
      ok (context, redemption))
