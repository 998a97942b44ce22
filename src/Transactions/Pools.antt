-- ===== src/Transactions/Pools.antt =====
-- packages/lib-hashgraph/src/HashgraphLiquity.ts: the transactions of liquidations, of the Stability
-- Pool, of staking and of liquidity mining. Amounts are read by `Decimal.from`.
use hliquity.Base.{
  ℕ, ◌+◌, ◌*◌, Option, none, some, List, [], ◌∷◌, Result, ok, err, Error, ◌>>=◌, if◌then◌else◌,
}
use hliquity.Decimal
use hliquity.Decimal.{Decimal}
use hliquity.Decimal.Text.{Decimalish, decimal}
use hliquity.Decimal.Text
use hliquity.Trove.Defs.{Trove, add_collateral, nominal_collateral_ratio}
use hliquity.Hints.{Address}
use hliquity.Readings.Contracts.{get_address_or_user_address, get_trove, get_stability_deposit}
use hliquity.Transactions.{
  uint256, address, address_array, trove_manager, stability_pool, hlqt_staking, saucer_swap_pool,
  token, PopulatedTransaction, Sources, find_hints, populate, is_truthy, gas_for_hlqt_issuance,
  gas_for_unipool_reward_update,
}

-- `populateSetPrice` is not implemented.
unfoldable pub populate_set_price : Decimalish → Result PopulatedTransaction
populate_set_price price = err Error.not_implemented

-- `addressOrAddresses`
pub data Liquidated : Type 0 where
  one : Address → Liquidated
  several : List Address → Liquidated

unfoldable pub populate_liquidate : Liquidated → PopulatedTransaction
populate_liquidate (several addresses) =
    populate trove_manager "batchLiquidateTroves" (3_000_000 + gas_for_hlqt_issuance)
      (address_array addresses ∷ [])
populate_liquidate (one owner) =
    populate trove_manager "liquidate" (3_000_000 + gas_for_hlqt_issuance) (address owner ∷ [])

-- `Decimal.from(maximumNumberOfTrovesToLiquidate).bigNumber`
unfoldable pub populate_liquidate_up_to : ℕ → PopulatedTransaction
populate_liquidate_up_to maximum_number_of_troves_to_liquidate =
    populate trove_manager "liquidateTroves" (3_000_000 + gas_for_hlqt_issuance)
      (uint256 (maximum_number_of_troves_to_liquidate * Decimal.digits) ∷ [])

module _ (sources : Sources) where
  abbrev pub tag_or_own : Option Address → Address
  tag_or_own none = sources.liquity.frontend_address
  tag_or_own (some frontend_tag) = frontend_tag

  unfoldable pub populate_deposit_hchf_in_stability_pool :
      Decimalish → Option Address → Result PopulatedTransaction
  populate_deposit_hchf_in_stability_pool amount frontend_tag = do
    d ← Text.from sources.big amount
    ok (
        populate stability_pool "provideToSP" (3_000_000 + gas_for_hlqt_issuance)
          (uint256 d ∷ address (tag_or_own frontend_tag) ∷ []))

  unfoldable pub populate_withdraw_hchf_from_stability_pool :
      Decimalish → Result PopulatedTransaction
  populate_withdraw_hchf_from_stability_pool amount = do
    d ← Text.from sources.big amount
    ok (
        populate stability_pool "withdrawFromSP" (3_000_000 + gas_for_hlqt_issuance)
          (uint256 d ∷ []))

  unfoldable pub populate_withdraw_gains_from_stability_pool : PopulatedTransaction
  populate_withdraw_gains_from_stability_pool =
      populate stability_pool "withdrawFromSP" (3_000_000 + gas_for_hlqt_issuance) (uint256 0 ∷ [])

  unfoldable pub collateral_gain_transaction : Address × Address → PopulatedTransaction
  collateral_gain_transaction (upper, lower) =
      populate stability_pool "withdrawETHGainToTrove" (3_000_000 + gas_for_hlqt_issuance)
        (address upper ∷ address lower ∷ [])

  -- The transaction, and the Trove that it announces.
  unfoldable pub populate_transfer_collateral_gain_to_trove :
      (from : Option Address) → Result (PopulatedTransaction × Trove)
  unfolding collateral_gain_transaction
  populate_transfer_collateral_gain_to_trove from = do
    let owner = get_address_or_user_address sources.liquity from
    initial_trove ← get_trove sources.liquity (some owner)
    stability_deposit ← get_stability_deposit sources.liquity (some owner) none
    let final_trove = add_collateral initial_trove.trove stability_deposit.collateral_gain
    hints ← find_hints sources (nominal_collateral_ratio final_trove)
    ok (collateral_gain_transaction hints, final_trove)

  unfoldable pub populate_stake_hlqt : Decimalish → Result PopulatedTransaction
  populate_stake_hlqt amount = do
    d ← Text.from sources.big amount
    ok (populate hlqt_staking "stake" 3_000_000 (uint256 d ∷ []))

  unfoldable pub populate_unstake_hlqt : Decimalish → Result PopulatedTransaction
  populate_unstake_hlqt amount = do
    d ← Text.from sources.big amount
    ok (populate hlqt_staking "unstake" 3_000_000 (uint256 d ∷ []))

  unfoldable pub populate_withdraw_gains_from_staking : Result PopulatedTransaction
  unfolding populate_unstake_hlqt
  populate_withdraw_gains_from_staking = populate_unstake_hlqt (decimal 0)

  unfoldable pub populate_register_frontend : Decimalish → Result PopulatedTransaction
  populate_register_frontend kickback_rate = do
    d ← Text.from sources.big kickback_rate
    ok (populate stability_pool "registerFrontEnd" 3_000_000 (uint256 d ∷ []))

  -- The pool's own address stands for `saucerSwapPoolContractId.toSolidityAddress()`.
  unfoldable pub approval_of : Decimalish → Result PopulatedTransaction
  approval_of allowance = do
    uni_token_address ← sources.liquity.contracts.uni_token none
    d ← Text.from sources.big allowance
    ok (
        populate (token uni_token_address) "approve" 3_000_000
          (address sources.liquity.contracts.saucer_swap_pool ∷ uint256 d ∷ []))

  -- An allowance that does not count as true is refused.
  unfoldable pub populate_approve_uni_tokens : Option Decimalish → Result PopulatedTransaction
  unfolding approval_of
  populate_approve_uni_tokens none = err Error.infinite_approval
  populate_approve_uni_tokens (some allowance) =
      if is_truthy allowance then approval_of allowance else err Error.infinite_approval

  unfoldable pub populate_stake_uni_tokens : Decimalish → Result PopulatedTransaction
  populate_stake_uni_tokens amount = do
    d ← Text.from sources.big amount
    ok (
        populate saucer_swap_pool "stake" (3_000_000 + gas_for_unipool_reward_update)
          (uint256 d ∷ []))

  unfoldable pub populate_unstake_uni_tokens : Decimalish → Result PopulatedTransaction
  populate_unstake_uni_tokens amount = do
    d ← Text.from sources.big amount
    ok (
        populate saucer_swap_pool "withdraw" (3_000_000 + gas_for_unipool_reward_update)
          (uint256 d ∷ []))

unfoldable pub populate_withdraw_hlqt_reward_from_liquidity_mining : PopulatedTransaction
populate_withdraw_hlqt_reward_from_liquidity_mining =
    populate saucer_swap_pool "claimReward" (3_000_000 + gas_for_unipool_reward_update) []

unfoldable pub populate_exit_liquidity_mining : PopulatedTransaction
populate_exit_liquidity_mining =
    populate saucer_swap_pool "withdrawAndClaim" (3_000_000 + gas_for_unipool_reward_update) []
