-- ===== src/Readings/Contracts/Others.antt =====
-- packages/lib-hashgraph/src/HashgraphLiquity.ts: the readings of tokens, of liquidity mining, of
-- sorted Troves, of fees, stakes and frontends.
use hliquity.Base.{
  ℕ, ◌-◌, ◌*◌, Option, none, some, List, [], ◌∷◌, Result, ok, ◌>>=◌, if◌then◌else◌, ℤ, pos, negsuc,
}
use hliquity.Decimal
use hliquity.Decimal.{Decimal}
use hliquity.Fees.{Fees, new_fees}
use hliquity.Trove.Defs.{collateral_ratio_is_below_critical}
use hliquity.Trove.User.{UserTrove, open_trove, TroveWithPendingRedistribution}
use hliquity.HlqtStake.{HlqtStake}
use hliquity.Store.State.{FrontendStatus, unregistered, registered}
use hliquity.Readings.{
  Address, TroveListingParams, SortedBy, ascending_collateral_ratio, descending_collateral_ratio,
  apply_to_all,
}
use hliquity.Readings.Contracts.{
  Tag, BackendTrove, HashgraphLiquity, decimalify, new_pending, get_address_or_user_address,
  get_total_redistributed, get_total, get_price,
}

-- `-((params.startingAt ?? 0) + 1)` from the end of the list, and `params.startingAt ?? 0` from its
-- start.
abbrev pub start_index : SortedBy → Option ℕ → ℤ
start_index descending_collateral_ratio none = pos 0
start_index descending_collateral_ratio (some starting_at) = pos starting_at
start_index ascending_collateral_ratio none = negsuc 0
start_index ascending_collateral_ratio (some starting_at) = negsuc starting_at

module _ (self : HashgraphLiquity) where
  unfoldable pub get_hchf_in_stability_pool : Tag → Result Decimal
  unfolding decimalify
  get_hchf_in_stability_pool tag = decimalify (self.contracts.get_total_hchf_deposits tag)

  unfoldable pub get_hchf_balance : Option Address → Tag → Result Decimal
  unfolding decimalify get_address_or_user_address
  get_hchf_balance address tag =
      decimalify (self.contracts.hchf_balance_of (get_address_or_user_address self address) tag)

  unfoldable pub get_hchf_token_address : Tag → Result Address
  get_hchf_token_address tag = self.contracts.hchf_token_address tag

  unfoldable pub get_hlqt_token_address : Tag → Result Address
  get_hlqt_token_address tag = self.contracts.hlqt_token_address tag

  unfoldable pub get_hchf_token_allowance_of_hchf_contract : Option Address → Tag → Result Decimal
  unfolding decimalify get_address_or_user_address get_hchf_token_address
  get_hchf_token_allowance_of_hchf_contract address tag = do
    token ← get_hchf_token_address tag
    decimalify (
        self.contracts.allowance token (get_address_or_user_address self address)
          self.contracts.hchf_token tag)

  unfoldable pub get_hlqt_balance : Option Address → Tag → Result Decimal
  unfolding decimalify get_address_or_user_address
  get_hlqt_balance address tag =
      decimalify (self.contracts.hlqt_balance_of (get_address_or_user_address self address) tag)

  unfoldable pub get_hlqt_token_allowance_of_hlqt_contract : Option Address → Tag → Result Decimal
  unfolding decimalify get_address_or_user_address get_hlqt_token_address
  get_hlqt_token_allowance_of_hlqt_contract address tag = do
    token ← get_hlqt_token_address tag
    decimalify (
        self.contracts.allowance token (get_address_or_user_address self address)
          self.contracts.hlqt_token tag)

  -- The token of the pool is read at the latest block.
  unfoldable pub get_uni_token_balance : Option Address → Tag → Result Decimal
  unfolding decimalify get_address_or_user_address
  get_uni_token_balance address tag = do
    token ← self.contracts.uni_token none
    decimalify (self.contracts.balance_of token (get_address_or_user_address self address) tag)

  unfoldable pub get_uni_token_allowance : Option Address → Tag → Result Decimal
  unfolding decimalify get_address_or_user_address
  get_uni_token_allowance address tag = do
    token ← self.contracts.uni_token none
    decimalify (
        self.contracts.allowance token (get_address_or_user_address self address)
          self.contracts.saucer_swap_pool tag)

  -- `Math.max(0, ...)` of the seconds left is the difference that stops at zero; as a factor it is
  -- a whole number.
  unfoldable pub get_remaining_liquidity_mining_hlqt_reward : Tag → Result Decimal
  unfolding decimalify Decimal.eq Decimal.mul
  get_remaining_liquidity_mining_hlqt_reward tag = do
    total_supply ← decimalify (self.contracts.total_supply tag)
    reward_rate ← decimalify (self.contracts.reward_rate tag)
    period_finish ← self.contracts.period_finish tag
    last_update_time ← self.contracts.last_update_time tag
    block_timestamp ← self.contracts.block_timestamp tag
    ok (
        Decimal.mul reward_rate (
          (period_finish
            - (if Decimal.eq total_supply 0 then last_update_time else block_timestamp))
          * Decimal.digits))

  unfoldable pub get_liquidity_mining_stake : Option Address → Tag → Result Decimal
  unfolding decimalify get_address_or_user_address
  get_liquidity_mining_stake address tag =
      decimalify (self.contracts.staked_balance_of (get_address_or_user_address self address) tag)

  unfoldable pub get_total_staked_uni_tokens : Tag → Result Decimal
  unfolding decimalify
  get_total_staked_uni_tokens tag = decimalify (self.contracts.total_supply tag)

  unfoldable pub get_liquidity_mining_hlqt_reward : Option Address → Tag → Result Decimal
  unfolding decimalify get_address_or_user_address
  get_liquidity_mining_hlqt_reward address tag =
      decimalify (self.contracts.earned (get_address_or_user_address self address) tag)

  unfoldable pub trove_from_backend : BackendTrove → Result TroveWithPendingRedistribution
  unfolding decimalify
  trove_from_backend backend_trove = do
    snapshot_collateral ← decimalify (ok backend_trove.snapshot_eth)
    snapshot_debt ← decimalify (ok backend_trove.snapshot_hchf_debt)
    coll ← decimalify (ok backend_trove.coll)
    debt ← decimalify (ok backend_trove.debt)
    stake ← decimalify (ok backend_trove.stake)
    ok (
        new_pending self backend_trove.owner open_trove coll debt stake (record {
          constants = self.constants;
          collateral = snapshot_collateral;
          debt = snapshot_debt;
        }))

  unfoldable pub troves_from_backend :
      List BackendTrove → Result (List TroveWithPendingRedistribution)
  unfolding trove_from_backend
  troves_from_backend [] = ok []
  troves_from_backend (backend_trove ∷ backend_troves) = do
    trove ← trove_from_backend backend_trove
    rest ← troves_from_backend backend_troves
    ok (trove ∷ rest)

  -- `getTroves`, without and with the redistribution. The checks of `first`, `startingAt` and
  -- `sortedBy` are passed by their types.
  unfoldable pub get_troves_before_redistribution :
      TroveListingParams → Tag → Result (List TroveWithPendingRedistribution)
  unfolding troves_from_backend
  get_troves_before_redistribution params tag = do
    backend_troves ←
        self.contracts.get_multiple_sorted_troves (start_index params.sorted_by params.starting_at)
          params.first tag
    troves_from_backend backend_troves

  unfoldable pub get_troves : TroveListingParams → Tag → Result (List UserTrove)
  unfolding get_total_redistributed troves_from_backend
  get_troves params tag = do
    total_redistributed ← get_total_redistributed self tag
    backend_troves ←
        self.contracts.get_multiple_sorted_troves (start_index params.sorted_by params.starting_at)
          params.first tag
    troves ← troves_from_backend backend_troves
    apply_to_all total_redistributed troves

  unfoldable pub get_fees : Tag → Result Fees
  unfolding decimalify get_total get_price new_fees
  get_fees tag = do
    last_fee_operation_time ← self.contracts.last_fee_operation_time tag
    base_rate_without_decay ← decimalify (self.contracts.base_rate tag)
    total ← get_total self tag
    price ← get_price self tag
    block_timestamp ← self.contracts.block_timestamp tag
    new_fees base_rate_without_decay self.constants.minute_decay_factor self.constants.beta
        (last_fee_operation_time * 1000) (block_timestamp * 1000)
        (collateral_ratio_is_below_critical total price) self.constants

  unfoldable pub get_hlqt_stake : Option Address → Tag → Result HlqtStake
  unfolding decimalify get_address_or_user_address
  get_hlqt_stake address tag = do
    let owner = get_address_or_user_address self address
    staked_hlqt ← decimalify (self.contracts.stakes owner tag)
    collateral_gain ← decimalify (self.contracts.get_pending_eth_gain owner tag)
    hchf_gain ← decimalify (self.contracts.get_pending_hchf_gain owner tag)
    ok (record {
      staked_hlqt = staked_hlqt;
      collateral_gain = collateral_gain;
      hchf_gain = hchf_gain;
    })

  unfoldable pub get_total_staked_hlqt : Tag → Result Decimal
  unfolding decimalify
  get_total_staked_hlqt tag = decimalify (self.contracts.total_hlqt_staked tag)

  -- `address ?? this.frontendAddress`
  abbrev pub address_or_frontend : Option Address → Address
  address_or_frontend none = self.frontend_address
  address_or_frontend (some address) = address

  unfoldable pub get_frontend_status : Option Address → Tag → Result FrontendStatus
  unfolding decimalify
  get_frontend_status address tag = do
    answer ← self.contracts.front_ends (address_or_frontend address) tag
    if answer.is_registered
        then (do
          kickback_rate ← decimalify (ok answer.kickback_rate)
          ok (registered kickback_rate))
        else ok unregistered
