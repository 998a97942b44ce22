-- ===== src/Readings/Contracts.antt =====
-- packages/lib-hashgraph/src/HashgraphLiquity.ts: the readings, from the answers of the contracts'
-- view functions at a block. A uint256 is a number; the text between it and the Decimal is left out.
pub mod Others
use Prim.Native.String.{String}
use text.Mathlib.Text.{◌==◌ as str_eq}
use hliquity.Base.{
  ℕ, ◌+◌, ◌-◌, ◌*◌, Bool, true, false, Option, none, some, List, [], ◌∷◌, Result, ok, err, Error,
  ◌>>=◌, ◌==◌, ltb, if◌then◌else◌, ℤ, pos, negsuc, sub_ℕ, or_throw,
}
use hliquity.Decimal
use hliquity.Decimal.{Decimal, new_decimal}
use hliquity.Constants.{Constants}
use hliquity.Fees.{Fees, new_fees}
use hliquity.Trove.Defs
use hliquity.Trove.Defs.{Trove, empty, collateral_ratio_is_below_critical}
use hliquity.Trove.User.{
  UserTrove, UserTroveStatus, non_existent, open_trove, closed_by_owner, closed_by_liquidation,
  closed_by_redemption, TroveWithPendingRedistribution, apply_redistribution,
}
use hliquity.StabilityDeposit.{StabilityDeposit, new_stability_deposit}
use hliquity.HlqtStake.{HlqtStake}
use hliquity.Store.State.{FrontendStatus, unregistered, registered}
use hliquity.Readings.{
  Address, TroveListingParams, SortedBy, ascending_collateral_ratio, descending_collateral_ratio,
  apply_to_all,
}

-- `options?.blockTag`, where a block may be named.
pub data BlockTag : Type 0 where
  number : ℕ → BlockTag
  name : String → BlockTag

abbrev pub Tag : Type 0
Tag = Option BlockTag

-- What `Troves`, `rewardSnapshots`, `deposits`, `frontEnds` and `getMultipleSortedTroves` return.
pub record TroveResult : Type 0 where
  pub debt : ℕ
  pub coll : ℕ
  pub stake : ℕ
  pub status : ℕ

pub record SnapshotResult : Type 0 where
  pub eth : ℕ
  pub hchf_debt : ℕ

pub record DepositsResult : Type 0 where
  pub initial_value : ℕ
  pub front_end_tag : Address

pub record FrontEndResult : Type 0 where
  pub kickback_rate : ℕ
  pub is_registered : Bool

pub record BackendTrove : Type 0 where
  pub owner : Address
  pub debt : ℕ
  pub coll : ℕ
  pub stake : ℕ
  pub snapshot_eth : ℕ
  pub snapshot_hchf_debt : ℕ

-- The view functions that the readings call; a call may be rejected.
pub record Contracts : Type 0 where
  pub hchf_token : Address
  pub hlqt_token : Address
  pub saucer_swap_pool : Address
  pub get_collateral : Address → Tag → Result ℕ
  pub l_eth : Tag → Result ℕ
  pub l_hchf_debt : Tag → Result ℕ
  pub troves : Address → Tag → Result TroveResult
  pub reward_snapshots : Address → Tag → Result SnapshotResult
  pub get_trove_owners_count : Tag → Result ℕ
  pub last_fee_operation_time : Tag → Result ℕ
  pub base_rate : Tag → Result ℕ
  pub fetch_price : Tag → Result ℕ
  pub active_pool_eth : Tag → Result ℕ
  pub active_pool_hchf_debt : Tag → Result ℕ
  pub default_pool_eth : Tag → Result ℕ
  pub default_pool_hchf_debt : Tag → Result ℕ
  pub deposits : Address → Tag → Result DepositsResult
  pub get_compounded_hchf_deposit : Address → Tag → Result ℕ
  pub get_depositor_eth_gain : Address → Tag → Result ℕ
  pub get_depositor_hlqt_gain : Address → Tag → Result ℕ
  pub get_total_hchf_deposits : Tag → Result ℕ
  pub front_ends : Address → Tag → Result FrontEndResult
  pub total_hlqt_issued : Tag → Result ℕ
  pub hchf_token_address : Tag → Result Address
  pub hlqt_token_address : Tag → Result Address
  pub hchf_balance_of : Address → Tag → Result ℕ
  pub hlqt_balance_of : Address → Tag → Result ℕ
  -- of an ERC20 token
  pub balance_of : Address → Address → Tag → Result ℕ
  pub allowance : Address → Address → Address → Tag → Result ℕ
  pub uni_token : Tag → Result Address
  pub total_supply : Tag → Result ℕ
  pub reward_rate : Tag → Result ℕ
  pub period_finish : Tag → Result ℕ
  pub last_update_time : Tag → Result ℕ
  pub staked_balance_of : Address → Tag → Result ℕ
  pub earned : Address → Tag → Result ℕ
  pub stakes : Address → Tag → Result ℕ
  pub get_pending_eth_gain : Address → Tag → Result ℕ
  pub get_pending_hchf_gain : Address → Tag → Result ℕ
  pub total_hlqt_staked : Tag → Result ℕ
  pub get_multiple_sorted_troves : ℤ → ℕ → Tag → Result (List BackendTrove)
  pub block_timestamp : Tag → Result ℕ

-- The fields of HashgraphLiquity that the readings use.
pub record HashgraphLiquity : Type 0 where
  pub constants : Constants
  pub user_account_address : Address
  pub frontend_address : Address
  pub total_stability_pool_hlqt_reward : Decimal
  pub contracts : Contracts

unfoldable pub decimalify : Result ℕ → Result Decimal
unfolding new_decimal
decimalify answer = answer >>= λ n. new_decimal (pos n)

-- packages/lib-hashgraph/src/trove_status.ts
unfoldable pub user_trove_status_from : ℕ → Result UserTroveStatus
user_trove_status_from backend_status =
    if backend_status == 0
    then ok non_existent
    else if backend_status == 1
    then ok open_trove
    else if backend_status == 2
    then ok closed_by_owner
    else if backend_status == 3
    then ok closed_by_liquidation
    else if backend_status == 4
    then ok closed_by_redemption
    else err Error.invalid_backend_status

-- `BackendTroveStatus.active`
abbrev pub active : ℕ
active = 1

module _ (self : HashgraphLiquity) where
  -- An empty text counts as no address.
  unfoldable pub get_address_or_user_address : Option Address → Address
  get_address_or_user_address none = self.user_account_address
  get_address_or_user_address (some address) =
      if str_eq address "" then self.user_account_address else address

  unfoldable pub get_collateral_surplus_balance : Option Address → Tag → Result Decimal
  unfolding decimalify get_address_or_user_address
  get_collateral_surplus_balance address tag =
      decimalify (self.contracts.get_collateral (get_address_or_user_address address) tag)

  unfoldable pub get_total_redistributed : Tag → Result Trove
  unfolding decimalify
  get_total_redistributed tag = do
    collateral ← decimalify (self.contracts.l_eth tag)
    debt ← decimalify (self.contracts.l_hchf_debt tag)
    ok (record { constants = self.constants; collateral = collateral; debt = debt })

  -- The class's constructor with its defaults, and with all arguments.
  abbrev pub pending_of_status : Address → UserTroveStatus → TroveWithPendingRedistribution
  pending_of_status owner status = record {
    user_trove = record { trove = empty self.constants; owner_address = owner; status = status };
    stake = 0;
    snapshot_of_total_redistributed = empty self.constants;
  }

  abbrev pub new_pending :
      Address
      → UserTroveStatus
      → Decimal
      → Decimal
      → Decimal
      → Trove
      → TroveWithPendingRedistribution
  new_pending owner status collateral debt stake snapshot = record {
    user_trove = record {
      trove = record { constants = self.constants; collateral = collateral; debt = debt };
      owner_address = owner;
      status = status;
    };
    stake = stake;
    snapshot_of_total_redistributed = snapshot;
  }

  unfoldable pub get_trove_before_redistribution :
      Option Address → Tag → Result TroveWithPendingRedistribution
  unfolding decimalify user_trove_status_from get_address_or_user_address
  get_trove_before_redistribution address tag = do
    let owner = get_address_or_user_address address
    trove ← self.contracts.troves owner tag
    snapshot ← self.contracts.reward_snapshots owner tag
    status ← user_trove_status_from trove.status
    if trove.status == active
        then (do
          snapshot_collateral ← decimalify (ok snapshot.eth)
          snapshot_debt ← decimalify (ok snapshot.hchf_debt)
          coll ← decimalify (ok trove.coll)
          debt ← decimalify (ok trove.debt)
          stake ← decimalify (ok trove.stake)
          ok (
              new_pending owner status coll debt stake (record {
                constants = self.constants;
                collateral = snapshot_collateral;
                debt = snapshot_debt;
              })))
        else ok (pending_of_status owner status)

  -- The latest block, whatever the options.
  unfoldable pub get_trove : Option Address → Result UserTrove
  unfolding get_trove_before_redistribution get_total_redistributed
  get_trove address = do
    trove ← get_trove_before_redistribution address none
    total_redistributed ← get_total_redistributed none
    apply_redistribution trove total_redistributed

  unfoldable pub get_number_of_troves : Tag → Result ℕ
  get_number_of_troves tag = self.contracts.get_trove_owners_count tag

  unfoldable pub get_price : Tag → Result Decimal
  unfolding decimalify
  get_price tag = decimalify (self.contracts.fetch_price tag)

  unfoldable pub get_total : Tag → Result Trove
  unfolding decimalify Defs.add
  get_total tag = do
    active_collateral ← decimalify (self.contracts.active_pool_eth tag)
    active_debt ← decimalify (self.contracts.active_pool_hchf_debt tag)
    liquidated_collateral ← decimalify (self.contracts.default_pool_eth tag)
    closed_debt ← decimalify (self.contracts.default_pool_hchf_debt tag)
    let active_pool : Trove = record {
      constants = self.constants;
      collateral = active_collateral;
      debt = active_debt;
    }
    let default_pool : Trove = record {
      constants = self.constants;
      collateral = liquidated_collateral;
      debt = closed_debt;
    }
    ok (Defs.add active_pool default_pool)

  unfoldable pub get_stability_deposit : Option Address → Tag → Result StabilityDeposit
  unfolding decimalify get_address_or_user_address new_stability_deposit
  get_stability_deposit address tag = do
    let owner = get_address_or_user_address address
    deposits ← self.contracts.deposits owner tag
    initial ← decimalify (ok deposits.initial_value)
    current ← decimalify (self.contracts.get_compounded_hchf_deposit owner tag)
    collateral_gain ← decimalify (self.contracts.get_depositor_eth_gain owner tag)
    hlqt_reward ← decimalify (self.contracts.get_depositor_hlqt_gain owner tag)
    new_stability_deposit initial current collateral_gain hlqt_reward deposits.front_end_tag

  -- What is issued beyond the cap makes the subtraction throw.
  unfoldable pub get_remaining_stability_pool_hlqt_reward : Tag → Result Decimal
  unfolding decimalify Decimal.sub
  get_remaining_stability_pool_hlqt_reward tag = do
    total_hlqt_issued ← decimalify (self.contracts.total_hlqt_issued tag)
    Decimal.sub self.total_stability_pool_hlqt_reward total_hlqt_issued
