-- ===== src/Readings/FetchStore.antt =====
-- packages/lib-hashgraph/src/HashgraphLiquity.ts, `fetchStoreValues`: the base state of the store,
-- from the readings at one block. The objects that it makes have identities from `fresh` on.
use Prim.Native.String.{String}
use text.Mathlib.Text.{◌==◌ as str_eq}
use hliquity.Base.{
  ℕ, ◌+◌, ◌*◌, Bool, false, none, some, List, [], ◌∷◌, Result, ok, err, ◌>>=◌, if◌then◌else◌,
}
use hliquity.Decimal
use hliquity.Decimal.{Decimal}
use hliquity.Fees.{Fees, new_fees}
use hliquity.Trove.Defs.{Trove}
use hliquity.Trove.Normalize.{includes}
use hliquity.Trove.User.{TroveWithPendingRedistribution, non_existent}
use hliquity.StabilityDeposit.{StabilityDeposit}
use hliquity.HlqtStake.{HlqtStake}
use hliquity.Store.State.{FrontendStatus, unregistered, Obj, Whole}
use hliquity.Readings.{Address}
use hliquity.Readings.Contracts.{
  Tag, HashgraphLiquity, decimalify, pending_of_status, get_trove_before_redistribution,
  get_total_redistributed, get_total, get_price, get_number_of_troves, get_stability_deposit,
  get_remaining_stability_pool_hlqt_reward, get_collateral_surplus_balance,
}
use hliquity.Readings.Contracts.Others.{
  get_hchf_balance, get_hchf_token_address, get_hlqt_token_address, get_hlqt_balance,
  get_uni_token_balance, get_uni_token_allowance, get_liquidity_mining_stake,
  get_liquidity_mining_hlqt_reward, get_hlqt_stake, get_frontend_status, get_hchf_in_stability_pool,
  get_total_staked_hlqt, get_total_staked_uni_tokens, get_remaining_liquidity_mining_hlqt_reward,
  get_hchf_token_allowance_of_hchf_contract, get_hlqt_token_allowance_of_hlqt_contract,
}

abbrev pub address_zero : Address
address_zero = "0x0000000000000000000000000000000000000000"

-- The deposit and the stake without a user.
abbrev pub no_deposit : StabilityDeposit
no_deposit = record {
  initial_hchf = 0;
  current_hchf = 0;
  collateral_gain = 0;
  hlqt_reward = 0;
  frontend_tag = address_zero;
}

abbrev pub no_stake : HlqtStake
no_stake = record { staked_hlqt = 0; collateral_gain = 0; hchf_gain = 0 }

-- What the network answers beside the contracts: the balance of an account, the identifier that
-- `TokenId.fromSolidityAddress` makes of an address, unless it throws, and the tokens of `fetchTokens`.
pub record Network : Type 0 where
  pub get_balance : Address → Tag → Result ℕ
  pub token_id : Address → Result String
  pub fetch_tokens : List String → Result (List String)
  pub hchf_address : Result Address
  pub hlqt_address : Result Address

-- `.catch(() => [])`
abbrev pub or_no_tokens : Result (List String) → List String
or_no_tokens (err e) = []
or_no_tokens (ok tokens) = tokens

pub record TokenAssociations : Type 0 where
  pub with_hchf : Bool
  pub with_hlqt : Bool
  pub with_lp_token : Bool

-- The values of the user.
pub record UserValues : Type 0 where
  pub account_balance : Decimal
  pub hchf_balance : Decimal
  pub hchf_token_address : Address
  pub hlqt_token_address : Address
  pub hlqt_balance : Decimal
  pub uni_token_balance : Decimal
  pub uni_token_allowance : Decimal
  pub liquidity_mining_stake : Decimal
  pub liquidity_mining_hlqt_reward : Decimal
  pub collateral_surplus_balance : Decimal
  pub trove_before_redistribution : TroveWithPendingRedistribution
  pub stability_deposit : StabilityDeposit
  pub hlqt_stake : HlqtStake
  pub own_frontend : FrontendStatus
  pub hchf_token_allowance_of_hchf_contract : Decimal
  pub hlqt_token_allowance_of_hlqt_contract : Decimal

-- The values that all users share.
pub record GlobalValues : Type 0 where
  pub price : Decimal
  pub number_of_troves : ℕ
  pub total_redistributed : Trove
  pub total : Trove
  pub hchf_in_stability_pool : Decimal
  pub total_staked_hlqt : Decimal
  pub total_staked_uni_tokens : Decimal
  pub remaining_stability_pool_hlqt_reward : Decimal
  pub remaining_liquidity_mining_hlqt_reward : Decimal

module _ (self : HashgraphLiquity) (network : Network) where
  unfoldable pub token_associations : Result TokenAssociations
  token_associations = do
    hchf_token_address ← network.hchf_address
    hlqt_token_address ← network.hlqt_address
    lp_token_address ← self.contracts.uni_token none
    hchf_token_id ← network.token_id hchf_token_address
    hlqt_token_id ← network.token_id hlqt_token_address
    lp_token_id ← network.token_id lp_token_address
    let associated =
        or_no_tokens (network.fetch_tokens (hchf_token_id ∷ hlqt_token_id ∷ lp_token_id ∷ []))
    ok (record {
      with_hchf = includes associated hchf_token_id;
      with_hlqt = includes associated hlqt_token_id;
      with_lp_token = includes associated lp_token_id;
    })

  unfoldable pub get_account_balance : Address → Tag → Result Decimal
  unfolding Decimal.from_big_number_string_with_precision
  get_account_balance address tag = do
    balance ← network.get_balance address tag
    ok (Decimal.from_big_number_string_with_precision balance 18)

  unfoldable pub values_of_user : Address → Tag → Result UserValues
  unfolding get_account_balance
  values_of_user user tag = do
    account_balance ← get_account_balance user tag
    hchf_balance ← get_hchf_balance self (some user) tag
    hchf_token_address ← get_hchf_token_address self tag
    hlqt_token_address ← get_hlqt_token_address self tag
    hlqt_balance ← get_hlqt_balance self (some user) tag
    uni_token_balance ← get_uni_token_balance self (some user) tag
    uni_token_allowance ← get_uni_token_allowance self (some user) tag
    liquidity_mining_stake ← get_liquidity_mining_stake self (some user) tag
    liquidity_mining_hlqt_reward ← get_liquidity_mining_hlqt_reward self (some user) tag
    collateral_surplus_balance ← get_collateral_surplus_balance self (some user) tag
    trove_before_redistribution ← get_trove_before_redistribution self (some user) tag
    stability_deposit ← get_stability_deposit self (some user) tag
    hlqt_stake ← get_hlqt_stake self (some user) tag
    own_frontend ← get_frontend_status self (some user) tag
    hchf_token_allowance_of_hchf_contract ←
        get_hchf_token_allowance_of_hchf_contract self (some user) tag
    hlqt_token_allowance_of_hlqt_contract ←
        get_hlqt_token_allowance_of_hlqt_contract self (some user) tag
    ok (record {
      account_balance = account_balance;
      hchf_balance = hchf_balance;
      hchf_token_address = hchf_token_address;
      hlqt_token_address = hlqt_token_address;
      hlqt_balance = hlqt_balance;
      uni_token_balance = uni_token_balance;
      uni_token_allowance = uni_token_allowance;
      liquidity_mining_stake = liquidity_mining_stake;
      liquidity_mining_hlqt_reward = liquidity_mining_hlqt_reward;
      collateral_surplus_balance = collateral_surplus_balance;
      trove_before_redistribution = trove_before_redistribution;
      stability_deposit = stability_deposit;
      hlqt_stake = hlqt_stake;
      own_frontend = own_frontend;
      hchf_token_allowance_of_hchf_contract = hchf_token_allowance_of_hchf_contract;
      hlqt_token_allowance_of_hlqt_contract = hlqt_token_allowance_of_hlqt_contract;
    })

  unfoldable pub values_without_user : UserValues
  values_without_user = record {
    account_balance = 0;
    hchf_balance = 0;
    hchf_token_address = "0x";
    hlqt_token_address = "0x";
    hlqt_balance = 0;
    uni_token_balance = 0;
    uni_token_allowance = 0;
    liquidity_mining_stake = 0;
    liquidity_mining_hlqt_reward = 0;
    collateral_surplus_balance = 0;
    trove_before_redistribution = pending_of_status self address_zero non_existent;
    stability_deposit = no_deposit;
    hlqt_stake = no_stake;
    own_frontend = unregistered;
    hchf_token_allowance_of_hchf_contract = 0;
    hlqt_token_allowance_of_hlqt_contract = 0;
  }

  -- Without a frontend, its status is unregistered.
  unfoldable pub frontend_values : Tag → Result FrontendStatus
  unfolding get_frontend_status
  frontend_values tag =
      if str_eq self.frontend_address ""
      then ok unregistered
      else get_frontend_status self (some self.frontend_address) tag

  unfoldable pub user_values : Tag → Result UserValues
  unfolding values_of_user values_without_user
  user_values tag =
      if str_eq self.user_account_address ""
      then ok values_without_user
      else values_of_user self.user_account_address tag

  unfoldable pub fees_in_normal_mode : Tag → Result Fees
  unfolding decimalify new_fees
  fees_in_normal_mode tag = do
    last_fee_operation_time ← self.contracts.last_fee_operation_time tag
    base_rate_without_decay ← decimalify (self.contracts.base_rate tag)
    block_timestamp ← self.contracts.block_timestamp tag
    new_fees base_rate_without_decay self.constants.minute_decay_factor self.constants.beta
        (last_fee_operation_time * 1000) (block_timestamp * 1000) false self.constants

  abbrev pub obj : {A : Type 0} → ℕ → A → Obj A
  obj id content = record { id = id; content = content }

  unfoldable pub global_values : Tag → Result GlobalValues
  global_values tag = do
    price ← get_price self tag
    number_of_troves ← get_number_of_troves self tag
    total_redistributed ← get_total_redistributed self tag
    total ← get_total self tag
    hchf_in_stability_pool ← get_hchf_in_stability_pool self tag
    total_staked_hlqt ← get_total_staked_hlqt self tag
    total_staked_uni_tokens ← get_total_staked_uni_tokens self tag
    remaining_stability_pool_hlqt_reward ← get_remaining_stability_pool_hlqt_reward self tag
    remaining_liquidity_mining_hlqt_reward ← get_remaining_liquidity_mining_hlqt_reward self tag
    ok (record {
      price = price;
      number_of_troves = number_of_troves;
      total_redistributed = total_redistributed;
      total = total;
      hchf_in_stability_pool = hchf_in_stability_pool;
      total_staked_hlqt = total_staked_hlqt;
      total_staked_uni_tokens = total_staked_uni_tokens;
      remaining_stability_pool_hlqt_reward = remaining_stability_pool_hlqt_reward;
      remaining_liquidity_mining_hlqt_reward = remaining_liquidity_mining_hlqt_reward;
    })

  -- The base state of the values.
  unfoldable pub base_state :
      ℕ → GlobalValues → Fees → TokenAssociations → FrontendStatus → UserValues → Whole
  base_state fresh global fees associations frontend user = record {
    frontend = obj (fresh + 0) frontend;
    own_frontend = obj (fresh + 1) user.own_frontend;
    number_of_troves = global.number_of_troves;
    account_balance = obj (fresh + 2) user.account_balance;
    hchf_balance = obj (fresh + 3) user.hchf_balance;
    hchf_token_address = user.hchf_token_address;
    hlqt_token_address = user.hlqt_token_address;
    hlqt_balance = obj (fresh + 4) user.hlqt_balance;
    uni_token_balance = obj (fresh + 5) user.uni_token_balance;
    uni_token_allowance = obj (fresh + 6) user.uni_token_allowance;
    remaining_liquidity_mining_hlqt_reward =
        obj (fresh + 7) global.remaining_liquidity_mining_hlqt_reward;
    liquidity_mining_stake = obj (fresh + 8) user.liquidity_mining_stake;
    total_staked_uni_tokens = obj (fresh + 9) global.total_staked_uni_tokens;
    liquidity_mining_hlqt_reward = obj (fresh + 10) user.liquidity_mining_hlqt_reward;
    collateral_surplus_balance = obj (fresh + 11) user.collateral_surplus_balance;
    price = obj (fresh + 12) global.price;
    hchf_in_stability_pool = obj (fresh + 13) global.hchf_in_stability_pool;
    total = obj (fresh + 14) global.total;
    total_redistributed = obj (fresh + 15) global.total_redistributed;
    trove_before_redistribution = obj (fresh + 16) user.trove_before_redistribution;
    stability_deposit = obj (fresh + 17) user.stability_deposit;
    remaining_stability_pool_hlqt_reward =
        obj (fresh + 18) global.remaining_stability_pool_hlqt_reward;
    fees_in_normal_mode = obj (fresh + 19) fees;
    hlqt_stake = obj (fresh + 20) user.hlqt_stake;
    total_staked_hlqt = obj (fresh + 21) global.total_staked_hlqt;
    riskiest_trove_before_redistribution =
        obj (fresh + 22) (pending_of_status self self.user_account_address non_existent);
    user_has_associated_with_hchf = associations.with_hchf;
    user_has_associated_with_hlqt = associations.with_hlqt;
    user_has_associated_with_lp_token = associations.with_lp_token;
    hchf_token_allowance_of_hchf_contract =
        obj (fresh + 23) user.hchf_token_allowance_of_hchf_contract;
    hlqt_token_allowance_of_hlqt_contract =
        obj (fresh + 24) user.hlqt_token_allowance_of_hlqt_contract;
  }

  unfoldable pub fetch_store_values : ℕ → Tag → Result Whole
  unfolding global_values user_values frontend_values fees_in_normal_mode token_associations
      base_state
  fetch_store_values fresh tag = do
    global ← global_values tag
    fees ← fees_in_normal_mode tag
    associations ← token_associations
    frontend ← frontend_values tag
    user ← user_values tag
    ok (base_state fresh global fees associations frontend user)
