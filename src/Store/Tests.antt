-- ===== src/Store/Tests.antt =====
-- Tests of packages/lib-base/src/HLiquityStore.ts.
use hliquity.Base.{ℕ, ◌≡◌, refl, true, false, none, some, ok, arith}
use hliquity.Constants.{defaults}
use hliquity.Fees
use hliquity.Fees.{Fees}
use hliquity.Trove.Defs.{Trove, empty}
use hliquity.Trove.User.{TroveWithPendingRedistribution, open_trove}
use hliquity.StabilityDeposit.{StabilityDeposit}
use hliquity.HlqtStake.{HlqtStake}
use hliquity.Store.State.{Obj, registered, unregistered, Whole, Partial, reduce}
use hliquity.Store.Identity.{allowance_replaced}
use hliquity.Store.Derive.{DerivedState, derive}
use hliquity.Store.Rates.{HasRates, derive-HasRates}

abbrev pub obj : {A : Type 0} → ℕ → A → Obj A
obj id content = record { id = id; content = content }

abbrev all_troves : Trove
all_troves = record {
  constants = defaults;
  collateral = 1_000_000_000_000_000;
  debt = 20_000_000_000_000;
}

abbrev own_trove : TroveWithPendingRedistribution
own_trove = record {
  user_trove = record { trove = all_troves; owner_address = "0x1"; status = open_trove };
  stake = 100_000_000_000;
  snapshot_of_total_redistributed = empty defaults;
}

abbrev no_deposit : StabilityDeposit
no_deposit = record {
  initial_hchf = 0;
  current_hchf = 0;
  collateral_gain = 0;
  hlqt_reward = 0;
  frontend_tag = "0x0";
}

abbrev no_stake : HlqtStake
no_stake = record { staked_hlqt = 0; collateral_gain = 0; hchf_gain = 0 }

abbrev pub day_old : Fees
day_old = record {
  base_rate_without_decay = 10_000_000;
  minute_decay_factor = 99_903_775;
  beta = 200_000_000;
  last_fee_operation = 1_600_000_000_000;
  time_of_latest_block = 1_600_086_400_000;
  recovery_mode = false;
  constants = defaults;
}

abbrev pub loaded : Whole
loaded = record {
  frontend = obj 1 (registered 100_000_000);
  own_frontend = obj 2 unregistered;
  number_of_troves = 5;
  account_balance = obj 20 2000;
  hchf_balance = obj 21 2100;
  hchf_token_address = "0xa";
  hlqt_token_address = "0xb";
  hlqt_balance = obj 22 2200;
  uni_token_balance = obj 23 2300;
  uni_token_allowance = obj 24 2400;
  remaining_liquidity_mining_hlqt_reward = obj 25 2500;
  liquidity_mining_stake = obj 26 2600;
  total_staked_uni_tokens = obj 27 2700;
  liquidity_mining_hlqt_reward = obj 28 2800;
  collateral_surplus_balance = obj 29 2900;
  price = obj 3 5_000_000;
  hchf_in_stability_pool = obj 30 3000;
  total = obj 4 all_troves;
  total_redistributed = obj 5 (empty defaults);
  trove_before_redistribution = obj 6 own_trove;
  stability_deposit = obj 8 no_deposit;
  remaining_stability_pool_hlqt_reward = obj 31 3100;
  fees_in_normal_mode = obj 9 day_old;
  hlqt_stake = obj 10 no_stake;
  total_staked_hlqt = obj 32 3200;
  riskiest_trove_before_redistribution = obj 7 own_trove;
  user_has_associated_with_hchf = true;
  user_has_associated_with_hlqt = true;
  user_has_associated_with_lp_token = false;
  hchf_token_allowance_of_hchf_contract = obj 33 3300;
  hlqt_token_allowance_of_hlqt_contract = obj 34 3400;
}

-- The known price and the known allowance in new objects, and another number of Troves.
abbrev pub fetched : Partial
fetched = record {
  frontend = none;
  own_frontend = none;
  number_of_troves = some 6;
  account_balance = none;
  hchf_balance = none;
  hchf_token_address = none;
  hlqt_token_address = none;
  hlqt_balance = none;
  uni_token_balance = none;
  uni_token_allowance = none;
  remaining_liquidity_mining_hlqt_reward = none;
  liquidity_mining_stake = none;
  total_staked_uni_tokens = none;
  liquidity_mining_hlqt_reward = none;
  collateral_surplus_balance = none;
  price = some (obj 90 5_000_000);
  hchf_in_stability_pool = none;
  total = none;
  total_redistributed = none;
  trove_before_redistribution = none;
  stability_deposit = none;
  remaining_stability_pool_hlqt_reward = none;
  fees_in_normal_mode = none;
  hlqt_stake = none;
  total_staked_hlqt = none;
  riskiest_trove_before_redistribution = none;
  user_has_associated_with_hchf = none;
  user_has_associated_with_hlqt = none;
  user_has_associated_with_lp_token = none;
  hchf_token_allowance_of_hchf_contract = some (obj 91 3300);
  hlqt_token_allowance_of_hlqt_contract = none;
}

allowance_replaced_example :
    ((reduce loaded fetched).price ≡ obj 3 5_000_000)
    × ((reduce loaded fetched).hchf_token_allowance_of_hchf_contract ≡ obj 91 3300)
allowance_replaced_example =
    allowance_replaced loaded fetched (obj 90 5_000_000) (obj 91 3300) refl refl refl (omega arith)

derive-HasRates_example : (d : DerivedState) × (derive 100 loaded ≡ ok d) × HasRates loaded d
unfolding Fees.minutes_since_last_fee_operation
derive-HasRates_example =
    derive-HasRates 100 loaded (omega arith) (omega arith) (omega arith) (omega arith)
