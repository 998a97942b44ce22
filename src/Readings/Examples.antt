-- ===== src/Readings/Examples.antt =====
-- Answers of contracts at which the readings and the transactions are tested: one active Trove of
-- 1000 HBAR and 2500 HCHF at a price of 5.
use hliquity.Base.{true, [], ◌∷◌, ok}
use hliquity.Constants.{defaults}
use hliquity.Readings.Contracts.{HashgraphLiquity, Contracts}
use hliquity.Readings.FetchStore.{Network}

abbrev pub contracts : Contracts
contracts = record {
  hchf_token = "0xa";
  hlqt_token = "0xb";
  saucer_swap_pool = "0xc";
  get_collateral = λ a t. ok 0;
  l_eth = λ t. ok 1_000_000;
  l_hchf_debt = λ t. ok 2_000_000;
  troves = λ a t. ok (record {
    debt = 250_000_000_000;
    coll = 100_000_000_000;
    stake = 100_000_000_000;
    status = 1;
  });
  reward_snapshots = λ a t. ok (record { eth = 0; hchf_debt = 0 });
  get_trove_owners_count = λ t. ok 400;
  last_fee_operation_time = λ t. ok 1_000_000;
  base_rate = λ t. ok 1_000_000;
  fetch_price = λ t. ok 500_000_000;
  active_pool_eth = λ t. ok 100_000_000_000_000;
  active_pool_hchf_debt = λ t. ok 250_000_000_000_000;
  default_pool_eth = λ t. ok 0;
  default_pool_hchf_debt = λ t. ok 0;
  deposits = λ a t. ok (record { initial_value = 1000; front_end_tag = "0xf" });
  get_compounded_hchf_deposit = λ a t. ok 900;
  get_depositor_eth_gain = λ a t. ok 10;
  get_depositor_hlqt_gain = λ a t. ok 20;
  get_total_hchf_deposits = λ t. ok 5000;
  front_ends = λ a t. ok (record { kickback_rate = 50_000_000; is_registered = true });
  total_hlqt_issued = λ t. ok 100;
  hchf_token_address = λ t. ok "0xd";
  hlqt_token_address = λ t. ok "0xe";
  hchf_balance_of = λ a t. ok 7;
  hlqt_balance_of = λ a t. ok 8;
  balance_of = λ token a t. ok 9;
  allowance = λ token a b t. ok 6;
  uni_token = λ t. ok "0x9";
  total_supply = λ t. ok 100_000_000;
  reward_rate = λ t. ok 200_000_000;
  period_finish = λ t. ok 1_000_100;
  last_update_time = λ t. ok 1_000_000;
  staked_balance_of = λ a t. ok 3;
  earned = λ a t. ok 4;
  stakes = λ a t. ok 5;
  get_pending_eth_gain = λ a t. ok 1;
  get_pending_hchf_gain = λ a t. ok 2;
  total_hlqt_staked = λ t. ok 50;
  get_multiple_sorted_troves = λ from count t. ok [];
  block_timestamp = λ t. ok 1_000_060;
}

abbrev pub liquity : HashgraphLiquity
liquity = record {
  constants = defaults;
  user_account_address = "0x1";
  frontend_address = "0xf";
  total_stability_pool_hlqt_reward = 1_000_000;
  contracts = contracts;
}

abbrev pub network : Network
network = record {
  get_balance = λ a t. ok 2_000_000_000_000_000_000;
  token_id = λ a. ok a;
  fetch_tokens = λ ids. ok ("0xd" ∷ []);
  hchf_address = ok "0xd";
  hlqt_address = ok "0xe";
}
