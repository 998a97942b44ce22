-- ===== src/Readings/CacheTests.antt =====
-- Tests of the reader with a cache: a reader that knows one block and one account, and the
-- store that holds its answers.
use Prim.Native.String.{String}
use text.Mathlib.Text.{◌==◌ as str_eq}
use hliquity.Base.{
  ℕ, Option, none, some, false, [], Result, ok, err, Error, ◌>>=◌, ◌==◌, if◌then◌else◌,
}
use hliquity.Trove.User.{apply_redistribution}
use hliquity.Trove.Defs
use hliquity.Trove.Defs.{Trove, empty}
use hliquity.Constants.{defaults}
use hliquity.Decimal
use hliquity.Trove.User.{UserTrove, TroveWithPendingRedistribution, open_trove}
use hliquity.Store.State.{Obj, Whole, unregistered}
use hliquity.Fees.{Fees}
use hliquity.Readings.{Address, Readable, apply_to_all}
use hliquity.Readings.StoreCache.{Overrides, BlockTag, number, name, BlockPolledStore}
use hliquity.Readings.StoreCache.Loaded.{or_default}
use hliquity.Readings.FetchStore.{no_deposit, no_stake}

abbrev day_old : Fees
day_old = record {
  base_rate_without_decay = 1_000_000;
  minute_decay_factor = 99_903_775;
  beta = 200_000_000;
  last_fee_operation = 0;
  time_of_latest_block = 86_400_000;
  recovery_mode = false;
  constants = defaults;
}

abbrev obj : {A : Type 0} → ℕ → A → Obj A
obj id content = record { id = id; content = content }

abbrev pending : TroveWithPendingRedistribution
pending = record {
  user_trove = record { trove = empty defaults; owner_address = "0x1"; status = open_trove };
  stake = 0;
  snapshot_of_total_redistributed = empty defaults;
}

abbrev base : Whole
base = record {
  frontend = obj 0 unregistered;
  own_frontend = obj 1 unregistered;
  number_of_troves = 2;
  account_balance = obj 2 0;
  hchf_balance = obj 3 5;
  hchf_token_address = "0xd";
  hlqt_token_address = "0xe";
  hlqt_balance = obj 4 6;
  uni_token_balance = obj 5 0;
  uni_token_allowance = obj 6 0;
  remaining_liquidity_mining_hlqt_reward = obj 7 0;
  liquidity_mining_stake = obj 8 0;
  total_staked_uni_tokens = obj 9 0;
  liquidity_mining_hlqt_reward = obj 10 0;
  collateral_surplus_balance = obj 11 0;
  price = obj 12 500_000_000;
  hchf_in_stability_pool = obj 13 0;
  total = obj 14 (empty defaults);
  total_redistributed = obj 15 (empty defaults);
  trove_before_redistribution = obj 16 pending;
  stability_deposit = obj 17 no_deposit;
  remaining_stability_pool_hlqt_reward = obj 18 0;
  fees_in_normal_mode = obj 19 day_old;
  hlqt_stake = obj 20 no_stake;
  total_staked_hlqt = obj 21 0;
  riskiest_trove_before_redistribution = obj 22 pending;
  user_has_associated_with_hchf = false;
  user_has_associated_with_hlqt = false;
  user_has_associated_with_lp_token = false;
  hchf_token_allowance_of_hchf_contract = obj 23 0;
  hlqt_token_allowance_of_hlqt_contract = obj 24 0;
}

abbrev store : BlockPolledStore
store = record {
  base = base;
  derived = record {
    trove = obj 30 pending.user_trove;
    fees = obj 31 day_old;
    borrowing_rate = obj 32 0;
    redemption_rate = obj 33 0;
    have_undercollateralized_troves = false;
  };
  block_tag = some 7;
  user_address = some "0x1";
  frontend_tag = some "0xf";
}

-- The block that a question is about, for a reader whose latest block is 7.
abbrev block_of : Overrides → ℕ
block_of none = 7
block_of (some overrides) = tagged overrides.block_tag
  where
    tagged : Option BlockTag → ℕ
    tagged none = 7
    tagged (some (number n)) = n
    tagged (some (name s)) = 0

-- It only knows block 7, and of accounts only the one it defaults to.
abbrev answer : {A : Type 0} → A → Overrides → Result A
answer value extra = if block_of extra == 7 then ok value else err Error.call_rejected

abbrev owned : {A : Type 0} → String → Option Address → Result A → Result A
owned known none answers = err Error.call_rejected
owned known (some owner) answers = if str_eq owner known then answers else err Error.call_rejected

abbrev about : {A : Type 0} → String → A → Option Address → Overrides → Result A
about known value address extra = owned known (or_default address (some known)) (answer value extra)

abbrev trove_of : Result TroveWithPendingRedistribution → Result Trove → Result UserTrove
trove_of before redistributed =
    before >>= λ trove. redistributed >>= λ total. apply_redistribution trove total

abbrev reader : Readable Overrides
reader = record {
  get_total_redistributed = answer store.base.total_redistributed.content;
  get_trove_before_redistribution = about "0x1" store.base.trove_before_redistribution.content;
  get_number_of_troves = answer store.base.number_of_troves;
  get_price = answer store.base.price.content;
  get_total = answer store.base.total.content;
  get_stability_deposit = about "0x1" store.base.stability_deposit.content;
  get_remaining_stability_pool_hlqt_reward =
      answer store.base.remaining_stability_pool_hlqt_reward.content;
  get_hchf_in_stability_pool = answer store.base.hchf_in_stability_pool.content;
  get_hchf_balance = about "0x1" store.base.hchf_balance.content;
  get_hchf_token_address = answer store.base.hchf_token_address;
  get_hlqt_token_address = answer store.base.hlqt_token_address;
  get_hlqt_balance = about "0x1" store.base.hlqt_balance.content;
  get_uni_token_balance = about "0x1" store.base.uni_token_balance.content;
  get_uni_token_allowance = about "0x1" store.base.uni_token_allowance.content;
  get_remaining_liquidity_mining_hlqt_reward =
      answer store.base.remaining_liquidity_mining_hlqt_reward.content;
  get_liquidity_mining_stake = about "0x1" store.base.liquidity_mining_stake.content;
  get_total_staked_uni_tokens = answer store.base.total_staked_uni_tokens.content;
  get_liquidity_mining_hlqt_reward = about "0x1" store.base.liquidity_mining_hlqt_reward.content;
  get_collateral_surplus_balance = about "0x1" store.base.collateral_surplus_balance.content;
  get_fees = answer store.derived.fees.content;
  get_hlqt_stake = about "0x1" store.base.hlqt_stake.content;
  get_total_staked_hlqt = answer store.base.total_staked_hlqt.content;
  get_frontend_status = about "0xf" store.base.frontend.content;
  get_hchf_token_allowance_of_hchf_contract =
      about "0x1" store.base.hchf_token_allowance_of_hchf_contract.content;
  get_hlqt_token_allowance_of_hlqt_contract =
      about "0x1" store.base.hlqt_token_allowance_of_hlqt_contract.content;
  get_trove = λ address extra.
      trove_of (about "0x1" store.base.trove_before_redistribution.content address extra)
        (answer store.base.total_redistributed.content extra);
  get_troves_before_redistribution = λ params extra. answer [] extra;
  get_troves = λ params extra. answer store.base.total_redistributed.content extra >>= λ total.
      answer [] extra >>= λ troves. apply_to_all total troves;
}
