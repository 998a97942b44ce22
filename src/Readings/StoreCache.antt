-- ===== src/Readings/StoreCache.antt =====
-- packages/lib-ethers/src/ReadableEthersLiquity.ts, class `BlockPolledLiquityStoreBasedCache`: the
-- cache that answers from the state of a store, for the user's address and the store's block.
pub mod Loaded
pub mod Refines
use Prim.Native.String.{String}
use text.Mathlib.Text.{◌==◌ as str_eq}
use text.Mathlib.TextEquality.{eq_iff}
use hliquity.Base.{
  ℕ, ◌≡◌, refl, sym, ap, ◌∙◌, Bool, true, false, ◌&&◌, ◌||◌, Option, none, some, List, Result, ok,
  ◌==◌, ==_iff, if◌then◌else◌, Bool-cases, inl, inr, arith,
}
use hliquity.Decimal.{Decimal}
use hliquity.Fees.{Fees}
use hliquity.Trove.Defs.{Trove}
use hliquity.Trove.User.{UserTrove, TroveWithPendingRedistribution}
use hliquity.StabilityDeposit.{StabilityDeposit}
use hliquity.HlqtStake.{HlqtStake}
use hliquity.Store.State.{FrontendStatus, Whole}
use hliquity.Store.Derive.{DerivedState}
use hliquity.Readings.{Address, TroveListingParams, Reads, Readable, Cache, cached}

pub data BlockTag : Type 0 where
  number : ℕ → BlockTag
  name : String → BlockTag

pub record EthersCallOverrides : Type 0 where
  pub block_tag : Option BlockTag

-- `overrides?: EthersCallOverrides`
abbrev pub Overrides : Type 0
Overrides = Option EthersCallOverrides

-- The state of the store, and the addresses of its connection.
pub record BlockPolledStore : Type 0 where
  pub base : Whole
  pub derived : DerivedState
  pub block_tag : Option ℕ
  pub user_address : Option Address
  pub frontend_tag : Option Address

abbrev pub same_tag : BlockTag → Option ℕ → Bool
same_tag (number n) (some m) = n == m
same_tag _ _ = false

abbrev pub same_address : Address → Option Address → Bool
same_address address (some user) = str_eq address user
same_address address none = false

-- `overrides.blockTag === undefined || overrides.blockTag === blockTag`
abbrev pub tag_hit : Option ℕ → Option BlockTag → Bool
tag_hit known none = true
tag_hit known (some tag) = same_tag tag known

-- `if (hit) return value`
abbrev pub when : {A : Type 0} → Bool → A → Option A
when hit value = if hit then some value else none

module _ (store : BlockPolledStore) where
  -- `_blockHit`
  unfoldable pub block_hit : Overrides → Bool
  block_hit none = true
  block_hit (some overrides) = tag_hit store.block_tag overrides.block_tag

  -- An address that is not given, or is the known one.
  unfoldable pub address_hit : Option Address → Option Address → Bool
  address_hit none known = true
  address_hit (some address) known = same_address address known

  -- `_userHit` and `_frontendHit`
  unfoldable pub user_hit : Option Address → Overrides → Bool
  unfolding block_hit address_hit
  user_hit address overrides = block_hit overrides && address_hit address store.user_address

  unfoldable pub frontend_hit : Option Address → Overrides → Bool
  unfolding block_hit address_hit
  frontend_hit address overrides = block_hit overrides && address_hit address store.frontend_tag

  unfoldable pub store_cache : Cache Overrides
  unfolding user_hit frontend_hit block_hit
  store_cache = record {
    get_total_redistributed =
        λ overrides. when (block_hit overrides) store.base.total_redistributed.content;
    get_trove_before_redistribution = λ address overrides.
        when (user_hit address overrides) store.base.trove_before_redistribution.content;
    get_trove = λ address overrides. when (user_hit address overrides) store.derived.trove.content;
    get_number_of_troves = λ overrides. when (block_hit overrides) store.base.number_of_troves;
    get_price = λ overrides. when (block_hit overrides) store.base.price.content;
    get_total = λ overrides. when (block_hit overrides) store.base.total.content;
    get_stability_deposit =
        λ address overrides. when (user_hit address overrides) store.base.stability_deposit.content;
    get_remaining_stability_pool_hlqt_reward = λ overrides.
        when (block_hit overrides) store.base.remaining_stability_pool_hlqt_reward.content;
    get_hchf_in_stability_pool =
        λ overrides. when (block_hit overrides) store.base.hchf_in_stability_pool.content;
    get_hchf_balance =
        λ address overrides. when (user_hit address overrides) store.base.hchf_balance.content;
    get_hchf_token_address = λ overrides. when (block_hit overrides) store.base.hchf_token_address;
    get_hlqt_token_address = λ overrides. when (block_hit overrides) store.base.hlqt_token_address;
    get_hlqt_balance =
        λ address overrides. when (user_hit address overrides) store.base.hlqt_balance.content;
    get_uni_token_balance =
        λ address overrides. when (user_hit address overrides) store.base.uni_token_balance.content;
    get_uni_token_allowance = λ address overrides.
        when (user_hit address overrides) store.base.uni_token_allowance.content;
    get_remaining_liquidity_mining_hlqt_reward = λ overrides.
        when (block_hit overrides) store.base.remaining_liquidity_mining_hlqt_reward.content;
    get_liquidity_mining_stake = λ address overrides.
        when (user_hit address overrides) store.base.liquidity_mining_stake.content;
    get_total_staked_uni_tokens =
        λ overrides. when (block_hit overrides) store.base.total_staked_uni_tokens.content;
    get_liquidity_mining_hlqt_reward = λ address overrides.
        when (user_hit address overrides) store.base.liquidity_mining_hlqt_reward.content;
    get_collateral_surplus_balance = λ address overrides.
        when (user_hit address overrides) store.base.collateral_surplus_balance.content;
    get_troves_before_redistribution = λ params overrides. none;
    get_troves = λ params overrides. none;
    get_fees = λ overrides. when (block_hit overrides) store.derived.fees.content;
    get_hlqt_stake =
        λ address overrides. when (user_hit address overrides) store.base.hlqt_stake.content;
    get_total_staked_hlqt =
        λ overrides. when (block_hit overrides) store.base.total_staked_hlqt.content;
    get_frontend_status =
        λ address overrides. when (frontend_hit address overrides) store.base.frontend.content;
    get_hchf_token_allowance_of_hchf_contract = λ address overrides.
        when (user_hit address overrides) store.base.hchf_token_allowance_of_hchf_contract.content;
    get_hlqt_token_allowance_of_hlqt_contract = λ address overrides.
        when (user_hit address overrides) store.base.hlqt_token_allowance_of_hlqt_contract.content;
  }
