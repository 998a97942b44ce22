-- ===== src/Readings.antt =====
-- packages/lib-base/src/ReadableLiquity.ts and packages/lib-base/src/_CachedReadableLiquity.ts: what
-- can be read, and the reader that asks a cache first. A promise is its result; of the results that
-- `Promise.all` waits for, the first error in the list counts. The overload of `getTroves` with
-- `beforeRedistribution: true` is an operation of its own.
pub mod Coherence
pub mod Cached
pub mod StoreCache
pub mod Contracts
pub mod FetchStore
pub mod Refresh
pub mod Laws
pub mod Derived
pub mod Examples
mod Tests
mod CacheTests
use Prim.Native.String.{String}
use hliquity.Base.{ℕ, Bool, Option, none, some, List, [], ◌∷◌, Result, ok, err, Error, ◌>>=◌}
use hliquity.Decimal.{Decimal}
use hliquity.Fees.{Fees}
use hliquity.Trove.Defs.{Trove}
use hliquity.Trove.User.{UserTrove, TroveWithPendingRedistribution, apply_redistribution}
use hliquity.StabilityDeposit.{StabilityDeposit}
use hliquity.HlqtStake.{HlqtStake}
use hliquity.Store.State.{FrontendStatus}

abbrev pub Address : Type 0
Address = String

-- How many Troves, in which order, from which index on.
pub data SortedBy : Type 0 where
  ascending_collateral_ratio descending_collateral_ratio : SortedBy

pub record TroveListingParams : Type 0 where
  pub first : ℕ
  pub sorted_by : SortedBy
  pub starting_at : Option ℕ

-- `ReadableLiquity` with extra parameters `P`, for readers that answer with `F`: a result, or a hit.
pub record Reads (P : Type 0) (F : Type 0 → Type 0) : Type 0 where
  pub get_total_redistributed : P → F Trove
  pub get_trove_before_redistribution : Option Address → P → F TroveWithPendingRedistribution
  pub get_trove : Option Address → P → F UserTrove
  pub get_number_of_troves : P → F ℕ
  pub get_price : P → F Decimal
  pub get_total : P → F Trove
  pub get_stability_deposit : Option Address → P → F StabilityDeposit
  pub get_remaining_stability_pool_hlqt_reward : P → F Decimal
  pub get_hchf_in_stability_pool : P → F Decimal
  pub get_hchf_balance : Option Address → P → F Decimal
  pub get_hchf_token_address : P → F String
  pub get_hlqt_token_address : P → F String
  pub get_hlqt_balance : Option Address → P → F Decimal
  pub get_uni_token_balance : Option Address → P → F Decimal
  pub get_uni_token_allowance : Option Address → P → F Decimal
  pub get_remaining_liquidity_mining_hlqt_reward : P → F Decimal
  pub get_liquidity_mining_stake : Option Address → P → F Decimal
  pub get_total_staked_uni_tokens : P → F Decimal
  pub get_liquidity_mining_hlqt_reward : Option Address → P → F Decimal
  pub get_collateral_surplus_balance : Option Address → P → F Decimal
  pub get_troves_before_redistribution :
      TroveListingParams → P → F (List TroveWithPendingRedistribution)
  pub get_troves : TroveListingParams → P → F (List UserTrove)
  pub get_fees : P → F Fees
  pub get_hlqt_stake : Option Address → P → F HlqtStake
  pub get_total_staked_hlqt : P → F Decimal
  pub get_frontend_status : Option Address → P → F FrontendStatus
  pub get_hchf_token_allowance_of_hchf_contract : Option Address → P → F Decimal
  pub get_hlqt_token_allowance_of_hlqt_contract : Option Address → P → F Decimal

abbrev pub Readable : Type 0 → Type 0
Readable P = Reads P Result

-- `_LiquityReadCache`
abbrev pub Cache : Type 0 → Type 0
Cache P = Reads P Option

-- `a ?? b`, for a hit `a` and the reading `b`.
abbrev pub hit_or : {A : Type 0} → Option A → Result A → Result A
hit_or none read = read
hit_or (some hit) read = ok hit

-- `troves.map(trove => trove.applyRedistribution(totalRedistributed))`
unfoldable pub apply_to_all : Trove → List TroveWithPendingRedistribution → Result (List UserTrove)
apply_to_all total_redistributed [] = ok []
apply_to_all total_redistributed (trove ∷ troves) = do
  applied ← apply_redistribution trove total_redistributed
  rest ← apply_to_all total_redistributed troves
  ok (applied ∷ rest)

module _ {P : Type 0} (readable : Readable P) (cache : Cache P) where
  unfoldable pub cached_total_redistributed : P → Result Trove
  cached_total_redistributed extra =
      hit_or (cache.get_total_redistributed extra) (readable.get_total_redistributed extra)

  unfoldable pub cached_trove_before_redistribution :
      Option Address → P → Result TroveWithPendingRedistribution
  cached_trove_before_redistribution address extra =
      hit_or (cache.get_trove_before_redistribution address extra)
        (readable.get_trove_before_redistribution address extra)

  unfoldable pub cached_number_of_troves : P → Result ℕ
  cached_number_of_troves extra =
      hit_or (cache.get_number_of_troves extra) (readable.get_number_of_troves extra)

  unfoldable pub cached_price : P → Result Decimal
  cached_price extra = hit_or (cache.get_price extra) (readable.get_price extra)

  unfoldable pub cached_total : P → Result Trove
  cached_total extra = hit_or (cache.get_total extra) (readable.get_total extra)

  unfoldable pub cached_stability_deposit : Option Address → P → Result StabilityDeposit
  cached_stability_deposit address extra =
      hit_or (cache.get_stability_deposit address extra)
        (readable.get_stability_deposit address extra)

  unfoldable pub cached_remaining_stability_pool_hlqt_reward : P → Result Decimal
  cached_remaining_stability_pool_hlqt_reward extra =
      hit_or (cache.get_remaining_stability_pool_hlqt_reward extra)
        (readable.get_remaining_stability_pool_hlqt_reward extra)

  unfoldable pub cached_hchf_in_stability_pool : P → Result Decimal
  cached_hchf_in_stability_pool extra =
      hit_or (cache.get_hchf_in_stability_pool extra) (readable.get_hchf_in_stability_pool extra)

  unfoldable pub cached_hchf_balance : Option Address → P → Result Decimal
  cached_hchf_balance address extra =
      hit_or (cache.get_hchf_balance address extra) (readable.get_hchf_balance address extra)

  unfoldable pub cached_hchf_token_address : P → Result String
  cached_hchf_token_address extra =
      hit_or (cache.get_hchf_token_address extra) (readable.get_hchf_token_address extra)

  unfoldable pub cached_hlqt_token_address : P → Result String
  cached_hlqt_token_address extra =
      hit_or (cache.get_hlqt_token_address extra) (readable.get_hlqt_token_address extra)

  unfoldable pub cached_hlqt_balance : Option Address → P → Result Decimal
  cached_hlqt_balance address extra =
      hit_or (cache.get_hlqt_balance address extra) (readable.get_hlqt_balance address extra)

  unfoldable pub cached_uni_token_balance : Option Address → P → Result Decimal
  cached_uni_token_balance address extra =
      hit_or (cache.get_uni_token_balance address extra)
        (readable.get_uni_token_balance address extra)

  unfoldable pub cached_uni_token_allowance : Option Address → P → Result Decimal
  cached_uni_token_allowance address extra =
      hit_or (cache.get_uni_token_allowance address extra)
        (readable.get_uni_token_allowance address extra)

  unfoldable pub cached_remaining_liquidity_mining_hlqt_reward : P → Result Decimal
  cached_remaining_liquidity_mining_hlqt_reward extra =
      hit_or (cache.get_remaining_liquidity_mining_hlqt_reward extra)
        (readable.get_remaining_liquidity_mining_hlqt_reward extra)

  unfoldable pub cached_liquidity_mining_stake : Option Address → P → Result Decimal
  cached_liquidity_mining_stake address extra =
      hit_or (cache.get_liquidity_mining_stake address extra)
        (readable.get_liquidity_mining_stake address extra)

  unfoldable pub cached_total_staked_uni_tokens : P → Result Decimal
  cached_total_staked_uni_tokens extra =
      hit_or (cache.get_total_staked_uni_tokens extra) (readable.get_total_staked_uni_tokens extra)

  unfoldable pub cached_liquidity_mining_hlqt_reward : Option Address → P → Result Decimal
  cached_liquidity_mining_hlqt_reward address extra =
      hit_or (cache.get_liquidity_mining_hlqt_reward address extra)
        (readable.get_liquidity_mining_hlqt_reward address extra)

  unfoldable pub cached_collateral_surplus_balance : Option Address → P → Result Decimal
  cached_collateral_surplus_balance address extra =
      hit_or (cache.get_collateral_surplus_balance address extra)
        (readable.get_collateral_surplus_balance address extra)

  unfoldable pub cached_troves_before_redistribution :
      TroveListingParams → P → Result (List TroveWithPendingRedistribution)
  cached_troves_before_redistribution params extra =
      hit_or (cache.get_troves_before_redistribution params extra)
        (readable.get_troves_before_redistribution params extra)

  unfoldable pub cached_fees : P → Result Fees
  cached_fees extra = hit_or (cache.get_fees extra) (readable.get_fees extra)

  unfoldable pub cached_hlqt_stake : Option Address → P → Result HlqtStake
  cached_hlqt_stake address extra =
      hit_or (cache.get_hlqt_stake address extra) (readable.get_hlqt_stake address extra)

  unfoldable pub cached_total_staked_hlqt : P → Result Decimal
  cached_total_staked_hlqt extra =
      hit_or (cache.get_total_staked_hlqt extra) (readable.get_total_staked_hlqt extra)

  unfoldable pub cached_frontend_status : Option Address → P → Result FrontendStatus
  cached_frontend_status address extra =
      hit_or (cache.get_frontend_status address extra) (readable.get_frontend_status address extra)

  unfoldable pub cached_hchf_token_allowance_of_hchf_contract : Option Address → P → Result Decimal
  cached_hchf_token_allowance_of_hchf_contract address extra =
      hit_or (cache.get_hchf_token_allowance_of_hchf_contract address extra)
        (readable.get_hchf_token_allowance_of_hchf_contract address extra)

  unfoldable pub cached_hlqt_token_allowance_of_hlqt_contract : Option Address → P → Result Decimal
  cached_hlqt_token_allowance_of_hlqt_contract address extra =
      hit_or (cache.get_hlqt_token_allowance_of_hlqt_contract address extra)
        (readable.get_hlqt_token_allowance_of_hlqt_contract address extra)

  unfoldable pub cached_trove : Option Address → P → Result UserTrove
  unfolding cached_trove_before_redistribution cached_total_redistributed
  cached_trove address extra = do
    trove ← cached_trove_before_redistribution address extra
    total_redistributed ← cached_total_redistributed extra
    apply_redistribution trove total_redistributed

  unfoldable pub cached_troves : TroveListingParams → P → Result (List UserTrove)
  unfolding cached_total_redistributed cached_troves_before_redistribution
  cached_troves params extra = do
    total_redistributed ← cached_total_redistributed extra
    troves ← cached_troves_before_redistribution params extra
    apply_to_all total_redistributed troves

  -- `_CachedReadableLiquity`
  unfoldable pub cached : Readable P
  cached = record {
    get_total_redistributed = cached_total_redistributed;
    get_trove_before_redistribution = cached_trove_before_redistribution;
    get_trove = cached_trove;
    get_number_of_troves = cached_number_of_troves;
    get_price = cached_price;
    get_total = cached_total;
    get_stability_deposit = cached_stability_deposit;
    get_remaining_stability_pool_hlqt_reward = cached_remaining_stability_pool_hlqt_reward;
    get_hchf_in_stability_pool = cached_hchf_in_stability_pool;
    get_hchf_balance = cached_hchf_balance;
    get_hchf_token_address = cached_hchf_token_address;
    get_hlqt_token_address = cached_hlqt_token_address;
    get_hlqt_balance = cached_hlqt_balance;
    get_uni_token_balance = cached_uni_token_balance;
    get_uni_token_allowance = cached_uni_token_allowance;
    get_remaining_liquidity_mining_hlqt_reward = cached_remaining_liquidity_mining_hlqt_reward;
    get_liquidity_mining_stake = cached_liquidity_mining_stake;
    get_total_staked_uni_tokens = cached_total_staked_uni_tokens;
    get_liquidity_mining_hlqt_reward = cached_liquidity_mining_hlqt_reward;
    get_collateral_surplus_balance = cached_collateral_surplus_balance;
    get_troves_before_redistribution = cached_troves_before_redistribution;
    get_troves = cached_troves;
    get_fees = cached_fees;
    get_hlqt_stake = cached_hlqt_stake;
    get_total_staked_hlqt = cached_total_staked_hlqt;
    get_frontend_status = cached_frontend_status;
    get_hchf_token_allowance_of_hchf_contract = cached_hchf_token_allowance_of_hchf_contract;
    get_hlqt_token_allowance_of_hlqt_contract = cached_hlqt_token_allowance_of_hlqt_contract;
  }
