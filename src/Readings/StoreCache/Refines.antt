-- ===== src/Readings/StoreCache/Refines.antt =====
-- The reader of packages/lib-ethers/src/ReadableEthersLiquity.ts that polls blocks: its cache against
-- the reader that it wraps.
use text.Mathlib.TextEquality.{eq_iff}
use hliquity.Base.{
  both_true, ℕ, ==_iff, ◌≡◌, refl, ap, Bool, true, false, ◌&&◌, Option, none, some, Result, ok,
}
use hliquity.Readings.{Address, Readable}
use hliquity.Readings.Coherence.{Hits, IsCoherent}
use hliquity.Readings.StoreCache.{
  Overrides, BlockPolledStore, block_hit, address_hit, user_hit, frontend_hit, when, store_cache,
  BlockTag, number, name, same_tag, tag_hit,
}
use hliquity.Readings.StoreCache.Loaded.{
  tag_of, or_default, at_block, resolved_block, IsDefaulting, IsLoaded,
}

when_hit :
    {A : Type 0} (hit : Bool) (value : A) {a : A}
    → when hit value ≡ some a
    → (hit ≡ true) × (value ≡ a)
when_hit true value h = (refl, cc)
when_hit false value h = cc

address_hit_known :
    (store : BlockPolledStore) (address known : Option Address)
    → address_hit store address known ≡ true
    → or_default address known ≡ known
unfolding address_hit
address_hit_known store none known h = refl
address_hit_known store (some address) none h = cc
address_hit_known store (some address) (some user) h = ap some ((eq_iff address user).0 h)

same_tag_known :
    (tag : BlockTag) (known : Option ℕ) → same_tag tag known ≡ true → some tag ≡ tag_of known
same_tag_known (number n) none h = cc
same_tag_known (number n) (some m) h = ap (λ k. some (number k)) ((==_iff n m).0 h)
same_tag_known (name n) none h = cc
same_tag_known (name n) (some m) h = cc

-- A question that hits the block is about the store's block.
block_hit_known :
    (store : BlockPolledStore) (overrides : Overrides)
    → block_hit store overrides ≡ true
    → resolved_block store overrides ≡ at_block store
unfolding block_hit
block_hit_known store none h = refl
block_hit_known store (some overrides) h = tagged overrides.block_tag h
  where
    tagged :
        (tag : Option BlockTag)
        → tag_hit store.block_tag tag ≡ true
        → resolved_block store (some (record { block_tag = tag })) ≡ at_block store
    tagged none h = refl
    tagged (some tag) h =
        ap (λ t. some (record { block_tag = t })) (same_tag_known tag store.block_tag h)

module _ (store : BlockPolledStore) {A : Type 0} (value : A) where
  block_answers :
      (read : Overrides → Result A)
      → ((overrides : Overrides) → read overrides ≡ read (resolved_block store overrides))
      → read (at_block store) ≡ ok value
      → (overrides : Overrides) → Hits (when (block_hit store overrides) value) (read overrides)
  block_answers read defaults loaded overrides a h =
      let (hit, e) = when_hit (block_hit store overrides) value h in
      let same : resolved_block store overrides ≡ at_block store =
        block_hit_known store overrides hit in
      rw (defaults overrides, same, loaded, e) refl

  address_answers :
      (known : Option Address) (read : Option Address → Overrides → Result A)
      → ((address : Option Address) (overrides : Overrides)
          → read address overrides
            ≡ read (or_default address known) (resolved_block store overrides))
      → read known (at_block store) ≡ ok value
      → (address : Option Address) (overrides : Overrides)
      → Hits
          (when (block_hit store overrides && address_hit store address known) value)
          (read address overrides)
  address_answers known read defaults loaded address overrides a h =
      let (hit, e) =
        when_hit (block_hit store overrides && address_hit store address known) value h in
      let (hit_block, hit_address) =
        both_true (block_hit store overrides) (address_hit store address known) hit in
      let same : resolved_block store overrides ≡ at_block store =
        block_hit_known store overrides hit_block in
      rw
        (
          defaults address overrides,
          same,
          address_hit_known store address known hit_address,
          loaded,
          e,
        )
        refl

module _ (store : BlockPolledStore) (readable : Readable Overrides)
    (defaults : IsDefaulting store readable) (loaded : IsLoaded store readable) where
  pub store_cache-IsCoherent : IsCoherent readable (store_cache store)
  unfolding store_cache user_hit frontend_hit
  store_cache-IsCoherent = record {
    total_redistributed_hits =
        block_answers store _ readable.get_total_redistributed defaults.total_redistributed_defaults
          loaded.total_redistributed_loaded;
    trove_before_redistribution_hits =
        address_answers store _ store.user_address readable.get_trove_before_redistribution
          defaults.trove_before_redistribution_defaults loaded.trove_before_redistribution_loaded;
    number_of_troves_hits =
        block_answers store _ readable.get_number_of_troves defaults.number_of_troves_defaults
          loaded.number_of_troves_loaded;
    price_hits =
        block_answers store _ readable.get_price defaults.price_defaults loaded.price_loaded;
    total_hits =
        block_answers store _ readable.get_total defaults.total_defaults loaded.total_loaded;
    stability_deposit_hits =
        address_answers store _ store.user_address readable.get_stability_deposit
          defaults.stability_deposit_defaults loaded.stability_deposit_loaded;
    remaining_stability_pool_hlqt_reward_hits =
        block_answers store _ readable.get_remaining_stability_pool_hlqt_reward
          defaults.remaining_stability_pool_hlqt_reward_defaults
          loaded.remaining_stability_pool_hlqt_reward_loaded;
    hchf_in_stability_pool_hits =
        block_answers store _ readable.get_hchf_in_stability_pool
          defaults.hchf_in_stability_pool_defaults loaded.hchf_in_stability_pool_loaded;
    hchf_balance_hits =
        address_answers store _ store.user_address readable.get_hchf_balance
          defaults.hchf_balance_defaults loaded.hchf_balance_loaded;
    hchf_token_address_hits =
        block_answers store _ readable.get_hchf_token_address defaults.hchf_token_address_defaults
          loaded.hchf_token_address_loaded;
    hlqt_token_address_hits =
        block_answers store _ readable.get_hlqt_token_address defaults.hlqt_token_address_defaults
          loaded.hlqt_token_address_loaded;
    hlqt_balance_hits =
        address_answers store _ store.user_address readable.get_hlqt_balance
          defaults.hlqt_balance_defaults loaded.hlqt_balance_loaded;
    uni_token_balance_hits =
        address_answers store _ store.user_address readable.get_uni_token_balance
          defaults.uni_token_balance_defaults loaded.uni_token_balance_loaded;
    uni_token_allowance_hits =
        address_answers store _ store.user_address readable.get_uni_token_allowance
          defaults.uni_token_allowance_defaults loaded.uni_token_allowance_loaded;
    remaining_liquidity_mining_hlqt_reward_hits =
        block_answers store _ readable.get_remaining_liquidity_mining_hlqt_reward
          defaults.remaining_liquidity_mining_hlqt_reward_defaults
          loaded.remaining_liquidity_mining_hlqt_reward_loaded;
    liquidity_mining_stake_hits =
        address_answers store _ store.user_address readable.get_liquidity_mining_stake
          defaults.liquidity_mining_stake_defaults loaded.liquidity_mining_stake_loaded;
    total_staked_uni_tokens_hits =
        block_answers store _ readable.get_total_staked_uni_tokens
          defaults.total_staked_uni_tokens_defaults loaded.total_staked_uni_tokens_loaded;
    liquidity_mining_hlqt_reward_hits =
        address_answers store _ store.user_address readable.get_liquidity_mining_hlqt_reward
          defaults.liquidity_mining_hlqt_reward_defaults loaded.liquidity_mining_hlqt_reward_loaded;
    collateral_surplus_balance_hits =
        address_answers store _ store.user_address readable.get_collateral_surplus_balance
          defaults.collateral_surplus_balance_defaults loaded.collateral_surplus_balance_loaded;
    troves_before_redistribution_hits = λ params overrides a h. cc;
    fees_hits = block_answers store _ readable.get_fees defaults.fees_defaults loaded.fees_loaded;
    hlqt_stake_hits =
        address_answers store _ store.user_address readable.get_hlqt_stake
          defaults.hlqt_stake_defaults loaded.hlqt_stake_loaded;
    total_staked_hlqt_hits =
        block_answers store _ readable.get_total_staked_hlqt defaults.total_staked_hlqt_defaults
          loaded.total_staked_hlqt_loaded;
    frontend_status_hits =
        address_answers store _ store.frontend_tag readable.get_frontend_status
          defaults.frontend_status_defaults loaded.frontend_status_loaded;
    hchf_token_allowance_of_hchf_contract_hits =
        address_answers store _ store.user_address
          readable.get_hchf_token_allowance_of_hchf_contract
          defaults.hchf_token_allowance_of_hchf_contract_defaults
          loaded.hchf_token_allowance_of_hchf_contract_loaded;
    hlqt_token_allowance_of_hlqt_contract_hits =
        address_answers store _ store.user_address
          readable.get_hlqt_token_allowance_of_hlqt_contract
          defaults.hlqt_token_allowance_of_hlqt_contract_defaults
          loaded.hlqt_token_allowance_of_hlqt_contract_loaded;
  }
