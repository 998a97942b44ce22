-- ===== src/Readings/StoreCache/Loaded.antt =====
-- What is relied on of the reader that packages/lib-ethers/src/ReadableEthersLiquity.ts wraps, and of
-- the store that polls blocks.
use hliquity.Base.{ℕ, ◌≡◌, Option, none, some, ok}
use hliquity.Readings.{Address, Readable}
use hliquity.Readings.StoreCache.{Overrides, BlockTag, number, BlockPolledStore}

abbrev pub tag_of : Option ℕ → Option BlockTag
tag_of none = none
tag_of (some n) = some (number n)

abbrev pub or_default : Option Address → Option Address → Option Address
or_default none known = known
or_default (some address) known = some address

module _ (store : BlockPolledStore) where
  -- The question for the store's block.
  abbrev pub at_block : Overrides
  at_block = some (record { block_tag = tag_of store.block_tag })

  -- The block that a question is about: without a block tag, the store's, which is the latest.
  abbrev pub resolved_block : Overrides → Overrides
  resolved_block none = at_block
  resolved_block (some overrides) = with_tag overrides.block_tag
    where
      with_tag : Option BlockTag → Overrides
      with_tag none = at_block
      with_tag (some tag) = some (record { block_tag = some tag })

-- The latest block is the store's, and an address that is left out is the connection's: a question
-- without them has the answer of the question with them.
pub record IsDefaulting (store : BlockPolledStore) (readable : Readable Overrides) : Type 0 where
  pub total_redistributed_defaults :
      (overrides : Overrides)
      → readable.get_total_redistributed overrides
        ≡ readable.get_total_redistributed (resolved_block store overrides)
  pub trove_before_redistribution_defaults :
      (address : Option Address) (overrides : Overrides)
      → readable.get_trove_before_redistribution address overrides
        ≡ readable.get_trove_before_redistribution
            (or_default address store.user_address)
            (resolved_block store overrides)
  pub trove_defaults :
      (address : Option Address) (overrides : Overrides)
      → readable.get_trove address overrides
        ≡ readable.get_trove
            (or_default address store.user_address)
            (resolved_block store overrides)
  pub number_of_troves_defaults :
      (overrides : Overrides)
      → readable.get_number_of_troves overrides
        ≡ readable.get_number_of_troves (resolved_block store overrides)
  pub price_defaults :
      (overrides : Overrides)
      → readable.get_price overrides ≡ readable.get_price (resolved_block store overrides)
  pub total_defaults :
      (overrides : Overrides)
      → readable.get_total overrides ≡ readable.get_total (resolved_block store overrides)
  pub stability_deposit_defaults :
      (address : Option Address) (overrides : Overrides)
      → readable.get_stability_deposit address overrides
        ≡ readable.get_stability_deposit
            (or_default address store.user_address)
            (resolved_block store overrides)
  pub remaining_stability_pool_hlqt_reward_defaults :
      (overrides : Overrides)
      → readable.get_remaining_stability_pool_hlqt_reward overrides
        ≡ readable.get_remaining_stability_pool_hlqt_reward (resolved_block store overrides)
  pub hchf_in_stability_pool_defaults :
      (overrides : Overrides)
      → readable.get_hchf_in_stability_pool overrides
        ≡ readable.get_hchf_in_stability_pool (resolved_block store overrides)
  pub hchf_balance_defaults :
      (address : Option Address) (overrides : Overrides)
      → readable.get_hchf_balance address overrides
        ≡ readable.get_hchf_balance
            (or_default address store.user_address)
            (resolved_block store overrides)
  pub hchf_token_address_defaults :
      (overrides : Overrides)
      → readable.get_hchf_token_address overrides
        ≡ readable.get_hchf_token_address (resolved_block store overrides)
  pub hlqt_token_address_defaults :
      (overrides : Overrides)
      → readable.get_hlqt_token_address overrides
        ≡ readable.get_hlqt_token_address (resolved_block store overrides)
  pub hlqt_balance_defaults :
      (address : Option Address) (overrides : Overrides)
      → readable.get_hlqt_balance address overrides
        ≡ readable.get_hlqt_balance
            (or_default address store.user_address)
            (resolved_block store overrides)
  pub uni_token_balance_defaults :
      (address : Option Address) (overrides : Overrides)
      → readable.get_uni_token_balance address overrides
        ≡ readable.get_uni_token_balance
            (or_default address store.user_address)
            (resolved_block store overrides)
  pub uni_token_allowance_defaults :
      (address : Option Address) (overrides : Overrides)
      → readable.get_uni_token_allowance address overrides
        ≡ readable.get_uni_token_allowance
            (or_default address store.user_address)
            (resolved_block store overrides)
  pub remaining_liquidity_mining_hlqt_reward_defaults :
      (overrides : Overrides)
      → readable.get_remaining_liquidity_mining_hlqt_reward overrides
        ≡ readable.get_remaining_liquidity_mining_hlqt_reward (resolved_block store overrides)
  pub liquidity_mining_stake_defaults :
      (address : Option Address) (overrides : Overrides)
      → readable.get_liquidity_mining_stake address overrides
        ≡ readable.get_liquidity_mining_stake
            (or_default address store.user_address)
            (resolved_block store overrides)
  pub total_staked_uni_tokens_defaults :
      (overrides : Overrides)
      → readable.get_total_staked_uni_tokens overrides
        ≡ readable.get_total_staked_uni_tokens (resolved_block store overrides)
  pub liquidity_mining_hlqt_reward_defaults :
      (address : Option Address) (overrides : Overrides)
      → readable.get_liquidity_mining_hlqt_reward address overrides
        ≡ readable.get_liquidity_mining_hlqt_reward
            (or_default address store.user_address)
            (resolved_block store overrides)
  pub collateral_surplus_balance_defaults :
      (address : Option Address) (overrides : Overrides)
      → readable.get_collateral_surplus_balance address overrides
        ≡ readable.get_collateral_surplus_balance
            (or_default address store.user_address)
            (resolved_block store overrides)
  pub fees_defaults :
      (overrides : Overrides)
      → readable.get_fees overrides ≡ readable.get_fees (resolved_block store overrides)
  pub hlqt_stake_defaults :
      (address : Option Address) (overrides : Overrides)
      → readable.get_hlqt_stake address overrides
        ≡ readable.get_hlqt_stake
            (or_default address store.user_address)
            (resolved_block store overrides)
  pub total_staked_hlqt_defaults :
      (overrides : Overrides)
      → readable.get_total_staked_hlqt overrides
        ≡ readable.get_total_staked_hlqt (resolved_block store overrides)
  pub frontend_status_defaults :
      (address : Option Address) (overrides : Overrides)
      → readable.get_frontend_status address overrides
        ≡ readable.get_frontend_status
            (or_default address store.frontend_tag)
            (resolved_block store overrides)
  pub hchf_token_allowance_of_hchf_contract_defaults :
      (address : Option Address) (overrides : Overrides)
      → readable.get_hchf_token_allowance_of_hchf_contract address overrides
        ≡ readable.get_hchf_token_allowance_of_hchf_contract
            (or_default address store.user_address)
            (resolved_block store overrides)
  pub hlqt_token_allowance_of_hlqt_contract_defaults :
      (address : Option Address) (overrides : Overrides)
      → readable.get_hlqt_token_allowance_of_hlqt_contract address overrides
        ≡ readable.get_hlqt_token_allowance_of_hlqt_contract
            (or_default address store.user_address)
            (resolved_block store overrides)

-- The store has the answers for its block, its user and its frontend.
pub record IsLoaded (store : BlockPolledStore) (readable : Readable Overrides) : Type 0 where
  pub total_redistributed_loaded :
      readable.get_total_redistributed (at_block store) ≡ ok store.base.total_redistributed.content
  pub trove_before_redistribution_loaded :
      readable.get_trove_before_redistribution store.user_address (at_block store)
      ≡ ok store.base.trove_before_redistribution.content
  pub trove_loaded :
      readable.get_trove store.user_address (at_block store) ≡ ok store.derived.trove.content
  pub number_of_troves_loaded :
      readable.get_number_of_troves (at_block store) ≡ ok store.base.number_of_troves
  pub price_loaded : readable.get_price (at_block store) ≡ ok store.base.price.content
  pub total_loaded : readable.get_total (at_block store) ≡ ok store.base.total.content
  pub stability_deposit_loaded :
      readable.get_stability_deposit store.user_address (at_block store)
      ≡ ok store.base.stability_deposit.content
  pub remaining_stability_pool_hlqt_reward_loaded :
      readable.get_remaining_stability_pool_hlqt_reward (at_block store)
      ≡ ok store.base.remaining_stability_pool_hlqt_reward.content
  pub hchf_in_stability_pool_loaded :
      readable.get_hchf_in_stability_pool (at_block store)
      ≡ ok store.base.hchf_in_stability_pool.content
  pub hchf_balance_loaded :
      readable.get_hchf_balance store.user_address (at_block store)
      ≡ ok store.base.hchf_balance.content
  pub hchf_token_address_loaded :
      readable.get_hchf_token_address (at_block store) ≡ ok store.base.hchf_token_address
  pub hlqt_token_address_loaded :
      readable.get_hlqt_token_address (at_block store) ≡ ok store.base.hlqt_token_address
  pub hlqt_balance_loaded :
      readable.get_hlqt_balance store.user_address (at_block store)
      ≡ ok store.base.hlqt_balance.content
  pub uni_token_balance_loaded :
      readable.get_uni_token_balance store.user_address (at_block store)
      ≡ ok store.base.uni_token_balance.content
  pub uni_token_allowance_loaded :
      readable.get_uni_token_allowance store.user_address (at_block store)
      ≡ ok store.base.uni_token_allowance.content
  pub remaining_liquidity_mining_hlqt_reward_loaded :
      readable.get_remaining_liquidity_mining_hlqt_reward (at_block store)
      ≡ ok store.base.remaining_liquidity_mining_hlqt_reward.content
  pub liquidity_mining_stake_loaded :
      readable.get_liquidity_mining_stake store.user_address (at_block store)
      ≡ ok store.base.liquidity_mining_stake.content
  pub total_staked_uni_tokens_loaded :
      readable.get_total_staked_uni_tokens (at_block store)
      ≡ ok store.base.total_staked_uni_tokens.content
  pub liquidity_mining_hlqt_reward_loaded :
      readable.get_liquidity_mining_hlqt_reward store.user_address (at_block store)
      ≡ ok store.base.liquidity_mining_hlqt_reward.content
  pub collateral_surplus_balance_loaded :
      readable.get_collateral_surplus_balance store.user_address (at_block store)
      ≡ ok store.base.collateral_surplus_balance.content
  pub fees_loaded : readable.get_fees (at_block store) ≡ ok store.derived.fees.content
  pub hlqt_stake_loaded :
      readable.get_hlqt_stake store.user_address (at_block store) ≡ ok store.base.hlqt_stake.content
  pub total_staked_hlqt_loaded :
      readable.get_total_staked_hlqt (at_block store) ≡ ok store.base.total_staked_hlqt.content
  pub frontend_status_loaded :
      readable.get_frontend_status store.frontend_tag (at_block store)
      ≡ ok store.base.frontend.content
  pub hchf_token_allowance_of_hchf_contract_loaded :
      readable.get_hchf_token_allowance_of_hchf_contract store.user_address (at_block store)
      ≡ ok store.base.hchf_token_allowance_of_hchf_contract.content
  pub hlqt_token_allowance_of_hlqt_contract_loaded :
      readable.get_hlqt_token_allowance_of_hlqt_contract store.user_address (at_block store)
      ≡ ok store.base.hlqt_token_allowance_of_hlqt_contract.content
