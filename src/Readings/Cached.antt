-- ===== src/Readings/Cached.antt =====
-- packages/lib-base/src/_CachedReadableLiquity.ts refines the reader that it wraps.
use hliquity.Base.{◌≡◌, refl, sym, Option, none, some, Result}
use hliquity.Readings.{
  Address, TroveListingParams, Readable, Cache, hit_or, cached, cached_total_redistributed,
  cached_trove_before_redistribution, cached_trove, cached_number_of_troves, cached_price,
  cached_total, cached_stability_deposit, cached_remaining_stability_pool_hlqt_reward,
  cached_hchf_in_stability_pool, cached_hchf_balance, cached_hchf_token_address,
  cached_hlqt_token_address, cached_hlqt_balance, cached_uni_token_balance,
  cached_uni_token_allowance, cached_remaining_liquidity_mining_hlqt_reward,
  cached_liquidity_mining_stake, cached_total_staked_uni_tokens,
  cached_liquidity_mining_hlqt_reward, cached_collateral_surplus_balance,
  cached_troves_before_redistribution, cached_troves, cached_fees, cached_hlqt_stake,
  cached_total_staked_hlqt, cached_frontend_status, cached_hchf_token_allowance_of_hchf_contract,
  cached_hlqt_token_allowance_of_hlqt_contract,
}
use hliquity.Readings.Coherence.{Hits, IsCoherent, IsReader}

hit_or_lem :
    {A : Type 0} (hit : Option A) (read : Result A) → Hits hit read → hit_or hit read ≡ read
hit_or_lem none read h = refl
hit_or_lem (some a) read h = sym (h a refl)

module _ {P : Type 0} (readable : Readable P) (cache : Cache P)
    (coherent : IsCoherent readable cache) where
  same_total_redistributed :
      (extra : P)
      → cached_total_redistributed readable cache extra ≡ readable.get_total_redistributed extra
  unfolding cached_total_redistributed
  same_total_redistributed extra = hit_or_lem _ _ (coherent.total_redistributed_hits extra)

  same_trove_before_redistribution :
      (address : Option Address) (extra : P)
      → cached_trove_before_redistribution readable cache address extra
        ≡ readable.get_trove_before_redistribution address extra
  unfolding cached_trove_before_redistribution
  same_trove_before_redistribution address extra =
      hit_or_lem _ _ (coherent.trove_before_redistribution_hits address extra)

  same_number_of_troves :
      (extra : P)
      → cached_number_of_troves readable cache extra ≡ readable.get_number_of_troves extra
  unfolding cached_number_of_troves
  same_number_of_troves extra = hit_or_lem _ _ (coherent.number_of_troves_hits extra)

  same_price : (extra : P) → cached_price readable cache extra ≡ readable.get_price extra
  unfolding cached_price
  same_price extra = hit_or_lem _ _ (coherent.price_hits extra)

  same_total : (extra : P) → cached_total readable cache extra ≡ readable.get_total extra
  unfolding cached_total
  same_total extra = hit_or_lem _ _ (coherent.total_hits extra)

  same_stability_deposit :
      (address : Option Address) (extra : P)
      → cached_stability_deposit readable cache address extra
        ≡ readable.get_stability_deposit address extra
  unfolding cached_stability_deposit
  same_stability_deposit address extra =
      hit_or_lem _ _ (coherent.stability_deposit_hits address extra)

  same_remaining_stability_pool_hlqt_reward :
      (extra : P)
      → cached_remaining_stability_pool_hlqt_reward readable cache extra
        ≡ readable.get_remaining_stability_pool_hlqt_reward extra
  unfolding cached_remaining_stability_pool_hlqt_reward
  same_remaining_stability_pool_hlqt_reward extra =
      hit_or_lem _ _ (coherent.remaining_stability_pool_hlqt_reward_hits extra)

  same_hchf_in_stability_pool :
      (extra : P)
      → cached_hchf_in_stability_pool readable cache extra
        ≡ readable.get_hchf_in_stability_pool extra
  unfolding cached_hchf_in_stability_pool
  same_hchf_in_stability_pool extra = hit_or_lem _ _ (coherent.hchf_in_stability_pool_hits extra)

  same_hchf_balance :
      (address : Option Address) (extra : P)
      → cached_hchf_balance readable cache address extra ≡ readable.get_hchf_balance address extra
  unfolding cached_hchf_balance
  same_hchf_balance address extra = hit_or_lem _ _ (coherent.hchf_balance_hits address extra)

  same_hchf_token_address :
      (extra : P)
      → cached_hchf_token_address readable cache extra ≡ readable.get_hchf_token_address extra
  unfolding cached_hchf_token_address
  same_hchf_token_address extra = hit_or_lem _ _ (coherent.hchf_token_address_hits extra)

  same_hlqt_token_address :
      (extra : P)
      → cached_hlqt_token_address readable cache extra ≡ readable.get_hlqt_token_address extra
  unfolding cached_hlqt_token_address
  same_hlqt_token_address extra = hit_or_lem _ _ (coherent.hlqt_token_address_hits extra)

  same_hlqt_balance :
      (address : Option Address) (extra : P)
      → cached_hlqt_balance readable cache address extra ≡ readable.get_hlqt_balance address extra
  unfolding cached_hlqt_balance
  same_hlqt_balance address extra = hit_or_lem _ _ (coherent.hlqt_balance_hits address extra)

  same_uni_token_balance :
      (address : Option Address) (extra : P)
      → cached_uni_token_balance readable cache address extra
        ≡ readable.get_uni_token_balance address extra
  unfolding cached_uni_token_balance
  same_uni_token_balance address extra =
      hit_or_lem _ _ (coherent.uni_token_balance_hits address extra)

  same_uni_token_allowance :
      (address : Option Address) (extra : P)
      → cached_uni_token_allowance readable cache address extra
        ≡ readable.get_uni_token_allowance address extra
  unfolding cached_uni_token_allowance
  same_uni_token_allowance address extra =
      hit_or_lem _ _ (coherent.uni_token_allowance_hits address extra)

  same_remaining_liquidity_mining_hlqt_reward :
      (extra : P)
      → cached_remaining_liquidity_mining_hlqt_reward readable cache extra
        ≡ readable.get_remaining_liquidity_mining_hlqt_reward extra
  unfolding cached_remaining_liquidity_mining_hlqt_reward
  same_remaining_liquidity_mining_hlqt_reward extra =
      hit_or_lem _ _ (coherent.remaining_liquidity_mining_hlqt_reward_hits extra)

  same_liquidity_mining_stake :
      (address : Option Address) (extra : P)
      → cached_liquidity_mining_stake readable cache address extra
        ≡ readable.get_liquidity_mining_stake address extra
  unfolding cached_liquidity_mining_stake
  same_liquidity_mining_stake address extra =
      hit_or_lem _ _ (coherent.liquidity_mining_stake_hits address extra)

  same_total_staked_uni_tokens :
      (extra : P)
      → cached_total_staked_uni_tokens readable cache extra
        ≡ readable.get_total_staked_uni_tokens extra
  unfolding cached_total_staked_uni_tokens
  same_total_staked_uni_tokens extra = hit_or_lem _ _ (coherent.total_staked_uni_tokens_hits extra)

  same_liquidity_mining_hlqt_reward :
      (address : Option Address) (extra : P)
      → cached_liquidity_mining_hlqt_reward readable cache address extra
        ≡ readable.get_liquidity_mining_hlqt_reward address extra
  unfolding cached_liquidity_mining_hlqt_reward
  same_liquidity_mining_hlqt_reward address extra =
      hit_or_lem _ _ (coherent.liquidity_mining_hlqt_reward_hits address extra)

  same_collateral_surplus_balance :
      (address : Option Address) (extra : P)
      → cached_collateral_surplus_balance readable cache address extra
        ≡ readable.get_collateral_surplus_balance address extra
  unfolding cached_collateral_surplus_balance
  same_collateral_surplus_balance address extra =
      hit_or_lem _ _ (coherent.collateral_surplus_balance_hits address extra)

  same_troves_before_redistribution :
      (params : TroveListingParams) (extra : P)
      → cached_troves_before_redistribution readable cache params extra
        ≡ readable.get_troves_before_redistribution params extra
  unfolding cached_troves_before_redistribution
  same_troves_before_redistribution params extra =
      hit_or_lem _ _ (coherent.troves_before_redistribution_hits params extra)

  same_fees : (extra : P) → cached_fees readable cache extra ≡ readable.get_fees extra
  unfolding cached_fees
  same_fees extra = hit_or_lem _ _ (coherent.fees_hits extra)

  same_hlqt_stake :
      (address : Option Address) (extra : P)
      → cached_hlqt_stake readable cache address extra ≡ readable.get_hlqt_stake address extra
  unfolding cached_hlqt_stake
  same_hlqt_stake address extra = hit_or_lem _ _ (coherent.hlqt_stake_hits address extra)

  same_total_staked_hlqt :
      (extra : P)
      → cached_total_staked_hlqt readable cache extra ≡ readable.get_total_staked_hlqt extra
  unfolding cached_total_staked_hlqt
  same_total_staked_hlqt extra = hit_or_lem _ _ (coherent.total_staked_hlqt_hits extra)

  same_frontend_status :
      (address : Option Address) (extra : P)
      → cached_frontend_status readable cache address extra
        ≡ readable.get_frontend_status address extra
  unfolding cached_frontend_status
  same_frontend_status address extra = hit_or_lem _ _ (coherent.frontend_status_hits address extra)

  same_hchf_token_allowance_of_hchf_contract :
      (address : Option Address) (extra : P)
      → cached_hchf_token_allowance_of_hchf_contract readable cache address extra
        ≡ readable.get_hchf_token_allowance_of_hchf_contract address extra
  unfolding cached_hchf_token_allowance_of_hchf_contract
  same_hchf_token_allowance_of_hchf_contract address extra =
      hit_or_lem _ _ (coherent.hchf_token_allowance_of_hchf_contract_hits address extra)

  same_hlqt_token_allowance_of_hlqt_contract :
      (address : Option Address) (extra : P)
      → cached_hlqt_token_allowance_of_hlqt_contract readable cache address extra
        ≡ readable.get_hlqt_token_allowance_of_hlqt_contract address extra
  unfolding cached_hlqt_token_allowance_of_hlqt_contract
  same_hlqt_token_allowance_of_hlqt_contract address extra =
      hit_or_lem _ _ (coherent.hlqt_token_allowance_of_hlqt_contract_hits address extra)

  same_trove :
      IsReader readable
      → (address : Option Address) (extra : P)
      → cached_trove readable cache address extra ≡ readable.get_trove address extra
  unfolding cached_trove
  same_trove reader address extra =
      rw
        (
          same_trove_before_redistribution address extra,
          same_total_redistributed extra,
          reader.get_trove_applies address extra,
        )
        refl

  same_troves :
      IsReader readable
      → (params : TroveListingParams) (extra : P)
      → cached_troves readable cache params extra ≡ readable.get_troves params extra
  unfolding cached_troves
  same_troves reader params extra =
      rw
        (
          same_total_redistributed extra,
          same_troves_before_redistribution params extra,
          reader.get_troves_applies params extra,
        )
        refl

  -- With a cache whose hits are what the reader answers, the cached reader answers every question
  -- exactly as the reader that it wraps, if that applies redistributions as `applyRedistribution`
  -- does.
  pub cached-Refines : IsReader readable → cached readable cache ≡ readable
  unfolding cached
  cached-Refines reader = λ i. record {
    get_total_redistributed = λ extra. same_total_redistributed extra i;
    get_trove_before_redistribution =
        λ address extra. same_trove_before_redistribution address extra i;
    get_trove = λ address extra. same_trove reader address extra i;
    get_number_of_troves = λ extra. same_number_of_troves extra i;
    get_price = λ extra. same_price extra i;
    get_total = λ extra. same_total extra i;
    get_stability_deposit = λ address extra. same_stability_deposit address extra i;
    get_remaining_stability_pool_hlqt_reward =
        λ extra. same_remaining_stability_pool_hlqt_reward extra i;
    get_hchf_in_stability_pool = λ extra. same_hchf_in_stability_pool extra i;
    get_hchf_balance = λ address extra. same_hchf_balance address extra i;
    get_hchf_token_address = λ extra. same_hchf_token_address extra i;
    get_hlqt_token_address = λ extra. same_hlqt_token_address extra i;
    get_hlqt_balance = λ address extra. same_hlqt_balance address extra i;
    get_uni_token_balance = λ address extra. same_uni_token_balance address extra i;
    get_uni_token_allowance = λ address extra. same_uni_token_allowance address extra i;
    get_remaining_liquidity_mining_hlqt_reward =
        λ extra. same_remaining_liquidity_mining_hlqt_reward extra i;
    get_liquidity_mining_stake = λ address extra. same_liquidity_mining_stake address extra i;
    get_total_staked_uni_tokens = λ extra. same_total_staked_uni_tokens extra i;
    get_liquidity_mining_hlqt_reward =
        λ address extra. same_liquidity_mining_hlqt_reward address extra i;
    get_collateral_surplus_balance =
        λ address extra. same_collateral_surplus_balance address extra i;
    get_troves_before_redistribution =
        λ params extra. same_troves_before_redistribution params extra i;
    get_troves = λ params extra. same_troves reader params extra i;
    get_fees = λ extra. same_fees extra i;
    get_hlqt_stake = λ address extra. same_hlqt_stake address extra i;
    get_total_staked_hlqt = λ extra. same_total_staked_hlqt extra i;
    get_frontend_status = λ address extra. same_frontend_status address extra i;
    get_hchf_token_allowance_of_hchf_contract =
        λ address extra. same_hchf_token_allowance_of_hchf_contract address extra i;
    get_hlqt_token_allowance_of_hlqt_contract =
        λ address extra. same_hlqt_token_allowance_of_hlqt_contract address extra i;
  }
