-- ===== src/Readings/Coherence.antt =====
-- What the cache and the reader of packages/lib-base/src/_CachedReadableLiquity.ts promise each other.
use hliquity.Base.{◌≡◌, Option, some, ok, Result, ◌>>=◌}
use hliquity.Trove.User.{apply_redistribution}
use hliquity.Readings.{Address, TroveListingParams, Readable, Cache, apply_to_all}

-- A hit is what the reader would answer.
abbrev pub Hits : {A : Type 0} → Option A → Result A → Type 0
Hits hit read = (a : _) → hit ≡ some a → read ≡ ok a

-- Every hit of the cache is what the reader answers to the same question.
pub record IsCoherent {P : Type 0} (readable : Readable P) (cache : Cache P) : Type 0 where
  pub total_redistributed_hits :
      (extra : P)
      → Hits (cache.get_total_redistributed extra) (readable.get_total_redistributed extra)
  pub trove_before_redistribution_hits :
      (address : Option Address) (extra : P)
      → Hits
          (cache.get_trove_before_redistribution address extra)
          (readable.get_trove_before_redistribution address extra)
  pub number_of_troves_hits :
      (extra : P) → Hits (cache.get_number_of_troves extra) (readable.get_number_of_troves extra)
  pub price_hits : (extra : P) → Hits (cache.get_price extra) (readable.get_price extra)
  pub total_hits : (extra : P) → Hits (cache.get_total extra) (readable.get_total extra)
  pub stability_deposit_hits :
      (address : Option Address) (extra : P)
      → Hits
          (cache.get_stability_deposit address extra)
          (readable.get_stability_deposit address extra)
  pub remaining_stability_pool_hlqt_reward_hits :
      (extra : P)
      → Hits
          (cache.get_remaining_stability_pool_hlqt_reward extra)
          (readable.get_remaining_stability_pool_hlqt_reward extra)
  pub hchf_in_stability_pool_hits :
      (extra : P)
      → Hits (cache.get_hchf_in_stability_pool extra) (readable.get_hchf_in_stability_pool extra)
  pub hchf_balance_hits :
      (address : Option Address) (extra : P)
      → Hits (cache.get_hchf_balance address extra) (readable.get_hchf_balance address extra)
  pub hchf_token_address_hits :
      (extra : P)
      → Hits (cache.get_hchf_token_address extra) (readable.get_hchf_token_address extra)
  pub hlqt_token_address_hits :
      (extra : P)
      → Hits (cache.get_hlqt_token_address extra) (readable.get_hlqt_token_address extra)
  pub hlqt_balance_hits :
      (address : Option Address) (extra : P)
      → Hits (cache.get_hlqt_balance address extra) (readable.get_hlqt_balance address extra)
  pub uni_token_balance_hits :
      (address : Option Address) (extra : P)
      → Hits
          (cache.get_uni_token_balance address extra)
          (readable.get_uni_token_balance address extra)
  pub uni_token_allowance_hits :
      (address : Option Address) (extra : P)
      → Hits
          (cache.get_uni_token_allowance address extra)
          (readable.get_uni_token_allowance address extra)
  pub remaining_liquidity_mining_hlqt_reward_hits :
      (extra : P)
      → Hits
          (cache.get_remaining_liquidity_mining_hlqt_reward extra)
          (readable.get_remaining_liquidity_mining_hlqt_reward extra)
  pub liquidity_mining_stake_hits :
      (address : Option Address) (extra : P)
      → Hits
          (cache.get_liquidity_mining_stake address extra)
          (readable.get_liquidity_mining_stake address extra)
  pub total_staked_uni_tokens_hits :
      (extra : P)
      → Hits (cache.get_total_staked_uni_tokens extra) (readable.get_total_staked_uni_tokens extra)
  pub liquidity_mining_hlqt_reward_hits :
      (address : Option Address) (extra : P)
      → Hits
          (cache.get_liquidity_mining_hlqt_reward address extra)
          (readable.get_liquidity_mining_hlqt_reward address extra)
  pub collateral_surplus_balance_hits :
      (address : Option Address) (extra : P)
      → Hits
          (cache.get_collateral_surplus_balance address extra)
          (readable.get_collateral_surplus_balance address extra)
  pub troves_before_redistribution_hits :
      (params : TroveListingParams) (extra : P)
      → Hits
          (cache.get_troves_before_redistribution params extra)
          (readable.get_troves_before_redistribution params extra)
  pub fees_hits : (extra : P) → Hits (cache.get_fees extra) (readable.get_fees extra)
  pub hlqt_stake_hits :
      (address : Option Address) (extra : P)
      → Hits (cache.get_hlqt_stake address extra) (readable.get_hlqt_stake address extra)
  pub total_staked_hlqt_hits :
      (extra : P) → Hits (cache.get_total_staked_hlqt extra) (readable.get_total_staked_hlqt extra)
  pub frontend_status_hits :
      (address : Option Address) (extra : P)
      → Hits (cache.get_frontend_status address extra) (readable.get_frontend_status address extra)
  pub hchf_token_allowance_of_hchf_contract_hits :
      (address : Option Address) (extra : P)
      → Hits
          (cache.get_hchf_token_allowance_of_hchf_contract address extra)
          (readable.get_hchf_token_allowance_of_hchf_contract address extra)
  pub hlqt_token_allowance_of_hlqt_contract_hits :
      (address : Option Address) (extra : P)
      → Hits
          (cache.get_hlqt_token_allowance_of_hlqt_contract address extra)
          (readable.get_hlqt_token_allowance_of_hlqt_contract address extra)

-- The reader applies redistributions as the class of its answers does.
pub record IsReader {P : Type 0} (readable : Readable P) : Type 0 where
  pub get_trove_applies :
      (address : Option Address) (extra : P)
      → readable.get_trove address extra ≡ (
          readable.get_trove_before_redistribution address extra >>= λ trove.
          readable.get_total_redistributed extra >>= λ total. apply_redistribution trove total)
  pub get_troves_applies :
      (params : TroveListingParams) (extra : P)
      → readable.get_troves params extra ≡ (
          readable.get_total_redistributed extra >>= λ total.
          readable.get_troves_before_redistribution params extra >>= λ troves.
          apply_to_all total troves)
