-- ===== src/Readings/Tests.antt =====
-- Tests of the readings.
use hliquity.Base.{ℕ, List, [], ◌∷◌, true, ◌⊎◌, some, ◌≡◌, refl, none, ok, ◌>>=◌}
use hliquity.Decimal
use hliquity.Fees
use hliquity.StabilityDeposit
use hliquity.Trove.Defs
use hliquity.Readings.Contracts
use hliquity.Readings.Contracts.Others
use hliquity.Readings.FetchStore
use hliquity.Store.State.{Whole}
use hliquity.Store.Derive.{DerivedState, derive}
use hliquity.Trove.User.{apply_redistribution}
use hliquity.Readings.Contracts.{
  HashgraphLiquity, get_trove_before_redistribution, get_total_redistributed,
}
use hliquity.Readings.Contracts.Others.{get_fees, get_remaining_liquidity_mining_hlqt_reward}
use hliquity.Readings.FetchStore.{fetch_store_values}
use hliquity.Readings.Derived.{derive_reads}
use hliquity.Store.Update.{Store}
use hliquity.Store.Listeners.{Op}
use hliquity.Readings.Refresh.{ExtraState, refresh, refresh_lem, Unfetched, Fetched}
use hliquity.Readings.Examples.{liquity, network}

-- 40 seconds of rewards at a rate of 2.
reward : get_remaining_liquidity_mining_hlqt_reward liquity none ≡ ok 8_000_000_000
unfolding get_remaining_liquidity_mining_hlqt_reward
reward = refl

fetched : (base : Whole) × (fetch_store_values liquity network 10 none ≡ ok base)
unfolding fetch_store_values Contracts.get_price Contracts.get_number_of_troves
    Contracts.get_total_redistributed Contracts.get_total
    Contracts.get_remaining_stability_pool_hlqt_reward Contracts.decimalify
    Contracts.get_address_or_user_address Contracts.get_collateral_surplus_balance
    Contracts.get_stability_deposit Contracts.get_trove_before_redistribution
    Contracts.user_trove_status_from Others.get_hchf_in_stability_pool Others.get_total_staked_hlqt
    Others.get_total_staked_uni_tokens Others.get_remaining_liquidity_mining_hlqt_reward
    Others.get_hchf_balance Others.get_hchf_token_address Others.get_hlqt_token_address
    Others.get_hlqt_balance Others.get_uni_token_balance Others.get_uni_token_allowance
    Others.get_liquidity_mining_stake Others.get_liquidity_mining_hlqt_reward
    Others.get_frontend_status Others.get_hchf_token_allowance_of_hchf_contract
    Others.get_hlqt_stake Others.get_hlqt_token_allowance_of_hlqt_contract FetchStore.base_state
    FetchStore.fees_in_normal_mode FetchStore.frontend_values FetchStore.get_account_balance
    FetchStore.global_values FetchStore.token_associations FetchStore.user_values
    FetchStore.values_of_user FetchStore.values_without_user Decimal.add Decimal.eq
    Decimal.from_big_number_string_with_precision Decimal.gt Decimal.lt Decimal.mul
    Decimal.new_decimal Decimal.sub Fees.new_fees StabilityDeposit.new_stability_deposit Defs.add
fetched = (_, refl)

made : (derived : DerivedState) × (derive 50 fetched.0 ≡ ok derived)
unfolding derive fetched Fees.set_recovery_mode apply_redistribution Defs.subtract Defs.sub_or_zero
    Fees.borrowing_rate Defs.collateral_ratio_is_below_critical Defs.collateral_ratio
    Decimal.mul_div Fees.base_rate Decimal.pow Fees.minutes_since_last_fee_operation
    Fees.redemption_rate
made = (_, refl)

derive_reads_example :
    (get_fees liquity none ≡ ok made.0.fees.content)
    × ((get_trove_before_redistribution liquity (some "0x1") none >>= λ trove.
          get_total_redistributed liquity none >>= λ total. apply_redistribution trove total)
        ≡ ok made.0.trove.content)
derive_reads_example =
    derive_reads liquity none network 10 50 fetched.0 made.0 refl fetched.1 made.1

-- A loaded store with one listener, which does nothing.
abbrev react : ℕ → List Op
react listener = []

abbrev extra : ExtraState
extra = record { block_tag = none; block_timestamp = 60 }

abbrev running : Store ExtraState
running = record {
  base = some fetched.0;
  derived = some made.0;
  extra = some extra;
  loaded = true;
  listeners = record { listeners = 0 ∷ []; fresh = 1 };
  fresh = 100;
}

refresh_lem_example :
    ((refresh liquity network react [] running).thrown ≡ none)
    × (Unfetched liquity network react [] running (refresh liquity network react [] running)
        ⊎ Fetched liquity network react [] fetched.0 made.0 running
            (refresh liquity network react [] running))
refresh_lem_example =
    refresh_lem liquity network react [] running fetched.0 made.0 extra refl refl refl refl
