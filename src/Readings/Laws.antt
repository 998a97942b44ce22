-- ===== src/Readings/Laws.antt =====
-- What a successful fetch of packages/lib-hashgraph/src/HashgraphLiquity.ts has read.
use hliquity.Base.{
  ℕ, ◌*◌, ◌≡◌, refl, sym, ap, ◌∙◌, Bool, false, some, Result, ok, >>=-eq-ok, >>=-then, Bool-cases,
  ltb, inl, inr,
}
use hliquity.Decimal
use hliquity.Decimal.{Decimal}
use hliquity.Fees.{Fees, new_fees, set_recovery_mode}
use hliquity.Trove.Defs.{Trove, collateral_ratio_is_below_critical}
use hliquity.Store.State.{FrontendStatus, Whole}
use hliquity.Readings.{Address}
use hliquity.Readings.Contracts.{
  Tag, HashgraphLiquity, decimalify, get_total, get_price, get_total_redistributed,
  get_trove_before_redistribution, get_number_of_troves, get_remaining_stability_pool_hlqt_reward,
  get_collateral_surplus_balance, get_stability_deposit,
}
use hliquity.Readings.Contracts.Others.{
  get_fees, get_hchf_in_stability_pool, get_total_staked_hlqt, get_total_staked_uni_tokens,
  get_remaining_liquidity_mining_hlqt_reward, get_hchf_balance, get_hchf_token_address,
  get_hlqt_token_address, get_hlqt_balance, get_uni_token_balance, get_uni_token_allowance,
  get_liquidity_mining_stake, get_liquidity_mining_hlqt_reward, get_hlqt_stake, get_frontend_status,
  get_hchf_token_allowance_of_hchf_contract, get_hlqt_token_allowance_of_hlqt_contract,
}
use hliquity.Readings.FetchStore.{
  Network, UserValues, GlobalValues, TokenAssociations, base_state, global_values,
  fees_in_normal_mode, fetch_store_values, user_values, token_associations, frontend_values,
  get_account_balance, values_of_user,
}

pub ok_inj : {A : Type 0} {a b : A} → (◌≡◌ {A = Result A} (ok a) (ok b)) → a ≡ b
ok_inj h = cc

-- The constructor of the fees gives its arguments back.
new_fees_inv :
    (base decay beta : Decimal) (last latest : ℕ) (mode : Bool) (constants : _) {f : Fees}
    → new_fees base decay beta last latest mode constants ≡ ok f
    → (mode' : Bool)
    → set_recovery_mode f mode' ≡ new_fees base decay beta last latest mode' constants
unfolding new_fees set_recovery_mode
new_fees_inv base decay beta last latest mode constants {f} h mode' =
    elim (Bool-cases (ltb decay Decimal.one)) [
      | inl fine ↦
          let h' = rw fine at h in
          let made : Fees = record {
            base_rate_without_decay = base;
            minute_decay_factor = decay;
            beta = beta;
            last_fee_operation = last;
            time_of_latest_block = latest;
            recovery_mode = mode;
            constants = constants;
          } in
          let e : f ≡ made = cc in rw e refl
      | inr refused ↦ let h' = rw refused at h in cc
    ]

module _ (self : HashgraphLiquity) (tag : Tag) where
  -- The fees that are read are the fees in normal mode, in the mode of the total.
  pub get_fees_mode :
      {fees : Fees} {total : Trove} {price : Decimal}
      → get_total self tag ≡ ok total
      → get_price self tag ≡ ok price
      → (network : Network) → fees_in_normal_mode self network tag ≡ ok fees
      → get_fees self tag ≡ set_recovery_mode fees (collateral_ratio_is_below_critical total price)
  unfolding get_fees fees_in_normal_mode
  get_fees_mode {total = total} {price = price} at_total at_price network h =
      let (last, at_last, h1) = >>=-eq-ok (self.contracts.last_fee_operation_time tag) _ h in
      let (base, at_base, h2) = >>=-eq-ok (decimalify (self.contracts.base_rate tag)) _ h1 in
      let (block, at_block, h3) = >>=-eq-ok (self.contracts.block_timestamp tag) _ h2 in
      rw (at_last, at_base, at_total, at_price, at_block)
        (sym (new_fees_inv base _ _ (last * 1000) (block * 1000) false self.constants h3 _))

  module _ (network : Network) (fresh : ℕ) where
    -- What a successful fetch has read.
    pub record Fetched (base : Whole) : Type 0 where
      pub at_price : get_price self tag ≡ ok base.price.content
      pub at_total : get_total self tag ≡ ok base.total.content
      pub at_redistributed : get_total_redistributed self tag ≡ ok base.total_redistributed.content
      pub at_fees : fees_in_normal_mode self network tag ≡ ok base.fees_in_normal_mode.content
      pub values : UserValues
      pub at_user : user_values self network tag ≡ ok values
      pub same_trove : base.trove_before_redistribution.content ≡ values.trove_before_redistribution

    -- The readings behind the values that all users share.
    record Shared (global : GlobalValues) : Type 0 where
      price_read : get_price self tag ≡ ok global.price
      total_read : get_total self tag ≡ ok global.total
      redistributed_read : get_total_redistributed self tag ≡ ok global.total_redistributed

    global-Shared :
        (global : GlobalValues) → global_values self network tag ≡ ok global → Shared global
    unfolding global_values
    global-Shared global h = >>=-then (get_price self tag) _ h λ price at_price h0.
        >>=-then (get_number_of_troves self tag) _ h0 λ count at_count h1.
          >>=-then (get_total_redistributed self tag) _ h1 λ redistributed at_redistributed h2.
            >>=-then (get_total self tag) _ h2 λ total at_total h3.
              >>=-then (get_hchf_in_stability_pool self tag) _ h3 λ pool at_pool h4.
                >>=-then (get_total_staked_hlqt self tag) _ h4 λ staked at_staked h5.
                  >>=-then (get_total_staked_uni_tokens self tag) _ h5 λ uni at_uni h6.
                    >>=-then (get_remaining_stability_pool_hlqt_reward self tag) _ h6
                      λ reward at_reward h7.
                        >>=-then (get_remaining_liquidity_mining_hlqt_reward self tag) _ h7
                          λ mining at_mining h8.
                            let same = ok_inj h8 in
                            record {
                              price_read = at_price ∙ ap (λ g. ok g.price) same;
                              total_read = at_total ∙ ap (λ g. ok g.total) same;
                              redistributed_read =
                                  at_redistributed ∙ ap (λ g. ok g.total_redistributed) same;
                            }

    base-Fetched :
        (global : GlobalValues) (fees : Fees) (tokens : TokenAssociations)
        (frontend : FrontendStatus) (user : UserValues) (base : Whole)
        → global_values self network tag ≡ ok global
        → fees_in_normal_mode self network tag ≡ ok fees
        → user_values self network tag ≡ ok user
        → base_state self network fresh global fees tokens frontend user ≡ base
        → Fetched base
    unfolding base_state
    base-Fetched global fees tokens frontend user base at_global at_fees at_user same =
        let shared = global-Shared global at_global in
        record {
          at_price = shared.price_read ∙ ap (λ b. ok b.price.content) same;
          at_total = shared.total_read ∙ ap (λ b. ok b.total.content) same;
          at_redistributed =
              shared.redistributed_read ∙ ap (λ b. ok b.total_redistributed.content) same;
          at_fees = at_fees ∙ ap (λ b. ok b.fees_in_normal_mode.content) same;
          values = user;
          at_user = at_user;
          same_trove = sym (ap (λ b. b.trove_before_redistribution.content) same);
        }

    pub fetch_inv :
        (base : Whole) → fetch_store_values self network fresh tag ≡ ok base → Fetched base
    unfolding fetch_store_values
    fetch_inv base h = >>=-then (global_values self network tag) _ h λ global at_global h0.
        >>=-then (fees_in_normal_mode self network tag) _ h0 λ fees at_fees h1.
          >>=-then (token_associations self network) _ h1 λ tokens at_tokens h2.
            >>=-then (frontend_values self network tag) _ h2 λ frontend at_frontend h3.
              >>=-then (user_values self network tag) _ h3 λ user at_user h4.
                base-Fetched global fees tokens frontend user base at_global at_fees at_user
                  (ok_inj h4)

  -- The Trove of the user's values is the one that was read.
  pub user_trove_inv :
      (network : Network) (owner : Address) (user : UserValues)
      → values_of_user self network owner tag ≡ ok user
      → get_trove_before_redistribution self (some owner) tag ≡ ok user.trove_before_redistribution
  unfolding values_of_user
  user_trove_inv network owner user h =
      >>=-then (get_account_balance self network owner tag) _ h λ v0 at0 h0.
        >>=-then (get_hchf_balance self (some owner) tag) _ h0 λ v1 at1 h1.
          >>=-then (get_hchf_token_address self tag) _ h1 λ v2 at2 h2.
            >>=-then (get_hlqt_token_address self tag) _ h2 λ v3 at3 h3.
              >>=-then (get_hlqt_balance self (some owner) tag) _ h3 λ v4 at4 h4.
                >>=-then (get_uni_token_balance self (some owner) tag) _ h4 λ v5 at5 h5.
                  >>=-then (get_uni_token_allowance self (some owner) tag) _ h5 λ v6 at6 h6.
                    >>=-then (get_liquidity_mining_stake self (some owner) tag) _ h6 λ v7 at7 h7.
                      >>=-then (get_liquidity_mining_hlqt_reward self (some owner) tag) _ h7
                        λ v8 at8 h8.
                          >>=-then (get_collateral_surplus_balance self (some owner) tag) _ h8
                            λ v9 at9 h9.
                              >>=-then (get_trove_before_redistribution self (some owner) tag) _ h9
                                λ v10 at10 h10.
                                  >>=-then (get_stability_deposit self (some owner) tag) _ h10
                                    λ v11 at11 h11.
                                      >>=-then (get_hlqt_stake self (some owner) tag) _ h11
                                        λ v12 at12 h12.
                                          >>=-then (get_frontend_status self (some owner) tag) _ h12
                                            λ v13 at13 h13.
                                              >>=-then
                                                (get_hchf_token_allowance_of_hchf_contract self
                                                  (some owner) tag)
                                                _ h13
                                                λ v14 at14 h14.
                                                  >>=-then
                                                    (get_hlqt_token_allowance_of_hlqt_contract self
                                                      (some owner) tag)
                                                    _ h14
                                                    λ v15 at15 h15.
                                                      at10
                                                      ∙ ap (λ u. ok u.trove_before_redistribution)
                                                          (ok_inj h15)
