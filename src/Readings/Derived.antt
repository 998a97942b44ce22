-- ===== src/Readings/Derived.antt =====
-- What the store derives from a fetch of packages/lib-hashgraph/src/HashgraphLiquity.ts, against the
-- readings.
use text.Mathlib.Text.{◌==◌ as str_eq}
use hliquity.Base.{ℕ, ◌≡◌, refl, sym, ap, ◌∙◌, false, none, some, ok, ◌>>=◌, >>=-then}
use hliquity.Fees
use hliquity.Fees.{Fees, set_recovery_mode}
use hliquity.Trove.Defs.{collateral_ratio_is_below_critical}
use hliquity.Trove.User.{apply_redistribution}
use hliquity.Store.State.{Whole}
use hliquity.Store.Derive.{DerivedState, derive}
use hliquity.Readings.Contracts.{
  Tag, HashgraphLiquity, get_total_redistributed, get_trove_before_redistribution,
}
use hliquity.Readings.Contracts.Others.{get_fees}
use hliquity.Readings.FetchStore.{Network, fetch_store_values, user_values, values_of_user}
use hliquity.Readings.Laws.{ok_inj, fetch_inv, user_trove_inv, get_fees_mode}

-- What a successful derivation has computed.
record Derived (base : Whole) (derived : DerivedState) : Type 0 where
  mode_set :
      set_recovery_mode base.fees_in_normal_mode.content
        (collateral_ratio_is_below_critical base.total.content base.price.content)
      ≡ ok derived.fees.content
  applied :
      apply_redistribution base.trove_before_redistribution.content base.total_redistributed.content
      ≡ ok derived.trove.content

derive_inv :
    (next : ℕ) (base : Whole) (derived : DerivedState)
    → derive next base ≡ ok derived
    → Derived base derived
unfolding derive
derive_inv next base derived h =
    let recovery = collateral_ratio_is_below_critical base.total.content base.price.content in
    >>=-then (set_recovery_mode base.fees_in_normal_mode.content recovery) _ h λ fees at_fees h0.
      >>=-then
        (apply_redistribution base.trove_before_redistribution.content
          base.total_redistributed.content)
        _ h0
        λ trove at_trove h1.
          >>=-then (Fees.borrowing_rate fees none) _ h1 λ borrowing at_borrowing h2.
            >>=-then (Fees.redemption_rate fees 0 none) _ h2 λ redemption at_redemption h3.
              >>=-then
                (apply_redistribution base.riskiest_trove_before_redistribution.content
                  base.total_redistributed.content)
                _ h3
                λ riskiest at_riskiest h4.
                  let same = ok_inj h4 in
                  record {
                    mode_set = at_fees ∙ ap (λ d. ok d.fees.content) same;
                    applied = at_trove ∙ ap (λ d. ok d.trove.content) same;
                  }

module _ (self : HashgraphLiquity) (tag : Tag) (network : Network) where
  user_values_known :
      str_eq self.user_account_address "" ≡ false
      → user_values self network tag ≡ values_of_user self network self.user_account_address tag
  unfolding user_values
  user_values_known known = rw known refl

  -- What a successful fetch puts into the store and the store derives from it is what the readings
  -- at the same block say: the fees in the mode of the total, and the user's Trove with what was
  -- redistributed to it.
  pub derive_reads :
      (fresh next : ℕ) (base : Whole) (derived : DerivedState)
      → str_eq self.user_account_address "" ≡ false
      → fetch_store_values self network fresh tag ≡ ok base
      → derive next base ≡ ok derived
      → (get_fees self tag ≡ ok derived.fees.content)
        × ((get_trove_before_redistribution self (some self.user_account_address) tag >>= λ trove.
              get_total_redistributed self tag >>= λ total. apply_redistribution trove total)
            ≡ ok derived.trove.content)
  derive_reads fresh next base derived known fetched h =
      let read = fetch_inv self tag network fresh base fetched in
      let made = derive_inv next base derived h in
      let trove =
        user_trove_inv self tag network self.user_account_address read.values
          (sym (user_values_known known) ∙ read.at_user) in
      (
        get_fees_mode self tag read.at_total read.at_price network read.at_fees ∙ made.mode_set,
        rw (trove, ← read.same_trove, read.at_redistributed) made.applied,
      )
