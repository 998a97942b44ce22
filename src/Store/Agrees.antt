-- ===== src/Store/Agrees.antt =====
-- `_reduceDerived` of packages/lib-base/src/HLiquityStore.ts: values follow the derivation, and
-- objects stay as they are where their values do.
use hliquity.Base.{◌≡◌, Bool, true, some, arith, Bool-cases, inl, inr}
use hliquity.Decimal
use hliquity.Decimal.{Decimal}
use hliquity.Fees
use hliquity.Fees.{Fees}
use hliquity.Trove.User
use hliquity.Trove.User.{UserTrove}
use hliquity.Store.State.{Obj, by_value, strict_equals_boolean, update_if_changed}
use hliquity.Store.Derive.{DerivedState, update_fees, reduce_derived}
use hliquity.Store.Identity.{fees_refl, user_trove_refl}

-- A derived state has the values of another one, by the comparisons of the store.
pub record Agrees (d u : DerivedState) : Type 0 where
  pub fees : Fees.equals u.fees.content d.fees.content ≡ true
  pub trove : User.equals d.trove.content u.trove.content ≡ true
  pub borrowing_rate : d.borrowing_rate.content ≡ u.borrowing_rate.content
  pub redemption_rate : d.redemption_rate.content ≡ u.redemption_rate.content
  pub undercollateralized : d.have_undercollateralized_troves ≡ u.have_undercollateralized_troves

module _ (prev next : Obj Decimal) where
  rate_follows : (update_if_changed (by_value Decimal.eq) prev (some next)).content ≡ next.content
  unfolding update_if_changed Decimal.eq
  rate_follows = ground arith

  rate_stays :
      prev.content ≡ next.content → update_if_changed (by_value Decimal.eq) prev (some next) ≡ prev
  unfolding update_if_changed Decimal.eq
  rate_stays h = ground arith

fees_follow :
    (prev next : Obj Fees) → Fees.equals next.content (update_fees prev next).content ≡ true
unfolding update_fees
fees_follow prev next = elim (Bool-cases (Fees.equals next.content prev.content)) [
  | inl same ↦ rw same same
  | inr other ↦ rw other (fees_refl next.content)
]

trove_follows :
    (prev next : Obj UserTrove)
    → User.equals (update_if_changed (by_value User.equals) prev (some next)).content next.content
      ≡ true
unfolding update_if_changed
trove_follows prev next = elim (Bool-cases (User.equals prev.content next.content)) [
  | inl same ↦ rw same same
  | inr other ↦ rw other (user_trove_refl next.content)
]

boolean_follows :
    (prev next : Bool) → update_if_changed strict_equals_boolean prev (some next) ≡ next
unfolding update_if_changed
boolean_follows prev next = ground arith

-- Whatever the old derived state, the reduced one has the values of the new derivation.
pub reduce_derived-Agrees : (d u : DerivedState) → Agrees (reduce_derived d u) u
unfolding reduce_derived
reduce_derived-Agrees d u = record {
  fees = fees_follow d.fees u.fees;
  trove = trove_follows d.trove u.trove;
  borrowing_rate = rate_follows d.borrowing_rate u.borrowing_rate;
  redemption_rate = rate_follows d.redemption_rate u.redemption_rate;
  undercollateralized =
      boolean_follows d.have_undercollateralized_troves u.have_undercollateralized_troves;
}

-- A derivation of the same values leaves the very same derived state.
pub reduce_derived_same : (d u : DerivedState) → Agrees d u → reduce_derived d u ≡ d
unfolding reduce_derived update_fees update_if_changed Decimal.eq
reduce_derived_same d u h = ground arith
