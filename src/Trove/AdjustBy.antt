-- ===== src/Trove/AdjustBy.antt =====
-- `adjust` of packages/lib-base/src/Trove.ts, by up to four amounts.
use hliquity.Base.{
  ◌+◌, ◌-◌, ◌<◌, ◌≡◌, refl, ◌⊎◌, Option, none, some, [], ◌∷◌, ok, err, Error, ◌>>=◌, arith, ◌↔◌,
  zero, suc,
}
use hliquity.Decimal
use hliquity.Decimal.{Decimal}
use hliquity.Decimal.BigText.{BigText}
use hliquity.Decimal.Text.{Decimalish, decimal}
use hliquity.Decimal.Text
use hliquity.Trove.Params
use hliquity.Trove.Params.{
  TroveCreationParams, TroveAdjustmentParams, CollateralChange, DebtChange, deposited, withdrawn,
  borrowed, repaid,
}
use hliquity.Trove.Laws.{subtract_lem}
use hliquity.Trove.Defs
use hliquity.Trove.Defs.{Trove, empty, equals, is_empty}
use hliquity.Trove.Change
use hliquity.Trove.Change.{
  TroveChange, apply, apply_fee, unapply_fee, rate_or_minimum, what_changed, or_zero,
  increase_with_fee,
}
use hliquity.Trove.Normalize.{
  Entries, defined, check_allowed_keys, decimalize, non_zero, property, bad_keys,
  normalize_trove_adjustment, adjust, collateral_change_from, debt_change_from,
  adjustment_params_from, trove_adjustment_params_from_entries,
}

-- An object with all four properties of an adjustment.
abbrev pub adjustment_entries : Decimal → Decimal → Decimal → Decimal → Entries (Option Decimalish)
adjustment_entries deposit withdraw borrow repay =
    ("depositCollateral", some (decimal deposit))
    ∷ ("withdrawCollateral", some (decimal withdraw))
    ∷ ("borrowHCHF", some (decimal borrow))
    ∷ ("repayHCHF", some (decimal repay))
    ∷ []

-- What the four amounts stand for.
collateral_found :
    (d w : Decimal)
    → (d ≡ 0) ⊎ (w ≡ 0)
    → (c : Option (CollateralChange Decimal)) × (collateral_change_from
          (Decimal.non_zero d)
          (Decimal.non_zero w)
        ≡ ok c)
      × (or_zero (deposited c) ≡ d)
      × (or_zero (withdrawn c) ≡ w)
      × ((c ≡ none) ↔ (d + w ≡ 0))
unfolding Decimal.non_zero Decimal.is_zero
collateral_found zero zero h = (none, refl, refl, refl, (λ e. refl, λ e. refl))
collateral_found (suc d) zero h = (
  some (CollateralChange.deposit_collateral (suc d)),
  ground arith,
  refl,
  refl,
  (λ e. cc, λ e. absurd (omega arith)),
)
collateral_found zero (suc w) h = (
  some (CollateralChange.withdraw_collateral (suc w)),
  ground arith,
  refl,
  refl,
  (λ e. cc, λ e. absurd (omega arith)),
)
collateral_found (suc d) (suc w) h = absurd (ground arith)

debt_found :
    (rate b r : Decimal)
    → (b ≡ 0) ⊎ (r ≡ 0)
    → (e : Option (DebtChange Decimal)) × (debt_change_from
          (Decimal.non_zero b)
          (Decimal.non_zero r)
        ≡ ok e)
      × (increase_with_fee rate (borrowed e) ≡ apply_fee rate b)
      × (or_zero (repaid e) ≡ r)
      × ((e ≡ none) ↔ (b + r ≡ 0))
unfolding Decimal.non_zero Decimal.is_zero apply_fee Decimal.mul
debt_found rate zero zero h = (none, refl, omega arith, refl, (λ e. refl, λ e. refl))
debt_found rate (suc b) zero h = (
  some (DebtChange.borrow_hchf (suc b)),
  ground arith,
  refl,
  refl,
  (λ e. cc, λ e. absurd (omega arith)),
)
debt_found rate zero (suc r) h = (
  some (DebtChange.repay_hchf (suc r)),
  ground arith,
  omega arith,
  refl,
  (λ e. cc, λ e. absurd (omega arith)),
)
debt_found rate (suc b) (suc r) h = absurd (ground arith)

-- The Trove after the changes.
unfoldable pub after :
    Trove → Option (CollateralChange Decimal) → Option (DebtChange Decimal) → Decimal → Trove
after t c e rate = record t {
  collateral = t.collateral + or_zero (deposited c) - or_zero (withdrawn c);
  debt = t.debt + increase_with_fee rate (borrowed e) - or_zero (repaid e);
}

pub apply_params :
    (t : Trove) (p : TroveAdjustmentParams Decimal) (rate : Option Decimal)
    → apply t (some (TroveChange.adjustment p none)) rate
      ≡ ok (after t (Params.collateral_change p) (Params.debt_change p) (rate_or_minimum t rate))
unfolding apply Change.apply_adjustment after Defs.add Decimal.add
apply_params t p rate = rw subtract_lem refl

apply_found :
    (t : Trove) (c : Option (CollateralChange Decimal)) (e : Option (DebtChange Decimal))
    (rate : Option Decimal)
    → ¬ ((c ≡ none) × (e ≡ none))
    → (adjustment_params_from c e >>= λ p. apply t (some (TroveChange.adjustment p none)) rate)
      ≡ ok (after t c e (rate_or_minimum t rate))
apply_found t none none rate h = absurd (h (refl, refl))
apply_found t (some c) none rate h = apply_params t (Params.collateral_only c) rate
apply_found t none (some e) rate h = apply_params t (Params.debt_only e) rate
apply_found t (some c) (some e) rate h = apply_params t (Params.both c e) rate

module _ (big : BigText) where
  -- A property that is zero counts as missing.
  normalize_adjustment_entries :
      (d w b r : Decimal)
      → normalize_trove_adjustment big (adjustment_entries d w b r) ≡ (
          collateral_change_from (Decimal.non_zero d) (Decimal.non_zero w) >>= λ collateral.
          debt_change_from (Decimal.non_zero b) (Decimal.non_zero r) >>= λ debt.
          adjustment_params_from collateral debt)
  unfolding normalize_trove_adjustment defined check_allowed_keys bad_keys decimalize Text.from
      non_zero trove_adjustment_params_from_entries property Decimal.non_zero Decimal.is_zero
  normalize_adjustment_entries d w b r = ground arith

  -- An adjustment by four amounts, of which those that are zero count as missing, deposits or
  -- withdraws collateral and borrows with the fee or repays debt, and stops at zero. It is defined
  -- if it does not do both to the collateral nor both to the debt, and does anything at all.
  pub adjust_lem :
      (t : Trove) (d w b r : Decimal) (rate : Option Decimal)
      → (d ≡ 0) ⊎ (w ≡ 0)
      → (b ≡ 0) ⊎ (r ≡ 0)
      → 0 < d + w + b + r
      → adjust big t (adjustment_entries d w b r) rate
        ≡ ok (record t {
          collateral = t.collateral + d - w;
          debt = t.debt + apply_fee (rate_or_minimum t rate) b - r;
        })
  unfolding adjust
  adjust_lem t d w b r rate one_collateral one_debt some_change =
      let (c, found_c, d', w', no_c) = collateral_found d w one_collateral in
      let (e, found_e, b', r', no_e) = debt_found (rate_or_minimum t rate) b r one_debt in
      let some_found : ¬ ((c ≡ none) × (e ≡ none)) =
        λ (nc, ne). let p = no_c.0 nc in let q = no_e.0 ne in omega arith in
      rw (normalize_adjustment_entries d w b r, found_c, found_e, apply_found t c e rate some_found)
        (unfold after in rw (d', w', b', r') refl)

  -- Depositing and withdrawing at once throws, whatever the change of the debt.
  pub adjust_conflict :
      (t : Trove) (d w b r : Decimal) (rate : Option Decimal)
      → 0 < d
      → 0 < w
      → adjust big t (adjustment_entries d w b r) rate ≡ err Error.collateral_changes_conflict
  unfolding adjust Decimal.non_zero Decimal.is_zero
  adjust_conflict t d w b r rate hd hw = rw normalize_adjustment_entries (ground arith)
