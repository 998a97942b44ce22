-- ===== src/Trove/Recreate.antt =====
-- `create` and `recreate` of packages/lib-base/src/Trove.ts undo each other.
use hliquity.Base.{◌-◌, ◌≤◌, ◌≡◌, refl, false, Option, none, some, [], ◌∷◌, ok, arith}
use hliquity.Decimal
use hliquity.Decimal.{Decimal}
use hliquity.Decimal.BigText.{BigText}
use hliquity.Decimal.Text.{Decimalish, decimal}
use hliquity.Decimal.Text
use hliquity.Trove.Params.{TroveCreationParams}
use hliquity.Trove.Defs.{Trove, empty, equals, is_empty}
use hliquity.Trove.Change.{apply, apply_fee, unapply_fee, rate_or_minimum, what_changed}
use hliquity.Trove.Adjustment.{Reaches}
use hliquity.Trove.RoundTrip.{created_debt, what_created_valid}
use hliquity.Trove.Normalize.{
  Entries, defined, check_allowed_keys, decimalize, property, bad_keys, normalize_trove_creation,
  create, recreate, trove_creation_params_from_entries,
}

-- The object that `recreate` returns, as `create` takes it.
abbrev pub creation_entries : TroveCreationParams Decimal → Entries (Option Decimalish)
creation_entries p =
    ("depositCollateral", some (decimal p.deposit_collateral))
    ∷ ("borrowHCHF", some (decimal p.borrow_hchf))
    ∷ []

rate_same_constants :
    (t : Trove) (rate : Option Decimal)
    → rate_or_minimum (empty t.constants) rate ≡ rate_or_minimum t rate
rate_same_constants t none = refl
rate_same_constants t (some r) = refl

module _ (big : BigText) where
  pub normalize_creation_entries :
      (p : TroveCreationParams Decimal) → normalize_trove_creation big (creation_entries p) ≡ ok p
  unfolding normalize_trove_creation defined check_allowed_keys bad_keys decimalize Text.from
      trove_creation_params_from_entries property
  normalize_creation_entries p = refl

  -- For a Trove that is not empty, whose debt covers the liquidation reserve, and a rate of at most
  -- 100%: `recreate` returns parameters with which `create` makes a Trove with the same collateral,
  -- and with the same debt or one unit more.
  pub create-recreate :
      (that : Trove) (rate : Option Decimal)
      → equals (empty that.constants) that ≡ false
      → that.constants.hchf_liquidation_reserve ≤ that.debt
      → rate_or_minimum that rate ≤ Decimal.one
      → (p : TroveCreationParams Decimal) × (t : Trove) × (recreate that rate ≡ ok p)
        × (create big that.constants (creation_entries p) rate ≡ ok t)
        × Reaches (empty that.constants) that t
  unfolding recreate create what_changed apply equals is_empty Decimal.is_zero
  create-recreate that rate filled covered fee =
      let r = rate_or_minimum (empty that.constants) rate in
      let reserve = that.constants.hchf_liquidation_reserve in
      let fee' : r ≤ Decimal.one = omega (arith, rate_same_constants that rate) in
      let p : TroveCreationParams Decimal = record {
        deposit_collateral = that.collateral;
        borrow_hchf = unapply_fee r (that.debt - reserve);
      } in
      let (lo, hi, exact) = created_debt reserve r that.debt 0 fee' covered refl in
      (
        p,
        record {
          constants = that.constants;
          collateral = that.collateral;
          debt = Decimal.add reserve (apply_fee r (unapply_fee r (that.debt - reserve)));
        },
        rw (filled, what_created_valid (empty that.constants) that r reserve refl refl covered)
            refl,
        rw (normalize_creation_entries p) refl,
        record { same_collateral = refl; enough_debt = lo; rounded_debt = hi; exact_debt = exact },
      )
