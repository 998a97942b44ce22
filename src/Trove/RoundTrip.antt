-- ===== src/Trove/RoundTrip.antt =====
-- `whatChanged` and `apply` of packages/lib-base/src/Trove.ts undo each other.
use hliquity.Base.{
  ◌+◌, ◌-◌, ◌≤◌, ◌<◌, ◌≡◌, refl, true, false, Option, none, some, ok, err, Error, arith, ltb,
  ltb→lt, ltb→le, sym, ap, Bool-cases, inl, inr, ◌⊎◌,
}
use hliquity.Decimal
use hliquity.Decimal.{Decimal}
use hliquity.Constants.{Constants}
use hliquity.Trove.Params.{missing_liquidation_reserve}
use hliquity.Trove.Defs.{Trove, empty, is_empty, equals}
use hliquity.Trove.Laws.{net_debt_le, net_debt_lt}
use hliquity.Trove.Rounding.{apply_fee-unapply_fee, apply_fee-unapply_fee_zero}
use hliquity.Trove.Adjustment.{
  Reaches, adjusted, adjusted-Reaches, adjustment_params, adjustment_zero, what_adjusted_lem,
  apply_adjustment_lem,
}
use hliquity.Trove.Change.{
  TroveChange, apply_fee, unapply_fee, rate_or_minimum, what_created, what_closed, what_changed,
  apply,
}

-- The change from `t` to `that` is defined, and applying it to `t` leads to `that`.
abbrev pub RoundTrips : Trove → Trove → Option Decimal → Type 0
RoundTrips t that rate =
    (change : Option TroveChange) × (t' : Trove) × (what_changed t that rate ≡ ok change)
    × (apply t change rate ≡ ok t')
    × Reaches t that t'

-- A Trove is closed only if its debt covers the liquidation reserve.
abbrev pub Closable : Trove → Trove → Type 0
Closable t that =
    is_empty that ≡ true → is_empty t ≡ false → t.constants.hchf_liquidation_reserve ≤ t.debt

what_created_invalid :
    (t that : Trove) (rate : Decimal)
    → that.debt < t.constants.hchf_liquidation_reserve
    → what_created t that rate ≡ ok (TroveChange.invalid_creation that missing_liquidation_reserve)
unfolding what_created
what_created_invalid t that rate h = ground arith

pub what_created_valid :
    (t that : Trove) (rate reserve : Decimal)
    → reserve ≡ t.constants.hchf_liquidation_reserve
    → reserve ≡ that.constants.hchf_liquidation_reserve
    → reserve ≤ that.debt
    → what_created t that rate
      ≡ ok (
          TroveChange.creation (record {
            deposit_collateral = that.collateral;
            borrow_hchf = unapply_fee rate (that.debt - reserve);
          }))
unfolding what_created
what_created_valid t that rate reserve e e' h = ground (arith, net_debt_le that)

refused-RoundTrips :
    (t that : Trove) (rate : Option Decimal)
    → equals t that ≡ false
    → is_empty t ≡ true
    → that.debt < t.constants.hchf_liquidation_reserve
    → RoundTrips t that rate
unfolding what_changed equals apply
refused-RoundTrips t that rate differ start short = (
  some (TroveChange.invalid_creation that missing_liquidation_reserve),
  that,
  rw (differ, start, what_created_invalid t that (rate_or_minimum t rate) short) refl,
  rw start refl,
  omega arith,
)

-- The debt of a created Trove.
pub created_debt :
    (reserve rate debt old : Decimal)
    → rate ≤ Decimal.one
    → reserve ≤ debt
    → old ≡ 0
    → let d = Decimal.add reserve (apply_fee rate (unapply_fee rate (debt - reserve))) in
      (debt ≤ d) × (d ≤ debt + 1) × ((old < debt) ⊎ (d ≡ debt))
unfolding Decimal.add
created_debt reserve rate debt old fee covered none_yet =
    let (lo, hi) = apply_fee-unapply_fee rate (debt - reserve) fee in
    (
      omega arith,
      omega arith,
      elim (Bool-cases (ltb old debt)) [
        | inl grows ↦ inl (ltb→lt _ _ grows)
        | inr stays ↦
            let le = ltb→le _ _ stays in
            let gone : debt - reserve ≡ 0 = omega arith in
            inr (rw (gone, apply_fee-unapply_fee_zero) (omega arith))
      ],
    )

created-RoundTrips :
    (t that : Trove) (rate : Option Decimal)
    → that.constants ≡ t.constants
    → rate_or_minimum t rate ≤ Decimal.one
    → equals t that ≡ false
    → is_empty t ≡ true
    → t.constants.hchf_liquidation_reserve ≤ that.debt
    → RoundTrips t that rate
unfolding what_changed equals apply
created-RoundTrips t that rate same_constants fee differ start covered =
    let r = rate_or_minimum t rate in
    let reserve = t.constants.hchf_liquidation_reserve in
    let same = ap (λ (c : Constants). c.hchf_liquidation_reserve) (sym same_constants) in
    let none_yet : t.debt ≡ 0 = unfold is_empty in ground arith in
    let (lo, hi, exact) = created_debt reserve r that.debt t.debt fee covered none_yet in
    (
      some (
          TroveChange.creation (record {
            deposit_collateral = that.collateral;
            borrow_hchf = unapply_fee r (that.debt - reserve);
          })),
      record {
        constants = t.constants;
        collateral = that.collateral;
        debt = Decimal.add reserve (apply_fee r (unapply_fee r (that.debt - reserve)));
      },
      rw (differ, start, what_created_valid t that r reserve refl same covered) refl,
      rw start refl,
      record { same_collateral = refl; enough_debt = lo; rounded_debt = hi; exact_debt = exact },
    )

closed-RoundTrips :
    (t that : Trove) (rate : Option Decimal)
    → equals t that ≡ false
    → is_empty t ≡ false
    → is_empty that ≡ true
    → t.constants.hchf_liquidation_reserve ≤ t.debt
    → RoundTrips t that rate
unfolding what_changed equals apply what_closed
closed-RoundTrips t that rate differ open_ gone covered =
    let gone' : (that.collateral ≡ 0) × (that.debt ≡ 0) = unfold is_empty in ground arith in
    (
      some (
          TroveChange.closure (record {
            withdraw_collateral = t.collateral;
            repay_hchf = Decimal.non_zero (t.debt - t.constants.hchf_liquidation_reserve);
          })),
      empty t.constants,
      rw (differ, open_, gone, net_debt_le t covered) refl,
      rw open_ refl,
      omega arith,
    )

adjusted-RoundTrips :
    (t that : Trove) (rate : Option Decimal)
    → rate_or_minimum t rate ≤ Decimal.one
    → equals t that ≡ false
    → is_empty t ≡ false
    → is_empty that ≡ false
    → RoundTrips t that rate
unfolding what_changed apply equals
adjusted-RoundTrips t that rate fee differ open_ stays =
    let r = rate_or_minimum t rate in
    (
      some (TroveChange.adjustment (adjustment_params t that r) (adjustment_zero t that)),
      adjusted t (adjustment_params t that r) (adjustment_zero t that) r,
      rw (differ, open_, stays, what_adjusted_lem) refl,
      apply_adjustment_lem t (adjustment_params t that r) (adjustment_zero t that) r,
      adjusted-Reaches t that r fee,
    )

equal-RoundTrips :
    (t that : Trove) (rate : Option Decimal) → equals t that ≡ true → RoundTrips t that rate
unfolding what_changed apply equals
equal-RoundTrips t that rate same = (none, t, rw same refl, refl, ground arith)

-- Between two Troves of one deployment, at a borrowing rate of at most 100%, and where a Trove that
-- is closed has a debt that covers the liquidation reserve: `whatChanged` does not throw, `apply`
-- does not throw on its result, and it leads to a Trove with the collateral of the second and its
-- debt, or with one unit of debt more. Where the debt does not grow it is exactly the second's.
pub apply-what_changed :
    (t that : Trove) (rate : Option Decimal)
    → that.constants ≡ t.constants
    → rate_or_minimum t rate ≤ Decimal.one
    → Closable t that
    → RoundTrips t that rate
apply-what_changed t that rate same_constants fee closable = elim (Bool-cases (equals t that)) [
  | inl same ↦ equal-RoundTrips t that rate same
  | inr differ ↦ elim (Bool-cases (is_empty t)) [
    | inl start ↦ elim (Bool-cases (ltb that.debt t.constants.hchf_liquidation_reserve)) [
      | inl short ↦ refused-RoundTrips t that rate differ start (ltb→lt _ _ short)
      | inr covered ↦
          created-RoundTrips t that rate same_constants fee differ start (ltb→le _ _ covered)
    ]
    | inr open_ ↦ elim (Bool-cases (is_empty that)) [
      | inl gone ↦ closed-RoundTrips t that rate differ open_ gone (closable gone open_)
      | inr stays ↦ adjusted-RoundTrips t that rate fee differ open_ stays
    ]
  ]
]

-- Closing a Trove whose debt does not cover the liquidation reserve throws.
pub what_changed_uncovered :
    (t that : Trove) (rate : Option Decimal)
    → is_empty t ≡ false
    → is_empty that ≡ true
    → t.debt < t.constants.hchf_liquidation_reserve
    → what_changed t that rate ≡ err Error.net_debt_below_reserve
unfolding what_changed what_closed equals
what_changed_uncovered t that rate open_ gone short =
    let differ : equals t that ≡ false = unfold is_empty in ground arith in
    rw (differ, open_, gone, net_debt_lt t short) refl
