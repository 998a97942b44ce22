-- ===== src/Borrowing.antt =====
-- packages/dev-frontend/src/hooks/useFee.ts and packages/dev-frontend/src/hooks/useMaxNetDebt.ts: the
-- fee of a debt, and the largest debt that a collateral carries. The selected state is an argument.
mod Tests
use native.Mathlib.Nat.{div-mul-le_self, mul-le-mul_right, mul-le-mul_left, le-div_iff_mul-le}
use hliquity.Base.{
  ℕ, zero, suc, ◌⊎◌, inl, inr, ◌+◌, ◌-◌, ◌*◌, ◌/◌, ◌≤◌, ◌<◌, ◌≡◌, refl, false, true, Option, none,
  some, Result, ok, ◌>>=◌, if◌then◌else◌, arith, leb, ltb, le→ltb, Bool-cases, inl, inr,
}
use hliquity.Decimal
use hliquity.Decimal.{Decimal}
use hliquity.Decimal.Arith.{mul_mono, div_rounds_down, mul_rounds_down}
use hliquity.Decimal.BigText.{BigText}
use hliquity.Constants.{Constants}
use hliquity.Trove.Params.{TroveCreationParams}
use hliquity.Trove.Defs
use hliquity.Trove.Defs.{Trove, collateral_ratio, collateral_ratio_is_below_minimum, is_empty}
use hliquity.Trove.Change
use hliquity.Trove.Change.{apply_fee}
use hliquity.Trove.Normalize.{create}
use hliquity.Trove.Recreate.{creation_entries, normalize_creation_entries}

-- Reducing debt is free.
unfoldable pub get_fee : Decimal → Decimal → Decimal → Result Decimal
unfolding Decimal.lte Decimal.sub Decimal.mul
get_fee borrowing_rate total_debt previous_total_debt =
    if Decimal.lte total_debt previous_total_debt then ok 0 else (do
      increase ← Decimal.sub total_debt previous_total_debt
      ok (Decimal.mul increase borrowing_rate))

-- The largest total debt of a collateral at a price.
unfoldable pub max_total_debt : Constants → Decimal → Decimal → Decimal
unfolding Decimal.mul Decimal.div
max_total_debt constants collateral price =
    Decimal.div (Decimal.mul collateral price) constants.minimum_collateral_ratio

-- The net debt that a total debt leaves after the reserve and a fee.
unfoldable pub net_of : Constants → Decimal → Decimal → Result Decimal
unfolding Decimal.lt Decimal.add Decimal.sub
net_of constants max_total fee =
    if Decimal.lt max_total (Decimal.add constants.hchf_liquidation_reserve fee) then ok 0 else (do
      without_reserve ← Decimal.sub max_total constants.hchf_liquidation_reserve
      Decimal.sub without_reserve fee)

-- `useMaxNetDebt`, with the price and the borrowing rate that are selected.
unfoldable pub max_net_debt :
    Constants
    → (price borrowing_rate : Decimal) → (collateral previous_debt : Decimal) → Result Decimal
unfolding get_fee max_total_debt net_of
max_net_debt constants price borrowing_rate collateral previous_debt = do
  fee ← get_fee borrowing_rate (max_total_debt constants collateral price) previous_debt
  net_of constants (max_total_debt constants collateral price) fee

get_fee_lem :
    (rate total previous : Decimal)
    → get_fee rate total previous ≡ ok (Decimal.mul (total - previous) rate)
unfolding get_fee Decimal.mul
get_fee_lem rate total previous = ground arith

get_fee_new : (rate total : Decimal) → get_fee rate total 0 ≡ ok (Decimal.mul total rate)
unfolding get_fee Decimal.mul
get_fee_new rate total = ground arith

-- What net_of gives, without the guards of the subtractions.
net : Constants → Decimal → Decimal → Decimal
net constants max_total fee = max_total - constants.hchf_liquidation_reserve - fee

net_of_lem :
    (constants : Constants) (max_total fee : Decimal)
    → net_of constants max_total fee ≡ ok (net constants max_total fee)
unfolding net_of net
net_of_lem constants max_total fee = ground arith

-- The new Trove of an amount.
created : Constants → Decimal → Decimal → Decimal → Trove
created constants collateral rate amount = record {
  constants = constants;
  collateral = collateral;
  debt = Decimal.add constants.hchf_liquidation_reserve (apply_fee rate amount);
}

-- A Trove whose debt is at most the largest total debt is not below the minimum ratio.
ratio_fine :
    (constants : Constants) (collateral price debt : Decimal)
    → 0 < debt
    → 0 < constants.minimum_collateral_ratio
    → debt ≤ max_total_debt constants collateral price
    → constants.minimum_collateral_ratio ≤ Decimal.mul_div collateral price debt
unfolding max_total_debt Decimal.mul_div
ratio_fine constants collateral price debt positive ratio h =
    let m = constants.minimum_collateral_ratio in
    let value = Decimal.mul collateral price in
    let worth = (mul_rounds_down collateral price).0 in
    let largest = (div_rounds_down value m ratio).0 in
    let carried = mul-le-mul_right m h in
    let covers : m * debt ≤ collateral * price = omega (arith, worth, largest, carried) in
    ground
      (arith, (le-div_iff_mul-le {k = debt} {x = m} {y = collateral * price} positive).1 covers)

max_net_debt_new :
    (constants : Constants) (price rate collateral : Decimal)
    → let total = max_total_debt constants collateral price in
      max_net_debt constants price rate collateral 0
      ≡ ok (net constants total (Decimal.mul total rate))
unfolding max_net_debt
max_net_debt_new constants price rate collateral =
    let total = max_total_debt constants collateral price in
    rw (get_fee_new rate total) (net_of_lem constants total (Decimal.mul total rate))

creates :
    (big : BigText) (constants : Constants) (collateral rate amount : Decimal)
    → create big constants
        (creation_entries (record { deposit_collateral = collateral; borrow_hchf = amount }))
        (some rate)
      ≡ ok (created constants collateral rate amount)
unfolding create created Change.apply is_empty Decimal.is_zero
creates big constants collateral rate amount =
    let params : TroveCreationParams Decimal = record {
      deposit_collateral = collateral;
      borrow_hchf = amount;
    } in
    rw (normalize_creation_entries big params) refl

-- A debt with its fee.
with_fee : (rate amount : Decimal) → apply_fee rate amount ≡ amount + Decimal.mul amount rate
unfolding apply_fee Decimal.mul Decimal.add
with_fee rate amount = omega arith

-- The fee of the net debt is at most the fee of the total.
debt_fits :
    (reserve total rate amount : Decimal)
    → amount ≡ total - reserve - Decimal.mul total rate
    → 0 < amount
    → (0 < reserve + apply_fee rate amount) × (reserve + apply_fee rate amount ≤ total)
debt_fits reserve total rate amount e positive =
    let smaller = mul_mono rate amount total (omega arith) in
    rw (with_fee rate amount) (omega arith, omega (arith, smaller))

created_fine :
    (constants : Constants) (collateral price rate : Decimal)
    → 0 < constants.minimum_collateral_ratio
    → let total = max_total_debt constants collateral price in
      0 < net constants total (Decimal.mul total rate)
      → collateral_ratio_is_below_minimum
          (created constants collateral rate (net constants total (Decimal.mul total rate)))
          price
        ≡ false
unfolding created net collateral_ratio_is_below_minimum collateral_ratio Decimal.lt Decimal.add
created_fine constants collateral price rate ratio positive =
    let total = max_total_debt constants collateral price in
    let fits = debt_fits constants.hchf_liquidation_reserve total rate _ refl positive in
    le→ltb _ _ (ratio_fine constants collateral price _ fits.0 ratio fits.1)

zero_or_positive : (n : ℕ) → (n ≡ 0) ⊎ (0 < n)
zero_or_positive zero = inl refl
zero_or_positive (suc n) = inr (omega arith)

-- Where the minimum collateral ratio is positive, the largest net debt of a new Trove is always
-- computed. It is zero, or borrowing it is safe: `create` makes of it and the collateral a Trove
-- whose collateral ratio at the price is not below the minimum, with its fee and reserve.
pub max_net_debt_safe :
    (big : BigText) (constants : Constants) (price rate collateral : Decimal)
    → 0 < constants.minimum_collateral_ratio
    → (amount : Decimal) × (max_net_debt constants price rate collateral 0 ≡ ok amount)
      × ((amount ≡ 0)
          ⊎ ((0 < amount)
              × ((trove : Trove) × (create big constants
                      (creation_entries
                        (record { deposit_collateral = collateral; borrow_hchf = amount }))
                      (some rate)
                    ≡ ok trove)
                  × (collateral_ratio_is_below_minimum trove price ≡ false))))
max_net_debt_safe big constants price rate collateral ratio =
    let total = max_total_debt constants collateral price in
    let amount = net constants total (Decimal.mul total rate) in
    (
      amount,
      max_net_debt_new constants price rate collateral,
      elim (zero_or_positive amount) [
        | inl nothing ↦ inl nothing
        | inr positive ↦ inr (
          positive,
          (
            created constants collateral rate amount,
            creates big constants collateral rate amount,
            created_fine constants collateral price rate ratio positive,
          ),
        )
      ],
    )
