-- ===== src/Redemption/Details.antt =====
-- The fee, the payout and the slippage of packages/lib-base/src/redemptionDetails.ts.
use Prim.Native.Nat.{min}
use hliquity.Base.{
  ◌+◌, ◌-◌, ◌*◌, ◌≤◌, ◌<◌, ◌≡◌, refl, ◌∙◌, ◌⊎◌, none, some, ok, arith, ltb, if◌then◌else◌, ltb→lt,
  ltb→le, Bool-cases, inl, inr,
}
use hliquity.Decimal
use hliquity.Decimal.{Decimal}
use hliquity.Decimal.Arith.{mul-le_left, sub_le}
use hliquity.Percent.{new_percent, hundred}
use hliquity.Redemption.{
  Options, Progress, RedemptionDetails, details, get_redemption_details, start,
}
use hliquity.Redemption.Loop.{Covered, redeemable, count, consume_troves-Redeems}

-- A fraction of at most one is at most 100%.
pub new_percent-le : (ratio : Decimal) → ratio ≤ Decimal.one → (new_percent ratio).percent ≤ hundred
unfolding new_percent Decimal.mul Decimal.eq
new_percent-le ratio h = ground arith

-- The price per HCHF after the fee, over the target price.
pub ratio : Options → Progress → Decimal
ratio o s =
    Decimal.div
      (Decimal.div
        (s.received_hbar_before_fee - Decimal.mul s.received_hbar_before_fee o.redemption_fee)
        s.redeemed_hchf)
      (Decimal.div o.total_hbar o.total_hchf)

-- What the details of a finished loop say.
pub record Pays (o : Options) (s : Progress) (d : RedemptionDetails) : Type 0 where
  pub redeemed : d.redeemed_hchf ≡ s.redeemed_hchf
  pub split : d.received_hbar + d.redemption_fee_in_hbar ≡ s.received_hbar_before_fee
  pub fee : d.redemption_fee_in_hbar ≡ Decimal.mul s.received_hbar_before_fee o.redemption_fee
  pub slippage : d.slippage.percent ≤ hundred

details_found : Options → Progress → RedemptionDetails
details_found o s = record {
  redeemed_hchf = s.redeemed_hchf;
  received_hbar =
      s.received_hbar_before_fee - Decimal.mul s.received_hbar_before_fee o.redemption_fee;
  redemption_fee_in_hbar = Decimal.mul s.received_hbar_before_fee o.redemption_fee;
  slippage = new_percent (Decimal.one - ratio o s);
}

details_lem :
    (o : Options) (s : Progress)
    → o.redemption_fee ≤ Decimal.one
    → details o s ≡ ok (if ltb Decimal.one (ratio o s) then none else some (details_found o s))
unfolding details details_found ratio
details_lem o s h =
    rw (sub_le _ _ (mul-le_left s.received_hbar_before_fee o.redemption_fee h))
      (unfold Decimal.sub in ground arith)

details_found-Pays :
    (o : Options) (s : Progress) → o.redemption_fee ≤ Decimal.one → Pays o s (details_found o s)
unfolding details_found
details_found-Pays o s h =
    let le = mul-le_left s.received_hbar_before_fee o.redemption_fee h in
    record {
      redeemed = refl;
      split = omega arith;
      fee = refl;
      slippage = new_percent-le (Decimal.one - ratio o s) (omega arith);
    }

-- For a fee of at most 100% the details never throw. They are `null` exactly if the price per HCHF
-- after the fee exceeds the target; otherwise the payout and the fee add up to what the loop
-- received, and the slippage is at most 100%.
pub details_cases :
    (o : Options) (s : Progress)
    → o.redemption_fee ≤ Decimal.one
    → ((Decimal.one < ratio o s) × (details o s ≡ ok none))
      ⊎ ((ratio o s ≤ Decimal.one)
          × ((d : RedemptionDetails) × (details o s ≡ ok (some d)) × Pays o s d))
details_cases o s h = elim (Bool-cases (ltb Decimal.one (ratio o s))) [
  | inl above ↦ inl (ltb→lt _ _ above, details_lem o s h ∙ rw above refl)
  | inr below ↦ inr (
    ltb→le _ _ below,
    (details_found o s, details_lem o s h ∙ rw below refl, details_found-Pays o s h),
  )
]

-- What the details of a whole calculation say, of the redeemed HCHF and of the collateral that it is
-- worth.
pub record PaysOut (o : Options) (redeemed received : Decimal) (d : RedemptionDetails)
    : Type 0 where
  pub same_amount : d.redeemed_hchf ≡ redeemed
  pub split : d.received_hbar + d.redemption_fee_in_hbar ≡ received
  pub fee : d.redemption_fee_in_hbar ≡ Decimal.mul received o.redemption_fee
  pub slippage : d.slippage.percent ≤ hundred

-- The collateral per HCHF that is left after the fee, over that of the whole system.
pub relative_price : Options → (redeemed received : Decimal) → Decimal
relative_price o redeemed received =
    Decimal.div (Decimal.div (received - Decimal.mul received o.redemption_fee) redeemed)
      (Decimal.div o.total_hbar o.total_hchf)

-- A collateral is worth an amount of HCHF, less at most one unit for each Trove.
abbrev pub IsWorth : Options → (redeemed received : Decimal) → Type 0
IsWorth o redeemed received =
    (o.price ≡ 0)
    ⊎ ((received * o.price ≤ redeemed * Decimal.digits)
        × (redeemed * Decimal.digits ≤ received * o.price + count o.sorted_troves * o.price))

Pays-PaysOut :
    (o : Options) (s : Progress) (d : RedemptionDetails)
    → Pays o s d
    → PaysOut o s.redeemed_hchf s.received_hbar_before_fee d
Pays-PaysOut o s d pays = record {
  same_amount = pays.redeemed;
  split = pays.split;
  fee = pays.fee;
  slippage = pays.slippage;
}

-- The whole calculation, where every debt covers the liquidation reserve and the fee is at most
-- 100%, throws nothing. The requested amount or all that can be redeemed, whichever is less, is
-- redeemed for a collateral that at a positive price is worth it, less at most one unit for each
-- Trove. The result is `null` exactly if the collateral per HCHF after the fee, relative to that of
-- the whole system, exceeds one. Otherwise it has that amount and the fee of that collateral, and
-- pays the rest of the collateral out; the slippage is at most 100%.
pub get_redemption_details_pays :
    (o : Options)
    → Covered o o.sorted_troves
    → o.redemption_fee ≤ Decimal.one
    → let redeemed = min (redeemable o o.sorted_troves) o.redeemed_hchf in
      (received : Decimal) × IsWorth o redeemed received
      × (((Decimal.one < relative_price o redeemed received) × (get_redemption_details o ≡ ok none))
          ⊎ ((relative_price o redeemed received ≤ Decimal.one)
              × ((d : RedemptionDetails) × (get_redemption_details o ≡ ok (some d))
                  × PaysOut o redeemed received d)))
unfolding get_redemption_details relative_price ratio
get_redemption_details_pays o covered fee =
    let (s, run, done) = consume_troves-Redeems o o.sorted_troves (start o) covered in
    let same : s.redeemed_hchf ≡ min (redeemable o o.sorted_troves) o.redeemed_hchf =
      omega (arith, done.redeemed) in
    (
      s.received_hbar_before_fee,
      elim done.worth [
        | inl free ↦ inl free
        | inr (le, ge) ↦ inr (omega (arith, le), omega (arith, ge))
      ],
      rw⁻¹ same (elim (details_cases o s fee) [
        | inl (above, e) ↦ inl (above, rw run e)
        | inr (below, (d, e, pays)) ↦ inr (below, (d, rw run e, Pays-PaysOut o s d pays))
      ]),
    )
