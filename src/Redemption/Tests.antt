-- ===== src/Redemption/Tests.antt =====
-- Tests of packages/lib-base/src/redemptionDetails.ts.
use Prim.Native.Nat.{min}
use hliquity.Decimal
use hliquity.Base.{◌≡◌, ◌<◌, ◌≤◌, refl, ◌⊎◌, none, some, List, [], ◌∷◌, ok, arith}
use hliquity.Decimal.{Decimal}
use hliquity.Constants.{defaults}
use hliquity.Trove.Defs.{Trove}
use hliquity.Redemption
use hliquity.Redemption.{
  Options, Progress, RedemptionDetails, consume_troves, get_redemption_details, start,
}
use hliquity.Redemption.Loop.{Redeems, redeemable, count, consume_troves-Redeems}
use hliquity.Redemption.Details.{PaysOut, IsWorth, relative_price, get_redemption_details_pays}

abbrev with_debt : Decimal → Trove
with_debt debt = record { constants = defaults; collateral = 1_000_000_000_000; debt = debt }

abbrev troves : List Trove
troves = with_debt 200_000_000_000 ∷ with_debt 300_000_000_000 ∷ []

-- 3000 HCHF at a price of 0.05, for a fee of 0.5%: the first Trove, and a part of the second.
abbrev options : Options
options = record {
  sorted_troves = troves;
  total_hchf = 500_000_000_000;
  total_hbar = 20_000_000_000_000;
  redeemed_hchf = 300_000_000_000;
  redemption_fee = 500_000;
  hchf_liquidation_reserve = 2_000_000_000;
  price = 5_000_000;
}

consume_troves-Redeems_example :
    (s : Progress) × (consume_troves options troves (start options) ≡ ok s)
    × Redeems options
        (start options)
        s
        (min (redeemable options troves) 300_000_000_000)
        (count troves)
consume_troves-Redeems_example =
    consume_troves-Redeems options troves (start options) (omega arith, (omega arith, tt))

get_redemption_details_pays_example :
    (received : Decimal) × IsWorth options
      (min (redeemable options troves) 300_000_000_000)
      received
    × (((Decimal.one
            < relative_price options (min (redeemable options troves) 300_000_000_000) received)
          × (get_redemption_details options ≡ ok none))
        ⊎ ((relative_price options (min (redeemable options troves) 300_000_000_000) received
              ≤ Decimal.one)
            × ((d : RedemptionDetails) × (get_redemption_details options ≡ ok (some d))
                × PaysOut options (min (redeemable options troves) 300_000_000_000) received d)))
get_redemption_details_pays_example =
    get_redemption_details_pays options (omega arith, (omega arith, tt)) (omega arith)

-- These options have details.
details_found : (d : RedemptionDetails) × (get_redemption_details options ≡ ok (some d))
unfolding get_redemption_details consume_troves Decimal.is_zero Redemption.consume_trove Decimal.sub
    Redemption.details Decimal.mul Decimal.add Decimal.div
details_found = (_, refl)
