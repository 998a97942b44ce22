-- ===== src/Redemption.antt =====
-- packages/lib-base/src/redemptionDetails.ts: what a redemption of HCHF pays out, Trove by Trove.
pub mod Loop
pub mod Details
mod Tests
use hliquity.Base.{
  ℕ, Bool, Option, none, some, List, [], ◌∷◌, Result, ok, err, Error, ◌>>=◌, if◌then◌else◌,
}
use hliquity.Decimal
use hliquity.Decimal.{Decimal}
use hliquity.Percent.{Percent, new_percent}
use hliquity.Trove.Defs.{Trove}

-- The options; of the constants only the liquidation reserve is taken.
pub record Options : Type 0 where
  pub sorted_troves : List Trove
  pub total_hchf : Decimal
  pub total_hbar : Decimal
  pub redeemed_hchf : Decimal
  pub redemption_fee : Decimal
  pub hchf_liquidation_reserve : Decimal
  pub price : Decimal

pub record RedemptionDetails : Type 0 where
  pub redeemed_hchf : Decimal
  pub received_hbar : Decimal
  pub redemption_fee_in_hbar : Decimal
  pub slippage : Percent

-- The variables of the loop.
pub record Progress : Type 0 where
  pub remaining_hchf : Decimal
  pub received_hbar_before_fee : Decimal
  pub redeemed_hchf : Decimal

-- One round, for a Trove while HCHF remains.
unfoldable pub consume_trove : Options → Trove → Progress → Result Progress
unfolding Decimal.lte
consume_trove o trove s = do
  usable_trove_debt ← Decimal.sub trove.debt o.hchf_liquidation_reserve
  let usable_trove_collateral = Decimal.div usable_trove_debt o.price
  if Decimal.lte usable_trove_debt s.remaining_hchf
      then (do
        remaining ← Decimal.sub s.remaining_hchf usable_trove_debt
        ok (record {
          remaining_hchf = remaining;
          received_hbar_before_fee = Decimal.add s.received_hbar_before_fee usable_trove_collateral;
          redeemed_hchf = Decimal.add s.redeemed_hchf usable_trove_debt;
        }))
      else ok (record {
        remaining_hchf = 0;
        received_hbar_before_fee =
            Decimal.add s.received_hbar_before_fee (Decimal.div s.remaining_hchf o.price);
        redeemed_hchf = Decimal.add s.redeemed_hchf s.remaining_hchf;
      })

-- The loop over the Troves, which stops when no HCHF remains.
unfoldable pub consume_troves : Options → List Trove → Progress → Result Progress
consume_troves o [] s = ok s
consume_troves o (trove ∷ troves) s =
    if Decimal.is_zero s.remaining_hchf
    then ok s
    else consume_trove o trove s >>= consume_troves o troves

abbrev pub start : Options → Progress
start o = record {
  remaining_hchf = o.redeemed_hchf;
  received_hbar_before_fee = 0;
  redeemed_hchf = 0;
}

-- From the progress of the loop to the details; `none` is `null`.
unfoldable pub details : Options → Progress → Result (Option RedemptionDetails)
unfolding Decimal.lt
details o s = do
  let fee = Decimal.mul s.received_hbar_before_fee o.redemption_fee
  received_after_fee ← Decimal.sub s.received_hbar_before_fee fee
  let received_per_hchf = Decimal.div received_after_fee s.redeemed_hchf
  let target_per_hchf = Decimal.div o.total_hbar o.total_hchf
  let ratio = Decimal.div received_per_hchf target_per_hchf
  if Decimal.lt Decimal.one ratio then ok none else (do
    slippage ← Decimal.sub Decimal.one ratio
    ok (
        some (record {
          redeemed_hchf = s.redeemed_hchf;
          received_hbar = received_after_fee;
          redemption_fee_in_hbar = fee;
          slippage = new_percent slippage;
        })))

unfoldable pub get_redemption_details : Options → Result (Option RedemptionDetails)
get_redemption_details o = consume_troves o o.sorted_troves (start o) >>= details o
