-- ===== src/StabilityDeposit.antt =====
-- packages/lib-base/src/StabilityDeposit.ts: a deposit in the Stability Pool, and its changes.
mod Tests
use Prim.Native.String.{String}
use text.Mathlib.Text.{◌==◌ as str_eq}
use hliquity.Base.{
  ℕ, ◌+◌, ◌-◌, ◌≤◌, ◌<◌, ◌≡◌, refl, ◌↔◌, Bool, true, false, ◌&&◌, ◌||◌, not, Option, none, some,
  Result, ok, err, Error, ◌>>=◌, ◌>>◌, guard, ltb, ◌==◌, if◌then◌else◌, arith,
}
use hliquity.Decimal
use hliquity.Decimal.{Decimal}

pub data StabilityDepositChange : Type 0 where
  deposit_hchf : Decimal → StabilityDepositChange
  -- the amount, and `withdrawAllHCHF`
  withdraw_hchf : Decimal → Bool → StabilityDepositChange

pub record StabilityDeposit : Type 0 where
  pub initial_hchf : Decimal
  pub current_hchf : Decimal
  pub collateral_gain : Decimal
  pub hlqt_reward : Decimal
  pub frontend_tag : String

-- The constructor, with its check.
unfoldable pub new_stability_deposit :
    Decimal → Decimal → Decimal → Decimal → String → Result StabilityDeposit
unfolding Decimal.gt
new_stability_deposit initial current collateral_gain hlqt_reward frontend_tag = do
  guard (not (Decimal.gt current initial)) Error.current_exceeds_initial
  ok (record {
    initial_hchf = initial;
    current_hchf = current;
    collateral_gain = collateral_gain;
    hlqt_reward = hlqt_reward;
    frontend_tag = frontend_tag;
  })

unfoldable pub is_empty : StabilityDeposit → Bool
unfolding Decimal.is_zero
is_empty s =
    Decimal.is_zero s.initial_hchf
    && Decimal.is_zero s.current_hchf
    && Decimal.is_zero s.collateral_gain
    && Decimal.is_zero s.hlqt_reward

unfoldable pub equals : StabilityDeposit → StabilityDeposit → Bool
unfolding Decimal.eq
equals s that =
    Decimal.eq s.initial_hchf that.initial_hchf
    && Decimal.eq s.current_hchf that.current_hchf
    && Decimal.eq s.collateral_gain that.collateral_gain
    && Decimal.eq s.hlqt_reward that.hlqt_reward
    && str_eq s.frontend_tag that.frontend_tag

unfoldable pub what_changed : StabilityDeposit → Decimal → Result (Option StabilityDepositChange)
unfolding Decimal.lt Decimal.gt Decimal.sub Decimal.is_zero
what_changed s that_hchf =
    if Decimal.lt that_hchf s.current_hchf
    then (do
      amount ← Decimal.sub s.current_hchf that_hchf
      ok (some (withdraw_hchf amount (Decimal.is_zero that_hchf))))
    else if Decimal.gt that_hchf s.current_hchf
    then (do amount ← Decimal.sub that_hchf s.current_hchf; ok (some (deposit_hchf amount)))
    else ok none

-- The new deposited amount.
unfoldable pub apply : StabilityDeposit → Option StabilityDepositChange → Result Decimal
unfolding Decimal.lte Decimal.sub Decimal.add
apply s none = ok s.current_hchf
apply s (some (withdraw_hchf amount withdraw_all)) =
    if withdraw_all || Decimal.lte s.current_hchf amount
    then ok 0
    else Decimal.sub s.current_hchf amount
apply s (some (deposit_hchf amount)) = ok (Decimal.add s.current_hchf amount)

-- The change to an amount, without the guards of the subtractions.
change_to : StabilityDeposit → Decimal → Option StabilityDepositChange
change_to s amount =
    if ltb amount s.current_hchf
    then some (withdraw_hchf (s.current_hchf - amount) (amount == 0))
    else if ltb s.current_hchf amount
    then some (deposit_hchf (amount - s.current_hchf))
    else none

-- The change from a deposit to any amount is defined, applying it gives exactly that amount, and
-- there is no change exactly if the amount is the one deposited.
pub apply-what_changed_deposit :
    (s : StabilityDeposit) (amount : Decimal)
    → (change : Option StabilityDepositChange) × (what_changed s amount ≡ ok change)
      × (apply s change ≡ ok amount)
      × ((change ≡ none) ↔ (amount ≡ s.current_hchf))
unfolding what_changed apply change_to
apply-what_changed_deposit s amount =
    (change_to s amount, ground arith, ground arith, (λ e. ground arith, λ e. ground arith))

-- What a change leaves, by how much is withdrawn.
abbrev pub rest_after : StabilityDeposit → StabilityDepositChange → Decimal
rest_after s (withdraw_hchf amount true) = 0
rest_after s (withdraw_hchf amount false) = s.current_hchf - amount
rest_after s (deposit_hchf amount) = s.current_hchf + amount

-- No change throws. A withdrawal leaves nothing if all is withdrawn, and otherwise the difference
-- or zero; a deposit adds its amount.
pub apply_lem :
    (s : StabilityDeposit) (change : StabilityDepositChange)
    → apply s (some change) ≡ ok (rest_after s change)
unfolding apply
apply_lem s (withdraw_hchf amount true) = refl
apply_lem s (withdraw_hchf amount false) = ground arith
apply_lem s (deposit_hchf amount) = refl
