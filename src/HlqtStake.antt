-- ===== src/HlqtStake.antt =====
-- packages/lib-base/src/HLQTStake.ts: a stake of HLQT, and its changes.
mod Tests
use hliquity.Base.{
  ℕ, ◌+◌, ◌-◌, ◌≤◌, ◌<◌, ◌≡◌, refl, ◌↔◌, Bool, true, false, ◌&&◌, ◌||◌, not, Option, none, some,
  Result, ok, err, Error, ◌>>=◌, ◌>>◌, guard, ltb, ◌==◌, if◌then◌else◌, arith,
}
use hliquity.Decimal
use hliquity.Decimal.{Decimal}

pub data HlqtStakeChange : Type 0 where
  stake_hlqt : Decimal → HlqtStakeChange
  -- the amount, and `unstakeAllHLQT`
  unstake_hlqt : Decimal → Bool → HlqtStakeChange

pub record HlqtStake : Type 0 where
  pub staked_hlqt : Decimal
  pub collateral_gain : Decimal
  pub hchf_gain : Decimal

unfoldable pub is_empty : HlqtStake → Bool
unfolding Decimal.is_zero
is_empty s =
    Decimal.is_zero s.staked_hlqt
    && Decimal.is_zero s.collateral_gain
    && Decimal.is_zero s.hchf_gain

unfoldable pub equals : HlqtStake → HlqtStake → Bool
unfolding Decimal.eq
equals s that =
    Decimal.eq s.staked_hlqt that.staked_hlqt
    && Decimal.eq s.collateral_gain that.collateral_gain
    && Decimal.eq s.hchf_gain that.hchf_gain

unfoldable pub what_changed : HlqtStake → Decimal → Result (Option HlqtStakeChange)
unfolding Decimal.lt Decimal.gt Decimal.sub Decimal.is_zero
what_changed s that_staked_hlqt =
    if Decimal.lt that_staked_hlqt s.staked_hlqt
    then (do
      amount ← Decimal.sub s.staked_hlqt that_staked_hlqt
      ok (some (unstake_hlqt amount (Decimal.is_zero that_staked_hlqt))))
    else if Decimal.gt that_staked_hlqt s.staked_hlqt
    then (do amount ← Decimal.sub that_staked_hlqt s.staked_hlqt; ok (some (stake_hlqt amount)))
    else ok none

-- The new staked amount.
unfoldable pub apply : HlqtStake → Option HlqtStakeChange → Result Decimal
unfolding Decimal.lte Decimal.sub Decimal.add
apply s none = ok s.staked_hlqt
apply s (some (unstake_hlqt amount unstake_all)) =
    if unstake_all || Decimal.lte s.staked_hlqt amount
    then ok 0
    else Decimal.sub s.staked_hlqt amount
apply s (some (stake_hlqt amount)) = ok (Decimal.add s.staked_hlqt amount)

-- The change to an amount, without the guards of the subtractions.
change_to : HlqtStake → Decimal → Option HlqtStakeChange
change_to s amount =
    if ltb amount s.staked_hlqt
    then some (unstake_hlqt (s.staked_hlqt - amount) (amount == 0))
    else if ltb s.staked_hlqt amount
    then some (stake_hlqt (amount - s.staked_hlqt))
    else none

-- The change from a stake to any amount is defined, applying it gives exactly that amount, and
-- there is no change exactly if the amount is the one staked.
pub apply-what_changed_stake :
    (s : HlqtStake) (amount : Decimal)
    → (change : Option HlqtStakeChange) × (what_changed s amount ≡ ok change)
      × (apply s change ≡ ok amount)
      × ((change ≡ none) ↔ (amount ≡ s.staked_hlqt))
unfolding what_changed apply change_to
apply-what_changed_stake s amount =
    (change_to s amount, ground arith, ground arith, (λ e. ground arith, λ e. ground arith))

-- What a change leaves, by how much is unstaked.
abbrev pub rest_after : HlqtStake → HlqtStakeChange → Decimal
rest_after s (unstake_hlqt amount true) = 0
rest_after s (unstake_hlqt amount false) = s.staked_hlqt - amount
rest_after s (stake_hlqt amount) = s.staked_hlqt + amount

-- No change throws. Unstaking leaves nothing if all is unstaked, and otherwise the difference
-- or zero; staking adds its amount.
pub apply_lem :
    (s : HlqtStake) (change : HlqtStakeChange) → apply s (some change) ≡ ok (rest_after s change)
unfolding apply
apply_lem s (unstake_hlqt amount true) = refl
apply_lem s (unstake_hlqt amount false) = ground arith
apply_lem s (stake_hlqt amount) = refl
