-- ===== src/Views/MineView.antt =====
-- packages/dev-frontend/src/components/Mine/context: the views of liquidity mining, and the
-- validation of a stake.
use hliquity.Base.{
  ◌+◌, ◌-◌, ltb, ◌≤◌, ◌<◌, ◌≡◌, refl, ◌∙◌, Bool, true, false, ◌&&◌, not, Option, none, some, arith,
  Result, ok, ◌>>=◌, if◌then◌else◌, ◌↔◌, ◌⊎◌, inl, inr, Bool-cases, ltb→lt, ltb→le,
}
use hliquity.Decimal
use hliquity.Decimal.{Decimal}
use hliquity.Views.Provider.{view_or, Provider, Reach, start, Reach-Holds}

pub data MineView : Type 0 where
  inactive staking active adjusting disabled : MineView

pub data MineEvent : Type 0 where
  stake_pressed adjust_pressed cancel_pressed stake_approved stake_confirmed : MineEvent
  claim_reward_confirmed unstake_and_claim_confirmed : MineEvent

-- The table; `none` is a missing entry.
abbrev pub transitions : MineView → MineEvent → Option MineView
transitions inactive stake_pressed = some staking
transitions staking cancel_pressed = some inactive
transitions staking stake_confirmed = some active
transitions staking stake_approved = some staking
transitions active adjust_pressed = some adjusting
transitions active claim_reward_confirmed = some active
transitions active unstake_and_claim_confirmed = some inactive
transitions adjusting cancel_pressed = some active
transitions adjusting stake_confirmed = some active
transitions adjusting stake_approved = some adjusting
transitions disabled claim_reward_confirmed = some disabled
transitions disabled unstake_and_claim_confirmed = some disabled
transitions view event = none

unfoldable pub transition : MineView → MineEvent → MineView
transition view event = view_or (transitions view event) view

unfoldable pub get_initial_view : Decimal → Decimal → MineView
unfolding Decimal.is_zero
get_initial_view liquidity_mining_stake remaining_reward =
    if Decimal.is_zero remaining_reward
    then disabled
    else if Decimal.is_zero liquidity_mining_stake
    then inactive
    else active

-- The disabled view is the initial one exactly if no reward remains.
abbrev pub is_disabled : MineView → Bool
is_disabled disabled = true
is_disabled _ = false

transition-is_disabled :
    (view : MineView) (event : MineEvent) → is_disabled (transition view event) ≡ is_disabled view
unfolding transition
transition-is_disabled view event = ground arith

initial_view-is_disabled :
    (stake reward : Decimal) → is_disabled (get_initial_view stake reward) ≡ Decimal.is_zero reward
unfolding get_initial_view
initial_view-is_disabled stake reward = ground arith

-- A provider of the mining views shows the disabled view in every state that it reaches exactly if
-- no reward remained at the start: no order of events and renders enters or leaves that view.
pub disabled_forever :
    (stake reward : Decimal) {p : Provider MineView}
    → Reach transition (start (get_initial_view stake reward)) p
    → is_disabled p.view ≡ Decimal.is_zero reward
disabled_forever stake reward r =
    let e = initial_view-is_disabled stake reward in
    (Reach-Holds transition (λ view. is_disabled view ≡ Decimal.is_zero reward)
      (λ view event h. transition-is_disabled view event ∙ h) r (e, e)).0

-- `useValidationState`
pub record MineStakeValidation : Type 0 where
  pub is_valid : Bool
  pub has_approved : Bool
  pub has_enough_uni_token : Bool
  pub is_withdrawing : Bool
  pub amount_changed : Decimal
  pub maximum_stake : Decimal
  pub has_set_maximum_stake : Bool

-- The validation of an amount, by the amount by which it changes the stake.
unfoldable pub validate_change :
    Decimal → Decimal → Decimal → Decimal → Decimal → MineStakeValidation
unfolding Decimal.gt Decimal.gte Decimal.eq Decimal.is_zero Decimal.add
validate_change amount balance allowance stake amount_changed =
    let is_withdrawing = Decimal.gt stake amount in
    let maximum_stake = Decimal.add stake balance in
    let has_approved = not (Decimal.is_zero allowance) && Decimal.gte allowance amount_changed in
    let has_enough = not (Decimal.is_zero balance) && Decimal.gte balance amount_changed in
    record {
      is_valid = if is_withdrawing then true else has_approved && has_enough;
      has_approved = if is_withdrawing then true else has_approved;
      has_enough_uni_token = if is_withdrawing then true else has_enough;
      is_withdrawing = is_withdrawing;
      amount_changed = amount_changed;
      maximum_stake = maximum_stake;
      has_set_maximum_stake = Decimal.eq amount maximum_stake;
    }

-- The arguments are the amount, and the selected balance, allowance and stake.
unfoldable pub validation_state : Decimal → Decimal → Decimal → Decimal → Result MineStakeValidation
unfolding Decimal.gt Decimal.sub validate_change
validation_state amount balance allowance stake = do
  amount_changed ←
      if Decimal.gt stake amount then Decimal.sub stake amount else Decimal.sub amount stake
  ok (validate_change amount balance allowance stake amount_changed)

-- The validation never throws, and the maximum stake is the stake and the balance. A decrease is
-- always valid. Otherwise the amount is valid exactly if neither the allowance nor the balance is
-- zero, the allowance covers the increase, and the amount is at most the maximum stake.
pub validation_state_lem :
    (amount balance allowance stake : Decimal)
    → (v : MineStakeValidation) × (validation_state amount balance allowance stake ≡ ok v)
      × (v.maximum_stake ≡ stake + balance)
      × (((amount < stake) × (v.is_valid ≡ true))
          ⊎ ((stake ≤ amount)
              × ((v.is_valid ≡ true) ↔ (
                  (0 < allowance)
                  × (0 < balance)
                  × (amount ≤ stake + allowance)
                  × (amount ≤ v.maximum_stake)))))
unfolding validation_state
validation_state_lem amount balance allowance stake =
    let change = if ltb amount stake then stake - amount else amount - stake in
    (
      validate_change amount balance allowance stake change,
      ground arith,
      refl,
      elim (Bool-cases (ltb amount stake)) [
        | inl less ↦ inl (ltb→lt _ _ less, ground arith)
        | inr more ↦
            let le = ltb→le _ _ more in inr (le, (λ valid. ground arith, λ valid. ground arith))
      ],
    )
