-- ===== src/Views/StakingView.antt =====
-- packages/dev-frontend/src/components/Staking/context/StakingViewProvider.tsx: the reducer of the
-- staking page, the actions that a transaction's state causes, and the view that is shown.
use hliquity.Base.{
  ◌≡◌, refl, Bool, true, false, not, ◌||◌, Option, none, some, List, [], ◌∷◌, if◌then◌else◌,
}
use hliquity.Decimal
use hliquity.HlqtStake.{HlqtStake, is_empty}
use hliquity.Views.TransactionMonitor.{
  TransactionState, waiting_for_approval, waiting_for_confirmation, failed, cancelled,
}

pub data StakingView : Type 0 where
  active adjusting none_view : StakingView

-- `updateStore` comes with the stake of the old state, and the updated stake if it changed.
pub data StakingAction : Type 0 where
  start_adjusting cancel_adjusting start_change abort_change : StakingAction
  update_store : (old_stake : HlqtStake) (updated_stake : Option HlqtStake) → StakingAction

pub record StakingState : Type 0 where
  pub hlqt_stake : HlqtStake
  pub change_pending : Bool
  pub is_adjusting : Bool

unfoldable pub init : HlqtStake → StakingState
init hlqt_stake = record { hlqt_stake = hlqt_stake; change_pending = false; is_adjusting = false }

-- An update that shows that a change was committed: another amount, or a gain that was paid out.
unfoldable pub change_committed : HlqtStake → HlqtStake → Bool
unfolding Decimal.eq Decimal.lt
change_committed old_stake updated_stake =
    not (Decimal.eq updated_stake.staked_hlqt old_stake.staked_hlqt)
    || (Decimal.lt updated_stake.collateral_gain old_stake.collateral_gain
        || Decimal.lt updated_stake.hchf_gain old_stake.hchf_gain)

unfoldable pub reduce : StakingState → StakingAction → StakingState
unfolding change_committed
reduce state start_adjusting = record state { is_adjusting = true }
reduce state cancel_adjusting = record state { is_adjusting = false }
reduce state start_change = record state { change_pending = true }
reduce state abort_change = record state { change_pending = false }
reduce state (update_store old_stake none) = state
reduce state (update_store old_stake (some updated_stake)) = record state {
  hlqt_stake = updated_stake;
  is_adjusting = false;
  change_pending = if change_committed old_stake updated_stake then false else state.change_pending;
}

-- The effect on the state of the staking transaction.
unfoldable pub action_of : TransactionState → Option StakingAction
action_of (waiting_for_approval id) = some start_change
action_of (waiting_for_confirmation id tx) = some start_change
action_of (failed id message) = some abort_change
action_of (cancelled id) = some abort_change
action_of other = none

-- The effect that sets the view.
unfoldable pub view_of : StakingState → StakingView
unfolding is_empty
view_of state =
    if state.is_adjusting
    then adjusting
    else if is_empty state.hlqt_stake
    then none_view
    else active

unfoldable pub reduce_all : List StakingAction → StakingState → StakingState
unfolding reduce
reduce_all [] state = state
reduce_all (action ∷ actions) state = reduce_all actions (reduce state action)

-- Whether a change is pending after actions: the last action that starts one, aborts one or shows
-- one to be committed decides.
pending_after : List StakingAction → Bool → Bool
pending_after [] pending = pending
pending_after (start_change ∷ actions) pending = pending_after actions true
pending_after (abort_change ∷ actions) pending = pending_after actions false
pending_after (update_store old_stake (some updated_stake) ∷ actions) pending =
    pending_after actions (if change_committed old_stake updated_stake then false else pending)
pending_after (update_store old_stake none ∷ actions) pending = pending_after actions pending
pending_after (start_adjusting ∷ actions) pending = pending_after actions pending
pending_after (cancel_adjusting ∷ actions) pending = pending_after actions pending

-- Adjusting, its end and updates without a commitment leave a pending change alone.
reduce_all-pending_after :
    (actions : List StakingAction) (state : StakingState)
    → (reduce_all actions state).change_pending ≡ pending_after actions state.change_pending
unfolding reduce_all pending_after
reduce_all-pending_after [] state = refl
reduce_all-pending_after (start_adjusting ∷ actions) state =
    reduce_all-pending_after actions (reduce state start_adjusting)
reduce_all-pending_after (cancel_adjusting ∷ actions) state =
    reduce_all-pending_after actions (reduce state cancel_adjusting)
reduce_all-pending_after (start_change ∷ actions) state =
    reduce_all-pending_after actions (reduce state start_change)
reduce_all-pending_after (abort_change ∷ actions) state =
    reduce_all-pending_after actions (reduce state abort_change)
reduce_all-pending_after (update_store old_stake none ∷ actions) state =
    reduce_all-pending_after actions state
reduce_all-pending_after (update_store old_stake (some updated_stake) ∷ actions) state =
    reduce_all-pending_after actions (reduce state (update_store old_stake (some updated_stake)))

-- An update that brings a stake ends the adjustment, and shows the view of the stake.
update-view_of :
    (state : StakingState) (old_stake updated_stake : HlqtStake)
    → view_of (reduce state (update_store old_stake (some updated_stake)))
      ≡ (if is_empty updated_stake then none_view else active)
unfolding view_of reduce
update-view_of state old_stake updated_stake = refl
