-- ===== src/Views/StabilityView.antt =====
-- packages/dev-frontend/src/components/Stability/context: the views of a Stability Deposit.
use hliquity.Base.{
  ◌≡◌, Bool, true, false, ◌&&◌, ◌||◌, not, Option, none, some, arith, if◌then◌else◌,
}
use hliquity.Views.Provider.{view_or}
use hliquity.StabilityDeposit
use hliquity.StabilityDeposit.{StabilityDeposit}

pub data StabilityView : Type 0 where
  none_view depositing active adjusting : StabilityView

pub data StabilityEvent : Type 0 where
  deposit_pressed adjust_deposit_pressed cancel_pressed deposit_confirmed rewards_claimed :
      StabilityEvent
  deposit_emptied : StabilityEvent

-- The table; `none` is a missing entry.
abbrev pub transitions : StabilityView → StabilityEvent → Option StabilityView
transitions none_view deposit_pressed = some depositing
transitions depositing cancel_pressed = some none_view
transitions depositing deposit_confirmed = some active
transitions active rewards_claimed = some active
transitions active adjust_deposit_pressed = some adjusting
transitions active deposit_emptied = some none_view
transitions adjusting cancel_pressed = some active
transitions adjusting deposit_confirmed = some active
transitions adjusting deposit_emptied = some none_view
transitions view event = none

unfoldable pub transition : StabilityView → StabilityEvent → StabilityView
transition view event = view_or (transitions view event) view

unfoldable pub get_initial_view : StabilityDeposit → StabilityView
get_initial_view deposit = if StabilityDeposit.is_empty deposit then none_view else active

-- The views that show a deposit.
abbrev pub shows_deposit : StabilityView → Bool
shows_deposit active = true
shows_deposit adjusting = true
shows_deposit _ = false

abbrev pub is_depositing : StabilityView → Bool
is_depositing depositing = true
is_depositing _ = false

abbrev pub empties : StabilityEvent → Bool
empties deposit_emptied = true
empties _ = false

abbrev pub confirms : StabilityEvent → Bool
confirms deposit_confirmed = true
confirms _ = false

-- In every view, every event leads to a view of a deposit exactly if a deposit was shown and the
-- event does not empty it, or a first deposit was being made and the event confirms it.
pub transition-shows_deposit :
    (view : StabilityView) (event : StabilityEvent)
    → shows_deposit (transition view event)
      ≡ ((shows_deposit view && not (empties event)) || (is_depositing view && confirms event))
unfolding transition
transition-shows_deposit view event = ground arith

-- An empty deposit is not shown, from whatever view its event is dispatched.
pub emptied-shows_deposit :
    (view : StabilityView) → shows_deposit (transition view deposit_emptied) ≡ false
emptied-shows_deposit view = ground (arith, transition-shows_deposit view deposit_emptied)
