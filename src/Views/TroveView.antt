-- ===== src/Views/TroveView.antt =====
-- packages/dev-frontend/src/components/Trove/context: the views of a Trove.
use hliquity.Base.{
  ◌≡◌, refl, ◌∙◌, ap, Bool, true, false, ◌&&◌, ◌||◌, not, Option, none, some, List, [], ◌∷◌, arith,
}
use hliquity.Views.Provider.{view_or, Provider, dispatch_event, commit_view, run, start}
use hliquity.Trove.User.{
  UserTroveStatus, non_existent, open_trove, closed_by_owner, closed_by_liquidation,
  closed_by_redemption,
}

pub data TroveView : Type 0 where
  none_view liquidated redeemed opening adjusting closing active : TroveView

pub data TroveEvent : Type 0 where
  open_trove_pressed adjust_trove_pressed close_trove_pressed : TroveEvent
  cancel_adjust_trove_pressed trove_closed trove_liquidated trove_redeemed : TroveEvent
  trove_adjusted trove_surplus_collateral_claimed trove_opened : TroveEvent

-- The table; `none` is a missing entry.
abbrev pub transitions : TroveView → TroveEvent → Option TroveView
transitions none_view open_trove_pressed = some opening
transitions none_view trove_opened = some active
transitions liquidated open_trove_pressed = some opening
transitions liquidated trove_surplus_collateral_claimed = some none_view
transitions liquidated trove_opened = some active
transitions redeemed open_trove_pressed = some opening
transitions redeemed trove_surplus_collateral_claimed = some none_view
transitions redeemed trove_opened = some active
transitions opening cancel_adjust_trove_pressed = some none_view
transitions opening trove_opened = some active
transitions adjusting cancel_adjust_trove_pressed = some active
transitions adjusting trove_adjusted = some active
transitions adjusting trove_closed = some none_view
transitions adjusting trove_liquidated = some liquidated
transitions adjusting trove_redeemed = some redeemed
transitions closing cancel_adjust_trove_pressed = some active
transitions closing trove_closed = some none_view
transitions closing trove_adjusted = some active
transitions closing trove_liquidated = some liquidated
transitions closing trove_redeemed = some redeemed
transitions active adjust_trove_pressed = some adjusting
transitions active close_trove_pressed = some closing
transitions active trove_closed = some none_view
transitions active trove_liquidated = some liquidated
transitions active trove_redeemed = some redeemed
transitions view event = none

unfoldable pub transition : TroveView → TroveEvent → TroveView
transition view event = view_or (transitions view event) view

-- `troveStatusEvents[troveStatus] ?? null`
unfoldable pub trove_status_event : UserTroveStatus → Option TroveEvent
trove_status_event non_existent = none
trove_status_event open_trove = some trove_opened
trove_status_event closed_by_owner = some trove_closed
trove_status_event closed_by_liquidation = some trove_liquidated
trove_status_event closed_by_redemption = some trove_redeemed

unfoldable pub get_initial_view : UserTroveStatus → TroveView
get_initial_view closed_by_liquidation = liquidated
get_initial_view closed_by_redemption = redeemed
get_initial_view open_trove = active
get_initial_view non_existent = none_view
get_initial_view closed_by_owner = none_view

-- The views that show an open Trove.
abbrev pub shows_open : TroveView → Bool
shows_open active = true
shows_open adjusting = true
shows_open closing = true
shows_open _ = false

abbrev pub opens : TroveEvent → Bool
opens trove_opened = true
opens _ = false

abbrev pub closes : TroveEvent → Bool
closes trove_closed = true
closes trove_liquidated = true
closes trove_redeemed = true
closes _ = false

-- Whether an open Trove is shown, by the events alone: the last event that opened or closed it
-- decides.
abbrev pub open_after : Bool → List TroveEvent → Bool
open_after shown [] = shown
open_after shown (event ∷ events) = open_after (opens event || (shown && not (closes event))) events

-- In every view, every event leads to a view of an open Trove exactly if it opens the Trove, or the
-- Trove was shown open and the event does not close it.
transition-shows_open :
    (view : TroveView) (event : TroveEvent)
    → shows_open (transition view event) ≡ (opens event || (shows_open view && not (closes event)))
unfolding transition
transition-shows_open view event = ground arith

run_view-shows_open :
    (events : List TroveEvent) (p : Provider TroveView)
    → p.view_ref ≡ p.view
    → shows_open (run transition events p).view ≡ open_after (shows_open p.view) events
unfolding run dispatch_event
run_view-shows_open [] p h = refl
run_view-shows_open (event ∷ events) p h =
    run_view-shows_open events (commit_view (dispatch_event transition event p)) refl
    ∙ ap (λ shown. open_after shown events)
        (transition-shows_open p.view_ref event
          ∙ ap (λ view. opens event || (shows_open view && not (closes event))) h)

-- After any sequence of events of which each is dispatched only when the reference has the view that
-- the one before it led to, the provider shows an open Trove exactly if the last event that opened
-- or closed it opened it, or there was none and it was shown at the start.
pub run-shows_open :
    (events : List TroveEvent) (view : TroveView)
    → shows_open (run transition events (start view)).view ≡ open_after (shows_open view) events
run-shows_open events view = run_view-shows_open events (start view) refl

-- The initial view and, from every view, the event of the status show an open Trove exactly if the
-- status is open.
abbrev pub is_open : UserTroveStatus → Bool
is_open open_trove = true
is_open _ = false

pub initial_view-shows_open :
    (status : UserTroveStatus) → shows_open (get_initial_view status) ≡ is_open status
unfolding get_initial_view
initial_view-shows_open status = ground arith

-- Dispatching the event of a status, from any view, leads to a view of an open Trove exactly if the
-- status is open.
pub status_event-shows_open :
    (status : UserTroveStatus) (view : TroveView) {event : TroveEvent}
    → trove_status_event status ≡ some event
    → shows_open (transition view event) ≡ is_open status
unfolding trove_status_event
status_event-shows_open status view {event} h = ground (arith, transition-shows_open view event)
