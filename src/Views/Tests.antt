-- ===== src/Views/Tests.antt =====
-- Tests of the views of packages/dev-frontend/src/components.
use hliquity.Base.{◌+◌, ◌≤◌, ◌<◌, ◌⊎◌, ◌↔◌, ok, ℕ, refl, true, codes, ◌≡◌, false, List, [], ◌∷◌}
use hliquity.Decimal
use hliquity.Decimal.{Decimal}
use hliquity.Views.Provider.{Provider, here, next, dispatch, commit, dispatch_event, run, start}
use hliquity.Views.TransactionMonitor.{
  start as at_start, sent, denied, receipt, sends, send_answered, receipt_answered, timed_out,
  handle, render, render_all, run as run_all, idle, confirmed, Event,
}
use hliquity.Views.TransactionMonitor.Settling.{run-Rests, run-idle}
use hliquity.Views.TransactionMonitor.Settling.Rest.{next_all, Rests}
use hliquity.Views.TroveView
use hliquity.Views.MineView

abbrev events : List TroveView.TroveEvent
events =
    TroveView.open_trove_pressed ∷ TroveView.trove_opened ∷ TroveView.adjust_trove_pressed
    ∷ TroveView.trove_liquidated ∷ []

run-shows_open_example :
    TroveView.shows_open (run TroveView.transition events (start TroveView.none_view)).view
    ≡ TroveView.open_after false events
run-shows_open_example = TroveView.run-shows_open events TroveView.none_view

-- An event that is dispatched before the effect of the render takes the view before the last one:
-- after an opening, the Trove is shown as being opened.
stale_reference :
    (dispatch_event TroveView.transition TroveView.open_trove_pressed
      (dispatch_event TroveView.transition TroveView.trove_opened (start TroveView.none_view))).view
    ≡ TroveView.opening
unfolding dispatch_event TroveView.transition
stale_reference = refl

-- No reward remains: the view is disabled, also after a claim and a render.
abbrev opened : Provider MineView.MineView
opened = start (MineView.get_initial_view 5 0)

abbrev claimed : Provider MineView.MineView
claimed = dispatch_event MineView.transition MineView.claim_reward_confirmed opened

disabled_forever_example : MineView.is_disabled claimed.view ≡ Decimal.is_zero 0
disabled_forever_example =
    MineView.disabled_forever 5 0
      (next (next here (dispatch opened MineView.claim_reward_confirmed)) (commit claimed))

-- A stake of 5 that is raised to 8, with a balance of 4 and an allowance of 3.
validation_state_lem_example :
    (v : MineView.MineStakeValidation) × (MineView.validation_state 8 4 3 5 ≡ ok v)
    × (v.maximum_stake ≡ 5 + 4)
    × (((8 < 5) × (v.is_valid ≡ true))
        ⊎ ((5 ≤ 8)
            × ((v.is_valid ≡ true) ↔ ((0 < 3) × (0 < 4) × (8 ≤ 5 + 3) × (8 ≤ v.maximum_stake)))))
validation_state_lem_example = MineView.validation_state_lem 8 4 3 5

-- Two transactions are sent before the wallet answers: the second one is answered first, and denied,
-- the first one is sent, and its receipt shows a success.
abbrev sending : List Event
sending =
    sends (codes "stake")
    ∷ sends (codes "unstake")
    ∷ send_answered 1 denied
    ∷ send_answered 0 (sent 1)
    ∷ receipt_answered (receipt true)
    ∷ []

run-Rests_example : Rests (run_all sending at_start) (next_all sending (idle, []))
run-Rests_example = run-Rests sending (refl, (refl, tt))

sending_confirmed : next_all sending (idle, []) ≡ (confirmed (codes "stake"), [])
unfolding next_all
sending_confirmed = refl

none_awaited : (run_all sending at_start).sending ≡ []
unfolding run_all handle render_all render
none_awaited = refl

run-idle_example :
    (n : ℕ) × (run_all
        (receipt_answered (receipt false) ∷ timed_out ∷ [])
        (run_all sending at_start)
      ≡ record at_start { refreshes = n })
run-idle_example = run-idle sending (receipt false) (refl, (refl, tt)) none_awaited
