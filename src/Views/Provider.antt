-- ===== src/Views/Provider.antt =====
-- The providers of packages/dev-frontend/src/components/*/context: `dispatchEvent` reads the view
-- from a reference, and an effect copies the view to the reference after a render.
use hliquity.Base.{ℕ, suc, Option, none, some, List, [], ◌∷◌}

-- `transitions[view][event] ?? view`
abbrev pub view_or : {View : Type 0} → Option View → View → View
view_or none view = view
view_or (some next) view = next

-- The state of a provider; `refreshes` counts the calls of `store.refresh()`.
pub record Provider (View : Type 0) : Type 0 where
  pub view : View
  pub view_ref : View
  pub refreshes : ℕ

-- The effect of a render copies the view to the reference.
abbrev pub commit_view : {View : Type 0} → Provider View → Provider View
commit_view p = record p { view_ref = p.view }

module _ {View Event : Type 0} (transition : View → Event → View) where
  unfoldable pub dispatch_event : Event → Provider View → Provider View
  dispatch_event event p = record p {
    view = transition p.view_ref event;
    refreshes = suc p.refreshes;
  }

  -- What React and the user may do next: dispatch an event, or run the effect of a render.
  pub data Step : Provider View → Provider View → Type 0 where
    dispatch : (p : Provider View) (event : Event) → Step p (dispatch_event event p)
    commit : (p : Provider View) → Step p (commit_view p)

  pub data Reach (p : Provider View) : Provider View → Type 0 where
    here : Reach p p
    next : {q r : Provider View} → Reach p q → Step q r → Reach p r

  -- Events, each dispatched after the effect of the render of the one before it.
  unfoldable pub run : List Event → Provider View → Provider View
  unfolding dispatch_event
  run [] p = p
  run (event ∷ events) p = run events (commit_view (dispatch_event event p))

abbrev pub start : {View : Type 0} → View → Provider View
start view = record { view = view; view_ref = view; refreshes = 0 }

module _ {View Event : Type 0} (transition : View → Event → View) (P : View → Type 0)
    (closed : (view : View) (event : Event) → P view → P (transition view event)) where
  abbrev Holds : Provider View → Type 0
  Holds p = P p.view × P p.view_ref

  Step-Holds : {p q : Provider View} → Step transition p q → Holds p → Holds q
  unfolding dispatch_event
  Step-Holds (dispatch p event) (h, k) = (closed p.view_ref event k, k)
  Step-Holds (commit p) (h, k) = (h, h)

  -- What every transition keeps holds of the view and of the reference in every state that the
  -- provider reaches, in whatever order events and renders come.
  pub Reach-Holds :
      {p q : Provider View}
      → Reach transition p q
      → P p.view × P p.view_ref
      → P q.view × P q.view_ref
  Reach-Holds here h = h
  Reach-Holds (next r s) h = Step-Holds s (Reach-Holds r h)
