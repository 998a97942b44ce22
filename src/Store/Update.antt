-- ===== src/Store/Update.antt =====
-- `_load` and `_update` of packages/lib-base/src/HLiquityStore.ts.
-- The extra state and `_reduceExtra` belong to a subclass: they are parameters, as is what the
-- listeners and `onLoaded` do to the set of listeners. The states that the listeners receive and
-- the logging are left out.
use hliquity.Base.{
  ℕ, ◌+◌, ◌≡◌, refl, Bool, true, Option, none, some, List, [], Result, ok, err, Error,
  if◌then◌else◌,
}
use hliquity.Store.State.{Whole, Partial, reduce}
use hliquity.Store.Derive.{DerivedState, derive, reduce_derived}
use hliquity.Store.Listeners.{Listeners, Op, perform, notify}

pub record Store (Extra : Type 0) : Type 0 where
  pub base : Option Whole
  pub derived : Option DerivedState
  pub extra : Option Extra
  pub loaded : Bool
  pub listeners : Listeners
  -- the next identity of an object
  pub fresh : ℕ

-- The store after a call, what the call threw, and the listeners that were called.
pub record Outcome (Extra : Type 0) : Type 0 where
  pub store : Store Extra
  pub thrown : Option Error
  pub called : List ℕ

abbrev pub throws : {Extra : Type 0} → Error → Store Extra → Outcome Extra
throws e s = record { store = s; thrown = some e; called = [] }

-- `if (baseStateUpdate) ...`
abbrev pub reduced : Whole → Option Partial → Whole
reduced b none = b
reduced b (some update) = reduce b update

module _ {Extra Update : Type 0} (reduce_extra : Extra → Update → Extra) (react : ℕ → List Op) where
  -- The end of `_update`.
  unfoldable pub notified : Store Extra → Outcome Extra
  notified s =
      let (called, listeners) = notify react s.listeners in
      record { store = record s { listeners = listeners }; thrown = none; called = called }

  -- From the update of the extra state on.
  unfoldable pub update_extra : Option Update → Option Extra → Store Extra → Outcome Extra
  unfolding notified
  update_extra none extra s = notified s
  update_extra (some update) none s = throws Error.assertion s
  update_extra (some update) (some extra) s =
      notified (record s { extra = some (reduce_extra extra update) })

  -- With what `_derive` returned.
  unfoldable pub update_derived :
      Result DerivedState → DerivedState → Option Update → Store Extra → Outcome Extra
  unfolding update_extra
  update_derived (err e) d extra_update s = throws e s
  update_derived (ok u) d extra_update s =
      update_extra extra_update s.extra
        (record s { derived = some (reduce_derived d u); fresh = s.fresh + 4 })

  -- With the two states that the first assertion asks for.
  unfoldable pub update_states :
      Option Whole
      → Option DerivedState
      → Option Partial
      → Option Update
      → Store Extra
      → Outcome Extra
  unfolding update_derived
  update_states none d base_update extra_update s = throws Error.assertion s
  update_states (some b) none base_update extra_update s = throws Error.assertion s
  update_states (some b) (some d) base_update extra_update s =
      update_derived (derive s.fresh (reduced b base_update)) d extra_update
        (record s { base = some (reduced b base_update) })

  unfoldable pub update : Option Partial → Option Update → Store Extra → Outcome Extra
  unfolding update_states
  update base_update extra_update s = update_states s.base s.derived base_update extra_update s

  -- `_load`, with what `_derive` returned.
  unfoldable pub load_derived :
      Result DerivedState → Option Extra → List Op → Store Extra → Outcome Extra
  load_derived (err e) extra on_loaded s = throws e s
  load_derived (ok d) extra on_loaded s = update none none (record s {
    derived = some d;
    extra = extra;
    loaded = true;
    listeners = perform on_loaded s.listeners;
    fresh = s.fresh + 4;
  })

  unfoldable pub load : Whole → Option Extra → List Op → Store Extra → Outcome Extra
  unfolding load_derived
  load b extra on_loaded s =
      if s.loaded
      then throws Error.assertion s
      else load_derived (derive s.fresh b) extra on_loaded (record s { base = some b })

  -- A base state that cannot be derived is kept all the same, with the old derived state: `_update`
  -- throws, and no listener is called.
  pub update_underivable :
      (base_update : Option Partial) (extra_update : Option Update) (s : Store Extra) (b : Whole)
      (d : DerivedState) (e : Error)
      → s.base ≡ some b
      → s.derived ≡ some d
      → derive s.fresh (reduced b base_update) ≡ err e
      → update base_update extra_update s
        ≡ throws e (record s { base = some (reduced b base_update) })
  unfolding update
  update_underivable base_update extra_update s b d e has_base has_derived h =
      rw (has_base, has_derived, h) refl
