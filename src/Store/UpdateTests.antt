-- ===== src/Store/UpdateTests.antt =====
-- Tests of the updates and the listeners of packages/lib-base/src/HLiquityStore.ts.
use hliquity.Base.{
  ℕ, zero, suc, ◌≡◌, refl, true, false, none, some, List, [], ◌∷◌, ok, err, Error, arith,
}
use hliquity.Fees
use hliquity.Decimal
use hliquity.Store.State.{Whole, reduce}
use hliquity.Store.Derive.{DerivedState, derive, reduce_derived}
use hliquity.Store.Rates.{HasRates, derive-HasRates}
use hliquity.Store.Agrees.{Agrees, reduce_derived-Agrees}
use hliquity.Store.Listeners.{
  Listeners, Op, adds, removes, removes_it, perform, delete, has, notify, notify_each, notify_calls,
  notify_unsubscribed,
}
use hliquity.Store.Update.{Store}
use hliquity.Store.Tests.{obj, loaded, fetched, day_old}

-- Listener 0 unsubscribes listener 1 and subscribes another one.
abbrev react : ℕ → List Op
react zero = removes 1 ∷ adds ∷ []
react (suc _) = []

abbrev three : Listeners
three = record { listeners = 0 ∷ 1 ∷ 2 ∷ []; fresh = 3 }

notified_two : (notify react three).0 ≡ 0 ∷ 2 ∷ []
unfolding notify notify_each perform delete
notified_two = refl

keeps_two : (x : ℕ) → removes_it 2 (react x) ≡ false
keeps_two zero = refl
keeps_two (suc x) = refl

notify_calls_example : has 2 (notify react three).0 ≡ has 2 three.listeners
notify_calls_example = notify_calls react 2 three keeps_two

-- Listener 0 keeps listener 1 from being called.
notify_unsubscribed_example : has 1 (notify_each react (0 ∷ 1 ∷ 2 ∷ []) three).0 ≡ false
notify_unsubscribed_example =
    notify_unsubscribed react (1 ∷ 2 ∷ []) 0 1 three (omega arith) refl refl refl

derives :
    (d : DerivedState) × (derive 100 (reduce loaded fetched) ≡ ok d)
    × HasRates (reduce loaded fetched) d
unfolding reduce Decimal.eq Fees.equals Fees.minutes_since_last_fee_operation
derives =
    derive-HasRates 100 (reduce loaded fetched) (omega arith) (omega arith) (omega arith)
      (omega arith)

derives_loaded : (d : DerivedState) × (derive 0 loaded ≡ ok d) × HasRates loaded d
unfolding Fees.minutes_since_last_fee_operation
derives_loaded = derive-HasRates 0 loaded (omega arith) (omega arith) (omega arith) (omega arith)

abbrev running : Store ℕ
running = record {
  base = some loaded;
  derived = some derives_loaded.0;
  extra = none;
  loaded = true;
  listeners = three;
  fresh = 100;
}

reduce_derived-Agrees_example : Agrees (reduce_derived derives_loaded.0 derives.0) derives.0
reduce_derived-Agrees_example = reduce_derived-Agrees derives_loaded.0 derives.0

-- Fees with a decay factor of one.
abbrev broken : Whole
broken = record loaded {
  fees_in_normal_mode = obj 9 (record day_old { minute_decay_factor = 100_000_000 });
}

underivable : derive 100 broken ≡ err Error.assertion
unfolding derive Fees.set_recovery_mode Fees.new_fees Decimal.lt
underivable = refl
