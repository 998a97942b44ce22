-- ===== src/Store/Identity.antt =====
-- The comparisons of packages/lib-base/src/HLiquityStore.ts: what equals itself, and which objects a
-- reduction replaces.
use text.Mathlib.TextPositions.{eq_refl}
use hliquity.Base.{Bool, true, false, some, ◌≡◌, ◌≢◌, refl, arith}
use hliquity.Decimal
use hliquity.Decimal.{Decimal}
use hliquity.Fees
use hliquity.Fees.{Fees}
use hliquity.Trove.Defs
use hliquity.Trove.Defs.{Trove}
use hliquity.Trove.User
use hliquity.Trove.User.{UserTroveStatus, UserTrove, TroveWithPendingRedistribution}
use hliquity.Store.State.{Obj, Whole, Partial, strict_equals_boolean, reduce}

pub decimal_refl : (d : Decimal) → Decimal.eq d d ≡ true
unfolding Decimal.eq
decimal_refl d = ground arith

pub boolean_refl : (b : Bool) → strict_equals_boolean b b ≡ true
boolean_refl true = refl
boolean_refl false = refl

trove_refl : (t : Trove) → Defs.equals t t ≡ true
unfolding Defs.equals
trove_refl t = ground arith

status_refl : (s : UserTroveStatus) → User.same_status s s ≡ true
status_refl s = ground arith

pub user_trove_refl : (t : UserTrove) → User.equals t t ≡ true
unfolding User.equals
user_trove_refl t = rw (trove_refl t.trove, eq_refl t.owner_address) (status_refl t.status)

pub fees_refl : (f : Fees) → Fees.equals f f ≡ true
unfolding Fees.equals
fees_refl f = ground (arith, boolean_refl f.recovery_mode)

-- A price object with the price that is known is dropped, while an allowance object with the known
-- allowance replaces the one in the state, if it is another object: allowances are compared by `===`.
pub allowance_replaced :
    (state : Whole) (update : Partial) (price allowance : Obj Decimal)
    → update.price ≡ some price
    → update.hchf_token_allowance_of_hchf_contract ≡ some allowance
    → price.content ≡ state.price.content
    → allowance.id ≢ state.hchf_token_allowance_of_hchf_contract.id
    → ((reduce state update).price ≡ state.price)
      × ((reduce state update).hchf_token_allowance_of_hchf_contract ≡ allowance)
unfolding reduce Decimal.eq
allowance_replaced state update price allowance p a same fresh = (ground arith, ground arith)
