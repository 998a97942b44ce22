-- ===== src/Validation/TroveValidation.antt =====
-- packages/dev-frontend/src/components/Trove/validation/validateTroveChange.tsx: the validation of a
-- change of a Trove as a whole.
use hliquity.Base.{ℕ, Bool, Option, none, some, Result, ok, ◌>>=◌}
use hliquity.Decimal.{Decimal}
use hliquity.Constants.{Constants}
use hliquity.Trove.Defs.{Trove, add, subtract, collateral_ratio_is_below_critical}
use hliquity.Trove.Change.{TroveChange, what_changed, apply}
use hliquity.Validation.TroveChecks.{
  Description, Context, validate_trove_creation, validate_trove_adjustment, validate_trove_closure,
}

-- `selectForTroveChangeValidation`
pub record SelectedState : Type 0 where
  pub price : Decimal
  pub total : Trove
  pub account_balance : Decimal
  pub hchf_balance : Decimal
  pub number_of_troves : ℕ

-- The context: the change is applied again, and the total follows it.
unfoldable pub context_of : Trove → TroveChange → Decimal → SelectedState → Bool → Result Context
context_of original_trove change borrowing_rate s has_connection = do
  resulting_trove ← apply original_trove (some change) (some borrowing_rate)
  others ← subtract s.total original_trove
  ok (record {
    price = s.price;
    total = s.total;
    account_balance = s.account_balance;
    hchf_balance = s.hchf_balance;
    number_of_troves = s.number_of_troves;
    original_trove = original_trove;
    resulting_trove = resulting_trove;
    recovery_mode = collateral_ratio_is_below_critical s.total s.price;
    would_trigger_recovery_mode =
        collateral_ratio_is_below_critical (add others resulting_trove) s.price;
    has_connection = has_connection;
  })

-- The check of a change, by its type.
unfoldable pub check_change : TroveChange → Context → Constants → Result (Option Description)
check_change (TroveChange.invalid_creation trove error) c constants =
    ok (some (Description.debt_at_least constants.hchf_minimum_debt))
check_change (TroveChange.creation params) c constants = validate_trove_creation params c constants
check_change (TroveChange.closure params) c constants = validate_trove_closure params c constants
check_change (TroveChange.adjustment params set_to_zero) c constants =
    validate_trove_adjustment params c constants

-- The valid change and the description: the change is returned only if its check says nothing.
abbrev pub verdict : TroveChange → Option Description → Option TroveChange × Option Description
verdict change (some problem) = (none, some problem)
verdict change none = (some change, some (Description.trove_change change))

-- The steps after `whatChanged`.
unfoldable pub validate_changed :
    Trove
    → Decimal
    → SelectedState
    → Constants
    → Bool
    → Option TroveChange
    → Result (Option TroveChange × Option Description)
validate_changed original_trove borrowing_rate s constants has_connection none = ok (none, none)
validate_changed original_trove borrowing_rate s constants has_connection (some change) = do
  context ← context_of original_trove change borrowing_rate s has_connection
  problem ← check_change change context constants
  ok (verdict change problem)

unfoldable pub validate_trove_change :
    Trove
    → Trove
    → Decimal
    → SelectedState
    → Constants
    → Bool
    → Result (Option TroveChange × Option Description)
unfolding validate_changed
validate_trove_change original_trove adjusted_trove borrowing_rate s constants has_connection = do
  change ← what_changed original_trove adjusted_trove (some borrowing_rate)
  validate_changed original_trove borrowing_rate s constants has_connection change
