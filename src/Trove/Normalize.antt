-- ===== src/Trove/Normalize.antt =====
-- packages/lib-base/src/Trove.ts: the parameters of transactions from objects with optional
-- properties, and `create`, `recreate`, `adjust` and `adjustTo`. An object is the list of its
-- entries.
use Prim.Native.String.{String}
use text.Mathlib.Text.{◌==◌ as str_eq}
use hliquity.Base.{
  Bool, false, not, ◌||◌, Option, none, some, List, [], ◌∷◌, Result, ok, err, Error, ◌>>=◌, ◌>>◌,
  if◌then◌else◌,
}
use hliquity.Decimal
use hliquity.Decimal.{Decimal}
use hliquity.Decimal.BigText.{BigText}
use hliquity.Decimal.Text.{Decimalish}
use hliquity.Decimal.Text
use hliquity.Constants.{Constants}
use hliquity.Trove.Params.{
  CollateralChange, DebtChange, TroveCreationParams, TroveAdjustmentParams, collateral_only,
  debt_only, both,
}
use hliquity.Trove.Defs.{Trove, empty}
use hliquity.Trove.Change
use hliquity.Trove.Change.{TroveChange}

abbrev pub Entries : Type 0 → Type 0
Entries A = List (String × A)

-- `entries.filter(valueIsDefined)`
unfoldable pub defined : {A : Type 0} → Entries (Option A) → Entries A
defined [] = []
defined ((key, none) ∷ entries) = defined entries
defined ((key, some value) ∷ entries) = (key, value) ∷ defined entries

abbrev pub includes : List String → String → Bool
includes [] key = false
includes (allowed ∷ keys) key = str_eq allowed key || includes keys key

abbrev pub allowed_trove_creation_keys : List String
allowed_trove_creation_keys = "depositCollateral" ∷ "borrowHCHF" ∷ []

abbrev pub allowed_trove_adjustment_keys : List String
allowed_trove_adjustment_keys =
    "depositCollateral" ∷ "withdrawCollateral" ∷ "borrowHCHF" ∷ "repayHCHF" ∷ []

-- The keys that are not allowed.
unfoldable pub bad_keys : {A : Type 0} → List String → Entries A → List String
bad_keys allowed [] = []
bad_keys allowed ((key, value) ∷ entries) =
    let rest = bad_keys allowed entries in if includes allowed key then rest else key ∷ rest

abbrev pub refuse : (List String → Error) → List String → Result (Unit {0})
refuse e [] = ok tt
refuse e (key ∷ keys) = err (e (key ∷ keys))

-- `checkAllowedTroveCreationKeys` and `checkAllowedTroveAdjustmentKeys`
unfoldable pub check_allowed_keys : {A : Type 0} → List String → Entries A → Result (Unit {0})
unfolding bad_keys
check_allowed_keys allowed entries = refuse Error.keys_not_allowed (bad_keys allowed entries)

-- A property of `Object.fromEntries(entries)`: the last entry counts.
abbrev pub value_or : {A : Type 0} → Option A → Option A → Option A
value_or none other = other
value_or (some a) other = some a

unfoldable pub property : {A : Type 0} → String → Entries A → Option A
property name [] = none
property name ((key, value) ∷ entries) =
    value_or (property name entries) (if str_eq key name then some value else none)

-- `troveCreationParamsFromEntries`
abbrev pub creation_params_from :
    Option Decimal → Option Decimal → Result (TroveCreationParams Decimal)
creation_params_from (some deposit) (some borrow) =
    ok (record { deposit_collateral = deposit; borrow_hchf = borrow })
creation_params_from none (some borrow) = err (Error.keys_missing ("depositCollateral" ∷ []))
creation_params_from (some deposit) none = err (Error.keys_missing ("borrowHCHF" ∷ []))
creation_params_from none none = err (Error.keys_missing ("depositCollateral" ∷ "borrowHCHF" ∷ []))

unfoldable pub trove_creation_params_from_entries :
    Entries Decimal → Result (TroveCreationParams Decimal)
unfolding property
trove_creation_params_from_entries entries =
    creation_params_from (property "depositCollateral" entries) (property "borrowHCHF" entries)

abbrev pub collateral_change_from :
    Option Decimal → Option Decimal → Result (Option (CollateralChange Decimal))
collateral_change_from (some deposit) (some withdraw) = err Error.collateral_changes_conflict
collateral_change_from (some deposit) none = ok (some (CollateralChange.deposit_collateral deposit))
collateral_change_from none (some withdraw) =
    ok (some (CollateralChange.withdraw_collateral withdraw))
collateral_change_from none none = ok none

abbrev pub debt_change_from : Option Decimal → Option Decimal → Result (Option (DebtChange Decimal))
debt_change_from (some borrow) (some repay) = err Error.debt_changes_conflict
debt_change_from (some borrow) none = ok (some (DebtChange.borrow_hchf borrow))
debt_change_from none (some repay) = ok (some (DebtChange.repay_hchf repay))
debt_change_from none none = ok none

abbrev pub adjustment_params_from :
    Option (CollateralChange Decimal)
    → Option (DebtChange Decimal)
    → Result (TroveAdjustmentParams Decimal)
adjustment_params_from (some collateral) (some debt) = ok (both collateral debt)
adjustment_params_from (some collateral) none = ok (collateral_only collateral)
adjustment_params_from none (some debt) = ok (debt_only debt)
adjustment_params_from none none = err Error.no_parameter

unfoldable pub trove_adjustment_params_from_entries :
    Entries Decimal → Result (TroveAdjustmentParams Decimal)
unfolding property
trove_adjustment_params_from_entries entries = do
  collateral ←
      collateral_change_from (property "depositCollateral" entries)
        (property "withdrawCollateral" entries)
  debt ← debt_change_from (property "borrowHCHF" entries) (property "repayHCHF" entries)
  adjustment_params_from collateral debt

-- `entries.filter(nonZero)`
unfoldable pub non_zero : Entries Decimal → Entries Decimal
unfolding Decimal.is_zero
non_zero [] = []
non_zero ((key, value) ∷ entries) =
    let rest = non_zero entries in if not (Decimal.is_zero value) then (key, value) ∷ rest else rest

-- `change?.type === "creation"` and `change?.type === "adjustment"`, asserted.
abbrev pub creation_of : Option TroveChange → Result (TroveCreationParams Decimal)
creation_of (some (TroveChange.creation params)) = ok params
creation_of _ = err Error.assertion

abbrev pub adjustment_of : Option TroveChange → Result (TroveAdjustmentParams Decimal)
adjustment_of (some (TroveChange.adjustment params set_to_zero)) = ok params
adjustment_of _ = err Error.assertion

unfoldable pub recreate : Trove → Option Decimal → Result (TroveCreationParams Decimal)
recreate that borrowing_rate =
    Change.what_changed (empty that.constants) that borrowing_rate >>= creation_of

unfoldable pub adjust_to : Trove → Trove → Option Decimal → Result (TroveAdjustmentParams Decimal)
adjust_to t that borrowing_rate = Change.what_changed t that borrowing_rate >>= adjustment_of

module _ (big : BigText) where
  -- `entries.map(decimalize)`
  unfoldable pub decimalize : Entries Decimalish → Result (Entries Decimal)
  unfolding Text.from
  decimalize [] = ok []
  decimalize ((key, value) ∷ entries) = do
    d ← Text.from big value
    rest ← decimalize entries
    ok ((key, d) ∷ rest)

  unfoldable pub normalize_trove_creation :
      Entries (Option Decimalish) → Result (TroveCreationParams Decimal)
  unfolding defined check_allowed_keys decimalize
  normalize_trove_creation params = do
    check_allowed_keys allowed_trove_creation_keys (defined params)
    entries ← decimalize (defined params)
    trove_creation_params_from_entries entries

  unfoldable pub normalize_trove_adjustment :
      Entries (Option Decimalish) → Result (TroveAdjustmentParams Decimal)
  unfolding defined check_allowed_keys decimalize non_zero
  normalize_trove_adjustment params = do
    check_allowed_keys allowed_trove_adjustment_keys (defined params)
    entries ← decimalize (defined params)
    trove_adjustment_params_from_entries (non_zero entries)

  unfoldable pub create : Constants → Entries (Option Decimalish) → Option Decimal → Result Trove
  unfolding normalize_trove_creation
  create constants params borrowing_rate = do
    creation ← normalize_trove_creation params
    Change.apply (empty constants) (some (TroveChange.creation creation)) borrowing_rate

  unfoldable pub adjust : Trove → Entries (Option Decimalish) → Option Decimal → Result Trove
  unfolding normalize_trove_adjustment
  adjust t params borrowing_rate = do
    adjustment ← normalize_trove_adjustment params
    Change.apply t (some (TroveChange.adjustment adjustment none)) borrowing_rate
