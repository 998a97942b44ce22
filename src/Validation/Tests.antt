-- ===== src/Validation/Tests.antt =====
-- Tests of the validation of packages/dev-frontend/src/components.
use hliquity.Base.{inr, ◌≡◌, refl, true, false, none, some, ok, arith}
use hliquity.Decimal
use hliquity.Decimal.{Decimal}
use hliquity.Constants.{defaults}
use hliquity.Trove.Params
use hliquity.Trove.Params.{
  CollateralChange, DebtChange, TroveAdjustmentParams, TroveCreationParams, TroveClosureParams,
}
use hliquity.Trove.Defs
use hliquity.Trove.Defs.{Trove, empty}
use hliquity.Trove.Change
use hliquity.Trove.Change.{TroveChange, what_changed}
use hliquity.StabilityDeposit
use hliquity.StabilityDeposit.{StabilityDeposit, deposit_hchf}
use hliquity.Validation.TroveChecks
use hliquity.Validation.TroveChecks.{
  Description, validate_trove_creation, validate_trove_adjustment, validate_trove_closure,
}
use hliquity.Validation.TroveValidation.{
  SelectedState, context_of, check_change, validate_trove_change,
}
use hliquity.Validation.TroveSafety.{
  Allowed, validate_trove_adjustment_iff, validate_trove_change_sound,
  validate_trove_change_complete,
}
use hliquity.Validation.StabilityValidation
use hliquity.Validation.StabilityValidation.{
  validate_stability_deposit_change, validate_stability_deposit_change_sound,
  validate_stability_deposit_change_complete,
}

-- A ratio of 200% at a price of 0.05, before and after.
abbrev original : Trove
original = record { constants = defaults; collateral = 10_000_000_000_000; debt = 250_000_000_000 }

abbrev edited : Trove
edited = record { constants = defaults; collateral = 12_000_000_000_000; debt = 250_000_000_000 }

abbrev selected : SelectedState
selected = record {
  price = 5_000_000;
  total = record {
    constants = defaults;
    collateral = 1_000_000_000_000_000;
    debt = 20_000_000_000_000;
  };
  account_balance = 3_000_000_000_000;
  hchf_balance = 1_000_000_000;
  number_of_troves = 5;
}

abbrev deposit_more : TroveAdjustmentParams Decimal
deposit_more = Params.collateral_only (CollateralChange.deposit_collateral 2_000_000_000_000)

abbrev change : TroveChange
change = TroveChange.adjustment deposit_more none

abbrev context : TroveChecks.Context
context = record {
  price = 5_000_000;
  total = selected.total;
  account_balance = 3_000_000_000_000;
  hchf_balance = 1_000_000_000;
  number_of_troves = 5;
  original_trove = original;
  resulting_trove = edited;
  recovery_mode = false;
  would_trigger_recovery_mode = false;
  has_connection = true;
}

found : what_changed original edited (some 500_000) ≡ ok (some change)
unfolding what_changed Defs.is_empty Change.what_adjusted Change.collateral_change Decimal.sub
found = refl

in_context : context_of original change 500_000 selected true ≡ ok context
unfolding context_of Change.apply Change.apply_adjustment Defs.subtract Defs.sub_or_zero Defs.add
    Defs.collateral_ratio_is_below_critical Defs.collateral_ratio Decimal.mul_div
in_context = refl

passes : validate_trove_adjustment deposit_more context defaults ≡ ok none
unfolding validate_trove_adjustment Defs.collateral_ratio_is_below_minimum Defs.collateral_ratio
    Decimal.mul_div
passes = refl

validated :
    validate_trove_change original edited 500_000 selected defaults true
    ≡ ok (some change, some (Description.trove_change change))
unfolding validate_trove_change check_change
validated = rw (found, in_context, passes) refl

validate_trove_change_sound_example :
    (what_changed original edited (some 500_000) ≡ ok (some change))
    × ((c : TroveChecks.Context) × (context_of original change 500_000 selected true ≡ ok c)
        × Allowed change c defaults)
validate_trove_change_sound_example =
    validate_trove_change_sound original edited 500_000 selected defaults true validated

validate_trove_change_complete_example :
    validate_trove_change original edited 500_000 selected defaults true
    ≡ ok (some change, some (Description.trove_change change))
validate_trove_change_complete_example =
    validate_trove_change_complete original edited 500_000 selected defaults true change context
      found in_context ((validate_trove_adjustment_iff deposit_more context defaults).0 passes)

-- A deposit of 400 HCHF, and 100 more.
abbrev deposit : StabilityDeposit
deposit = record {
  initial_hchf = 500;
  current_hchf = 400;
  collateral_gain = 10;
  hlqt_reward = 20;
  frontend_tag = "0x0";
}

abbrev wallet : StabilityValidation.Context
wallet = record {
  hchf_balance = 150;
  have_own_frontend = false;
  have_undercollateralized_troves = true;
  has_connection = true;
}

deposit_validated :
    validate_stability_deposit_change deposit 500 wallet
    ≡ ok (
      some (deposit_hchf 100),
      some (StabilityValidation.Description.stability_action (deposit_hchf 100) true),
    )
unfolding validate_stability_deposit_change StabilityDeposit.what_changed
    StabilityValidation.check_change
deposit_validated = refl

deposit_found : StabilityDeposit.what_changed deposit 500 ≡ ok (some (deposit_hchf 100))
unfolding StabilityDeposit.what_changed
deposit_found = refl

validate_stability_deposit_change_sound_example :
    (StabilityDeposit.what_changed deposit 500 ≡ ok (some (deposit_hchf 100)))
    × (wallet.have_own_frontend ≡ false)
    × StabilityValidation.Allowed (deposit_hchf 100) wallet
validate_stability_deposit_change_sound_example =
    validate_stability_deposit_change_sound deposit 500 wallet deposit_validated

validate_stability_deposit_change_complete_example :
    validate_stability_deposit_change deposit 500 wallet
    ≡ ok (
      some (deposit_hchf 100),
      some (StabilityValidation.Description.stability_action (deposit_hchf 100) true),
    )
validate_stability_deposit_change_complete_example =
    validate_stability_deposit_change_complete deposit 500 wallet (deposit_hchf 100) deposit_found
      refl (inr (omega arith))
