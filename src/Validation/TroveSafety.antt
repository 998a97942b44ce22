-- ===== src/Validation/TroveSafety.antt =====
-- What the validation of packages/dev-frontend/src/components/Trove/validation lets through.
use mathlib.Core.Path.{subst}
use hliquity.Base.{
  ◌⊎◌, ◌≤◌, ◌≡◌, ◌≢◌, refl, ◌↔◌, Bool, true, false, Option, none, some, ok, arith, >>=-eq-ok, ◌∙◌,
  ap,
}
use hliquity.Decimal.{Decimal}
use hliquity.Constants.{Constants}
use hliquity.Trove.Params
use hliquity.Trove.Params.{
  TroveCreationParams, TroveAdjustmentParams, TroveClosureParams, deposited, withdrawn, borrowed,
  repaid, CollateralChange, DebtChange,
}
use hliquity.Trove.Defs.{
  Trove, collateral_ratio, collateral_ratio_is_below_minimum, collateral_ratio_is_below_critical,
  is_openable_in_recovery_mode,
}
use hliquity.Trove.Change.{TroveChange, what_changed}
use hliquity.Validation.TroveChecks.{
  Description, Context, validate_trove_creation, validate_trove_adjustment, validate_trove_closure,
}
use hliquity.Validation.TroveValidation.{
  SelectedState, context_of, check_change, verdict, validate_changed, validate_trove_change,
}

-- An optional amount is at most the balance.
abbrev pub AtMost : Option Decimal → Decimal → Type 0
AtMost none balance = Unit
AtMost (some amount) balance = amount ≤ balance

-- The ratio of the resulting Trove.
abbrev pub new_ratio : Context → Decimal
new_ratio c = collateral_ratio c.resulting_trove c.price

-- Outside recovery mode the Trove has the minimum ratio, and recovery mode is not triggered.
abbrev pub KeepsNormalMode : Context → Type 0
KeepsNormalMode c =
    (c.recovery_mode ≡ true)
    ⊎ ((c.resulting_trove.constants.minimum_collateral_ratio ≤ new_ratio c)
        × (c.would_trigger_recovery_mode ≡ false))

pub record CreationAllowed (p : TroveCreationParams Decimal) (c : Context) (k : Constants)
    : Type 0 where
  pub borrows_enough : k.hchf_minimum_net_debt ≤ p.borrow_hchf
  pub in_recovery :
      (c.recovery_mode ≡ false)
      ⊎ (c.resulting_trove.constants.critical_collateral_ratio ≤ new_ratio c)
  pub in_normal_mode : KeepsNormalMode c
  pub connected : c.has_connection ≡ true
  pub funded : p.deposit_collateral ≤ c.account_balance

-- A creation passes its check exactly if it is allowed.
pub validate_trove_creation_iff :
    (p : TroveCreationParams Decimal) (c : Context) (k : Constants)
    → (validate_trove_creation p c k ≡ ok none) ↔ CreationAllowed p c k
unfolding validate_trove_creation is_openable_in_recovery_mode collateral_ratio_is_below_minimum
validate_trove_creation_iff p c k = (λ h. ground arith, λ h. ground arith)

pub record AdjustmentAllowed (p : TroveAdjustmentParams Decimal) (c : Context) (k : Constants)
    : Type 0 where
  pub no_withdrawal : (c.recovery_mode ≡ false) ⊎ (withdrawn (Params.collateral_change p) ≡ none)
  pub borrows_safely :
      (c.recovery_mode ≡ false)
      ⊎ ((borrowed (Params.debt_change p) ≡ none)
          ⊎ ((c.resulting_trove.constants.critical_collateral_ratio ≤ new_ratio c)
              × (collateral_ratio c.original_trove c.price ≤ new_ratio c)))
  pub in_normal_mode : KeepsNormalMode c
  pub debt_left :
      (repaid (Params.debt_change p) ≡ none) ⊎ (k.hchf_minimum_debt ≤ c.resulting_trove.debt)
  pub repay_funded : AtMost (repaid (Params.debt_change p)) c.hchf_balance
  pub deposit_funded : AtMost (deposited (Params.collateral_change p)) c.account_balance

-- An adjustment passes its check exactly if it is allowed.
pub validate_trove_adjustment_iff :
    (p : TroveAdjustmentParams Decimal) (c : Context) (k : Constants)
    → (validate_trove_adjustment p c k ≡ ok none) ↔ AdjustmentAllowed p c k
unfolding validate_trove_adjustment collateral_ratio_is_below_critical
    collateral_ratio_is_below_minimum
validate_trove_adjustment_iff (Params.collateral_only (CollateralChange.deposit_collateral x)) c k =
    (λ h. ground arith, λ h. ground arith)
validate_trove_adjustment_iff (Params.collateral_only (CollateralChange.withdraw_collateral x)) c
      k =
    (λ h. ground arith, λ h. ground arith)
validate_trove_adjustment_iff (Params.debt_only (DebtChange.borrow_hchf y)) c k =
    (λ h. ground arith, λ h. ground arith)
validate_trove_adjustment_iff (Params.debt_only (DebtChange.repay_hchf y)) c k =
    (λ h. ground arith, λ h. ground arith)
validate_trove_adjustment_iff
      (Params.both (CollateralChange.deposit_collateral x) (DebtChange.borrow_hchf y)) c k =
    (λ h. ground arith, λ h. ground arith)
validate_trove_adjustment_iff
      (Params.both (CollateralChange.deposit_collateral x) (DebtChange.repay_hchf y)) c k =
    (λ h. ground arith, λ h. ground arith)
validate_trove_adjustment_iff
      (Params.both (CollateralChange.withdraw_collateral x) (DebtChange.borrow_hchf y)) c k =
    (λ h. ground arith, λ h. ground arith)
validate_trove_adjustment_iff
      (Params.both (CollateralChange.withdraw_collateral x) (DebtChange.repay_hchf y)) c k =
    (λ h. ground arith, λ h. ground arith)

pub record ClosureAllowed (p : TroveClosureParams Decimal) (c : Context) : Type 0 where
  pub others : c.number_of_troves ≢ 1
  pub normal_mode : c.recovery_mode ≡ false
  pub stays_normal : c.would_trigger_recovery_mode ≡ false
  pub repay_funded : AtMost p.repay_hchf c.hchf_balance

-- A closure passes its check exactly if it is allowed.
pub validate_trove_closure_iff :
    (p : TroveClosureParams Decimal) (c : Context) (k : Constants)
    → (validate_trove_closure p c k ≡ ok none) ↔ ClosureAllowed p c
unfolding validate_trove_closure
validate_trove_closure_iff p c k = (λ h. ground arith, λ h. ground arith)

-- What a change must satisfy to be let through.
abbrev pub Allowed : TroveChange → Context → Constants → Type 0
Allowed (TroveChange.invalid_creation t e) c k = ⊥
Allowed (TroveChange.creation p) c k = CreationAllowed p c k
Allowed (TroveChange.closure p) c k = ClosureAllowed p c
Allowed (TroveChange.adjustment p z) c k = AdjustmentAllowed p c k

check_change_iff :
    (change : TroveChange) (c : Context) (k : Constants)
    → (check_change change c k ≡ ok none) ↔ Allowed change c k
unfolding check_change
check_change_iff (TroveChange.invalid_creation t e) c k = (λ h. cc, λ h. absurd h)
check_change_iff (TroveChange.creation p) c k = validate_trove_creation_iff p c k
check_change_iff (TroveChange.closure p) c k = validate_trove_closure_iff p c k
check_change_iff (TroveChange.adjustment p z) c k = validate_trove_adjustment_iff p c k

verdict_inv :
    (change : TroveChange) (problem : Option Description) {valid : TroveChange}
    {d : Option Description}
    → ok (verdict change problem) ≡ ok (some valid, d)
    → (problem ≡ none) × (change ≡ valid)
verdict_inv change none h = (refl, cc)
verdict_inv change (some problem) h = cc

validate_changed_sound :
    (t : Trove) (rate : Decimal) (s : SelectedState) (k : Constants) (connected : Bool)
    (changed : Option TroveChange) {change : TroveChange} {d : Option Description}
    → validate_changed t rate s k connected changed ≡ ok (some change, d)
    → (changed ≡ some change)
      × ((c : Context) × (context_of t change rate s connected ≡ ok c) × Allowed change c k)
unfolding validate_changed
validate_changed_sound t rate s k connected none h = cc
validate_changed_sound t rate s k connected (some change) h =
    let (c, context, h') = >>=-eq-ok (context_of t change rate s connected) _ h in
    let (problem, checked, h'') = >>=-eq-ok (check_change change c k) _ h' in
    let (silent, same) = verdict_inv change problem h'' in
    let allowed = (check_change_iff change c k).0 (checked ∙ ap ok silent) in
    subst
      (λ (v : TroveChange).
        (some change ≡ some v)
        × ((x : Context) × (context_of t v rate s connected ≡ ok x) × Allowed v x k))
      same (refl, (c, context, allowed))

-- A change is returned as valid only if it is the change between the two Troves, it is applied
-- with success, and in the context of that application it is allowed.
pub validate_trove_change_sound :
    (t that : Trove) (rate : Decimal) (s : SelectedState) (k : Constants) (connected : Bool)
    {change : TroveChange} {d : Option Description}
    → validate_trove_change t that rate s k connected ≡ ok (some change, d)
    → (what_changed t that (some rate) ≡ ok (some change))
      × ((c : Context) × (context_of t change rate s connected ≡ ok c) × Allowed change c k)
unfolding validate_trove_change
validate_trove_change_sound t that rate s k connected h =
    let (changed, found, h') = >>=-eq-ok (what_changed t that (some rate)) _ h in
    let (same, rest) = validate_changed_sound t rate s k connected changed h' in
    (found ∙ ap ok same, rest)

-- And every change between the two Troves that is applied with success and is then allowed is
-- returned as valid.
pub validate_trove_change_complete :
    (t that : Trove) (rate : Decimal) (s : SelectedState) (k : Constants) (connected : Bool)
    (change : TroveChange) (c : Context)
    → what_changed t that (some rate) ≡ ok (some change)
    → context_of t change rate s connected ≡ ok c
    → Allowed change c k
    → validate_trove_change t that rate s k connected
      ≡ ok (some change, some (Description.trove_change change))
unfolding validate_trove_change
validate_trove_change_complete t that rate s k connected change c found context allowed =
    rw (found, context, (check_change_iff change c k).1 allowed) refl
