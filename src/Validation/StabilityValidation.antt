-- ===== src/Validation/StabilityValidation.antt =====
-- packages/dev-frontend/src/components/Stability/validation/validateStabilityDepositChange.tsx
use hliquity.Base.{
  ◌⊎◌, ◌≤◌, ◌≡◌, Bool, false, ◌&&◌, Option, none, some, Result, ok, ◌>>=◌, arith, >>=-eq-ok, ◌∙◌,
  ap, if◌then◌else◌, inl, inr, Bool-cases,
}
use hliquity.Decimal
use hliquity.Decimal.{Decimal}
use hliquity.StabilityDeposit.{
  StabilityDeposit, StabilityDepositChange, deposit_hchf, withdraw_hchf, what_changed,
}

pub data Description : Type 0 where
  registered_as_frontend : Description
  deposit_exceeds_balance_by : Decimal → Description
  undercollateralized_troves : Description
  -- the action, and whether the wallet is connected
  stability_action : StabilityDepositChange → Bool → Description

pub record Context : Type 0 where
  pub hchf_balance : Decimal
  pub have_own_frontend : Bool
  pub have_undercollateralized_troves : Bool
  pub has_connection : Bool

-- The checks of a change.
unfoldable pub check_change :
    StabilityDepositChange → Context → Result (Option StabilityDepositChange × Option Description)
unfolding Decimal.gt Decimal.sub
check_change (deposit_hchf amount) c =
    if c.has_connection && Decimal.gt amount c.hchf_balance
    then (do
      excess ← Decimal.sub amount c.hchf_balance
      ok (none, some (Description.deposit_exceeds_balance_by excess)))
    else ok (
      some (deposit_hchf amount),
      some (Description.stability_action (deposit_hchf amount) c.has_connection),
    )
check_change (withdraw_hchf amount withdraw_all) c =
    if c.have_undercollateralized_troves
    then ok (none, some Description.undercollateralized_troves)
    else ok (
      some (withdraw_hchf amount withdraw_all),
      some (Description.stability_action (withdraw_hchf amount withdraw_all) c.has_connection),
    )

-- The steps after the test of the frontend.
unfoldable pub check_changed :
    Option StabilityDepositChange
    → Context
    → Result (Option StabilityDepositChange × Option Description)
check_changed none c = ok (none, none)
check_changed (some change) c = check_change change c

unfoldable pub validate_stability_deposit_change :
    StabilityDeposit
    → Decimal
    → Context
    → Result (Option StabilityDepositChange × Option Description)
unfolding check_changed
validate_stability_deposit_change original_deposit edited_hchf c = do
  change ← what_changed original_deposit edited_hchf
  if c.have_own_frontend
      then ok (none, some Description.registered_as_frontend)
      else check_changed change c

-- What a change must satisfy to be let through.
abbrev pub Allowed : StabilityDepositChange → Context → Type 0
Allowed (deposit_hchf amount) c = (c.has_connection ≡ false) ⊎ (amount ≤ c.hchf_balance)
Allowed (withdraw_hchf amount withdraw_all) c = c.have_undercollateralized_troves ≡ false

check_change_iff :
    (change : StabilityDepositChange) (c : Context) {valid : StabilityDepositChange}
    {d : Option Description}
    → check_change change c ≡ ok (some valid, d)
    → (change ≡ valid) × Allowed valid c
unfolding check_change
check_change_iff (deposit_hchf amount) c {valid = deposit_hchf x} h = ground arith
check_change_iff (deposit_hchf amount) c {valid = withdraw_hchf x y} h = ground arith
check_change_iff (withdraw_hchf amount all) c {valid = deposit_hchf x} h = ground arith
check_change_iff (withdraw_hchf amount all) c {valid = withdraw_hchf x y} h = ground arith

check_change-Allowed :
    (change : StabilityDepositChange) (c : Context)
    → Allowed change c
    → check_change change c
      ≡ ok (some change, some (Description.stability_action change c.has_connection))
unfolding check_change
check_change-Allowed (deposit_hchf amount) c h = ground arith
check_change-Allowed (withdraw_hchf amount all) c h = ground arith

check_changed_sound :
    (changed : Option StabilityDepositChange) (c : Context) {change : StabilityDepositChange}
    {d : Option Description}
    → check_changed changed c ≡ ok (some change, d)
    → (changed ≡ some change) × Allowed change c
unfolding check_changed
check_changed_sound none c h = cc
check_changed_sound (some change) c h =
    let (same, allowed) = check_change_iff change c h in (ap some same, allowed)

-- A change is returned as valid only if it is the change of the deposit, the wallet is not
-- registered as a frontend, a deposit is covered by the balance of a connected wallet, and a
-- withdrawal finds no undercollateralized Troves.
pub validate_stability_deposit_change_sound :
    (s : StabilityDeposit) (amount : Decimal) (c : Context) {change : StabilityDepositChange}
    {d : Option Description}
    → validate_stability_deposit_change s amount c ≡ ok (some change, d)
    → (what_changed s amount ≡ ok (some change)) × (c.have_own_frontend ≡ false) × Allowed change c
unfolding validate_stability_deposit_change
validate_stability_deposit_change_sound s amount c {d} h =
    let (changed, found, h') = >>=-eq-ok (what_changed s amount) _ h in
    elim (Bool-cases c.have_own_frontend) [
      | inl own ↦ ground arith
      | inr free ↦
          let (same, allowed) = check_changed_sound changed c {d = d} (ground arith) in
          (found ∙ ap ok same, free, allowed)
    ]

-- And a change that satisfies this is returned as valid.
pub validate_stability_deposit_change_complete :
    (s : StabilityDeposit) (amount : Decimal) (c : Context) (change : StabilityDepositChange)
    → what_changed s amount ≡ ok (some change)
    → c.have_own_frontend ≡ false
    → Allowed change c
    → validate_stability_deposit_change s amount c
      ≡ ok (some change, some (Description.stability_action change c.has_connection))
unfolding validate_stability_deposit_change
validate_stability_deposit_change_complete s amount c change found own allowed =
    rw found (ground (arith, check_change-Allowed change c allowed))
