-- ===== src/StabilityDeposit/Tests.antt =====
-- Tests of packages/lib-base/src/StabilityDeposit.ts.
use hliquity.Base.{◌≡◌, refl, ◌↔◌, Option, none, some, ok, err, Error}
use hliquity.StabilityDeposit.{
  StabilityDeposit, StabilityDepositChange, new_stability_deposit, what_changed, apply,
  apply-what_changed_deposit, withdraw_hchf,
}
use hliquity.Base.{true}

abbrev deposit : StabilityDeposit
deposit = record {
  initial_hchf = 500;
  current_hchf = 400;
  collateral_gain = 10;
  hlqt_reward = 20;
  frontend_tag = "0x0";
}

current_exceeds_initial_refused :
    new_stability_deposit 400 500 0 0 "0x0" ≡ err Error.current_exceeds_initial
unfolding new_stability_deposit
current_exceeds_initial_refused = refl

apply-what_changed_deposit_example :
    (change : Option StabilityDepositChange) × (what_changed deposit 0 ≡ ok change)
    × (apply deposit change ≡ ok 0)
    × ((change ≡ none) ↔ (0 ≡ deposit.current_hchf))
apply-what_changed_deposit_example = apply-what_changed_deposit deposit 0

withdraw_all : what_changed deposit 0 ≡ ok (some (withdraw_hchf 400 true))
unfolding what_changed
withdraw_all = refl
