-- ===== src/Constants.antt =====
-- packages/lib-base/src/constants.ts: the constants of a deployment and their default values.
use hliquity.Decimal.{Decimal}

pub record Constants : Type 0 where
  pub critical_collateral_ratio : Decimal
  pub minimum_collateral_ratio : Decimal
  pub hchf_liquidation_reserve : Decimal
  pub hchf_minimum_net_debt : Decimal
  pub hchf_minimum_debt : Decimal
  pub minimum_borrowing_rate : Decimal
  pub maximum_borrowing_rate : Decimal
  pub minimum_redemption_rate : Decimal
  pub minute_decay_factor : Decimal
  pub beta : Decimal

-- The defaults, in units of 10^-8.
abbrev pub defaults : Constants
defaults = record {
  critical_collateral_ratio = 150_000_000;
  minimum_collateral_ratio = 110_000_000;
  hchf_liquidation_reserve = 2_000_000_000;
  hchf_minimum_net_debt = 178_000_000_000;
  hchf_minimum_debt = 180_000_000_000;
  minimum_borrowing_rate = 500_000;
  maximum_borrowing_rate = 5_000_000;
  minimum_redemption_rate = 500_000;
  minute_decay_factor = 99_903_775;
  beta = 200_000_000;
}
