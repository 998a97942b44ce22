-- ===== src/Store/State.antt =====
-- packages/lib-base/src/HLiquityStore.ts: the base state of the store, and its reduction.
-- A field that holds an object is modelled with the object's identity, which `===` compares.
use Prim.Native.String.{String}
use text.Mathlib.Text.{◌==◌ as str_eq}
use hliquity.Base.{ℕ, Bool, true, false, not, Option, none, some, ◌==◌, if◌then◌else◌}
use hliquity.Decimal
use hliquity.Decimal.{Decimal}
use hliquity.Fees
use hliquity.Fees.{Fees}
use hliquity.Trove.Defs
use hliquity.Trove.Defs.{Trove}
use hliquity.Trove.User
use hliquity.Trove.User.{TroveWithPendingRedistribution}
use hliquity.StabilityDeposit
use hliquity.StabilityDeposit.{StabilityDeposit}
use hliquity.HlqtStake
use hliquity.HlqtStake.{HlqtStake}

pub record Obj (A : Type 0) : Type 0 where
  pub id : ℕ
  pub content : A

pub data FrontendStatus : Type 0 where
  unregistered : FrontendStatus
  registered : Decimal → FrontendStatus

unfoldable pub frontend_status_equals : FrontendStatus → FrontendStatus → Bool
unfolding Decimal.eq
frontend_status_equals unregistered unregistered = true
frontend_status_equals unregistered (registered b) = false
frontend_status_equals (registered a) unregistered = false
frontend_status_equals (registered a) (registered b) = Decimal.eq a b

-- The base state: each field as it is, or, for an update, optional.
pub record BaseState (F : Type 0 → Type 0) : Type 0 where
  pub frontend : F (Obj FrontendStatus)
  pub own_frontend : F (Obj FrontendStatus)
  pub number_of_troves : F ℕ
  pub account_balance : F (Obj Decimal)
  pub hchf_balance : F (Obj Decimal)
  pub hchf_token_address : F String
  pub hlqt_token_address : F String
  pub hlqt_balance : F (Obj Decimal)
  pub uni_token_balance : F (Obj Decimal)
  pub uni_token_allowance : F (Obj Decimal)
  pub remaining_liquidity_mining_hlqt_reward : F (Obj Decimal)
  pub liquidity_mining_stake : F (Obj Decimal)
  pub total_staked_uni_tokens : F (Obj Decimal)
  pub liquidity_mining_hlqt_reward : F (Obj Decimal)
  pub collateral_surplus_balance : F (Obj Decimal)
  pub price : F (Obj Decimal)
  pub hchf_in_stability_pool : F (Obj Decimal)
  pub total : F (Obj Trove)
  pub total_redistributed : F (Obj Trove)
  pub trove_before_redistribution : F (Obj TroveWithPendingRedistribution)
  pub stability_deposit : F (Obj StabilityDeposit)
  pub remaining_stability_pool_hlqt_reward : F (Obj Decimal)
  pub fees_in_normal_mode : F (Obj Fees)
  pub hlqt_stake : F (Obj HlqtStake)
  pub total_staked_hlqt : F (Obj Decimal)
  pub riskiest_trove_before_redistribution : F (Obj TroveWithPendingRedistribution)
  pub user_has_associated_with_hchf : F Bool
  pub user_has_associated_with_hlqt : F Bool
  pub user_has_associated_with_lp_token : F Bool
  pub hchf_token_allowance_of_hchf_contract : F (Obj Decimal)
  pub hlqt_token_allowance_of_hlqt_contract : F (Obj Decimal)

abbrev pub Whole : Type 0
Whole = BaseState (λ A. A)

abbrev pub Partial : Type 0
Partial = BaseState Option

-- `===` on numbers, texts, Booleans and objects; `eq` and `equals` look at the contents.
abbrev pub strict_equals_number : ℕ → ℕ → Bool
strict_equals_number a b = a == b

abbrev pub strict_equals_string : String → String → Bool
strict_equals_string a b = str_eq a b

abbrev pub strict_equals_boolean : Bool → Bool → Bool
strict_equals_boolean a b = Fees.same a b

module _ {A : Type 0} where
  abbrev pub same_object : Obj A → Obj A → Bool
  same_object a b = a.id == b.id

  abbrev pub by_value : (A → A → Bool) → Obj A → Obj A → Bool
  by_value equals a b = equals a.content b.content

  -- `_updateIfChanged` and `_silentlyUpdateIfChanged`, which differ in logging only.
  unfoldable pub update_if_changed : (A → A → Bool) → A → Option A → A
  update_if_changed equals prev none = prev
  update_if_changed equals prev (some next) = if not (equals prev next) then next else prev

-- `_reduce`
unfoldable pub reduce : Whole → Partial → Whole
unfolding update_if_changed
reduce state update = record {
  frontend = update_if_changed (by_value frontend_status_equals) state.frontend update.frontend;
  own_frontend =
      update_if_changed (by_value frontend_status_equals) state.own_frontend update.own_frontend;
  number_of_troves =
      update_if_changed strict_equals_number state.number_of_troves update.number_of_troves;
  account_balance =
      update_if_changed (by_value Decimal.eq) state.account_balance update.account_balance;
  hchf_balance = update_if_changed (by_value Decimal.eq) state.hchf_balance update.hchf_balance;
  hchf_token_address =
      update_if_changed strict_equals_string state.hchf_token_address update.hchf_token_address;
  hlqt_token_address =
      update_if_changed strict_equals_string state.hlqt_token_address update.hlqt_token_address;
  hlqt_balance = update_if_changed (by_value Decimal.eq) state.hlqt_balance update.hlqt_balance;
  uni_token_balance =
      update_if_changed (by_value Decimal.eq) state.uni_token_balance update.uni_token_balance;
  uni_token_allowance =
      update_if_changed (by_value Decimal.eq) state.uni_token_allowance update.uni_token_allowance;
  remaining_liquidity_mining_hlqt_reward =
      update_if_changed (by_value Decimal.eq) state.remaining_liquidity_mining_hlqt_reward
        update.remaining_liquidity_mining_hlqt_reward;
  liquidity_mining_stake =
      update_if_changed (by_value Decimal.eq) state.liquidity_mining_stake
        update.liquidity_mining_stake;
  total_staked_uni_tokens =
      update_if_changed (by_value Decimal.eq) state.total_staked_uni_tokens
        update.total_staked_uni_tokens;
  liquidity_mining_hlqt_reward =
      update_if_changed (by_value Decimal.eq) state.liquidity_mining_hlqt_reward
        update.liquidity_mining_hlqt_reward;
  collateral_surplus_balance =
      update_if_changed (by_value Decimal.eq) state.collateral_surplus_balance
        update.collateral_surplus_balance;
  price = update_if_changed (by_value Decimal.eq) state.price update.price;
  hchf_in_stability_pool =
      update_if_changed (by_value Decimal.eq) state.hchf_in_stability_pool
        update.hchf_in_stability_pool;
  total = update_if_changed (by_value Defs.equals) state.total update.total;
  total_redistributed =
      update_if_changed (by_value Defs.equals) state.total_redistributed update.total_redistributed;
  trove_before_redistribution =
      update_if_changed (by_value User.equals_pending) state.trove_before_redistribution
        update.trove_before_redistribution;
  stability_deposit =
      update_if_changed (by_value StabilityDeposit.equals) state.stability_deposit
        update.stability_deposit;
  remaining_stability_pool_hlqt_reward =
      update_if_changed (by_value Decimal.eq) state.remaining_stability_pool_hlqt_reward
        update.remaining_stability_pool_hlqt_reward;
  fees_in_normal_mode =
      update_if_changed (by_value Fees.equals) state.fees_in_normal_mode update.fees_in_normal_mode;
  hlqt_stake = update_if_changed (by_value HlqtStake.equals) state.hlqt_stake update.hlqt_stake;
  total_staked_hlqt =
      update_if_changed (by_value Decimal.eq) state.total_staked_hlqt update.total_staked_hlqt;
  riskiest_trove_before_redistribution =
      update_if_changed (by_value User.equals_pending) state.riskiest_trove_before_redistribution
        update.riskiest_trove_before_redistribution;
  user_has_associated_with_hchf =
      update_if_changed strict_equals_boolean state.user_has_associated_with_hchf
        update.user_has_associated_with_hchf;
  user_has_associated_with_hlqt =
      update_if_changed strict_equals_boolean state.user_has_associated_with_hlqt
        update.user_has_associated_with_hlqt;
  user_has_associated_with_lp_token =
      update_if_changed strict_equals_boolean state.user_has_associated_with_lp_token
        update.user_has_associated_with_lp_token;
  hchf_token_allowance_of_hchf_contract =
      update_if_changed same_object state.hchf_token_allowance_of_hchf_contract
        update.hchf_token_allowance_of_hchf_contract;
  hlqt_token_allowance_of_hlqt_contract =
      update_if_changed same_object state.hlqt_token_allowance_of_hlqt_contract
        update.hlqt_token_allowance_of_hlqt_contract;
}
