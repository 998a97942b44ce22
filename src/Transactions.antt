-- ===== src/Transactions.antt =====
-- packages/lib-hashgraph/src/HashgraphLiquity.ts: the transactions that are populated, with
-- packages/lib-hashgraph/src/contract_functions.ts and packages/lib-hashgraph/src/gas.ts. A
-- transaction is what is handed to the network's SDK; what a receipt's `getDetails` reads is left out.
pub mod Troves
pub mod Redemptions
pub mod Pools
pub mod Receipts
pub mod Effects
pub mod Opening
pub mod Limits
mod Tests
use Prim.Native.String.{String}
use text.Mathlib.Text.{◌==◌ as str_eq}
use hliquity.Base.{
  ℕ, ◌+◌, Bool, true, false, not, ◌||◌, Option, none, some, List, [], ◌∷◌, Result, ok, err, ◌==◌,
}
use hliquity.Decimal.{Decimal}
use hliquity.Decimal.BigText.{Text, BigText}
use hliquity.Decimal.Text.{Decimalish, decimal, other_object, string, number, other, is_nil}
use hliquity.Hints.{Address, ApproxHint, HintContracts, find_hints_for_nominal_collateral_ratio}
use hliquity.Readings.Contracts.{HashgraphLiquity, get_number_of_troves}

-- An argument of a contract's function; `d.bigNumber` is the number of the Decimal.
pub data Parameter : Type 0 where
  uint256 : ℕ → Parameter
  address : Address → Parameter
  address_array : List Address → Parameter
  boolean : Bool → Parameter

-- `Hbar.fromTinybars` and `Hbar.fromString`.
pub data Hbar : Type 0 where
  from_tinybars : ℕ → Hbar
  from_string : Text → Hbar

pub data Contract : Type 0 where
  borrower_operations trove_manager stability_pool hlqt_staking saucer_swap_pool : Contract
  token : Address → Contract

pub record ContractExecuteTransaction : Type 0 where
  pub contract : Contract
  pub amount : Hbar
  pub gas : ℕ
  pub function_name : String
  pub function_parameters : List Parameter

pub record PopulatedTransaction : Type 0 where
  pub raw : ContractExecuteTransaction
  pub gas_limit : ℕ
  pub gas_headroom : ℕ

abbrev pub gas_for_potential_last_fee_operation_time_update : ℕ
gas_for_potential_last_fee_operation_time_update = 10_000

abbrev pub gas_for_potential_list_traversal : ℕ
gas_for_potential_list_traversal = 25_000

abbrev pub gas_for_hlqt_issuance : ℕ
gas_for_hlqt_issuance = 50_000

abbrev pub gas_for_unipool_reward_update : ℕ
gas_for_unipool_reward_update = 20_000

-- `Decimal.from(0.005)` and `Decimal.from(0.001)`
abbrev pub default_borrowing_rate_slippage_tolerance : Decimal
default_borrowing_rate_slippage_tolerance = 500_000

abbrev pub default_redemption_rate_slippage_tolerance : Decimal
default_redemption_rate_slippage_tolerance = 100_000

abbrev pub redeem_max_iterations : ℕ
redeem_max_iterations = 70

-- The answer of `getRedemptionHints`.
pub record RedemptionHints : Type 0 where
  pub first_redemption_hint : Address
  pub partial_redemption_hint_nicr : ℕ
  pub truncated_hchf_amount : ℕ

-- Where the transactions take their values from, beside the readings: the conversions of texts, the
-- contracts of the hints, and the square root and random seed of their search.
pub record Sources : Type 0 where
  pub big : BigText
  pub liquity : HashgraphLiquity
  pub get_first : Result Address
  pub get_approx_hint : Decimal → ℕ → ℕ → Result ApproxHint
  pub find_insert_position : Decimal → Address → Address → Result (Address × Address)
  pub get_redemption_hints : Decimal → Decimal → ℕ → Result RedemptionHints
  pub number_of_trials : ℕ → ℕ
  pub seed : ℕ
  pub parse_int : ℕ → ℕ

-- `TypedContractExecuteTransaction`; without an amount none is sent.
unfoldable pub typed_contract_execute_transaction :
    Contract → String → ℕ → Option Hbar → List Parameter → ContractExecuteTransaction
typed_contract_execute_transaction contract function_name gas none parameters = record {
  contract = contract;
  amount = from_tinybars 0;
  gas = gas;
  function_name = function_name;
  function_parameters = parameters;
}
typed_contract_execute_transaction contract function_name gas (some hbar) parameters = record {
  contract = contract;
  amount = hbar;
  gas = gas;
  function_name = function_name;
  function_parameters = parameters;
}

-- `getPopulatedHashgraphLiquityTransaction`, of the transaction.
unfoldable pub populated : ContractExecuteTransaction → ℕ → PopulatedTransaction
populated raw gas_limit = record { raw = raw; gas_limit = gas_limit; gas_headroom = 0 }

-- A transaction without amount.
unfoldable pub populate : Contract → String → ℕ → List Parameter → PopulatedTransaction
unfolding populated typed_contract_execute_transaction
populate contract function_name gas parameters =
    populated (typed_contract_execute_transaction contract function_name gas none parameters) gas

-- Whether a value counts as true; the text of a number is "0" or "NaN" for those that do not.
abbrev pub is_truthy : Decimalish → Bool
is_truthy (decimal d) = true
is_truthy other_object = true
is_truthy (string s) = not (is_nil s)
is_truthy (number []) = true
is_truthy (number (c ∷ [])) = not (c == b'0')
is_truthy (number (c ∷ d ∷ s)) = not (c == b'N')
is_truthy other = false

module _ (sources : Sources) where
  -- The contracts of the search, with the number of Troves that is read.
  abbrev pub hint_contracts : HintContracts
  hint_contracts = record {
    get_troves_count = get_number_of_troves sources.liquity none;
    get_first = sources.get_first;
    get_approx_hint = sources.get_approx_hint;
    find_insert_position = sources.find_insert_position;
    parse_int = sources.parse_int;
  }

  abbrev pub find_hints : Decimal → Result (Address × Address)
  find_hints nominal_collateral_ratio =
      find_hints_for_nominal_collateral_ratio hint_contracts sources.number_of_trials sources.seed
        nominal_collateral_ratio
