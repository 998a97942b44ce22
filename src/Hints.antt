-- ===== src/Hints.antt =====
-- packages/lib-hashgraph/src/hints.ts and the search for hints of
-- packages/lib-hashgraph/src/HashgraphLiquity.ts. The contracts answer the calls of the search: they
-- are a parameter, and a call may be rejected. Of a floating-point square root only the number of
-- trials is kept, which is a parameter too.
pub mod Trials
pub mod Search
mod Tests
use Prim.Native.String.{String}
use Prim.Native.Nat.{min}
use hliquity.Base.{
  ℕ, zero, suc, ◌-◌, Option, none, some, List, [], ◌∷◌, ◌++◌, Result, ok, err, Error, ◌>>=◌, ◌==◌,
  if◌then◌else◌,
}
use hliquity.Decimal
use hliquity.Decimal.{Decimal}

abbrev pub Address : Type 0
Address = String

abbrev pub address_zero : Address
address_zero = "0x0000000000000000000000000000000000000000"

abbrev pub max_number_of_trials_at_once : ℕ
max_number_of_trials_at_once = 2500

-- The loop of `generateTrials`, with the rounds left; the result is what it yields.
unfoldable pub trials_loop : ℕ → ℕ → List ℕ
trials_loop zero total_number_of_trials = []
trials_loop (suc rounds) total_number_of_trials =
    let number_of_trials = min total_number_of_trials max_number_of_trials_at_once in
    let rest = trials_loop rounds (total_number_of_trials - number_of_trials) in
    if total_number_of_trials == 0 then [] else number_of_trials ∷ rest

-- Each round takes at least one trial away.
unfoldable pub generate_trials : ℕ → List ℕ
unfolding trials_loop
generate_trials total_number_of_trials = trials_loop total_number_of_trials total_number_of_trials

-- The answer of `getApproxHint`.
pub record ApproxHint : Type 0 where
  pub hint_address : Address
  pub latest_random_seed : ℕ
  pub diff : Decimal

-- The calls of the contracts.
pub record HintContracts : Type 0 where
  pub get_troves_count : Result ℕ
  pub get_first : Result Address
  pub get_approx_hint : Decimal → ℕ → ℕ → Result ApproxHint
  pub find_insert_position : Decimal → Address → Address → Result (Address × Address)
  -- `parseInt` of the text of a number, which is rounded where it exceeds 53 bits
  pub parse_int : ℕ → ℕ

-- One of the `results`.
pub record TrialResult : Type 0 where
  pub diff : Decimal
  pub hint_address : Address

-- The state that is passed from one call to the next.
pub record Collected : Type 0 where
  pub latest_random_seed : ℕ
  pub results : List TrialResult

-- `a.diff.lt(b.diff) ? a : b`
unfoldable pub closer : TrialResult → TrialResult → TrialResult
unfolding Decimal.lt
closer a b = if Decimal.lt a.diff b.diff then a else b

-- `results.reduce(closer)`, on a first element and the others.
unfoldable pub closest_from : TrialResult → List TrialResult → TrialResult
closest_from a [] = a
closest_from a (b ∷ results) = closest_from (closer a b) results

-- Without elements, `reduce` throws.
unfoldable pub closest : List TrialResult → Result TrialResult
closest [] = err Error.reduce_of_empty
closest (a ∷ results) = ok (closest_from a results)

module _ (contracts : HintContracts) where
  unfoldable pub collect_approx_hint : Decimal → Collected → ℕ → Result Collected
  collect_approx_hint nominal_collateral_ratio previous number_of_trials = do
    answer ←
        contracts.get_approx_hint nominal_collateral_ratio number_of_trials
          previous.latest_random_seed
    ok (record {
      latest_random_seed = contracts.parse_int answer.latest_random_seed;
      results =
          previous.results
          ++ record { diff = answer.diff; hint_address = answer.hint_address } ∷ [];
    })

  -- The calls one after the other.
  unfoldable pub collect_all : Decimal → Collected → List ℕ → Result Collected
  unfolding collect_approx_hint
  collect_all nominal_collateral_ratio state [] = ok state
  collect_all nominal_collateral_ratio state (number_of_trials ∷ trials) =
      collect_approx_hint nominal_collateral_ratio state number_of_trials >>= λ next.
      collect_all nominal_collateral_ratio next trials

  -- The search by trials: `number_of_trials` of the number of Troves, from a random seed.
  unfoldable pub find_by_trials :
      (number_of_trials : ℕ → ℕ) (seed troves : ℕ) → Decimal → Result (Address × Address)
  find_by_trials number_of_trials seed troves nominal_collateral_ratio = do
    collected ←
        collect_all nominal_collateral_ratio (record { latest_random_seed = seed; results = [] })
          (generate_trials (number_of_trials troves))
    best ← closest collected.results
    contracts.find_insert_position nominal_collateral_ratio best.hint_address best.hint_address

  abbrev pub find_among :
      (number_of_trials : ℕ → ℕ) (seed troves : ℕ)
      → Decimal
      → Option Decimal
      → Result (Address × Address)
  find_among number_of_trials seed troves nominal_collateral_ratio none =
      find_by_trials number_of_trials seed troves nominal_collateral_ratio
  find_among number_of_trials seed troves nominal_collateral_ratio (some infinite) = do
    first ← contracts.get_first
    ok (address_zero, first)

  -- `findHintsForNominalCollateralRatio`
  unfoldable pub find_hints_for_nominal_collateral_ratio :
      (number_of_trials : ℕ → ℕ) (seed : ℕ) → Decimal → Result (Address × Address)
  unfolding Decimal.infinite
  find_hints_for_nominal_collateral_ratio number_of_trials seed nominal_collateral_ratio = do
    troves ← contracts.get_troves_count
    if troves == 0
        then ok (address_zero, address_zero)
        else find_among number_of_trials seed troves nominal_collateral_ratio
            (Decimal.infinite nominal_collateral_ratio)
