-- ===== src/Hints/Search.antt =====
-- The search for hints of packages/lib-hashgraph/src/HashgraphLiquity.ts: which calls it makes, and
-- which hint it takes.
use hliquity.Base.{
  ℕ, ◌≤◌, ◌<◌, ◌≡◌, refl, ap, ◌∙◌, List, [], ◌∷◌, ◌++◌, ◌⊎◌, inl, inr, ◌≢◌, ok, arith, All, ◌==◌,
  ltb, Bool-cases, false,
}
use mathlib.Core.List.{Memᴰ, append-nil, append_assoc}
use hliquity.Decimal
use hliquity.Decimal.{Decimal}
use hliquity.Hints.{
  Address, address_zero, ApproxHint, HintContracts, TrialResult, closer, closest_from, closest,
  collect_approx_hint, collect_all, find_by_trials, find_hints_for_nominal_collateral_ratio,
  generate_trials,
}
use hliquity.Hints.Trials.{sum, generate_trials_lem}

-- An element that is no further away than any.
pub record IsClosest (best : TrialResult) (results : List TrialResult) : Type 0 where
  pub member : Memᴰ best results
  pub least : All (λ r. best.diff ≤ r.diff) results

closer-least :
    (a b : TrialResult)
    → ((closer a b ≡ a) × (a.diff ≤ b.diff)) ⊎ ((closer a b ≡ b) × (b.diff ≤ a.diff))
unfolding closer
closer-least a b = elim (Bool-cases (ltb a.diff b.diff)) [
  | inl less ↦ inl (rw less refl, ground arith)
  | inr more ↦ inr (rw more refl, ground arith)
]

-- The closer one of the first two stands for both.
step-IsClosest :
    (best c a b : TrialResult) (results : List TrialResult)
    → ((c ≡ a) × (a.diff ≤ b.diff)) ⊎ ((c ≡ b) × (b.diff ≤ a.diff))
    → IsClosest best (c ∷ results)
    → IsClosest best (a ∷ b ∷ results)
step-IsClosest best c a b results (inl (e, le)) h = record {
  member = elim h.member [
    | Memᴰ.head p ↦ Memᴰ.head (p ∙ e)
    | Memᴰ.tail m ↦ Memᴰ.tail (Memᴰ.tail m)
  ];
  least =
      let at_a : best.diff ≤ a.diff = omega (arith, h.least.0, ap (λ r. r.diff) e) in
      (at_a, (omega (arith, at_a), h.least.1));
}
step-IsClosest best c a b results (inr (e, le)) h = record {
  member = elim h.member [
    | Memᴰ.head p ↦ Memᴰ.tail (Memᴰ.head (p ∙ e))
    | Memᴰ.tail m ↦ Memᴰ.tail (Memᴰ.tail m)
  ];
  least =
      let at_b : best.diff ≤ b.diff = omega (arith, h.least.0, ap (λ r. r.diff) e) in
      (omega (arith, at_b), (at_b, h.least.1));
}

closest_from-IsClosest :
    (a : TrialResult) (results : List TrialResult)
    → IsClosest (closest_from a results) (a ∷ results)
unfolding closest_from
closest_from-IsClosest a [] = record { member = Memᴰ.head refl; least = (omega arith, tt) }
closest_from-IsClosest a (b ∷ results) =
    step-IsClosest _ (closer a b) a b results (closer-least a b)
      (closest_from-IsClosest (closer a b) results)

-- What the contracts answer, where every call of the search succeeds.
pub record Answers (contracts : HintContracts) : Type 0 where
  pub troves : ℕ
  pub approx_hint : Decimal → ℕ → ℕ → ApproxHint
  pub position : Decimal → Address → Address → Address × Address
  pub counts : contracts.get_troves_count ≡ ok troves
  pub approximates :
      (ratio : Decimal) (n seed : ℕ)
      → contracts.get_approx_hint ratio n seed ≡ ok (approx_hint ratio n seed)
  pub positions :
      (ratio : Decimal) (a b : Address)
      → contracts.find_insert_position ratio a b ≡ ok (position ratio a b)

-- Among Troves and for a finite ratio, the search is by trials.
among_troves :
    (contracts : HintContracts) (ratio : Decimal) (number_of_trials : ℕ → ℕ) (seed troves : ℕ)
    → contracts.get_troves_count ≡ ok troves
    → (troves == 0) ≡ false
    → (ratio == Decimal.infinity) ≡ false
    → find_hints_for_nominal_collateral_ratio contracts number_of_trials seed ratio
      ≡ find_by_trials contracts number_of_trials seed troves ratio
unfolding find_hints_for_nominal_collateral_ratio Decimal.infinite Decimal.eq
among_troves contracts ratio number_of_trials seed troves counts some_troves finite = ground arith

module _ (contracts : HintContracts) (answers : Answers contracts) (ratio : Decimal) where
  -- The results of calls with these trials, each from the seed that `parseInt` makes of the one that
  -- the call before returned.
  pub chain : ℕ → List ℕ → List TrialResult
  chain seed [] = []
  chain seed (n ∷ trials) =
      let answer = answers.approx_hint ratio n seed in
      record { diff = answer.diff; hint_address = answer.hint_address }
      ∷ chain (contracts.parse_int answer.latest_random_seed) trials

  last_seed : ℕ → List ℕ → ℕ
  last_seed seed [] = seed
  last_seed seed (n ∷ trials) =
      last_seed (contracts.parse_int (answers.approx_hint ratio n seed).latest_random_seed) trials

  collect_one :
      (seed : ℕ) (results : List TrialResult) (n : ℕ)
      → let answer = answers.approx_hint ratio n seed in
        collect_approx_hint contracts ratio
          (record { latest_random_seed = seed; results = results })
          n
        ≡ ok (record {
          latest_random_seed = contracts.parse_int answer.latest_random_seed;
          results =
              results ++ record { diff = answer.diff; hint_address = answer.hint_address } ∷ [];
        })
  unfolding collect_approx_hint
  collect_one seed results n = rw (answers.approximates ratio n seed) refl

  collect_all_lem :
      (seed : ℕ) (results : List TrialResult) (trials : List ℕ)
      → collect_all contracts ratio (record { latest_random_seed = seed; results = results }) trials
        ≡ ok (record {
          latest_random_seed = last_seed seed trials;
          results = results ++ chain seed trials;
        })
  unfolding collect_all chain last_seed
  collect_all_lem seed results [] = rw append-nil refl
  collect_all_lem seed results (n ∷ trials) =
      let answer = answers.approx_hint ratio n seed in
      let result : TrialResult = record {
        diff = answer.diff;
        hint_address = answer.hint_address;
      } in
      rw
        (
          collect_one seed results n,
          collect_all_lem (contracts.parse_int answer.latest_random_seed) (results ++ result ∷ [])
              trials,
          append_assoc results (result ∷ [])
              (chain (contracts.parse_int answer.latest_random_seed) trials),
        )
        refl

  -- A first batch makes a closest result.
  closest_found :
      (seed : ℕ) (trials : List ℕ)
      → 0 < sum trials
      → (best : TrialResult) × (closest (chain seed trials) ≡ ok best)
        × IsClosest best (chain seed trials)
  unfolding chain closest
  closest_found seed [] h = absurd (omega arith)
  closest_found seed (n ∷ trials) h = (_, refl, closest_from-IsClosest _ _)

  searched :
      (number_of_trials : ℕ → ℕ) (seed troves : ℕ) (best : TrialResult)
      → closest (chain seed (generate_trials (number_of_trials troves))) ≡ ok best
      → find_by_trials contracts number_of_trials seed troves ratio
        ≡ ok (answers.position ratio best.hint_address best.hint_address)
  unfolding find_by_trials
  searched number_of_trials seed troves best found =
      rw (collect_all_lem seed [] (generate_trials (number_of_trials troves)), found)
        (answers.positions ratio best.hint_address best.hint_address)

  -- Among Troves, for a finite ratio and at least one trial, the search makes the calls of the
  -- batches of `generateTrials`, each with the seed that `parseInt` makes of the one that
  -- the call before returned. Of all their hints it takes one with the least distance, and it returns the insert position from there.
  pub find_hints_lem :
      (number_of_trials : ℕ → ℕ) (seed : ℕ)
      → 0 < answers.troves
      → 0 < number_of_trials answers.troves
      → ratio ≢ Decimal.infinity
      → (best : TrialResult) × IsClosest best
          (chain seed (generate_trials (number_of_trials answers.troves)))
        × (find_hints_for_nominal_collateral_ratio contracts number_of_trials seed ratio
            ≡ ok (answers.position ratio best.hint_address best.hint_address))
  find_hints_lem number_of_trials seed some_troves some_trials finite =
      let total = number_of_trials answers.troves in
      let (_, whole, _, _) = generate_trials_lem total total (omega arith) in
      let (best, found, is_closest) =
        closest_found seed (generate_trials total) (omega (arith, whole)) in
      let troves_left : (answers.troves == 0) ≡ false = ground arith in
      let not_infinite : (ratio == Decimal.infinity) ≡ false = ground arith in
      (
        best,
        is_closest,
        among_troves contracts ratio number_of_trials seed answers.troves answers.counts troves_left
              not_infinite
            ∙ searched number_of_trials seed answers.troves best found,
      )

  -- Without Troves, both hints are the zero address.
  pub find_hints_none :
      (number_of_trials : ℕ → ℕ) (seed : ℕ)
      → answers.troves ≡ 0
      → find_hints_for_nominal_collateral_ratio contracts number_of_trials seed ratio
        ≡ ok (address_zero, address_zero)
  unfolding find_hints_for_nominal_collateral_ratio
  find_hints_none number_of_trials seed e = rw (answers.counts, e) refl
