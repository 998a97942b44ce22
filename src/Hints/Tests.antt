-- ===== src/Hints/Tests.antt =====
-- Tests of the search for hints: 400 Troves, and contracts whose hints lie closer the larger the
-- seed is.
use hliquity.Base.{◌+◌, ◌-◌, ◌*◌, ◌<◌, ◌≡◌, refl, [], ◌∷◌, ok, arith, All, length}
use hliquity.Hints.{
  HintContracts, TrialResult, trials_loop, generate_trials, max_number_of_trials_at_once,
  find_hints_for_nominal_collateral_ratio,
}
use hliquity.Hints.Trials.{sum, IsBatch, generate_trials_lem}
use hliquity.Hints.Search.{Answers, IsClosest, chain, find_hints_lem}

abbrev contracts : HintContracts
contracts = record {
  get_troves_count = ok 400;
  get_first = ok "0x1";
  get_approx_hint = λ ratio n seed.
      ok (record { hint_address = "0x2"; latest_random_seed = seed + 1; diff = 1000 - seed });
  find_insert_position = λ ratio a b. ok (a, "0x3");
  parse_int = λ n. n;
}

abbrev answers : Answers contracts
answers = record {
  troves = 400;
  approx_hint = λ ratio n seed. record {
    hint_address = "0x2";
    latest_random_seed = seed + 1;
    diff = 1000 - seed;
  };
  position = λ ratio a b. (a, "0x3");
  counts = refl;
  approximates = λ ratio n seed. refl;
  positions = λ ratio a b. refl;
}

three_batches : generate_trials 6000 ≡ 2500 ∷ 2500 ∷ 1000 ∷ []
unfolding generate_trials
three_batches = refl

generate_trials_lem_example :
    (trials_loop 7000 6000 ≡ generate_trials 6000)
    × (sum (generate_trials 6000) ≡ 6000)
    × All IsBatch (generate_trials 6000)
    × (max_number_of_trials_at_once * length (generate_trials 6000)
        < 6000 + max_number_of_trials_at_once)
generate_trials_lem_example = generate_trials_lem 6000 7000 (omega arith)

find_hints_lem_example :
    (best : TrialResult) × IsClosest best
      (chain contracts answers 500_000_000 7 (generate_trials (10 * 400)))
    × (find_hints_for_nominal_collateral_ratio contracts (λ n. 10 * n) 7 500_000_000
        ≡ ok (best.hint_address, "0x3"))
find_hints_lem_example =
    find_hints_lem contracts answers 500_000_000 (λ n. 10 * n) 7 (omega arith) (omega arith)
      (λ e. omega arith)
