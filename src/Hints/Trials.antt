-- ===== src/Hints/Trials.antt =====
-- The batches of packages/lib-hashgraph/src/hints.ts: `generateTrials` ends and splits the total.
use Prim.Native.Nat.{min}
use hliquity.Base.{
  ℕ, zero, suc, ◌+◌, ◌-◌, ◌*◌, ◌≤◌, ◌<◌, ◌≡◌, refl, List, [], ◌∷◌, arith, All, length,
}
use hliquity.Hints.{trials_loop, generate_trials, max_number_of_trials_at_once}

-- The trials of all batches.
abbrev pub sum : List ℕ → ℕ
sum [] = 0
sum (n ∷ ns) = n + sum ns

-- A batch that one call may have.
abbrev pub IsBatch : ℕ → Type 0
IsBatch n = (0 < n) × (n ≤ max_number_of_trials_at_once)

-- One round.
loop_step :
    (rounds t : ℕ)
    → trials_loop (suc rounds) (suc t)
      ≡ min (suc t) max_number_of_trials_at_once
        ∷ trials_loop rounds (suc t - min (suc t) max_number_of_trials_at_once)
unfolding trials_loop
loop_step rounds t = ground arith

-- With at least as many rounds as trials, the number of rounds does not matter.
loop_enough :
    (rounds more total : ℕ)
    → total ≤ rounds
    → total ≤ more
    → trials_loop rounds total ≡ trials_loop more total
unfolding trials_loop
loop_enough zero zero total h k = refl
loop_enough zero (suc more) total h k = ground arith
loop_enough (suc rounds) zero total h k = ground arith
loop_enough (suc rounds) (suc more) zero h k = refl
loop_enough (suc rounds) (suc more) (suc t) h k =
    rw
      (
        loop_step rounds t,
        loop_step more t,
        loop_enough rounds more (suc t - min (suc t) max_number_of_trials_at_once) (omega arith)
            (omega arith),
      )
      refl

loop_splits :
    (rounds total : ℕ)
    → total ≤ rounds
    → (sum (trials_loop rounds total) ≡ total)
      × All IsBatch (trials_loop rounds total)
      × (max_number_of_trials_at_once * length (trials_loop rounds total)
          < total + max_number_of_trials_at_once)
unfolding trials_loop
loop_splits zero total h = (omega arith, tt, omega arith)
loop_splits (suc rounds) zero h = (refl, tt, omega arith)
loop_splits (suc rounds) (suc t) h =
    let taken = min (suc t) max_number_of_trials_at_once in
    let (whole, fit, few) = loop_splits rounds (suc t - taken) (omega arith) in
    rw loop_step (omega (arith, whole), ((omega arith, omega arith), fit), omega (arith, few))

-- The loop ends: with any number of rounds that is at least the total it yields the same batches.
-- Together they are the total, each has between 1 and 2500 trials, and there are no more of them
-- than the total needs.
pub generate_trials_lem :
    (total rounds : ℕ)
    → total ≤ rounds
    → (trials_loop rounds total ≡ generate_trials total)
      × (sum (generate_trials total) ≡ total)
      × All IsBatch (generate_trials total)
      × (max_number_of_trials_at_once * length (generate_trials total)
          < total + max_number_of_trials_at_once)
unfolding generate_trials
generate_trials_lem total rounds h =
    let (whole, fit, few) = loop_splits total total (omega arith) in
    (loop_enough rounds total total h (omega arith), whole, fit, few)
