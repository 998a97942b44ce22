-- ===== src/BatchedProvider/Tests.antt =====
-- Tests of packages/providers/src/BatchedProvider.ts.
use Prim.Native.String.{String}
use mathlib.Core.List.Perm
use hliquity.Base.{◌≡◌, refl, Option, none, some, List, [], ◌∷◌, map, All, true, false}
use hliquity.BatchedProvider.{
  BlockTag, name, Request, CallRequest, hex, Provider, empty_batch, batched_call, call,
  call_batched, goes_alone, batchable_call, already_batched_calls_conflict_with, enqueue_call,
  begin_call, check_ratio, dispatch_calls, resolve_all, reject_all, resolved, rejected, Settled,
}
use hliquity.BatchedProvider.Events.{Event, begins, calls, times_out, answered, failed, step, run}
use hliquity.BatchedProvider.Answers.{run-IsSound}
use hliquity.BatchedProvider.Batch.{CanHappen, IsSound}

-- A node that answers with the sender and the target of a call.
abbrev or_empty : Option String → String
or_empty none = ""
or_empty (some s) = s

abbrev node : Option String → BlockTag → CallRequest → String
node none tag c = or_empty c.target
node (some sender) tag c = sender

abbrev idle : Provider
idle = record {
  multicall = some "0xmulti";
  batched = empty_batch;
  timeout = false;
  number_of_batched_calls = 0;
  number_of_actual_calls = 0;
  time_of_last_ratio_check = none;
  promised = [];
  sent = [];
  settled = [];
}

idle-IsSound : IsSound node true idle
idle-IsSound = record { batch = tt; batches = tt; settled = tt; waits = refl; kept = Perm.refl [] }

abbrev plain : Request
plain = record {
  to = some "0xa";
  from = some "0xme";
  data_ = some (hex "0x12");
  gas_limit = none;
  gas_price = none;
  value = none;
}

-- Two calls in one batch, one alone after it was sent, and one whose batch fails.
abbrev events : List Event
events =
    begins 1000
    ∷ calls plain none
    ∷ calls plain (some (name "latest"))
    ∷ times_out
    ∷ calls plain (some (name "pending"))
    ∷ times_out
    ∷ answered 1
    ∷ calls plain none
    ∷ answered 0
    ∷ times_out
    ∷ failed 0
    ∷ []

events-CanHappen : All (CanHappen true) events
events-CanHappen = (tt, (tt, (tt, (tt, (tt, (tt, (tt, (tt, (tt, (tt, (refl, tt)))))))))))

run-IsSound_example : IsSound node true (run node events idle)
run-IsSound_example = run-IsSound node true events idle events-CanHappen idle-IsSound

-- What the promises of those events are settled with: the call that was alone keeps no sender, and
-- the sender of those that were together is Multicall.
abbrev outcome : {A : Type 0} → A × Settled → Settled
outcome (c, s) = s

all_settled :
    map outcome (run node events idle).settled
    ≡ resolved (some "0xa") ∷ resolved (some "0xmulti") ∷ resolved (some "0xmulti") ∷ rejected ∷ []
unfolding run step begin_call check_ratio call call_batched goes_alone batched_call batchable_call
    already_batched_calls_conflict_with enqueue_call dispatch_calls resolve_all reject_all
all_settled = refl

aggregates_are_not_batched :
    batched_call (record plain { to = some "0xmulti"; data_ = some (hex "0x252dba4200") }) "0xmulti"
    ≡ true
unfolding batched_call
aggregates_are_not_batched = refl
