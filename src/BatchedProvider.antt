-- ===== src/BatchedProvider.antt =====
-- packages/providers/src/BatchedProvider.ts: calls of contracts, collected into batches.
-- What is awaited is an event: a call whose arguments are resolved, the timer, and the answer to a
-- batch that was sent. A promise is known by the request and the block that `call` was given for it.
pub mod Events
mod Promises
mod Batch
pub mod Answers
mod Tests
use Prim.Native.String.{String}
use text.Mathlib.Text.{◌==◌ as str_eq}
use hliquity.Base.{
  ℕ, suc, ◌-◌, Bool, true, false, not, ◌&&◌, ◌||◌, Option, none, some, List, [], ◌∷◌, ◌++◌, ltb,
  leb, ◌==◌, if◌then◌else◌, codes,
}

pub data BlockTag : Type 0 where
  name : String → BlockTag
  number : ℕ → BlockTag

pub data BytesLike : Type 0 where
  hex : String → BytesLike
  bytes : List ℕ → BytesLike

-- `ResolvedTransactionRequest`, as far as it is read.
pub record Request : Type 0 where
  pub to : Option String
  pub from : Option String
  pub data_ : Option BytesLike
  pub gas_limit : Option ℕ
  pub gas_price : Option ℕ
  pub value : Option ℕ

pub record CallRequest : Type 0 where
  pub target : Option String
  pub call_data : Option BytesLike

-- The pair of callbacks of a promise, by the request and the block tag that it was returned for.
pub record Callback : Type 0 where
  pub request : Request
  pub block_tag : Option BlockTag

pub record BatchedCalls : Type 0 where
  pub block_tag : Option BlockTag
  pub calls : List CallRequest
  pub callbacks : List Callback

abbrev pub empty_batch : BatchedCalls
empty_batch = record { block_tag = none; calls = []; callbacks = [] }

-- What a callback was called with.
pub data Settled : Type 0 where
  resolved : Option String → Settled
  rejected : Settled

pub record Provider : Type 0 where
  pub multicall : Option String
  pub batched : BatchedCalls
  -- whether a timeout is pending
  pub timeout : Bool
  pub number_of_batched_calls : ℕ
  pub number_of_actual_calls : ℕ
  pub time_of_last_ratio_check : Option ℕ
  -- the promises that were returned for batched calls, the batches that were sent, and the callbacks
  -- that were called
  pub promised : List Callback
  pub sent : List BatchedCalls
  pub settled : List (Callback × Settled)

-- `blockTag ?? "latest"` and `!==`
abbrev pub or_latest : Option BlockTag → BlockTag
or_latest none = name "latest"
or_latest (some tag) = tag

abbrev pub same_tag : BlockTag → BlockTag → Bool
same_tag (name a) (name b) = str_eq a b
same_tag (number a) (number b) = a == b
same_tag _ _ = false

abbrev pub is_none : {A : Type 0} → Option A → Bool
is_none none = true
is_none (some a) = false

abbrev pub starts_with : List ℕ → List ℕ → Bool
starts_with [] s = true
starts_with (p ∷ ps) [] = false
starts_with (p ∷ ps) (c ∷ s) = p == c && starts_with ps s

unfoldable pub batchable_call : Request → Bool
batchable_call r = is_none r.gas_limit && is_none r.gas_price && is_none r.value

abbrev pub is_aggregate : Option BytesLike → Bool
is_aggregate (some (hex s)) = starts_with (codes "0x252dba42") (codes s)
is_aggregate _ = false

abbrev pub is_address : Option String → String → Bool
is_address none address = false
is_address (some to) address = str_eq to address

unfoldable pub batched_call : Request → String → Bool
batched_call r multicall_address = is_address r.to multicall_address && is_aggregate r.data_

abbrev pub is_empty : {A : Type 0} → List A → Bool
is_empty [] = true
is_empty (x ∷ xs) = false

unfoldable pub already_batched_calls_conflict_with : Option BlockTag → BatchedCalls → Bool
already_batched_calls_conflict_with block_tag b =
    not (is_empty b.calls) && not (same_tag (or_latest block_tag) (or_latest b.block_tag))

-- `_enqueueCall`, with the callbacks of the promise that it returns.
unfoldable pub enqueue_call : CallRequest → Callback → Provider → Provider
enqueue_call call callback p = record p {
  timeout = true;
  batched = record p.batched {
    calls = p.batched.calls ++ call ∷ [];
    callbacks = p.batched.callbacks ++ callback ∷ [];
  };
}

-- `call` up to its `await`, at the time `now`.
unfoldable pub check_ratio : ℕ → Option ℕ → Provider → Provider
check_ratio now none p = record p { time_of_last_ratio_check = some now }
check_ratio now (some last) p =
    if leb 10000 (now - last) && not (p.number_of_actual_calls == 0)
    then record p {
      number_of_batched_calls = 0;
      number_of_actual_calls = 0;
      time_of_last_ratio_check = some now;
    }
    else p

unfoldable pub begin_call : ℕ → Provider → Provider
unfolding check_ratio
begin_call now p = if is_none p.multicall then p else check_ratio now p.time_of_last_ratio_check p

-- `call` from its `await` on; a call that is not batched goes to the base class.
unfoldable pub goes_alone : String → Request → Option BlockTag → Provider → Bool
unfolding batched_call batchable_call already_batched_calls_conflict_with
goes_alone address r block_tag p =
    batched_call r address
    || not (batchable_call r)
    || already_batched_calls_conflict_with block_tag p.batched

unfoldable pub call_batched : String → Request → Option BlockTag → Provider → Provider
unfolding goes_alone enqueue_call
call_batched address r block_tag p =
    if goes_alone address r block_tag p
    then record p { number_of_actual_calls = suc p.number_of_actual_calls }
    else enqueue_call (record { target = r.to; call_data = r.data_ })
        (record { request = r; block_tag = block_tag })
        (record p {
          promised = p.promised ++ record { request = r; block_tag = block_tag } ∷ [];
          number_of_batched_calls = suc p.number_of_batched_calls;
          batched = record p.batched {
            block_tag = if is_empty p.batched.calls then block_tag else p.batched.block_tag;
          };
        })

abbrev pub call_with : Option String → Request → Option BlockTag → Provider → Provider
call_with none r block_tag p = p
call_with (some address) r block_tag p = call_batched address r block_tag p

unfoldable pub call : Request → Option BlockTag → Provider → Provider
unfolding call_batched
call r block_tag p = call_with p.multicall r block_tag p

-- `_dispatchCalls` up to its `await`, when the timeout is due.
abbrev pub dispatch_if : Bool → Provider → Provider
dispatch_if true p = record p {
  timeout = false;
  batched = empty_batch;
  sent = p.sent ++ p.batched ∷ [];
}
dispatch_if false p = p

unfoldable pub dispatch_calls : Provider → Provider
dispatch_calls p = dispatch_if p.timeout p

-- `callbacks.forEach(([resolve], i) => resolve(results[i]))`
unfoldable pub resolve_all : List Callback → List String → List (Callback × Settled)
resolve_all [] results = []
resolve_all (c ∷ callbacks) [] = (c, resolved none) ∷ resolve_all callbacks []
resolve_all (c ∷ callbacks) (r ∷ results) = (c, resolved (some r)) ∷ resolve_all callbacks results

unfoldable pub reject_all : List Callback → List (Callback × Settled)
reject_all [] = []
reject_all (c ∷ callbacks) = (c, rejected) ∷ reject_all callbacks
