-- ===== src/BatchedProvider/Events.antt =====
-- packages/providers/src/BatchedProvider.ts: what happens to a batched provider, and the answers to
-- the batches that it sent.
-- The node is a parameter: the answer to a call by a sender, if there is one, at a block. Multicall
-- makes the calls of an `aggregate` itself, and returns the answers in their order.
use Prim.Native.String.{String}
use hliquity.Base.{ℕ, zero, suc, Bool, true, false, Option, none, some, List, [], ◌∷◌, ◌++◌, map}
use hliquity.BatchedProvider.{
  BlockTag, Request, CallRequest, Callback, BatchedCalls, Settled, Provider, or_latest, begin_call,
  call, dispatch_calls, resolve_all, reject_all,
}

-- What happens to a provider; the answer to a batch that was sent comes in any order.
pub data Event : Type 0 where
  begins : ℕ → Event
  calls : Request → Option BlockTag → Event
  times_out : Event
  answered failed : ℕ → Event

-- The batch at a position, and the others.
abbrev pub behind :
    BatchedCalls
    → Option (BatchedCalls × List BatchedCalls)
    → Option (BatchedCalls × List BatchedCalls)
behind b none = none
behind b (some (x, rest)) = some (x, b ∷ rest)

abbrev pub pick : ℕ → List BatchedCalls → Option (BatchedCalls × List BatchedCalls)
pick n [] = none
pick zero (b ∷ bs) = some (b, bs)
pick (suc n) (b ∷ bs) = behind b (pick n bs)

-- The callbacks of a batch, called with its results, or rejected.
abbrev pub called : Option (List String) → List Callback → List (Callback × Settled)
called none callbacks = reject_all callbacks
called (some results) callbacks = resolve_all callbacks results

abbrev pub settle : Option (List String) → BatchedCalls → Provider → Provider
settle results b p = record p { settled = p.settled ++ called results b.callbacks }

module _ (answer : Option String → BlockTag → CallRequest → String) where
  -- The results of the `try` of `_dispatchCalls`, if nothing fails on the way: one call is made
  -- alone, without a sender; more than one are made by Multicall; and `calls[0]` of none throws.
  abbrev pub results : Option String → BlockTag → List CallRequest → Option (List String)
  results multicall tag [] = none
  results multicall tag (c ∷ []) = some (answer none tag c ∷ [])
  results multicall tag (c ∷ d ∷ more) = some (map (answer multicall tag) (c ∷ d ∷ more))

  -- `_dispatchCalls` from its `await` on.
  abbrev pub settle_batch : Option (BatchedCalls × List BatchedCalls) → Bool → Provider → Provider
  settle_batch none success p = p
  settle_batch (some (b, rest)) true p =
      settle (results p.multicall (or_latest b.block_tag) b.calls) b (record p { sent = rest })
  settle_batch (some (b, rest)) false p = settle none b (record p { sent = rest })

  unfoldable pub step : Event → Provider → Provider
  step (begins now) p = begin_call now p
  step (calls r block_tag) p = call r block_tag p
  step times_out p = dispatch_calls p
  step (answered n) p = settle_batch (pick n p.sent) true p
  step (failed n) p = settle_batch (pick n p.sent) false p

  unfoldable pub run : List Event → Provider → Provider
  unfolding step
  run [] p = p
  run (e ∷ events) p = run events (step e p)
