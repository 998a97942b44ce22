-- ===== src/BatchedProvider/Answers.antt =====
-- What the promises of packages/providers/src/BatchedProvider.ts are settled with.
use Prim.Native.String.{String}
use mathlib.Core.List.Perm
use hliquity.Base.{
  ℕ, suc, ◌≡◌, refl, Bool, true, false, not, ◌&&◌, ◌⊎◌, inl, inr, Option, none, some, List, [], ◌∷◌,
  ◌++◌, arith, leb, ◌-◌, ◌==◌, All, All-append, Bool-cases,
}
use hliquity.BatchedProvider.{
  BlockTag, Request, CallRequest, Callback, BatchedCalls, Provider, or_latest, is_empty, is_none,
  enqueue_call, check_ratio, begin_call, call_batched, call, dispatch_calls, goes_alone, call_with,
  dispatch_if,
}
use hliquity.BatchedProvider.Events.{
  Event, begins, calls, times_out, answered, failed, pick, results, settle, settle_batch, called,
  step, run,
}
use hliquity.BatchedProvider.Promises.{IsPicked, joined, sent_all, pick-IsPicked, settle-IsKept}
use hliquity.BatchedProvider.Batch.{
  Answered, CanHappen, Aligned, IsSent, Aligned-append, together-Answered, alone-Answered,
  reject_all-Answered, is_empty-append, joined_tag, joined_tag-Aligned, joined_tag_lem, Picked,
  pick-Picked, joins_lem, IsSound,
}

module _ (answer : Option String → BlockTag → CallRequest → String) (fails : Bool) where
  -- A promise joins the batch: `p` with the block tag and the counter that `call` sets.
  joined-IsSound :
      (p : Provider) (r : Request) (tag : Option BlockTag)
      → IsSound answer fails p
      → or_latest tag ≡ or_latest p.batched.block_tag
      → IsSound answer fails (
          enqueue_call
            (record { target = r.to; call_data = r.data_ })
            (record { request = r; block_tag = tag })
            (record p { promised = p.promised ++ record { request = r; block_tag = tag } ∷ [] }))
  unfolding enqueue_call
  joined-IsSound p r tag h e = record {
    batch =
        Aligned-append p.batched.block_tag p.batched.callbacks p.batched.calls
          (record { request = r; block_tag = tag }) h.batch e;
    batches = h.batches;
    settled = h.settled;
    waits = rw is_empty-append refl;
    kept = joined p.promised p.batched.callbacks _ (record { request = r; block_tag = tag }) h.kept;
  }

  call_batched-IsSound :
      (address : String) (r : Request) (tag : Option BlockTag) (p : Provider)
      → IsSound answer fails p
      → IsSound answer fails (call_batched address r tag p)
  unfolding call_batched
  call_batched-IsSound address r tag p h = elim (Bool-cases (goes_alone address r tag p)) [
    | inl alone ↦ rw alone (record {
      batch = h.batch;
      batches = h.batches;
      settled = h.settled;
      waits = h.waits;
      kept = h.kept;
    })
    | inr joins ↦
        let b = record p.batched { block_tag = joined_tag tag p.batched } in
        let q = record p { number_of_batched_calls = suc p.number_of_batched_calls; batched = b } in
        let h' : IsSound answer fails q = record {
          batch = joined_tag-Aligned tag p.batched h.batch;
          batches = h.batches;
          settled = h.settled;
          waits = h.waits;
          kept = h.kept;
        } in
        let e = joined_tag_lem tag p.batched (joins_lem address r tag p joins) in
        unfold joined_tag in rw joins (joined-IsSound q r tag h' e)
  ]

  call_with-IsSound :
      (address : Option String) (r : Request) (tag : Option BlockTag) (p : Provider)
      → IsSound answer fails p
      → IsSound answer fails (call_with address r tag p)
  call_with-IsSound none r tag p h = h
  call_with-IsSound (some address) r tag p h = call_batched-IsSound address r tag p h

  check_ratio-IsSound :
      (now : ℕ) (last : Option ℕ) (p : Provider)
      → IsSound answer fails p
      → IsSound answer fails (check_ratio now last p)
  unfolding check_ratio
  check_ratio-IsSound now none p h = record {
    batch = h.batch;
    batches = h.batches;
    settled = h.settled;
    waits = h.waits;
    kept = h.kept;
  }
  check_ratio-IsSound now (some last) p h =
      elim (Bool-cases (leb 10000 (now - last) && not (p.number_of_actual_calls == 0))) [
        | inl old ↦ rw old (record {
          batch = h.batch;
          batches = h.batches;
          settled = h.settled;
          waits = h.waits;
          kept = h.kept;
        })
        | inr recent ↦ rw recent h
      ]

  begin_call-IsSound :
      (now : ℕ) (p : Provider) → IsSound answer fails p → IsSound answer fails (begin_call now p)
  unfolding begin_call
  begin_call-IsSound now p h = elim (Bool-cases (is_none p.multicall)) [
    | inl missing ↦ rw missing h
    | inr found ↦ rw found (check_ratio-IsSound now p.time_of_last_ratio_check p h)
  ]

  dispatch_if-IsSound :
      (due : Bool) (p : Provider)
      → due ≡ p.timeout
      → IsSound answer fails p
      → IsSound answer fails (dispatch_if due p)
  dispatch_if-IsSound true p e h =
      let full : is_empty p.batched.calls ≡ false = ground (arith, h.waits) in
      record {
        batch = tt;
        batches = All-append IsSent p.sent (p.batched ∷ []) h.batches ((h.batch, full), tt);
        settled = h.settled;
        waits = refl;
        kept = Perm.trans h.kept (sent_all p.batched p.sent _);
      }
  dispatch_if-IsSound false p e h = h

  -- Settling a batch that was picked, if its callbacks are called with what they were promised.
  settle-IsSound :
      (o : Option (List String)) (b : BatchedCalls) (rest : List BatchedCalls) (p : Provider)
      → IsPicked p.sent (some (b, rest))
      → All IsSent rest
      → All (Answered answer fails p.multicall) (called o b.callbacks)
      → IsSound answer fails p
      → IsSound answer fails (settle o b (record p { sent = rest }))
  settle-IsSound o b rest p picked sent own h = record {
    batch = h.batch;
    batches = sent;
    settled = All-append (Answered answer fails p.multicall) p.settled _ h.settled own;
    waits = h.waits;
    kept = settle-IsKept o b rest p picked h.kept;
  }

  results-Answered :
      (multicall : Option String) (tag : Option BlockTag) (cs : List Callback)
      (rs : List CallRequest)
      → Aligned tag cs rs
      → is_empty rs ≡ false
      → All
          (Answered answer fails multicall)
          (called (results answer multicall (or_latest tag) rs) cs)
  results-Answered multicall tag cs [] h full = cc
  results-Answered multicall tag cs (r ∷ []) h full =
      alone-Answered answer fails multicall tag cs r h
  results-Answered multicall tag cs (r ∷ s ∷ rs) h full =
      together-Answered answer fails multicall tag cs (r ∷ s ∷ rs) h

  settle_batch-IsSound :
      (o : Option (BatchedCalls × List BatchedCalls)) (success : Bool) (p : Provider)
      → (success ≡ true) ⊎ (fails ≡ true)
      → Picked o
      → IsPicked p.sent o
      → IsSound answer fails p
      → IsSound answer fails (settle_batch answer o success p)
  settle_batch-IsSound none success p can k picked h = h
  settle_batch-IsSound (some (b, rest)) true p can ((aligned, full), sent) picked h =
      settle-IsSound _ b rest p picked sent
        (results-Answered p.multicall b.block_tag b.callbacks b.calls aligned full) h
  settle_batch-IsSound (some (b, rest)) false p can (hb, sent) picked h =
      settle-IsSound none b rest p picked sent
        (reject_all-Answered answer fails p.multicall b.callbacks (ground arith)) h

  step-IsSound :
      (e : Event) (p : Provider)
      → CanHappen fails e
      → IsSound answer fails p
      → IsSound answer fails (step answer e p)
  unfolding step
  step-IsSound (begins now) p can h = begin_call-IsSound now p h
  step-IsSound (calls r tag) p can h = unfold call in call_with-IsSound p.multicall r tag p h
  step-IsSound times_out p can h = unfold dispatch_calls in dispatch_if-IsSound p.timeout p refl h
  step-IsSound (answered n) p can h =
      settle_batch-IsSound (pick n p.sent) true p (inl refl) (pick-Picked n p.sent h.batches)
        (pick-IsPicked n p.sent) h
  step-IsSound (failed n) p can h =
      settle_batch-IsSound (pick n p.sent) false p (inr can) (pick-Picked n p.sent h.batches)
        (pick-IsPicked n p.sent) h

  -- Whatever calls, timeouts, answers and (if `fails` allows them) failures come, in whatever order,
  -- after a sound state: the calls of the batch and of every batch that was sent have the targets and
  -- the data of the requests of their promises, one by one, at the block that each asked for; a batch
  -- that is not empty waits for the timeout; the promises that were returned for batched calls are,
  -- each once, those of the batch, of the batches that were sent, and those that are settled; and
  -- every settled one is resolved with the answer to the target and the data of its own request at its
  -- own block, made without a sender or by Multicall, or is rejected, which needs that batches fail.
  pub run-IsSound :
      (events : List Event) (p : Provider)
      → All (CanHappen fails) events
      → IsSound answer fails p
      → IsSound answer fails (run answer events p)
  unfolding run
  run-IsSound [] p can h = h
  run-IsSound (e ∷ events) p (this, can) h =
      run-IsSound events (step answer e p) can (step-IsSound e p this h)
