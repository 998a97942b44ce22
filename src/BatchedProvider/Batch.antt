-- ===== src/BatchedProvider/Batch.antt =====
-- The batches of packages/providers/src/BatchedProvider.ts: the calls of a batch belong to its
-- promises.
use Prim.Native.String.{String}
use text.Mathlib.TextEquality.{eq_iff}
use hliquity.Base.{
  ℕ, zero, suc, ◌≡◌, refl, ap, Bool, true, false, not, ◌⊎◌, inl, inr, Option, none, some, List, [],
  ◌∷◌, ◌++◌, map, arith, ==_iff, if◌then◌else◌, All, Bool-cases,
}
use hliquity.BatchedProvider.{
  BlockTag, name, number, Request, CallRequest, Callback, BatchedCalls, Settled, resolved, rejected,
  Provider, or_latest, same_tag, is_empty, resolve_all, reject_all,
  already_batched_calls_conflict_with, goes_alone,
}
use hliquity.BatchedProvider.Events.{Event, failed, behind, pick}
use hliquity.BatchedProvider.Promises.{IsKept}

-- The call of a request: its target and its data, and nothing else of it.
abbrev pub own_call : Request → CallRequest
own_call r = record { target = r.to; call_data = r.data_ }

module _ (answer : Option String → BlockTag → CallRequest → String) where
  -- What the node answers to the request of a promise at its own block: made without a sender, when
  -- it was alone in its batch, or by Multicall.
  abbrev pub IsAnswer : Option String → Callback → Settled → Type 0
  IsAnswer multicall c s =
      (s ≡ resolved (some (answer none (or_latest c.block_tag) (own_call c.request))))
      ⊎ (s ≡ resolved (some (answer multicall (or_latest c.block_tag) (own_call c.request))))

  -- A promise is settled with such an answer, or rejected, which only happens if batches can fail.
  abbrev pub Answered : Bool → Option String → Callback × Settled → Type 0
  Answered fails multicall (c, s) = IsAnswer multicall c s ⊎ ((fails ≡ true) × (s ≡ rejected))

-- Whether an event can happen, where batches can fail or cannot.
abbrev pub CanHappen : Bool → Event → Type 0
CanHappen fails (failed n) = fails ≡ true
CanHappen fails event = Unit

-- The callbacks and the calls of a batch belong together, one by one, at the block of the batch.
abbrev pub Aligned : Option BlockTag → List Callback → List CallRequest → Type 0
Aligned tag [] [] = Unit
Aligned tag (c ∷ callbacks) (r ∷ requests) =
    (own_call c.request ≡ r)
    × (or_latest c.block_tag ≡ or_latest tag)
    × Aligned tag callbacks requests
Aligned tag _ _ = ⊥

-- A batch that was sent has a call.
abbrev pub IsAligned : BatchedCalls → Type 0
IsAligned b = Aligned b.block_tag b.callbacks b.calls

abbrev pub IsSent : BatchedCalls → Type 0
IsSent b = IsAligned b × (is_empty b.calls ≡ false)

pub record IsSound (answer : Option String → BlockTag → CallRequest → String) (fails : Bool)
    (p : Provider) : Type 0 where
  pub batch : IsAligned p.batched
  pub batches : All IsSent p.sent
  pub settled : All (Answered answer fails p.multicall) p.settled
  -- a batch that is not empty waits for the timeout
  pub waits : p.timeout ≡ not (is_empty p.batched.calls)
  -- no promise is lost, and none is settled twice
  pub kept : IsKept p

pub Aligned-append :
    (tag : Option BlockTag) (cs : List Callback) (rs : List CallRequest) (c : Callback)
    → Aligned tag cs rs
    → or_latest c.block_tag ≡ or_latest tag
    → Aligned tag (cs ++ c ∷ []) (rs ++ own_call c.request ∷ [])
Aligned-append tag [] [] c h e = (refl, e, tt)
Aligned-append tag (x ∷ cs) (r ∷ rs) c (a, b, h) e = (a, b, Aligned-append tag cs rs c h e)
Aligned-append tag [] (r ∷ rs) c h e = absurd h
Aligned-append tag (x ∷ cs) [] c h e = absurd h

same_tag_eq : (a b : BlockTag) → same_tag a b ≡ true → a ≡ b
same_tag_eq (name a) (name b) h = ap name ((eq_iff a b).0 h)
same_tag_eq (number a) (number b) h = ap number ((==_iff a b).0 h)
same_tag_eq (name a) (number b) h = cc
same_tag_eq (number a) (name b) h = cc

module _ (answer : Option String → BlockTag → CallRequest → String) (fails : Bool) where
  pub together-Answered :
      (multicall : Option String) (tag : Option BlockTag) (cs : List Callback)
      (rs : List CallRequest)
      → Aligned tag cs rs
      → All
          (Answered answer fails multicall)
          (resolve_all cs (map (answer multicall (or_latest tag)) rs))
  unfolding resolve_all
  together-Answered multicall tag [] rs h = tt
  together-Answered multicall tag (c ∷ cs) [] h = absurd h
  together-Answered multicall tag (c ∷ cs) (r ∷ rs) (own, at, h) =
      (inl (inr (rw (own, at) refl)), together-Answered multicall tag cs rs h)

  pub alone-Answered :
      (multicall : Option String) (tag : Option BlockTag) (cs : List Callback) (r : CallRequest)
      → Aligned tag cs (r ∷ [])
      → All (Answered answer fails multicall) (resolve_all cs (answer none (or_latest tag) r ∷ []))
  unfolding resolve_all
  alone-Answered multicall tag [] r h = absurd h
  alone-Answered multicall tag (c ∷ []) r (own, at, h) = (inl (inl (rw (own, at) refl)), tt)
  alone-Answered multicall tag (c ∷ d ∷ cs) r (own, at, h) = absurd h

  pub reject_all-Answered :
      (multicall : Option String) (cs : List Callback)
      → fails ≡ true
      → All (Answered answer fails multicall) (reject_all cs)
  unfolding reject_all
  reject_all-Answered multicall [] h = tt
  reject_all-Answered multicall (c ∷ cs) h = (inr (h, refl), reject_all-Answered multicall cs h)

pub is_empty-append : {A : Type 0} (xs : List A) (x : A) → is_empty (xs ++ x ∷ []) ≡ false
is_empty-append [] x = refl
is_empty-append (y ∷ xs) x = refl

Aligned-empty :
    (tag tag' : Option BlockTag) (cs : List Callback) (rs : List CallRequest)
    → is_empty rs ≡ true
    → Aligned tag cs rs
    → Aligned tag' cs rs
Aligned-empty tag tag' [] [] e h = tt
Aligned-empty tag tag' (c ∷ cs) [] e h = absurd h
Aligned-empty tag tag' cs (r ∷ rs) e h = cc

-- The block of the batch, when a call joins it.
unfoldable pub joined_tag : Option BlockTag → BatchedCalls → Option BlockTag
joined_tag tag b = if is_empty b.calls then tag else b.block_tag

pub joined_tag-Aligned :
    (tag : Option BlockTag) (b : BatchedCalls)
    → IsAligned b
    → Aligned (joined_tag tag b) b.callbacks b.calls
unfolding joined_tag
joined_tag-Aligned tag b h = elim (Bool-cases (is_empty b.calls)) [
  | inl none_yet ↦ rw none_yet (Aligned-empty b.block_tag tag b.callbacks b.calls none_yet h)
  | inr some_calls ↦ rw some_calls h
]

pub joined_tag_lem :
    (tag : Option BlockTag) (b : BatchedCalls)
    → already_batched_calls_conflict_with tag b ≡ false
    → or_latest tag ≡ or_latest (joined_tag tag b)
unfolding joined_tag already_batched_calls_conflict_with
joined_tag_lem tag b h = elim (Bool-cases (is_empty b.calls)) [
  | inl none_yet ↦ rw none_yet refl
  | inr some_calls ↦
      let h' = rw some_calls at h in
      let same : same_tag (or_latest tag) (or_latest b.block_tag) ≡ true = ground arith in
      rw some_calls (same_tag_eq (or_latest tag) (or_latest b.block_tag) same)
]

-- What was picked from batches that were sent.
abbrev pub Picked : Option (BatchedCalls × List BatchedCalls) → Type 0
Picked none = Unit
Picked (some (b, rest)) = IsSent b × All IsSent rest

behind-Picked :
    (b : BatchedCalls) (o : Option (BatchedCalls × List BatchedCalls))
    → IsSent b
    → Picked o
    → Picked (behind b o)
behind-Picked b none hb h = tt
behind-Picked b (some (x, rest)) hb (hx, h) = (hx, (hb, h))

pub pick-Picked : (n : ℕ) (bs : List BatchedCalls) → All IsSent bs → Picked (pick n bs)
pick-Picked n [] h = tt
pick-Picked zero (b ∷ bs) h = h
pick-Picked (suc n) (b ∷ bs) (hb, h) = behind-Picked b (pick n bs) hb (pick-Picked n bs h)

pub joins_lem :
    (address : String) (r : Request) (tag : Option BlockTag) (p : Provider)
    → goes_alone address r tag p ≡ false
    → already_batched_calls_conflict_with tag p.batched ≡ false
unfolding goes_alone
joins_lem address r tag p h = ground arith
