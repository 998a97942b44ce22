-- ===== src/BatchedProvider/Promises.antt =====
-- The promises of packages/providers/src/BatchedProvider.ts: none is lost, and none is settled twice.
use Prim.Native.String.{String}
use mathlib.Core.List.{Perm, perm_middle, perm_append_comm, append-nil, append_assoc, map-append}
use mathlib.Core.List.Perm
use hliquity.Base.{ℕ, zero, suc, ◌≡◌, refl, sym, ap, Option, none, some, List, [], ◌∷◌, ◌++◌, map}
use hliquity.BatchedProvider.{Callback, BatchedCalls, Settled, Provider, resolve_all, reject_all}
use hliquity.BatchedProvider.Events.{behind, pick, called, settle}

abbrev pub first : {A B : Type 0} → A × B → A
first (a, b) = a

-- The callbacks that wait for the answers to the batches that were sent.
abbrev pub callbacks_of : List BatchedCalls → List Callback
callbacks_of [] = []
callbacks_of (b ∷ bs) = b.callbacks ++ callbacks_of bs

-- The promises are those of the batch, those of the batches that were sent, and those that are
-- settled.
abbrev pub IsKept : Provider → Type 0
IsKept p = Perm p.promised (p.batched.callbacks ++ (callbacks_of p.sent ++ map first p.settled))

module _ {A : Type 0} where
  pub joined :
      (ps xs ys : List A) (c : A) → Perm ps (xs ++ ys) → Perm (ps ++ c ∷ []) ((xs ++ c ∷ []) ++ ys)
  joined ps xs ys c h =
      Perm.trans (perm_append_comm ps (c ∷ []))
        (Perm.trans (Perm.cons c h) (rw append_assoc (Perm.symm (perm_middle xs ys))))

  swapped : (xs ys zs : List A) → Perm (xs ++ (ys ++ zs)) ((ys ++ xs) ++ zs)
  swapped xs ys zs =
      rw (sym (append_assoc xs ys zs)) (Perm.append_right zs (perm_append_comm xs ys))

callbacks_of-append :
    (bs : List BatchedCalls) (b : BatchedCalls)
    → callbacks_of (bs ++ b ∷ []) ≡ callbacks_of bs ++ b.callbacks
callbacks_of-append [] b = append-nil b.callbacks
callbacks_of-append (x ∷ bs) b =
    rw (callbacks_of-append bs b) (sym (append_assoc x.callbacks (callbacks_of bs) b.callbacks))

pub sent_all :
    (b : BatchedCalls) (bs : List BatchedCalls) (zs : List Callback)
    → Perm (b.callbacks ++ (callbacks_of bs ++ zs)) (callbacks_of (bs ++ b ∷ []) ++ zs)
sent_all b bs zs = rw (callbacks_of-append bs b) (swapped b.callbacks (callbacks_of bs) zs)

first-resolve_all :
    (cs : List Callback) (results : List String) → map first (resolve_all cs results) ≡ cs
unfolding resolve_all
first-resolve_all [] results = refl
first-resolve_all (c ∷ cs) [] = ap (λ l. c ∷ l) (first-resolve_all cs [])
first-resolve_all (c ∷ cs) (r ∷ results) = ap (λ l. c ∷ l) (first-resolve_all cs results)

first-reject_all : (cs : List Callback) → map first (reject_all cs) ≡ cs
unfolding reject_all
first-reject_all [] = refl
first-reject_all (c ∷ cs) = ap (λ l. c ∷ l) (first-reject_all cs)

-- The callbacks of a batch that was picked, and of the others, are those that were there.
abbrev pub IsPicked : List BatchedCalls → Option (BatchedCalls × List BatchedCalls) → Type 0
IsPicked bs none = Unit
IsPicked bs (some (b, rest)) = Perm (callbacks_of bs) (b.callbacks ++ callbacks_of rest)

behind-IsPicked :
    (x : BatchedCalls) (bs : List BatchedCalls) (o : Option (BatchedCalls × List BatchedCalls))
    → IsPicked bs o
    → IsPicked (x ∷ bs) (behind x o)
behind-IsPicked x bs none h = tt
behind-IsPicked x bs (some (b, rest)) h = Perm.trans (Perm.append_left x.callbacks h) (
    rw (sym (append_assoc b.callbacks x.callbacks (callbacks_of rest)))
      (swapped x.callbacks b.callbacks (callbacks_of rest)))

pub pick-IsPicked : (n : ℕ) (bs : List BatchedCalls) → IsPicked bs (pick n bs)
pick-IsPicked n [] = tt
pick-IsPicked zero (b ∷ bs) = Perm.refl _
pick-IsPicked (suc n) (b ∷ bs) = behind-IsPicked b bs (pick n bs) (pick-IsPicked n bs)

settled_all :
    (bs rest : List BatchedCalls) (b : BatchedCalls) (settled new : List (Callback × Settled))
    → Perm (callbacks_of bs) (b.callbacks ++ callbacks_of rest)
    → map first new ≡ b.callbacks
    → Perm (callbacks_of bs ++ map first settled) (callbacks_of rest ++ map first (settled ++ new))
settled_all bs rest b settled new h e = Perm.trans (Perm.append_right (map first settled) h) (
    rw
      (
        map-append first settled new,
        e,
        append_assoc b.callbacks (callbacks_of rest) (map first settled),
        sym (append_assoc (callbacks_of rest) (map first settled) b.callbacks),
      )
      (perm_append_comm b.callbacks (callbacks_of rest ++ map first settled)))

first-called : (o : Option (List String)) (cs : List Callback) → map first (called o cs) ≡ cs
first-called none cs = first-reject_all cs
first-called (some results) cs = first-resolve_all cs results

-- Settling a batch that was picked, with any results or with none.
pub settle-IsKept :
    (o : Option (List String)) (b : BatchedCalls) (rest : List BatchedCalls) (p : Provider)
    → IsPicked p.sent (some (b, rest))
    → IsKept p
    → IsKept (settle o b (record p { sent = rest }))
settle-IsKept o b rest p picked kept = Perm.trans kept (
    Perm.append_left p.batched.callbacks
      (settled_all p.sent rest b p.settled _ picked (first-called o b.callbacks)))
