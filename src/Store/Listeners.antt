-- ===== src/Store/Listeners.antt =====
-- The listeners of packages/lib-base/src/HLiquityStore.ts: `subscribe` and `_notify`.
-- `wrap` makes a new function for every subscription, so a listener is a fresh number. What a
-- listener does to the set of listeners while it is called is a parameter. The call by which
-- `subscribe` hands the current state to its listener is left out.
use hliquity.Base.{
  ℕ, suc, ◌<◌, ◌≡◌, refl, Bool, true, false, ◌||◌, not, ◌&&◌, List, [], ◌∷◌, ◌++◌, ◌==◌, arith,
  if◌then◌else◌, Bool-cases, inl, inr, ==_iff,
}

-- `_listeners`, in the order of insertion, and the next number.
pub record Listeners : Type 0 where
  pub listeners : List ℕ
  pub fresh : ℕ

-- `Set.has` and `Set.delete`
abbrev pub has : ℕ → List ℕ → Bool
has l [] = false
has l (x ∷ xs) = x == l || has l xs

unfoldable pub delete : ℕ → List ℕ → List ℕ
delete l [] = []
delete l (x ∷ xs) = let rest = delete l xs in if x == l then rest else x ∷ rest

unfoldable pub subscribe : Listeners → Listeners
subscribe s = record { listeners = s.listeners ++ s.fresh ∷ []; fresh = suc s.fresh }

-- The function that `subscribe` returns.
unfoldable pub unsubscribe : ℕ → Listeners → Listeners
unsubscribe l s = record s { listeners = delete l s.listeners }

-- What a listener may do to the set while it is called.
pub data Op : Type 0 where
  adds : Op
  removes : ℕ → Op

unfoldable pub perform : List Op → Listeners → Listeners
unfolding subscribe unsubscribe
perform [] s = s
perform (adds ∷ ops) s = perform ops (subscribe s)
perform (removes l ∷ ops) s = perform ops (unsubscribe l s)

abbrev pub removes_it : ℕ → List Op → Bool
removes_it l [] = false
removes_it l (adds ∷ ops) = removes_it l ops
removes_it l (removes x ∷ ops) = x == l || removes_it l ops

module _ (react : ℕ → List Op) where
  -- The loop of `_notify` over the rest of the copy: the listeners that are called, and the set.
  unfoldable pub notify_each : List ℕ → Listeners → List ℕ × Listeners
  unfolding perform
  notify_each [] s = ([], s)
  notify_each (l ∷ copy) s = elim (has l s.listeners) [
    | true ↦ let (called, s') = notify_each copy (perform (react l) s) in (l ∷ called, s')
    | false ↦ notify_each copy s
  ]

  unfoldable pub notify : Listeners → List ℕ × Listeners
  notify s = notify_each s.listeners s

has-delete : (l x : ℕ) (xs : List ℕ) → has x (delete l xs) ≡ (not (l == x) && has x xs)
unfolding delete
has-delete l x [] = ground arith
has-delete l x (y ∷ xs) = ground (arith, has-delete l x xs)

has-append : (l x : ℕ) (xs : List ℕ) → has l (xs ++ x ∷ []) ≡ (has l xs || x == l)
has-append l x [] = ground arith
has-append l x (y ∷ xs) = ground (arith, has-append l x xs)

-- A listener that was once in the set and no longer is.
abbrev pub Removed : ℕ → Listeners → Type 0
Removed l s = (l < s.fresh) × (has l s.listeners ≡ false)

perform-Removed : (ops : List Op) (l : ℕ) (s : Listeners) → Removed l s → Removed l (perform ops s)
unfolding perform
perform-Removed [] l s h = h
perform-Removed (adds ∷ ops) l s (old, out) =
    perform-Removed ops l (subscribe s)
      (unfold subscribe in (omega arith, ground (arith, has-append l s.fresh s.listeners)))
perform-Removed (removes x ∷ ops) l s (old, out) =
    perform-Removed ops l (unsubscribe x s)
      (unfold unsubscribe in (old, ground (arith, has-delete x l s.listeners)))

perform-removes :
    (ops : List Op) (l : ℕ) (s : Listeners)
    → l < s.fresh
    → removes_it l ops ≡ true
    → Removed l (perform ops s)
unfolding perform
perform-removes [] l s old h = cc
perform-removes (adds ∷ ops) l s old h =
    perform-removes ops l (subscribe s) (unfold subscribe in omega arith) h
perform-removes (removes x ∷ ops) l s old h = elim (Bool-cases (x == l)) [
  | inl same ↦
      perform-Removed ops l (unsubscribe x s)
        (unfold unsubscribe in (old, ground (arith, has-delete x l s.listeners)))
  | inr other ↦ perform-removes ops l (unsubscribe x s) (unfold unsubscribe in old) (ground arith)
]

perform-keeps :
    (ops : List Op) (l : ℕ) (s : Listeners)
    → removes_it l ops ≡ false
    → has l s.listeners ≡ true
    → has l (perform ops s).listeners ≡ true
unfolding perform
perform-keeps [] l s h k = k
perform-keeps (adds ∷ ops) l s h k =
    perform-keeps ops l (subscribe s) h
      (unfold subscribe in ground (arith, has-append l s.fresh s.listeners))
perform-keeps (removes x ∷ ops) l s h k =
    perform-keeps ops l (unsubscribe x s) (ground arith)
      (unfold unsubscribe in ground (arith, has-delete x l s.listeners))

has_other : (x l : ℕ) (xs : List ℕ) → has x xs ≡ true → has l xs ≡ false → (x == l) ≡ false
has_other x l xs there out = elim (Bool-cases (x == l)) [
  | inl same ↦ let there' = rw ((==_iff x l).0 same) at there in cc
  | inr other ↦ other
]

module _ (react : ℕ → List Op) where
  notify_each_in :
      (l : ℕ) (copy : List ℕ) (s : Listeners)
      → has l s.listeners ≡ true
      → notify_each react (l ∷ copy) s ≡ (
        l ∷ (notify_each react copy (perform (react l) s)).0,
        (notify_each react copy (perform (react l) s)).1,
      )
  unfolding notify_each
  notify_each_in l copy s h = rw (notify_each, h) refl

  notify_each_out :
      (l : ℕ) (copy : List ℕ) (s : Listeners)
      → has l s.listeners ≡ false
      → notify_each react (l ∷ copy) s ≡ notify_each react copy s
  unfolding notify_each
  notify_each_out l copy s h = rw (notify_each, h) refl

  notify_each-Removed :
      (copy : List ℕ) (l : ℕ) (s : Listeners)
      → Removed l s
      → has l (notify_each react copy s).0 ≡ false
  notify_each-Removed [] l s h = unfold notify_each in refl
  notify_each-Removed (x ∷ copy) l s (old, out) = elim (Bool-cases (has x s.listeners)) [
    | inl there ↦
        let rest =
          notify_each-Removed copy l (perform (react x) s)
            (perform-Removed (react x) l s (old, out)) in
        rw (notify_each_in x copy s there, has_other x l s.listeners there out, rest) refl
    | inr gone ↦ rw (notify_each_out x copy s gone) (notify_each-Removed copy l s (old, out))
  ]

  -- A called listener that unsubscribes another one keeps it from being called in the rest of the
  -- round, in whatever order they stand in the copy and whatever the listeners called next do.
  pub notify_unsubscribed :
      (copy : List ℕ) (x l : ℕ) (s : Listeners)
      → l < s.fresh
      → has x s.listeners ≡ true
      → removes_it l (react x) ≡ true
      → (x == l) ≡ false
      → has l (notify_each react (x ∷ copy) s).0 ≡ false
  notify_unsubscribed copy x l s old there removed other =
      let rest =
        notify_each-Removed copy l (perform (react x) s)
          (perform-removes (react x) l s old removed) in
      rw (notify_each_in x copy s there, other, rest) refl

  notify_each_calls :
      (l : ℕ) (copy : List ℕ) (s : Listeners)
      → ((x : ℕ) → removes_it l (react x) ≡ false)
      → has l s.listeners ≡ true
      → has l (notify_each react copy s).0 ≡ has l copy
  notify_each_calls l [] s kept h = unfold notify_each in refl
  notify_each_calls l (x ∷ copy) s kept h = elim (Bool-cases (has x s.listeners)) [
    | inl there ↦
        let rest =
          notify_each_calls l copy (perform (react x) s) kept
            (perform-keeps (react x) l s (kept x) h) in
        rw (notify_each_in x copy s there, rest) refl
    | inr gone ↦
        let other : (l == x) ≡ false = has_other l x s.listeners h gone in
        let other' : (x == l) ≡ false = ground arith in
        rw (notify_each_out x copy s gone, notify_each_calls l copy s kept h, other') refl
  ]

  notify_each_copied :
      (l : ℕ) (copy : List ℕ) (s : Listeners)
      → has l copy ≡ false
      → has l (notify_each react copy s).0 ≡ false
  notify_each_copied l [] s h = unfold notify_each in refl
  notify_each_copied l (x ∷ copy) s h = elim (Bool-cases (has x s.listeners)) [
    | inl there ↦
        let rest = notify_each_copied l copy (perform (react x) s) (ground arith) in
        let other : (x == l) ≡ false = ground arith in
        rw (notify_each_in x copy s there, other, rest) refl
    | inr gone ↦ rw (notify_each_out x copy s gone) (notify_each_copied l copy s (ground arith))
  ]

  -- A listener that no listener unsubscribes is called exactly if it was subscribed when the round
  -- began: none that is subscribed meanwhile is called.
  pub notify_calls :
      (l : ℕ) (s : Listeners)
      → ((x : ℕ) → removes_it l (react x) ≡ false)
      → has l (notify react s).0 ≡ has l s.listeners
  unfolding notify
  notify_calls l s kept = elim (Bool-cases (has l s.listeners)) [
    | inl there ↦ notify_each_calls l s.listeners s kept there
    | inr out ↦ rw (notify_each_copied l s.listeners s out, out) refl
  ]
