-- ===== src/Views/TransactionMonitor/Settling/Steps.antt =====
-- The effects that an event causes in the monitor of
-- packages/dev-frontend/src/components/Transaction.tsx.
use hliquity.Base.{
  ℕ, suc, ◌≡◌, refl, sym, ◌∙◌, ap, ==_iff, true, false, ◌&&◌, some, List, [], ◌∷◌, ◌++◌, both_true,
  Bool-cases, inl, inr, ◌==◌, arith,
}
use mathlib.Core.Path.{ap₂}
use hliquity.Decimal.BigText.{Text}
use hliquity.AffectedTroves.{same_text}
use hliquity.Views.TransactionMonitor.{
  TransactionState, idle, failed, waiting_for_approval, cancelled, confirmed, confirmed_one_shot,
  waiting_for_confirmation, type_of, id_of, tx_of, watching, Monitor, start, SendAnswer, sent,
  denied, rejected, ReceiptAnswer, receipt, transaction_cancelled, error, sent_state, receipt_state,
  send_transaction, answer_to, answer_receipt, time_out, effects, render, render_all,
}
use hliquity.Views.TransactionMonitor.Settling.Rest.{
  resting, IsNamed, IsRest, after_send, after_answer, after_receipt, after_timeout, IsAt,
}

refreshes_lem : (s : TransactionState) (ids : List Text) (n : ℕ) → (resting s ids n).refreshes ≡ n
refreshes_lem idle ids n = refl
refreshes_lem (failed id message) ids n = refl
refreshes_lem (waiting_for_approval id) ids n = refl
refreshes_lem (cancelled id) ids n = refl
refreshes_lem (confirmed id) ids n = refl
refreshes_lem (confirmed_one_shot id) ids n = refl
refreshes_lem (waiting_for_confirmation id tx) ids n = refl

resting-IsAt :
    (m : Monitor) (s : TransactionState) (ids : List Text) (n : ℕ)
    → m ≡ resting s ids n
    → IsAt m s ids
resting-IsAt m s ids n h =
    h ∙ ap (resting s ids) (sym (ap (λ q. q.refreshes) h ∙ refreshes_lem s ids n))

pub send-IsAt :
    (id : Text) (s : TransactionState) (ids : List Text) (n : ℕ)
    → IsRest s ids
    → IsAt (render_all (send_transaction id (resting s ids n))) (after_send id s) (ids ++ id ∷ [])
unfolding send_transaction render_all render effects type_of id_of tx_of
send-IsAt id idle ids n h = refl
send-IsAt id (failed id' message) ids n h = ground arith
send-IsAt id (waiting_for_approval id') ids n h = ground arith
send-IsAt id (cancelled id') ids n h = ground arith
send-IsAt id (confirmed id') ids n h = ground arith
send-IsAt id (confirmed_one_shot id') ids n h = elim h [ ]
send-IsAt id (waiting_for_confirmation id' tx) ids n h = ground arith

same_text_eq : (a b : Text) → same_text a b ≡ true → a ≡ b
same_text_eq [] [] h = refl
same_text_eq [] (d ∷ b) h = cc
same_text_eq (c ∷ a) [] h = cc
same_text_eq (c ∷ a) (d ∷ b) h =
    let (first, rest) = both_true (c == d) (same_text a b) h in
    ap₂ (λ e s. e ∷ s) ((==_iff c d).0 first) (same_text_eq a b rest)

-- A transaction that is sent while another one is waited for, before the renders.
abbrev overtaken : (id : Text) (tx : ℕ) (id' : Text) (tx' : ℕ) (rest : List Text) (n : ℕ) → Monitor
overtaken id tx id' tx' rest n = record start {
  state = waiting_for_confirmation id tx;
  shown = waiting_for_confirmation id' tx';
  is_dirty = true;
  watch = watching id' tx';
  sending = rest;
  refreshes = n;
}

-- The same transaction stays waited for.
same_render :
    (id : Text) (tx : ℕ) (id' : Text) (tx' : ℕ) (rest : List Text) (n : ℕ)
    → same_text id' id ≡ true
    → (tx' == tx) ≡ true
    → render (overtaken id tx id' tx' rest n)
      ≡ record (resting (waiting_for_confirmation id tx) rest n) { watch = watching id' tx' }
unfolding render effects type_of id_of tx_of
same_render id tx id' tx' rest n h k = rw (h, k) refl

same_rest :
    (id : Text) (tx : ℕ) (id' : Text) (tx' : ℕ) (rest : List Text) (n : ℕ)
    → same_text id' id ≡ true
    → (tx' == tx) ≡ true
    → render_all (overtaken id tx id' tx' rest n) ≡ resting (waiting_for_confirmation id tx) rest n
unfolding render_all render
same_rest id tx id' tx' rest n h k =
    ap (λ m. render (render m)) (same_render id tx id' tx' rest n h k)
    ∙ ap₂ (λ a b. record (resting (waiting_for_confirmation id tx) rest n) { watch = watching a b })
        (same_text_eq id' id h) ((==_iff tx' tx).0 k)

-- Of another one both monitors are cancelled, one after the other.
other_render :
    (id : Text) (tx : ℕ) (id' : Text) (tx' : ℕ) (rest : List Text) (n : ℕ)
    → IsNamed id
    → (same_text id' id && tx' == tx) ≡ false
    → render (overtaken id tx id' tx' rest n)
      ≡ record (overtaken id tx id tx rest (suc n)) { state = idle }
unfolding render effects type_of id_of tx_of
other_render id tx id' tx' rest n named h = elim (Bool-cases (same_text id' id)) [
  | inl e ↦ let h' = rw e at h in rw (e, h', named) refl
  | inr e ↦ rw (e, named) refl
]

cancelled_both :
    (id : Text) (tx : ℕ) (rest : List Text) (n : ℕ)
    → render (render (record (overtaken id tx id tx rest n) { state = idle })) ≡ resting idle rest n
unfolding render effects type_of id_of tx_of
cancelled_both id tx rest n = refl

sent_while_waiting :
    (id : Text) (rest : List Text) (tx : ℕ) (id' : Text) (tx' : ℕ) (ids : List Text) (n : ℕ)
    → IsNamed id
    → IsAt
        (render_all (overtaken id tx id' tx' rest n))
        (after_answer (waiting_for_confirmation id' tx') (waiting_for_confirmation id tx))
        rest
unfolding render_all
sent_while_waiting id rest tx id' tx' ids n named =
    elim (Bool-cases (same_text id' id && tx' == tx)) [
      | inl same ↦
          let (same_id, same_tx) = both_true (same_text id' id) (tx' == tx) same in
          resting-IsAt _ _ rest n (same_rest id tx id' tx' rest n same_id same_tx ∙ rw same refl)
      | inr other ↦ resting-IsAt _ _ rest (suc n) (
          ap (λ m. render (render m)) (other_render id tx id' tx' rest n named other)
          ∙ (cancelled_both id tx rest (suc n) ∙ rw other refl))
    ]

-- An answer to a send, from every state but the wait for a confirmation.
sent-IsAt :
    (id : Text) (rest : List Text) (tx : ℕ) (s : TransactionState) (ids : List Text) (n : ℕ)
    → IsNamed id
    → IsRest s ids
    → IsAt
        (render_all (answer_to (some (id, rest)) (sent tx) (resting s ids n)))
        (after_answer s (waiting_for_confirmation id tx))
        rest
unfolding sent_state render_all render effects type_of id_of tx_of
sent-IsAt id rest tx idle ids n named h = ground arith
sent-IsAt id rest tx (failed id' message) ids n named h = ground arith
sent-IsAt id rest tx (waiting_for_approval id') ids n named h = ground arith
sent-IsAt id rest tx (cancelled id') ids n named h = ground arith
sent-IsAt id rest tx (confirmed id') ids n named h = ground arith
sent-IsAt id rest tx (confirmed_one_shot id') ids n named h = elim h [ ]
sent-IsAt id rest tx (waiting_for_confirmation id' tx') ids n named h =
    sent_while_waiting id rest tx id' tx' ids (suc n) named

denied-IsAt :
    (id : Text) (rest : List Text) (s : TransactionState) (ids : List Text) (n : ℕ)
    → IsRest s ids
    → IsAt
        (render_all (answer_to (some (id, rest)) denied (resting s ids n)))
        (after_answer s (cancelled id))
        rest
unfolding sent_state render_all render effects type_of id_of tx_of
denied-IsAt id rest idle ids n h = ground arith
denied-IsAt id rest (failed id' message) ids n h = ground arith
denied-IsAt id rest (waiting_for_approval id') ids n h = ground arith
denied-IsAt id rest (cancelled id') ids n h = ground arith
denied-IsAt id rest (confirmed id') ids n h = ground arith
denied-IsAt id rest (confirmed_one_shot id') ids n h = elim h [ ]
denied-IsAt id rest (waiting_for_confirmation id' tx') ids n h = ground arith

rejected-IsAt :
    (id : Text) (rest : List Text) (s : TransactionState) (ids : List Text) (n : ℕ)
    → IsRest s ids
    → IsAt
        (render_all (answer_to (some (id, rest)) rejected (resting s ids n)))
        (after_answer s (sent_state id rejected))
        rest
unfolding sent_state render_all render effects type_of id_of tx_of
rejected-IsAt id rest idle ids n h = ground arith
rejected-IsAt id rest (failed id' message) ids n h = ground arith
rejected-IsAt id rest (waiting_for_approval id') ids n h = ground arith
rejected-IsAt id rest (cancelled id') ids n h = ground arith
rejected-IsAt id rest (confirmed id') ids n h = ground arith
rejected-IsAt id rest (confirmed_one_shot id') ids n h = elim h [ ]
rejected-IsAt id rest (waiting_for_confirmation id' tx') ids n h = ground arith

pub answered-IsAt :
    (id : Text) (rest : List Text) (answer : SendAnswer) (s : TransactionState) (ids : List Text)
    (n : ℕ)
    → IsNamed id
    → IsRest s ids
    → IsAt
        (render_all (answer_to (some (id, rest)) answer (resting s ids n)))
        (after_answer s (sent_state id answer))
        rest
unfolding sent_state
answered-IsAt id rest (sent tx) s ids n named h = sent-IsAt id rest tx s ids n named h
answered-IsAt id rest denied s ids n named h = denied-IsAt id rest s ids n h
answered-IsAt id rest rejected s ids n named h = rejected-IsAt id rest s ids n h

-- After a success, with its first render, which confirms it.
abbrev succeeded : Text → List Text → ℕ → Monitor
succeeded id ids n = record start {
  state = confirmed id;
  shown = confirmed_one_shot id;
  is_dirty = true;
  sending = ids;
  refreshes = suc n;
}

succeeded_first :
    (id : Text) (tx : ℕ) (ids : List Text) (n : ℕ)
    → IsNamed id
    → render (answer_receipt (receipt true) (resting (waiting_for_confirmation id tx) ids n))
      ≡ succeeded id ids n
unfolding answer_receipt receipt_state render effects type_of id_of tx_of
succeeded_first id tx ids n h = ground arith

succeeded_then :
    (id : Text) (ids : List Text) (n : ℕ)
    → render (succeeded id ids n) ≡ resting (confirmed id) ids (suc (suc n))
unfolding render effects type_of id_of tx_of
succeeded_then id ids n = ground arith

still_confirmed :
    (id : Text) (ids : List Text) (n : ℕ)
    → render (resting (confirmed id) ids n) ≡ resting (confirmed id) ids n
unfolding render
still_confirmed id ids n = refl

pub received-IsAt :
    (answer : ReceiptAnswer) (s : TransactionState) (ids : List Text) (n : ℕ)
    → IsRest s ids
    → IsAt (render_all (answer_receipt answer (resting s ids n))) (after_receipt s answer) ids
unfolding answer_receipt receipt_state render_all render effects type_of id_of tx_of
received-IsAt answer idle ids n h = refl
received-IsAt answer (failed id message) ids n h = refl
received-IsAt answer (waiting_for_approval id) ids n h = refl
received-IsAt answer (cancelled id) ids n h = refl
received-IsAt answer (confirmed id) ids n h = refl
received-IsAt answer (confirmed_one_shot id) ids n h = elim h [ ]
received-IsAt (receipt true) (waiting_for_confirmation id tx) ids n h =
    resting-IsAt _ (confirmed id) ids (suc (suc n)) (
      ap (λ m. render (render m)) (succeeded_first id tx ids n h)
      ∙ (ap render (succeeded_then id ids n) ∙ still_confirmed id ids (suc (suc n))))
received-IsAt (receipt false) (waiting_for_confirmation id tx) ids n h = ground arith
received-IsAt transaction_cancelled (waiting_for_confirmation id tx) ids n h = ground arith
received-IsAt error (waiting_for_confirmation id tx) ids n h = ground arith

pub timed_out-IsAt :
    (s : TransactionState) (ids : List Text) (n : ℕ)
    → IsRest s ids
    → IsAt (render_all (time_out (resting s ids n))) (after_timeout s) ids
unfolding time_out render_all render effects type_of id_of tx_of
timed_out-IsAt idle ids n h = refl
timed_out-IsAt (failed id message) ids n h = ground arith
timed_out-IsAt (waiting_for_approval id) ids n h = refl
timed_out-IsAt (cancelled id) ids n h = ground arith
timed_out-IsAt (confirmed id) ids n h = ground arith
timed_out-IsAt (confirmed_one_shot id) ids n h = elim h [ ]
timed_out-IsAt (waiting_for_confirmation id tx) ids n h = refl

pub sending_lem : (s : TransactionState) (ids : List Text) (n : ℕ) → (resting s ids n).sending ≡ ids
sending_lem idle ids n = refl
sending_lem (failed id message) ids n = refl
sending_lem (waiting_for_approval id) ids n = refl
sending_lem (cancelled id) ids n = refl
sending_lem (confirmed id) ids n = refl
sending_lem (confirmed_one_shot id) ids n = refl
sending_lem (waiting_for_confirmation id tx) ids n = refl

pub still-IsAt :
    (s : TransactionState) (ids : List Text) (n : ℕ) → IsAt (render_all (resting s ids n)) s ids
unfolding render_all render
still-IsAt idle ids n = refl
still-IsAt (failed id message) ids n = refl
still-IsAt (waiting_for_approval id) ids n = refl
still-IsAt (cancelled id) ids n = refl
still-IsAt (confirmed id) ids n = refl
still-IsAt (confirmed_one_shot id) ids n = refl
still-IsAt (waiting_for_confirmation id tx) ids n = refl
