-- ===== src/Views/TransactionMonitor/Settling.antt =====
-- The runs of the transactions of packages/dev-frontend/src/components/Transaction.tsx: what the
-- monitor does in every state that it reaches, and that it comes to rest.
pub mod Rest
mod Steps
use hliquity.Base.{
  ℕ, zero, suc, ◌≡◌, refl, sym, ◌∙◌, ap, ==_iff, Bool, true, false, ◌&&◌, Option, none, some, List,
  [], ◌∷◌, ◌++◌, All, All-append, both_true, Bool-cases, inl, inr, if◌then◌else◌, ◌==◌, arith,
}
use mathlib.Core.Path.{ap₂, subst}
use hliquity.Decimal.BigText.{Text}
use hliquity.Decimal.Text.{is_nil}
use hliquity.AffectedTroves.{same_text}
use hliquity.Views.TransactionMonitor.{
  TransactionState, idle, failed, waiting_for_approval, cancelled, confirmed, confirmed_one_shot,
  waiting_for_confirmation, type_of, id_of, tx_of, watching, Monitor, start, SendAnswer, sent,
  denied, rejected, ReceiptAnswer, receipt, transaction_cancelled, error, sent_state, receipt_state,
  send_transaction, pick, behind, answer_to, answer_send, answer_receipt, time_out, effects, render,
  render_all, Event, sends, send_answered, receipt_answered, timed_out, handle, run,
}
use hliquity.Views.TransactionMonitor.Settling.Rest.{
  resting, IsNamed, IsRest, AreNamed, after_send, after_answer, answered_state, ended,
  after_receipt, after_timeout, next, next_all, Rests, IsAt,
}
use hliquity.Views.TransactionMonitor.Settling.Steps.{
  send-IsAt, answered-IsAt, received-IsAt, timed_out-IsAt, sending_lem, still-IsAt,
}

-- The states of rest follow each other.
send-IsRest :
    (id : Text) (s : TransactionState) (ids : List Text)
    → IsNamed id
    → IsRest s ids
    → IsRest (after_send id s) (ids ++ id ∷ [])
send-IsRest id idle [] named h = named
send-IsRest id idle (i ∷ ids) named h = named
send-IsRest id (failed id' message) [] named h = named
send-IsRest id (failed id' message) (i ∷ ids) named h = named
send-IsRest id (waiting_for_approval id') [] named h = named
send-IsRest id (waiting_for_approval id') (i ∷ ids) named h = named
send-IsRest id (cancelled id') [] named h = named
send-IsRest id (cancelled id') (i ∷ ids) named h = named
send-IsRest id (confirmed id') [] named h = named
send-IsRest id (confirmed id') (i ∷ ids) named h = named
send-IsRest id (confirmed_one_shot id') ids named h = elim h [ ]
send-IsRest id (waiting_for_confirmation id' tx) ids named h = tt

sent_state-IsRest :
    (id : Text) (answer : SendAnswer) (rest : List Text)
    → IsNamed id
    → IsRest (sent_state id answer) rest
unfolding sent_state
sent_state-IsRest id (sent tx) rest named = named
sent_state-IsRest id denied rest named = named
sent_state-IsRest id rejected rest named = named

answer-IsRest :
    (id : Text) (answer : SendAnswer) (s : TransactionState) (ids rest : List Text)
    → IsNamed id
    → IsRest s ids
    → IsRest (after_answer s (sent_state id answer)) rest
unfolding sent_state
answer-IsRest id answer idle ids rest named h = sent_state-IsRest id answer rest named
answer-IsRest id answer (failed id' message) ids rest named h =
    sent_state-IsRest id answer rest named
answer-IsRest id answer (waiting_for_approval id') ids rest named h =
    sent_state-IsRest id answer rest named
answer-IsRest id answer (cancelled id') ids rest named h = sent_state-IsRest id answer rest named
answer-IsRest id answer (confirmed id') ids rest named h = sent_state-IsRest id answer rest named
answer-IsRest id answer (confirmed_one_shot id') ids rest named h = elim h [ ]
answer-IsRest id (sent tx) (waiting_for_confirmation id' tx') ids rest named h =
    elim (Bool-cases (same_text id' id && tx' == tx)) [
      | inl same ↦ rw same named
      | inr other ↦ rw other tt
    ]
answer-IsRest id denied (waiting_for_confirmation id' tx') ids rest named h = tt
answer-IsRest id rejected (waiting_for_confirmation id' tx') ids rest named h = tt

ended-IsRest :
    (id : Text) (answer : ReceiptAnswer) (ids : List Text)
    → IsNamed id
    → IsRest (ended id answer) ids
unfolding receipt_state
ended-IsRest id (receipt true) ids h = h
ended-IsRest id (receipt false) ids h = h
ended-IsRest id transaction_cancelled ids h = h
ended-IsRest id error ids h = h

receipt-IsRest :
    (answer : ReceiptAnswer) (s : TransactionState) (ids : List Text)
    → IsRest s ids
    → IsRest (after_receipt s answer) ids
unfolding receipt_state
receipt-IsRest answer idle ids h = h
receipt-IsRest answer (failed id message) ids h = h
receipt-IsRest answer (waiting_for_approval id) ids h = h
receipt-IsRest answer (cancelled id) ids h = h
receipt-IsRest answer (confirmed id) ids h = h
receipt-IsRest answer (confirmed_one_shot id) ids h = h
receipt-IsRest answer (waiting_for_confirmation id tx) ids h = ended-IsRest id answer ids h

timeout-IsRest :
    (s : TransactionState) (ids : List Text) → IsRest s ids → IsRest (after_timeout s) ids
timeout-IsRest idle ids h = h
timeout-IsRest (failed id message) ids h = tt
timeout-IsRest (waiting_for_approval id) ids h = h
timeout-IsRest (cancelled id) ids h = tt
timeout-IsRest (confirmed id) ids h = tt
timeout-IsRest (confirmed_one_shot id) ids h = h
timeout-IsRest (waiting_for_confirmation id tx) ids h = h

abbrev PickedNamed : Option (Text × List Text) → Type 0
PickedNamed none = Unit
PickedNamed (some (id, rest)) = IsNamed id × All IsNamed rest

behind-PickedNamed :
    (id : Text) (o : Option (Text × List Text))
    → IsNamed id
    → PickedNamed o
    → PickedNamed (behind id o)
behind-PickedNamed id none named h = tt
behind-PickedNamed id (some (picked, rest)) named (k, h) = (k, (named, h))

pick-PickedNamed : (n : ℕ) (ids : List Text) → All IsNamed ids → PickedNamed (pick n ids)
pick-PickedNamed n [] h = tt
pick-PickedNamed zero (id ∷ ids) h = h
pick-PickedNamed (suc n) (id ∷ ids) (named, h) =
    behind-PickedNamed id (pick n ids) named (pick-PickedNamed n ids h)

answered-Rests :
    (picked : Option (Text × List Text)) (answer : SendAnswer) (s : TransactionState)
    (ids : List Text) (n : ℕ)
    → PickedNamed picked
    → IsRest s ids
    → All IsNamed ids
    → Rests
        (render_all (answer_to picked answer (resting s ids n)))
        (answered_state (s, ids) answer picked)
unfolding sent_state
answered-Rests none answer s ids n k h all = (_, still-IsAt s ids n, (h, all))
answered-Rests (some (id, rest)) answer s ids n (named, k) h all = (
  _,
  answered-IsAt id rest answer s ids n named h,
  (answer-IsRest id answer s ids rest named h, k),
)

answer_send_lem :
    (k : ℕ) (answer : SendAnswer) (s : TransactionState) (ids : List Text) (n : ℕ)
    → answer_send k answer (resting s ids n) ≡ answer_to (pick k ids) answer (resting s ids n)
unfolding answer_send
answer_send_lem k answer s ids n =
    ap (λ l. answer_to (pick k l) answer (resting s ids n)) (sending_lem s ids n)

next-Rests :
    (event : Event) (s : TransactionState) (ids : List Text) (n : ℕ)
    → AreNamed (event ∷ [])
    → IsRest s ids
    → All IsNamed ids
    → Rests (render_all (handle event (resting s ids n))) (next event (s, ids))
unfolding handle next
next-Rests (sends id) s ids n (named, none_left) h all = (
  _,
  send-IsAt id s ids n h,
  (send-IsRest id s ids named h, All-append IsNamed ids (id ∷ []) all (named, tt)),
)
next-Rests (send_answered k answer) s ids n named h all =
    let (n', at_rest, inv) =
      answered-Rests (pick k ids) answer s ids n (pick-PickedNamed k ids all) h all in
    (n', ap render_all (answer_send_lem k answer s ids n) ∙ at_rest, inv)
next-Rests (receipt_answered answer) s ids n named h all =
    (_, received-IsAt answer s ids n h, (receipt-IsRest answer s ids h, all))
next-Rests timed_out s ids n named h all =
    (_, timed_out-IsAt s ids n h, (timeout-IsRest s ids h, all))

split_named :
    (event : Event) (events : List Event)
    → AreNamed (event ∷ events)
    → AreNamed (event ∷ []) × AreNamed events
split_named (sends id) events (named, all) = ((named, tt), all)
split_named (send_answered n answer) events all = (tt, all)
split_named (receipt_answered answer) events all = (tt, all)
split_named timed_out events all = (tt, all)

next_all-Rests :
    (events : List Event) (s : TransactionState) (ids : List Text) (n : ℕ)
    → AreNamed events
    → IsRest s ids
    → All IsNamed ids
    → Rests (run events (resting s ids n)) (next_all events (s, ids))
unfolding run next_all
next_all-Rests [] s ids n named h all = (n, refl, (h, all))
next_all-Rests (event ∷ events) s ids n named h all =
    let (this, rest) = split_named event events named in
    let (n', at_rest, (h', all')) = next-Rests event s ids n this h all in
    let following = next event (s, ids) in
    let (n'', at_end, last) = next_all-Rests events following.0 following.1 n' rest h' all' in
    (n'', ap (run events) at_rest ∙ at_end, last)

-- The monitor, with its effects, renders and timers, implements the states of rest: after any events
-- of which the sends have identifiers, in any order and with any number of sends that are awaited
-- at once, it rests in the state that those events lead to, with the sends that they leave awaited.
pub run-Rests :
    (events : List Event) → AreNamed events → Rests (run events start) (next_all events (idle, []))
run-Rests events named = next_all-Rests events idle [] 0 named tt tt

over_end :
    (s : TransactionState) (outcome : ReceiptAnswer)
    → IsRest s []
    → after_timeout (after_receipt s outcome) ≡ idle
unfolding receipt_state
over_end idle outcome h = refl
over_end (failed id message) outcome h = refl
over_end (waiting_for_approval id) outcome h = elim h [ ]
over_end (cancelled id) outcome h = refl
over_end (confirmed id) outcome h = refl
over_end (confirmed_one_shot id) outcome h = elim h [ ]
over_end (waiting_for_confirmation id tx) (receipt true) h = refl
over_end (waiting_for_confirmation id tx) (receipt false) h = refl
over_end (waiting_for_confirmation id tx) transaction_cancelled h = refl
over_end (waiting_for_confirmation id tx) error h = refl

ends_idle :
    (rest : TransactionState × List Text) (outcome : ReceiptAnswer) (m : Monitor)
    → m.sending ≡ []
    → Rests m rest
    → (n : ℕ) × (run (receipt_answered outcome ∷ timed_out ∷ []) m ≡ record start { refreshes = n })
unfolding next_all next
ends_idle (s, ids) outcome m none_left (n, at_rest, (h, all)) =
    let empty : ids ≡ [] =
      sym (sending_lem s ids n) ∙ (sym (ap (λ q. q.sending) at_rest) ∙ none_left) in
    let h' : IsRest s [] = subst (IsRest s) empty h in
    let at_rest' : m ≡ resting s [] n = at_rest ∙ ap (λ l. resting s l n) empty in
    let last = receipt_answered outcome ∷ timed_out ∷ [] in
    let (n', at_end, _) = next_all-Rests last s [] n tt h' tt in
    (n', ap (run last) at_rest' ∙ (at_end ∙ ap (λ e. resting e [] n') (over_end s outcome h')))

-- A transaction always comes to an end: after any events of which the sends have identifiers, in any
-- order, once no send is awaited any more, an answer to `waitForReceipt` and the end of the timer,
-- whatever the answers were, bring the monitor back to the idle state of the start, but for the
-- number of refreshes.
pub run-idle :
    (events : List Event) (outcome : ReceiptAnswer)
    → AreNamed events
    → (run events start).sending ≡ []
    → (n : ℕ) × (run (receipt_answered outcome ∷ timed_out ∷ []) (run events start)
        ≡ record start { refreshes = n })
run-idle events outcome named none_left =
    ends_idle (next_all events (idle, [])) outcome (run events start) none_left
      (run-Rests events named)
