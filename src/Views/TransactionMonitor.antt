-- ===== src/Views/TransactionMonitor.antt =====
-- packages/dev-frontend/src/components/Transaction.tsx: sending a transaction, and the
-- component TransactionMonitor, which waits for its receipt and clears the result after a while. An
-- effect runs after a render in which a value that it depends on differs from the render before, the
-- cleanups of all such effects first. An event finds what the one before it set rendered.
pub mod Settling
use Prim.Native.String.{String}
use text.Mathlib.Text.{◌==◌ as str_eq}
use hliquity.Base.{
  ℕ, zero, suc, ◌++◌, ◌≡◌, refl, Bool, true, false, not, ◌&&◌, Option, none, some, List, [], ◌∷◌,
  ◌==◌, if◌then◌else◌, arith,
}
use hliquity.Decimal.BigText.{Text}
use hliquity.Decimal.Text.{is_nil}
use hliquity.AffectedTroves.{same_text}

-- A transaction that is sent is known by its number.
pub data TransactionState : Type 0 where
  idle : TransactionState
  failed : (id : Text) (message : String) → TransactionState
  waiting_for_approval cancelled confirmed confirmed_one_shot : (id : Text) → TransactionState
  waiting_for_confirmation : (id : Text) (tx : ℕ) → TransactionState

unfoldable pub type_of : TransactionState → String
type_of idle = "idle"
type_of (failed id message) = "failed"
type_of (waiting_for_approval id) = "waitingForApproval"
type_of (cancelled id) = "cancelled"
type_of (confirmed id) = "confirmed"
type_of (confirmed_one_shot id) = "confirmedOneShot"
type_of (waiting_for_confirmation id tx) = "waitingForConfirmation"

unfoldable pub id_of : TransactionState → Option Text
id_of idle = none
id_of (failed id message) = some id
id_of (waiting_for_approval id) = some id
id_of (cancelled id) = some id
id_of (confirmed id) = some id
id_of (confirmed_one_shot id) = some id
id_of (waiting_for_confirmation id tx) = some id

unfoldable pub tx_of : TransactionState → Option ℕ
tx_of (waiting_for_confirmation id tx) = some tx
tx_of other = none

abbrev pub same_id : Option Text → Option Text → Bool
same_id none none = true
same_id (some a) (some b) = same_text a b
same_id a b = false

abbrev pub same_tx : Option ℕ → Option ℕ → Bool
same_tx none none = true
same_tx (some a) (some b) = a == b
same_tx a b = false

-- The monitoring of a transaction: `finished` after its receipt. One that is cancelled sets no
-- state any more, and is left out.
pub data Watch : Type 0 where
  no_watch finished : Watch
  watching : (id : Text) (tx : ℕ) → Watch

-- The state as it was set, as it is rendered, whether it was set since, the monitoring, whether the
-- timer runs, the identifiers of the calls whose `send` is awaited, and the number of calls of
-- `store.refresh()`.
pub record Monitor : Type 0 where
  pub state : TransactionState
  pub shown : TransactionState
  pub is_dirty : Bool
  pub watch : Watch
  pub timer : Bool
  pub sending : List Text
  pub refreshes : ℕ

abbrev pub start : Monitor
start = record {
  state = idle;
  shown = idle;
  is_dirty = false;
  watch = no_watch;
  timer = false;
  sending = [];
  refreshes = 0;
}

abbrev pub set_transaction_state : TransactionState → Monitor → Monitor
set_transaction_state state m = record m { state = state; is_dirty = true }

abbrev pub refresh : Monitor → Monitor
refresh m = record m { refreshes = suc m.refreshes }

-- What `send` answers: a transaction, a signature that the user denied, or another error.
pub data SendAnswer : Type 0 where
  sent : (tx : ℕ) → SendAnswer
  denied rejected : SendAnswer

-- What `waitForReceipt` answers: a receipt and whether it succeeded, a cancellation, or an error.
pub data ReceiptAnswer : Type 0 where
  receipt : (succeeded : Bool) → ReceiptAnswer
  transaction_cancelled error : ReceiptAnswer

unfoldable pub sent_state : Text → SendAnswer → TransactionState
sent_state id (sent tx) = waiting_for_confirmation id tx
sent_state id denied = cancelled id
sent_state id rejected = failed id "Failed to send transaction (try again)"

unfoldable pub receipt_state : Text → ReceiptAnswer → TransactionState
receipt_state id (receipt true) = confirmed_one_shot id
receipt_state id (receipt false) =
    failed id "Reverted: <no revert reason on non-ethers liquity implementations>"
receipt_state id transaction_cancelled = cancelled id
receipt_state id error = failed id "Failed"

-- `sendTransaction`, up to its `await`: whatever the state is, the transaction is sent.
unfoldable pub send_transaction : Text → Monitor → Monitor
send_transaction id m = record (set_transaction_state (waiting_for_approval id) m) {
  sending = m.sending ++ id ∷ [];
}

-- The awaited call at a position, and the others.
abbrev pub behind : Text → Option (Text × List Text) → Option (Text × List Text)
behind id none = none
behind id (some (picked, rest)) = some (picked, id ∷ rest)

abbrev pub pick : ℕ → List Text → Option (Text × List Text)
pick n [] = none
pick zero (id ∷ ids) = some (id, ids)
pick (suc n) (id ∷ ids) = behind id (pick n ids)

-- `sendTransaction`, after its `await`.
abbrev pub answer_to : Option (Text × List Text) → SendAnswer → Monitor → Monitor
unfolding sent_state
answer_to none answer m = m
answer_to (some (id, rest)) answer m =
    refresh (record (set_transaction_state (sent_state id answer) m) { sending = rest })

unfoldable pub answer_send : ℕ → SendAnswer → Monitor → Monitor
unfolding sent_state
answer_send n answer m = answer_to (pick n m.sending) answer m

-- `waitForConfirmation`, after its `await`.
abbrev pub receipt_for : Watch → ReceiptAnswer → Monitor → Monitor
unfolding receipt_state
receipt_for (watching id tx) answer m = record (set_transaction_state (receipt_state id answer) m) {
  watch = finished;
}
receipt_for other answer m = m

unfoldable pub answer_receipt : ReceiptAnswer → Monitor → Monitor
unfolding receipt_state
answer_receipt answer m = receipt_for m.watch answer m

-- The timer of five seconds runs out.
unfoldable pub time_out : Monitor → Monitor
time_out m =
    if m.timer then refresh (record (set_transaction_state idle m) { timer = false }) else m

-- The cleanup of the monitoring.
abbrev pub stop_watch : Watch → Monitor → Monitor
stop_watch (watching id tx) m = record (set_transaction_state idle m) { watch = no_watch }
stop_watch other m = record m { watch = no_watch }

-- The start of the monitoring, if there is an identifier, which is not empty, and a transaction.
abbrev pub start_watch : Option Text → Option ℕ → Monitor → Monitor
start_watch (some id) (some tx) m =
    if is_nil id then m else refresh (record m { watch = watching id tx })
start_watch id tx m = m

-- What follows a result.
abbrev pub start_timer : TransactionState → Monitor → Monitor
start_timer (confirmed_one_shot id) m =
    if is_nil id then m else refresh (set_transaction_state (confirmed id) m)
start_timer (confirmed id) m = refresh (record m { timer = true })
start_timer (failed id message) m = refresh (record m { timer = true })
start_timer (cancelled id) m = refresh (record m { timer = true })
start_timer other m = m

-- A render of a state after another one, with the effects.
unfoldable pub effects : (old new : TransactionState) → Monitor → Monitor
unfolding type_of id_of tx_of
effects old new m =
    let same_watch = same_id (id_of old) (id_of new) && same_tx (tx_of old) (tx_of new) in
    let same_timer = str_eq (type_of old) (type_of new) && same_id (id_of old) (id_of new) in
    let m1 = if same_watch then m else stop_watch m.watch m in
    let m2 = if same_timer then m1 else record m1 { timer = false } in
    let m3 = if same_watch then m2 else start_watch (id_of new) (tx_of new) m2 in
    if same_timer then m3 else start_timer new m3

unfoldable pub render : Monitor → Monitor
unfolding effects
render m =
    if m.is_dirty
    then effects m.shown m.state (record m { shown = m.state; is_dirty = false })
    else m

-- The sends are answered in any order.
pub data Event : Type 0 where
  sends : (id : Text) → Event
  send_answered : (n : ℕ) → SendAnswer → Event
  receipt_answered : ReceiptAnswer → Event
  timed_out : Event

unfoldable pub handle : Event → Monitor → Monitor
unfolding send_transaction answer_send answer_receipt time_out
handle (sends id) m = send_transaction id m
handle (send_answered n answer) m = answer_send n answer m
handle (receipt_answered answer) m = answer_receipt answer m
handle timed_out m = time_out m

-- The renders that an event causes: an effect may cause a second one, and that a third one.
unfoldable pub render_all : Monitor → Monitor
unfolding render
render_all m = render (render (render m))

-- Events, each with the renders that it causes.
unfoldable pub run : List Event → Monitor → Monitor
unfolding handle render_all
run [] m = m
run (event ∷ events) m = run events (render_all (handle event m))
