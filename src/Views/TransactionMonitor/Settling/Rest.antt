-- ===== src/Views/TransactionMonitor/Settling/Rest.antt =====
-- The states in which the monitor of packages/dev-frontend/src/components/Transaction.tsx
-- rests, and what every event makes of them.
use hliquity.Base.{
  ℕ, ◌≡◌, true, false, ◌&&◌, Option, none, some, List, [], ◌∷◌, ◌++◌, All, if◌then◌else◌, ◌==◌,
}
use hliquity.Decimal.BigText.{Text}
use hliquity.Decimal.Text.{is_nil}
use hliquity.AffectedTroves.{same_text}
use hliquity.Views.TransactionMonitor.{
  TransactionState, idle, failed, waiting_for_approval, cancelled, confirmed, confirmed_one_shot,
  waiting_for_confirmation, watching, Monitor, start, SendAnswer, ReceiptAnswer, receipt,
  transaction_cancelled, error, sent_state, receipt_state, pick, Event, sends, send_answered,
  receipt_answered, timed_out,
}

-- The monitor that has come to rest in a state, with the sends that are awaited.
abbrev pub resting : TransactionState → List Text → ℕ → Monitor
resting idle ids n = record start { sending = ids; refreshes = n }
resting (failed id message) ids n = record start {
  state = failed id message;
  shown = failed id message;
  timer = true;
  sending = ids;
  refreshes = n;
}
resting (waiting_for_approval id) ids n = record start {
  state = waiting_for_approval id;
  shown = waiting_for_approval id;
  sending = ids;
  refreshes = n;
}
resting (cancelled id) ids n = record start {
  state = cancelled id;
  shown = cancelled id;
  timer = true;
  sending = ids;
  refreshes = n;
}
resting (confirmed id) ids n = record start {
  state = confirmed id;
  shown = confirmed id;
  timer = true;
  sending = ids;
  refreshes = n;
}
resting (confirmed_one_shot id) ids n = record start {
  state = confirmed_one_shot id;
  shown = confirmed_one_shot id;
  sending = ids;
  refreshes = n;
}
resting (waiting_for_confirmation id tx) ids n = record start {
  state = waiting_for_confirmation id tx;
  shown = waiting_for_confirmation id tx;
  watch = watching id tx;
  sending = ids;
  refreshes = n;
}

-- Identifiers are not empty. No state of rest is a confirmation that is new, and an approval is only
-- waited for while a send is awaited.
abbrev pub IsNamed : Text → Type 0
IsNamed id = is_nil id ≡ false

abbrev pub IsRest : TransactionState → List Text → Type 0
IsRest idle ids = Unit
IsRest (failed id message) ids = IsNamed id
IsRest (waiting_for_approval id) [] = ⊥
IsRest (waiting_for_approval id) (awaited ∷ ids) = IsNamed id
IsRest (cancelled id) ids = IsNamed id
IsRest (confirmed id) ids = IsNamed id
IsRest (confirmed_one_shot id) ids = ⊥
IsRest (waiting_for_confirmation id tx) ids = IsNamed id

abbrev pub AreNamed : List Event → Type 0
AreNamed [] = Unit
AreNamed (sends id ∷ events) = IsNamed id × AreNamed events
AreNamed (event ∷ events) = AreNamed events

-- What follows the states of rest, without effects and renders. A send, and an answer to another
-- send, end the wait for a confirmation: the monitor becomes idle.
abbrev pub after_send : Text → TransactionState → TransactionState
after_send id (waiting_for_confirmation id' tx) = idle
after_send id s = waiting_for_approval id

abbrev pub after_answer : TransactionState → TransactionState → TransactionState
after_answer (waiting_for_confirmation id tx) (waiting_for_confirmation id' tx') =
    if same_text id id' && tx == tx' then waiting_for_confirmation id' tx' else idle
after_answer (waiting_for_confirmation id tx) s = idle
after_answer s s' = s'

abbrev pub answered_state :
    TransactionState × List Text
    → SendAnswer
    → Option (Text × List Text)
    → TransactionState × List Text
unfolding sent_state
answered_state rest answer none = rest
answered_state (s, ids) answer (some (id, rest)) = (after_answer s (sent_state id answer), rest)

abbrev pub ended : Text → ReceiptAnswer → TransactionState
unfolding receipt_state
ended id (receipt true) = confirmed id
ended id (receipt false) = receipt_state id (receipt false)
ended id transaction_cancelled = cancelled id
ended id error = receipt_state id error

abbrev pub after_receipt : TransactionState → ReceiptAnswer → TransactionState
unfolding receipt_state
after_receipt (waiting_for_confirmation id tx) answer = ended id answer
after_receipt s answer = s

abbrev pub after_timeout : TransactionState → TransactionState
after_timeout (failed id message) = idle
after_timeout (cancelled id) = idle
after_timeout (confirmed id) = idle
after_timeout s = s

unfoldable pub next : Event → TransactionState × List Text → TransactionState × List Text
unfolding sent_state receipt_state
next (sends id) (s, ids) = (after_send id s, ids ++ id ∷ [])
next (send_answered n answer) (s, ids) = answered_state (s, ids) answer (pick n ids)
next (receipt_answered answer) (s, ids) = (after_receipt s answer, ids)
next timed_out (s, ids) = (after_timeout s, ids)

unfoldable pub next_all : List Event → TransactionState × List Text → TransactionState × List Text
unfolding next
next_all [] rest = rest
next_all (event ∷ events) rest = next_all events (next event rest)

abbrev pub Rests : Monitor → TransactionState × List Text → Type 0
Rests m (s, ids) = (n : ℕ) × (m ≡ resting s ids n) × (IsRest s ids × All IsNamed ids)

-- The monitor rests in a state, after the refreshes that it counts.
abbrev pub IsAt : Monitor → TransactionState → List Text → Type 0
IsAt m s ids = m ≡ resting s ids m.refreshes
