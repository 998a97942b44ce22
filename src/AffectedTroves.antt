-- ===== src/AffectedTroves.antt =====
-- packages/dev-frontend/src/utils/redemption-page/extractAffectedTroves.ts: the Troves that a
-- redemption affected, before and after it. The mirror node's answers, the contract interface that
-- decodes its logs and `parseFloat` are parameters. A time is a number of nanoseconds; a text is the list of its code
-- points, and letters are changed to lower case in ASCII.
pub mod Search
pub mod Enrichment
mod Tests
use Prim.Native.String.{String}
use hliquity.Base.{
  ℕ, zero, suc, ◌+◌, ◌-◌, ◌*◌, ◌/◌, Bool, true, false, not, ◌&&◌, Option, none, some, List, [], ◌∷◌,
  ◌++◌, map, Result, ok, err, Error, ◌>>=◌, ltb, leb, ◌==◌, if◌then◌else◌, length, take, drop,
  replicate, ◌||◌, codes,
}
use Prim.Native.Nat.{max}
use hliquity.Decimal
use hliquity.Decimal.{Decimal}
use hliquity.Decimal.BigText.{Text}
use hliquity.Decimal.Text.{pad_start, is_nil}

pub record TroveState : Type 0 where
  pub debt : Decimal
  pub collateral : Decimal

-- `AffectedTroveAfter`; the state before is the pair of its two optional properties, which are set
-- together.
pub record AffectedTroveAfter : Type 0 where
  pub borrower : Text
  pub debt_after : Decimal
  pub collateral_after : Decimal
  pub before : Option TroveState

pub record AffectedTrove : Type 0 where
  pub borrower : Text
  pub debt_before : Decimal
  pub debt_after : Decimal
  pub debt_redeemed : Decimal
  pub collateral_before : Decimal
  pub collateral_after : Decimal
  pub collateral_redeemed : Decimal

pub record ParsedTroveLog : Type 0 where
  pub borrower : Text
  pub debt : Decimal
  pub collateral : Decimal
  pub operation : ℕ

-- A log of the mirror node; of its topics and data only what the parser makes of them is used.
pub record Log : Type 0 where
  pub timestamp : Option Text
  pub content : Text

-- `SEVEN_DAYS_IN_SECONDS` and `EARLIEST_SEARCH_FLOOR`, in nanoseconds.
abbrev pub seven_days : ℕ
seven_days = 604_800_000_000_000

abbrev pub earliest_search_floor : ℕ
earliest_search_floor = 1_704_067_200_000_000_000

-- A log as the contract interface decodes it.
pub record DecodedLog : Type 0 where
  pub name : Text
  pub borrower : Text
  pub debt : ℕ
  pub coll : ℕ
  pub operation : ℕ

pub record Mirror : Type 0 where
  -- the logs of a contract with two topics between two times, at most so many
  pub fetch_logs : Text → Text → Text → ℕ → ℕ → ℕ → Result (List Log)
  -- all logs of a contract at a time
  pub fetch_logs_at : Text → Text → Result (List Log)
  -- the address of the account with a number, which is given by its hexadecimal digits
  pub evm_address : Text → Result (Option Text)
  -- `troveManagerInterface.parseLog`
  pub parse_log : Log → Result DecodedLog
  pub parse_float : Text → ℕ
  pub trove_updated_topic : Text

abbrev pub same_text : Text → Text → Bool
same_text [] [] = true
same_text [] (d ∷ t) = false
same_text (c ∷ s) [] = false
same_text (c ∷ s) (d ∷ t) = c == d && same_text s t

-- `toLowerCase()`
unfoldable pub to_lower_case : Text → Text
to_lower_case [] = []
to_lower_case (c ∷ s) = (if leb b'A' c && leb c b'Z' then c + 32 else c) ∷ to_lower_case s

-- `replace("0x", "")`: the first occurrence.
unfoldable pub without_prefix : Text → Text
without_prefix [] = []
without_prefix (c ∷ []) = c ∷ []
without_prefix (c ∷ d ∷ s) =
    let rest = without_prefix (d ∷ s) in if c == b'0' && d == b'x' then s else c ∷ rest

-- The first 24 digits of a long-zero address are zeros.
unfoldable pub is_long_zero_address : Text → Bool
unfolding to_lower_case without_prefix
is_long_zero_address address =
    same_text (take 24 (without_prefix (to_lower_case address))) (replicate 24 b'0')

unfoldable pub address_to_topic1 : Text → Text
unfolding to_lower_case without_prefix pad_start
address_to_topic1 address = b'0' ∷ b'x' ∷ pad_start 64 (without_prefix (to_lower_case address))

-- `longZeroAddress.replace("0x", "").slice(-16)`
abbrev pub account_digits : Text → Text
account_digits address = let digits = without_prefix address in drop (length digits - 16) digits

-- No alias is an empty text or the address itself.
abbrev pub alias_of : Text → Result (Option Text) → Option Text
alias_of address (err e) = none
alias_of address (ok none) = none
alias_of address (ok (some alias)) =
    if is_nil alias || same_text (to_lower_case alias) (to_lower_case address)
    then none
    else some alias

unfoldable pub get_ecdsa_alias : Mirror → Text → Option Text
unfolding without_prefix to_lower_case
get_ecdsa_alias mirror long_zero_address =
    alias_of long_zero_address (mirror.evm_address (account_digits long_zero_address))

-- Only an event TroveUpdated is used; its amounts have eight decimals.
abbrev pub parsed_of : Result DecodedLog → Option ParsedTroveLog
unfolding Decimal.from_big_number_string_with_precision
parsed_of (err e) = none
parsed_of (ok log) =
    if same_text log.name (codes "TroveUpdated")
    then some (record {
      borrower = log.borrower;
      debt = Decimal.from_big_number_string_with_precision log.debt 8;
      collateral = Decimal.from_big_number_string_with_precision log.coll 8;
      operation = log.operation;
    })
    else none

unfoldable pub parse_trove_log : Mirror → Log → Option ParsedTroveLog
unfolding Decimal.from_big_number_string_with_precision
parse_trove_log mirror log = parsed_of (mirror.parse_log log)

abbrev pub alias_variant : Option Text → List Text
alias_variant none = []
alias_variant (some alias) = address_to_topic1 alias ∷ []

-- `l.timestamp !== excludeTimestamp`
abbrev pub differs : Option Text → Text → Bool
differs none exclude = true
differs (some timestamp) exclude = not (same_text timestamp exclude)

unfoldable pub other_logs : Text → List Log → List Log
other_logs exclude [] = []
other_logs exclude (log ∷ logs) =
    let rest = other_logs exclude logs in if differs log.timestamp exclude then log ∷ rest else rest

module _ (mirror : Mirror) where
  unfoldable pub build_topic1_variants : Text → List Text
  unfolding is_long_zero_address get_ecdsa_alias
  build_topic1_variants borrower =
      address_to_topic1 borrower
      ∷ (if is_long_zero_address borrower
          then alias_variant (get_ecdsa_alias mirror borrower)
          else [])

  -- `parseFloat(a.timestamp ?? "0")`
  abbrev pub time_of : Option Text → ℕ
  time_of none = mirror.parse_float (codes "0")
  time_of (some timestamp) = mirror.parse_float timestamp

  -- A stable sort, the latest log first.
  unfoldable pub insert_log : Log → List Log → List Log
  insert_log log [] = log ∷ []
  insert_log log (other ∷ logs) =
      let rest = insert_log log logs in
      if ltb (time_of log.timestamp) (time_of other.timestamp)
      then other ∷ rest
      else log ∷ other ∷ logs

  unfoldable pub sort_logs : List Log → List Log
  unfolding insert_log
  sort_logs [] = []
  sort_logs (log ∷ logs) = insert_log log (sort_logs logs)

  -- The answers for one contract and all variants, and for all contracts.
  unfoldable pub fetch_variants : Text → List Text → ℕ → ℕ → Result (List Log)
  fetch_variants contract [] start end = ok []
  fetch_variants contract (topic1 ∷ variants) start end = do
    logs ← mirror.fetch_logs contract mirror.trove_updated_topic topic1 start end 2
    rest ← fetch_variants contract variants start end
    ok (logs ++ rest)

  unfoldable pub fetch_all : List Text → List Text → ℕ → ℕ → Result (List Log)
  unfolding fetch_variants
  fetch_all [] variants start end = ok []
  fetch_all (contract ∷ contracts) variants start end = do
    logs ← fetch_variants contract variants start end
    rest ← fetch_all contracts variants start end
    ok (logs ++ rest)

  abbrev pub state_of : Option ParsedTroveLog → Option TroveState
  state_of none = none
  state_of (some parsed) = some (record { debt = parsed.debt; collateral = parsed.collateral })

  -- The first log, if there is one, parsed.
  abbrev pub first_state : List Log → Option TroveState
  first_state [] = none
  first_state (log ∷ logs) = state_of (parse_trove_log mirror log)

  unfoldable pub search_window :
      List Text → List Text → Text → (start end : ℕ) → Result (Option TroveState)
  unfolding fetch_all sort_logs other_logs parse_trove_log
  search_window contracts variants exclude start end = do
    logs ← fetch_all contracts variants start end
    ok (first_state (sort_logs (other_logs exclude logs)))

-- `if (state) return state`
abbrev pub state_or : Option TroveState → Result (Option TroveState) → Result (Option TroveState)
state_or none older = older
state_or (some state) older = ok (some state)

-- The loop of `getPreviousTroveState` over windows, with the rounds left.
unfoldable pub search_windows :
    ((start end : ℕ) → Result (Option TroveState)) → ℕ → ℕ → Result (Option TroveState)
search_windows look zero window_end = ok none
search_windows look (suc rounds) window_end =
    let window_start = max (window_end - seven_days) earliest_search_floor in
    let older = search_windows look rounds window_start in
    if ltb earliest_search_floor window_end
    then (look window_start window_end >>= λ found. state_or found older)
    else ok none

-- Each window takes seven days away, or what is left above the floor.
abbrev pub rounds_for : ℕ → ℕ
rounds_for window_end = suc (window_end / seven_days)

-- `catch { return null }`
abbrev pub or_null : {A : Type 0} → Result (Option A) → Option A
or_null (err e) = none
or_null (ok answer) = answer

unfoldable pub get_previous_trove_state :
    Mirror → (borrower before_timestamp : Text) → List Text → Option TroveState
unfolding search_windows search_window build_topic1_variants
get_previous_trove_state mirror borrower before_timestamp contracts =
    let window_end = mirror.parse_float before_timestamp in
    or_null (
      search_windows
        (search_window mirror contracts (build_topic1_variants mirror borrower) before_timestamp)
        (rounds_for window_end) window_end)
