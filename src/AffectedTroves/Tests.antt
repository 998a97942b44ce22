-- ===== src/AffectedTroves/Tests.antt =====
-- Tests of the affected Troves: a redemption of 100 HCHF and 20 HBAR, of which the mirror node has the
-- events, and a search that finds the state before in the second window.
use hliquity.Base.{
  ℕ, ◌≡◌, refl, true, Option, none, some, List, [], ◌∷◌, Result, ok, ltb, if◌then◌else◌, codes,
}
use hliquity.AffectedTroves.{
  TroveState, AffectedTroveAfter, AffectedTrove, DecodedLog, parse_trove_log, Log, Mirror,
  search_windows, rounds_for, is_long_zero_address,
}
use hliquity.AffectedTroves.Search.{Finds, search_windows-Finds}
use hliquity.AffectedTroves.Enrichment.{
  enrich_affected_troves, AllBalance, enrich_affected_troves-AllBalance,
}

abbrev now : ℕ
now = 1_760_000_000_000_000_000

abbrev earlier : TroveState
earlier = record { debt = 50_000_000_000; collateral = 9_000_000_000 }

-- A window that starts before 1_759_000_000 has the state.
abbrev window : (start end : ℕ) → Option TroveState
window start end = if ltb start 1_759_000_000_000_000_000 then some earlier else none

search_windows-Finds_example :
    (answer : Option TroveState) × (search_windows
        (λ start end. ok (window start end))
        (rounds_for now)
        now
      ≡ ok answer)
    × Finds window now answer
search_windows-Finds_example =
    search_windows-Finds window (λ start end. ok (window start end)) (λ start end. refl) now

abbrev parse : Log → Result DecodedLog
parse log = ok (record {
  name = codes "TroveUpdated";
  borrower = log.content;
  debt = 40_000_000_000;
  coll = 7_000_000_000;
  operation = 3;
})

abbrev mirror : Mirror
mirror = record {
  fetch_logs = λ contract topic0 topic1 start end limit. ok [];
  fetch_logs_at =
      λ contract timestamp. ok (record { timestamp = some timestamp; content = codes "0x1" } ∷ []);
  evm_address = λ digits. ok none;
  parse_log = parse;
  parse_float = λ text. now;
  trove_updated_topic = codes "0x2";
}

abbrev affected : List AffectedTroveAfter
affected =
    record {
      borrower = codes "0x1";
      debt_after = 40_000_000_000;
      collateral_after = 7_000_000_000;
      before = some earlier;
    }
    ∷ []

long_zero : is_long_zero_address (codes "0x00000000000000000000000000000000000a1B2c") ≡ true
unfolding is_long_zero_address
long_zero = refl

enrich_affected_troves-AllBalance_example :
    (enriched : List AffectedTrove) × (enrich_affected_troves mirror
        (codes "1760000000.1")
        (codes "0x3")
        (codes "0x4")
        affected
      ≡ ok enriched)
    × AllBalance affected enriched
enrich_affected_troves-AllBalance_example =
    enrich_affected_troves-AllBalance mirror (codes "1760000000.1") (codes "0x3") (codes "0x4")
      affected

parsed :
    parse_trove_log mirror (record { timestamp = none; content = codes "0x1" })
    ≡ some (record {
      borrower = codes "0x1";
      debt = 40_000_000_000;
      collateral = 7_000_000_000;
      operation = 3;
    })
unfolding parse_trove_log
parsed = refl
