-- ===== src/AffectedTroves/Enrichment.antt =====
-- packages/dev-frontend/src/utils/redemption-page/extractAffectedTroves.ts: the affected Troves from
-- the logs of a redemption, and what was redeemed from each.
use hliquity.Base.{
  ◌+◌, ◌-◌, ◌≡◌, refl, inl, inr, Option, none, some, List, [], ◌∷◌, Result, ok, err, ◌>>=◌, ◌==◌,
  if◌then◌else◌, Bool-cases, arith, leb,
}
use hliquity.Decimal
use hliquity.Decimal.{Decimal}
use hliquity.Decimal.BigText.{Text}
use hliquity.AffectedTroves.{
  parse_trove_log, TroveState, AffectedTroveAfter, AffectedTrove, ParsedTroveLog, Log, Mirror,
  same_text, to_lower_case, get_previous_trove_state,
}

-- `beforeStates`, the latest entry first, and `afterStates` in reverse.
pub record States : Type 0 where
  pub before_states : List (Text × TroveState)
  pub after_states : List AffectedTroveAfter

unfoldable pub lookup : Text → List (Text × TroveState) → Option TroveState
lookup borrower [] = none
lookup borrower ((key, state) ∷ entries) =
    if same_text key borrower then some state else lookup borrower entries

-- The states of the logs from one on: an entry of a later log replaces that of an earlier one.
unfoldable pub add_log : ParsedTroveLog → States → States
unfolding to_lower_case
add_log log states =
    if log.operation == 0
    then record states {
      before_states =
          (to_lower_case log.borrower, record { debt = log.debt; collateral = log.collateral })
          ∷ states.before_states;
    }
    else if log.operation == 3
    then record states {
      after_states =
          record {
            borrower = log.borrower;
            debt_after = log.debt;
            collateral_after = log.collateral;
            before = none;
          }
          ∷ states.after_states;
    }
    else states

abbrev pub add_parsed : Option ParsedTroveLog → States → States
add_parsed none states = states
add_parsed (some log) states = add_log log states

unfoldable pub collect_states : Mirror → List Log → States → States
unfolding add_log
collect_states mirror [] states = states
collect_states mirror (log ∷ logs) states =
    collect_states mirror logs (add_parsed (parse_trove_log mirror log) states)

abbrev pub no_states : States
no_states = record { before_states = []; after_states = [] }

-- The states after, in the order of the logs, each with the state before where there is one.
unfoldable pub with_before :
    States → List AffectedTroveAfter → List AffectedTroveAfter → List AffectedTroveAfter
unfolding lookup to_lower_case
with_before states [] result = result
with_before states (trove ∷ troves) result =
    with_before states troves (
      record trove { before = lookup (to_lower_case trove.borrower) states.before_states } ∷ result)

-- `catch { return [] }`
abbrev pub or_empty : Result (List AffectedTroveAfter) → List AffectedTroveAfter
or_empty (err e) = []
or_empty (ok troves) = troves

unfoldable pub extract_affected_troves_from_logs :
    Mirror → (timestamp trove_manager_address : Text) → List AffectedTroveAfter
unfolding collect_states with_before
extract_affected_troves_from_logs mirror timestamp trove_manager_address = or_empty (do
  logs ← mirror.fetch_logs_at trove_manager_address timestamp
  let states = collect_states mirror logs no_states
  ok (with_before states states.after_states []))

abbrev pub or_searched : Option TroveState → Option TroveState → Option TroveState
or_searched (some before) searched = some before
or_searched none searched = searched

-- What was redeemed of the collateral.
unfoldable pub redeemed_of : Decimal → Decimal → Result Decimal
unfolding Decimal.gte Decimal.sub
redeemed_of before after = if Decimal.gte before after then Decimal.sub before after else ok 0

abbrev pub unchanged : AffectedTroveAfter → AffectedTrove
unchanged trove = record {
  borrower = trove.borrower;
  debt_before = trove.debt_after;
  debt_after = trove.debt_after;
  debt_redeemed = 0;
  collateral_before = trove.collateral_after;
  collateral_after = trove.collateral_after;
  collateral_redeemed = 0;
}

-- The Trove with its previous state.
unfoldable pub enrich_from : AffectedTroveAfter → Option TroveState → Result AffectedTrove
unfolding Decimal.gte Decimal.sub redeemed_of
enrich_from trove none = ok (unchanged trove)
enrich_from trove (some previous) =
    if Decimal.gte previous.debt trove.debt_after
    then (do
      debt_redeemed ← Decimal.sub previous.debt trove.debt_after
      collateral_redeemed ← redeemed_of previous.collateral trove.collateral_after
      ok (record {
        borrower = trove.borrower;
        debt_before = previous.debt;
        debt_after = trove.debt_after;
        debt_redeemed = debt_redeemed;
        collateral_before = previous.collateral;
        collateral_after = trove.collateral_after;
        collateral_redeemed = collateral_redeemed;
      }))
    else ok (unchanged trove)

unfoldable pub enrich_one_trove :
    Mirror → Text → List Text → AffectedTroveAfter → Result AffectedTrove
unfolding enrich_from get_previous_trove_state
enrich_one_trove mirror timestamp contracts trove =
    enrich_from trove (
      or_searched trove.before (get_previous_trove_state mirror trove.borrower timestamp contracts))

unfoldable pub enrich_affected_troves :
    Mirror
    → (timestamp trove_manager borrower_operations : Text) → List AffectedTroveAfter
    → Result (List AffectedTrove)
unfolding enrich_one_trove
enrich_affected_troves mirror timestamp trove_manager borrower_operations [] = ok []
enrich_affected_troves mirror timestamp trove_manager borrower_operations (trove ∷ troves) = do
  enriched ← enrich_one_trove mirror timestamp (trove_manager ∷ borrower_operations ∷ []) trove
  rest ← enrich_affected_troves mirror timestamp trove_manager borrower_operations troves
  ok (enriched ∷ rest)

-- What an enriched Trove says: the states before and after differ by what was redeemed; of the
-- collateral nothing was redeemed where it grew.
pub record Balances (trove : AffectedTroveAfter) (enriched : AffectedTrove) : Type 0 where
  pub same_borrower : enriched.borrower ≡ trove.borrower
  pub same_debt : enriched.debt_after ≡ trove.debt_after
  pub same_collateral : enriched.collateral_after ≡ trove.collateral_after
  pub debt_balances : enriched.debt_before ≡ enriched.debt_after + enriched.debt_redeemed
  pub collateral_balances :
      enriched.collateral_redeemed ≡ enriched.collateral_before - enriched.collateral_after

-- Each enriched Trove, with the Trove that it is made of.
abbrev pub AllBalance : List AffectedTroveAfter → List AffectedTrove → Type 0
AllBalance [] [] = Unit
AllBalance (trove ∷ troves) (enriched ∷ rest) = Balances trove enriched × AllBalance troves rest
AllBalance _ _ = ⊥

unchanged-Balances : (trove : AffectedTroveAfter) → Balances trove (unchanged trove)
unchanged-Balances trove = record {
  same_borrower = refl;
  same_debt = refl;
  same_collateral = refl;
  debt_balances = omega arith;
  collateral_balances = omega arith;
}

-- The Trove with a previous state of at least its debt.
reduced : AffectedTroveAfter → TroveState → AffectedTrove
reduced trove previous = record {
  borrower = trove.borrower;
  debt_before = previous.debt;
  debt_after = trove.debt_after;
  debt_redeemed = previous.debt - trove.debt_after;
  collateral_before = previous.collateral;
  collateral_after = trove.collateral_after;
  collateral_redeemed = previous.collateral - trove.collateral_after;
}

enrich_from-Balances :
    (trove : AffectedTroveAfter) (previous : Option TroveState)
    → (enriched : AffectedTrove) × (enrich_from trove previous ≡ ok enriched)
      × Balances trove enriched
unfolding enrich_from reduced
enrich_from-Balances trove none = (unchanged trove, refl, unchanged-Balances trove)
enrich_from-Balances trove (some previous) =
    elim (Bool-cases (leb trove.debt_after previous.debt)) [
      | inr grown ↦ (unchanged trove, rw grown refl, unchanged-Balances trove)
      | inl covered ↦ (
        reduced trove previous,
        ground arith,
        record {
          same_borrower = refl;
          same_debt = refl;
          same_collateral = refl;
          debt_balances = ground arith;
          collateral_balances = refl;
        },
      )
    ]

module _ (mirror : Mirror) (timestamp trove_manager borrower_operations : Text) where
  -- Enriching never throws, whatever the mirror node answers: each Trove keeps its borrower and its
  -- state after the redemption, its debt before is the debt after and what was redeemed, and the
  -- collateral redeemed is what the collateral lost.
  pub enrich_affected_troves-AllBalance :
      (troves : List AffectedTroveAfter)
      → (enriched : List AffectedTrove) × (enrich_affected_troves mirror timestamp trove_manager
            borrower_operations troves
          ≡ ok enriched)
        × AllBalance troves enriched
  unfolding enrich_affected_troves enrich_one_trove
  enrich_affected_troves-AllBalance [] = ([], refl, tt)
  enrich_affected_troves-AllBalance (trove ∷ troves) =
      let contracts = trove_manager ∷ borrower_operations ∷ [] in
      let (first, made, balances) = enrich_from-Balances trove (
        or_searched trove.before
          (get_previous_trove_state mirror trove.borrower timestamp contracts)) in
      let (rest, made_rest, all) = enrich_affected_troves-AllBalance troves in
      (first ∷ rest, rw (made, made_rest) refl, (balances, all))
