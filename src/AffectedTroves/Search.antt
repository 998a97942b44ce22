-- ===== src/AffectedTroves/Search.antt =====
-- The search of packages/dev-frontend/src/utils/redemption-page/extractAffectedTroves.ts for a Trove's
-- previous state: it ends, and it finds the state of the latest window that has one.
use Prim.Native.Nat.{max}
use hliquity.Base.{
  ℕ, zero, suc, ◌+◌, ◌-◌, ◌*◌, ◌≤◌, ◌<◌, ◌≡◌, refl, ◌∙◌, Option, none, some, Result, ok, ltb,
  Bool-cases, Option-cases, inl, inr, arith, ltb→lt, ltb→le, lt→ltb, le→ltb,
}
use hliquity.AffectedTroves.{
  TroveState, search_windows, state_or, rounds_for, seven_days, earliest_search_floor,
}

-- The window before a time.
abbrev pub window_start : ℕ → ℕ
window_start window_end = max (window_end - seven_days) earliest_search_floor

module _ (window : (start end : ℕ) → Option TroveState) where
  -- What a search back from a time finds: the state of the first window that has one, where each
  -- window ends where the one after it starts, and no window starts before the floor.
  pub data Finds : ℕ → Option TroveState → Type 0 where
    exhausted : {end : ℕ} → end ≤ earliest_search_floor → Finds end none
    found :
        {end : ℕ} {state : TroveState}
        → earliest_search_floor < end
        → window (window_start end) end ≡ some state
        → Finds end (some state)
    older :
        {end : ℕ} {answer : Option TroveState}
        → earliest_search_floor < end
        → window (window_start end) end ≡ none
        → Finds (window_start end) answer
        → Finds end answer

  module _ (look : (start end : ℕ) → Result (Option TroveState))
      (answers : (start end : ℕ) → look start end ≡ ok (window start end)) where
    search_at :
        (rounds end : ℕ)
        → earliest_search_floor < end
        → search_windows look (suc rounds) end
          ≡ state_or (window (window_start end) end) (search_windows look rounds (window_start end))
    unfolding search_windows
    search_at rounds end above = rw (lt→ltb _ _ above, answers (window_start end) end) refl

    search_below :
        (rounds end : ℕ) → end ≤ earliest_search_floor → search_windows look rounds end ≡ ok none
    unfolding search_windows
    search_below zero end below = refl
    search_below (suc rounds) end below = rw (le→ltb _ _ below) refl

    -- With a round for each window down to the floor the search ends with what it finds.
    search-Finds :
        (rounds end : ℕ)
        → end ≤ earliest_search_floor + rounds * seven_days
        → (answer : Option TroveState) × (search_windows look rounds end ≡ ok answer)
          × Finds end answer
    search-Finds zero end h =
        let below : end ≤ earliest_search_floor = omega arith in
        (none, search_below zero end below, exhausted below)
    search-Finds (suc rounds) end h = elim (Bool-cases (ltb earliest_search_floor end)) [
      | inr low ↦
          let below = ltb→le _ _ low in (none, search_below (suc rounds) end below, exhausted below)
      | inl high ↦
          let above : earliest_search_floor < end = ltb→lt _ _ high in
          elim (Option-cases (window (window_start end) end)) [
            | inr (state, at_state) ↦
                (some state, search_at rounds end above ∙ rw at_state refl, found above at_state)
            | inl missing ↦
                let (answer, ends, finds) = search-Finds rounds (window_start end) (omega arith) in
                (answer, search_at rounds end above ∙ rw missing ends, older above missing finds)
          ]
    ]

    -- Where the mirror node answers every window, the search ends within the rounds that it is given
    -- and finds the state of the latest window before the given time that has one. It finds nothing
    -- only when no window down to the floor has a state.
    pub search_windows-Finds :
        (end : ℕ)
        → (answer : Option TroveState) × (search_windows look (rounds_for end) end ≡ ok answer)
          × Finds end answer
    search_windows-Finds end = search-Finds (rounds_for end) end (omega arith)
