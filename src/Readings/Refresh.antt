-- ===== src/Readings/Refresh.antt =====
-- packages/lib-hashgraph/src/HashgraphLiquity.ts: starting and refreshing the store, which pass the
-- fetched values on to `_load` or `_update`.
use hliquity.Base.{
  ℕ, ◌+◌, ◌≡◌, refl, true, none, some, List, [], Result, ok, err, Error, ◌>>=◌, if◌then◌else◌, ◌⊎◌,
  inl, inr, Result-cases,
}
use hliquity.Store.State.{Whole, Partial, reduce}
use hliquity.Store.Derive.{DerivedState, derive, reduce_derived}
use hliquity.Store.Agrees.{Agrees, reduce_derived-Agrees}
use hliquity.Store.Listeners.{Op, notify}
use hliquity.Store.Update.{Store, Outcome, update, load, notified}
use hliquity.Readings.Contracts.{HashgraphLiquity, Tag}
use hliquity.Readings.FetchStore.{Network, fetch_store_values}

-- The extra state of a fetch.
pub record ExtraState : Type 0 where
  pub block_tag : Tag
  pub block_timestamp : ℕ

-- All properties of an update take the place of the old ones, also the block tag that is undefined.
unfoldable pub reduce_extra : ExtraState → ExtraState → ExtraState
reduce_extra extra_state extra_state_update = extra_state_update

-- An update with every property.
unfoldable pub every : Whole → Partial
every b = record {
  frontend = some b.frontend;
  own_frontend = some b.own_frontend;
  number_of_troves = some b.number_of_troves;
  account_balance = some b.account_balance;
  hchf_balance = some b.hchf_balance;
  hchf_token_address = some b.hchf_token_address;
  hlqt_token_address = some b.hlqt_token_address;
  hlqt_balance = some b.hlqt_balance;
  uni_token_balance = some b.uni_token_balance;
  uni_token_allowance = some b.uni_token_allowance;
  remaining_liquidity_mining_hlqt_reward = some b.remaining_liquidity_mining_hlqt_reward;
  liquidity_mining_stake = some b.liquidity_mining_stake;
  total_staked_uni_tokens = some b.total_staked_uni_tokens;
  liquidity_mining_hlqt_reward = some b.liquidity_mining_hlqt_reward;
  collateral_surplus_balance = some b.collateral_surplus_balance;
  price = some b.price;
  hchf_in_stability_pool = some b.hchf_in_stability_pool;
  total = some b.total;
  total_redistributed = some b.total_redistributed;
  trove_before_redistribution = some b.trove_before_redistribution;
  stability_deposit = some b.stability_deposit;
  remaining_stability_pool_hlqt_reward = some b.remaining_stability_pool_hlqt_reward;
  fees_in_normal_mode = some b.fees_in_normal_mode;
  hlqt_stake = some b.hlqt_stake;
  total_staked_hlqt = some b.total_staked_hlqt;
  riskiest_trove_before_redistribution = some b.riskiest_trove_before_redistribution;
  user_has_associated_with_hchf = some b.user_has_associated_with_hchf;
  user_has_associated_with_hlqt = some b.user_has_associated_with_hlqt;
  user_has_associated_with_lp_token = some b.user_has_associated_with_lp_token;
  hchf_token_allowance_of_hchf_contract = some b.hchf_token_allowance_of_hchf_contract;
  hlqt_token_allowance_of_hlqt_contract = some b.hlqt_token_allowance_of_hlqt_contract;
}

-- The objects that a fetch makes.
abbrev pub number_of_objects : ℕ
number_of_objects = 25

module _ (self : HashgraphLiquity) (network : Network) (react : ℕ → List Op)
    (on_loaded : List Op) where
  unfoldable pub fetch : Store ExtraState → Result (Whole × ExtraState)
  unfolding fetch_store_values
  fetch s = do
    base ← fetch_store_values self network s.fresh none
    block_timestamp ← self.contracts.block_timestamp none
    ok (base, record { block_tag = none; block_timestamp = block_timestamp })

  -- The fetched values go to `_update` or `_load`.
  unfoldable pub take_values : Whole × ExtraState → Store ExtraState → Outcome ExtraState
  unfolding update load every reduce_extra
  take_values (base, extra) s =
      if s.loaded
      then update reduce_extra react (some (every base)) (some extra)
          (record s { fresh = s.fresh + number_of_objects })
      else load reduce_extra react base (some extra) on_loaded
          (record s { fresh = s.fresh + number_of_objects })

  -- `catch`: what was done before an error stays.
  abbrev pub caught : Outcome ExtraState → Outcome ExtraState
  caught o = record o { thrown = none }

  abbrev pub refresh_by : Result (Whole × ExtraState) → Store ExtraState → Outcome ExtraState
  unfolding take_values
  refresh_by (err e) s = record { store = s; thrown = none; called = [] }
  refresh_by (ok values) s = caught (take_values values s)

  unfoldable pub refresh : Store ExtraState → Outcome ExtraState
  unfolding fetch take_values
  refresh s = refresh_by (fetch s) s

  -- `_doStart`, whose promise nobody awaits: an error of it is not caught.
  abbrev pub start_by : Result (Whole × ExtraState) → Store ExtraState → Outcome ExtraState
  unfolding take_values
  start_by (err e) s = record { store = s; thrown = some e; called = [] }
  start_by (ok values) s = take_values values s

  unfoldable pub do_start : Store ExtraState → Outcome ExtraState
  unfolding fetch take_values
  do_start s = start_by (fetch s) s

  -- The store after a refresh.
  pub record IsRefreshed (b : Whole) (u : DerivedState) (extra : ExtraState) (s : Store ExtraState)
      (o : Outcome ExtraState) : Type 0 where
    pub no_error : o.thrown ≡ none
    pub base : o.store.base ≡ some b
    pub derived : (d : DerivedState) × (o.store.derived ≡ some d) × Agrees d u
    pub extra_state : o.store.extra ≡ some extra
    pub told : o.called ≡ (notify react s.listeners).0

  -- Nothing was fetched.
  abbrev pub Unfetched : Store ExtraState → Outcome ExtraState → Type 0
  Unfetched s o = (e : Error) × (fetch s ≡ err e) × (o.store ≡ s) × (o.called ≡ [])

  -- The values were fetched, and what the state was derived from them.
  abbrev pub Fetched : Whole → DerivedState → Store ExtraState → Outcome ExtraState → Type 0
  Fetched b d s o =
      (values : Whole) × (extra : ExtraState) × (fetch s ≡ ok (values, extra))
      × (((e : Error) × (derive (s.fresh + number_of_objects) (reduce b (every values)) ≡ err e)
            × (o.store.base ≡ some (reduce b (every values)))
            × (o.store.derived ≡ some d)
            × (o.called ≡ []))
          ⊎ ((u : DerivedState) × (derive (s.fresh + number_of_objects) (reduce b (every values))
                ≡ ok u)
              × IsRefreshed (reduce b (every values)) u extra s o))

  refresh_by-Fetched :
      (s : Store ExtraState) (b : Whole) (d : DerivedState) (e : ExtraState) (values : Whole)
      (extra : ExtraState)
      → s.loaded ≡ true
      → s.base ≡ some b
      → s.derived ≡ some d
      → s.extra ≡ some e
      → fetch s ≡ ok (values, extra)
      → Fetched b d s (refresh_by (ok (values, extra)) s)
  unfolding take_values update notified reduce_extra
  refresh_by-Fetched s b d e values extra loaded has_base has_derived has_extra h = (
    values,
    extra,
    h,
    elim (Result-cases (derive (s.fresh + number_of_objects) (reduce b (every values)))) [
      | inl (u, fine) ↦ inr (
        u,
        fine,
        rw (loaded, has_base, has_derived, has_extra, fine)
            (record {
              no_error = refl;
              base = refl;
              derived = (reduce_derived d u, refl, reduce_derived-Agrees d u);
              extra_state = refl;
              told = refl;
            }),
      )
      | inr (e', fails) ↦ inl (
        e',
        fails,
        rw (loaded, has_base, has_derived, fails) refl,
        rw (loaded, has_base, has_derived, fails) refl,
        rw (loaded, has_base, has_derived, fails) refl,
      )
    ],
  )

  -- A refresh of a loaded store never throws. Where the values cannot be fetched, it leaves the store
  -- as it is and calls no listener. Where they can, the base state is the one that they reduce to. If
  -- it cannot be derived, the derived state is still the old one, and no listener is called;
  -- otherwise the derived state has the values of the derivation from it, the extra state is the
  -- fetched one, and the listeners are notified.
  pub refresh_lem :
      (s : Store ExtraState) (b : Whole) (d : DerivedState) (e : ExtraState)
      → s.loaded ≡ true
      → s.base ≡ some b
      → s.derived ≡ some d
      → s.extra ≡ some e
      → ((refresh s).thrown ≡ none) × (Unfetched s (refresh s) ⊎ Fetched b d s (refresh s))
  unfolding refresh
  refresh_lem s b d e loaded has_base has_derived has_extra = elim (Result-cases (fetch s)) [
    | inl ((values, extra), h) ↦ rw h (
      refl,
      inr (
          rw⁻¹ h (refresh_by-Fetched s b d e values extra loaded has_base has_derived has_extra h)),
    )
    | inr (e', h) ↦ rw h (refl, inl (e', refl, refl, refl))
  ]
