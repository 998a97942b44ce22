-- ===== src/Trove/User.antt =====
-- packages/lib-base/src/Trove.ts: Troves of an owner, and Troves with a pending redistribution.
use Prim.Native.String.{String}
use text.Mathlib.Text.{◌==◌ as str_eq}
use hliquity.Base.{◌+◌, ◌-◌, ◌≤◌, ◌≡◌, refl, Bool, true, false, ◌&&◌, Result, ok, ◌>>=◌, arith}
use hliquity.Decimal
use hliquity.Decimal.{Decimal}
use hliquity.Decimal.Arith.{mul_mono}
use hliquity.Trove.Defs
use hliquity.Trove.Defs.{Trove, add, subtract, multiply}
use hliquity.Trove.Laws.{subtract_lem}

pub data UserTroveStatus : Type 0 where
  non_existent open_trove closed_by_owner closed_by_liquidation closed_by_redemption :
      UserTroveStatus

abbrev pub same_status : UserTroveStatus → UserTroveStatus → Bool
same_status non_existent non_existent = true
same_status open_trove open_trove = true
same_status closed_by_owner closed_by_owner = true
same_status closed_by_liquidation closed_by_liquidation = true
same_status closed_by_redemption closed_by_redemption = true
same_status _ _ = false

pub record UserTrove : Type 0 where
  pub trove : Trove
  pub owner_address : String
  pub status : UserTroveStatus

unfoldable pub equals : UserTrove → UserTrove → Bool
equals t that =
    Defs.equals t.trove that.trove
    && str_eq t.owner_address that.owner_address
    && same_status t.status that.status

pub record TroveWithPendingRedistribution : Type 0 where
  pub user_trove : UserTrove
  pub stake : Decimal
  pub snapshot_of_total_redistributed : Trove

-- `TroveWithPendingRedistribution.equals`
unfoldable pub equals_pending :
    TroveWithPendingRedistribution → TroveWithPendingRedistribution → Bool
unfolding equals Decimal.eq
equals_pending t that =
    equals t.user_trove that.user_trove
    && Decimal.eq t.stake that.stake
    && Defs.equals t.snapshot_of_total_redistributed that.snapshot_of_total_redistributed

unfoldable pub apply_redistribution : TroveWithPendingRedistribution → Trove → Result UserTrove
apply_redistribution t total_redistributed = do
  since_snapshot ← subtract total_redistributed t.snapshot_of_total_redistributed
  let after_redistribution = add t.user_trove.trove (multiply since_snapshot t.stake)
  ok (record {
    trove = record {
      constants = t.user_trove.trove.constants;
      collateral = after_redistribution.collateral;
      debt = after_redistribution.debt;
    };
    owner_address = t.user_trove.owner_address;
    status = t.user_trove.status;
  })

-- The share of a stake in what was redistributed since the snapshot, and nothing where the total is
-- smaller than the snapshot.
abbrev pub share : Decimal → Decimal → Decimal → Decimal
share total snapshot stake = Decimal.mul (total - snapshot) stake

-- A Trove with its shares.
abbrev pub redistributed : TroveWithPendingRedistribution → Trove → UserTrove
redistributed t total =
    let own = t.user_trove.trove in
    let snapshot = t.snapshot_of_total_redistributed in
    record {
      trove = record {
        constants = own.constants;
        collateral = own.collateral + share total.collateral snapshot.collateral t.stake;
        debt = own.debt + share total.debt snapshot.debt t.stake;
      };
      owner_address = t.user_trove.owner_address;
      status = t.user_trove.status;
    }

-- Applying a redistribution never throws. It adds to the collateral and to the debt the stake's
-- share since the snapshot, and keeps the owner, the status and the constants.
pub apply_redistribution_lem :
    (t : TroveWithPendingRedistribution) (total : Trove)
    → apply_redistribution t total ≡ ok (redistributed t total)
unfolding apply_redistribution add multiply Decimal.add
apply_redistribution_lem t total = rw subtract_lem refl

-- Later totals never take collateral or debt away.
pub apply_redistribution_mono :
    (t : TroveWithPendingRedistribution) (total total' : Trove) {u u' : UserTrove}
    → total.collateral ≤ total'.collateral
    → total.debt ≤ total'.debt
    → apply_redistribution t total ≡ ok u
    → apply_redistribution t total' ≡ ok u'
    → (t.user_trove.trove.collateral ≤ u.trove.collateral)
      × (u.trove.collateral ≤ u'.trove.collateral)
      × (t.user_trove.trove.debt ≤ u.trove.debt)
      × (u.trove.debt ≤ u'.trove.debt)
apply_redistribution_mono t total total' hc hd p q =
    let snapshot = t.snapshot_of_total_redistributed in
    ground (
      arith,
      apply_redistribution_lem t total,
      apply_redistribution_lem t total',
      mul_mono t.stake (total.collateral - snapshot.collateral)
          (total'.collateral - snapshot.collateral),
      mul_mono t.stake (total.debt - snapshot.debt) (total'.debt - snapshot.debt),
    )

-- At the totals of its snapshot a Trove is unchanged.
pub apply_redistribution_at_snapshot :
    (t : TroveWithPendingRedistribution)
    → apply_redistribution t t.snapshot_of_total_redistributed ≡ ok t.user_trove
unfolding Decimal.mul
apply_redistribution_at_snapshot t =
    ground (arith, apply_redistribution_lem t t.snapshot_of_total_redistributed)
