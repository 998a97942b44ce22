-- ===== src/Percent.antt =====
-- packages/lib-base/src/Decimal.ts, class `Percent`, for a ratio that is a Decimal.
use hliquity.Base.{none, some}
use hliquity.Decimal
use hliquity.Decimal.{Decimal}

pub record Percent : Type 0 where
  pub percent : Decimal

-- `Decimal.from(100)`
abbrev pub hundred : Decimal
hundred = 10_000_000_000

-- The constructor: infinity stays infinity.
unfoldable pub new_percent : Decimal → Percent
unfolding Decimal.infinite
new_percent ratio = elim (Decimal.infinite ratio) [
  | some infinite ↦ record { percent = infinite }
  | none ↦ record { percent = Decimal.mul ratio hundred }
]
