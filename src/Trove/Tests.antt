-- ===== src/Trove/Tests.antt =====
-- Tests of packages/lib-base/src/Trove.ts.
use hliquity.Base.{◌+◌, ◌≡◌, refl, none, some, ok, arith}
use hliquity.Constants.{defaults}
use hliquity.Trove.Defs.{Trove, empty}
use hliquity.Trove.Change.{apply_fee}
use hliquity.Trove.Adjustment.{Reaches}
use hliquity.Trove.Normalize.{create, recreate, adjust}
use hliquity.Trove.Recreate.{creation_entries, create-recreate}
use hliquity.Trove.AdjustBy.{adjustment_entries, adjust_lem}
use hliquity.Decimal.BigText.{BigText}
use hliquity.Trove.Params
use hliquity.Decimal.{Decimal}
use hliquity.Base.{◌-◌, [], inl, inr}
use hliquity.Trove.Change.{rate_or_minimum}
use hliquity.Trove.Defs.{equals}
use hliquity.Trove.RoundTrip.{RoundTrips, apply-what_changed}

-- 1000 HBAR and 2500 HCHF, and more of both.
abbrev one_trove : Trove
one_trove = record { constants = defaults; collateral = 100_000_000_000; debt = 250_000_000_000 }

abbrev grown : Trove
grown = record { constants = defaults; collateral = 120_000_000_000; debt = 300_000_000_000 }

apply-what_changed_example : RoundTrips one_trove grown (some 500_000)
apply-what_changed_example =
    apply-what_changed one_trove grown (some 500_000) refl (omega arith) (λ gone kept. omega arith)

-- Amounts that are Decimals are not read from texts.
abbrev texts : BigText
texts = record { from = λ s. none; to_string = λ n. [] }

create-recreate_example :
    (p : Params.TroveCreationParams Decimal) × (t : Trove) × (recreate grown none ≡ ok p)
    × (create texts defaults (creation_entries p) none ≡ ok t)
    × Reaches (empty defaults) grown t
unfolding equals
create-recreate_example = create-recreate texts grown none refl (omega arith) (omega arith)

-- A deposit of 5 and a repayment of 7.
adjust_lem_example :
    adjust texts one_trove (adjustment_entries 5 0 0 7) none
    ≡ ok (record one_trove {
      collateral = one_trove.collateral + 5 - 0;
      debt = one_trove.debt + apply_fee (rate_or_minimum one_trove none) 0 - 7;
    })
adjust_lem_example = adjust_lem texts one_trove 5 0 0 7 none (inr refl) (inl refl) (omega arith)
