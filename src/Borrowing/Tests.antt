-- ===== src/Borrowing/Tests.antt =====
-- Tests of the largest net debt: 1000 HBAR at a price of 5, with a rate of 1%.
use hliquity.Base.{◌⊎◌, ◌<◌, ◌≡◌, refl, false, some, ok, arith}
use hliquity.Decimal.{Decimal}
use hliquity.Constants.{defaults}
use hliquity.Decimal.Text.Notation.{decimal_text}
use hliquity.Trove.Defs.{Trove, collateral_ratio_is_below_minimum}
use hliquity.Trove.Normalize.{create}
use hliquity.Trove.Recreate.{creation_entries}
use hliquity.Borrowing.{max_net_debt, max_net_debt_safe}

largest : max_net_debt defaults 500_000_000 1_000_000 100_000_000_000 0 ≡ ok 448_000_000_000
unfolding max_net_debt
largest = refl

max_net_debt_safe_example :
    (amount : Decimal) × (max_net_debt defaults 500_000_000 1_000_000 100_000_000_000 0 ≡ ok amount)
    × ((amount ≡ 0)
        ⊎ ((0 < amount)
            × ((trove : Trove) × (create decimal_text defaults
                    (creation_entries
                      (record { deposit_collateral = 100_000_000_000; borrow_hchf = amount }))
                    (some 1_000_000)
                  ≡ ok trove)
                × (collateral_ratio_is_below_minimum trove 500_000_000 ≡ false))))
max_net_debt_safe_example =
    max_net_debt_safe decimal_text defaults 500_000_000 1_000_000 100_000_000_000 (omega arith)
