-- ===== src/HlqtStake/Tests.antt =====
-- Tests of packages/lib-base/src/HLQTStake.ts.
use hliquity.Base.{◌≡◌, refl, false, some, ok}
use hliquity.HlqtStake.{HlqtStake, what_changed, unstake_hlqt}

abbrev stake : HlqtStake
stake = record { staked_hlqt = 400; collateral_gain = 10; hchf_gain = 20 }

unstake_some : what_changed stake 300 ≡ ok (some (unstake_hlqt 100 false))
unfolding what_changed
unstake_some = refl
