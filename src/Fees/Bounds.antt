-- ===== src/Fees/Bounds.antt =====
-- Bounds of the fee rates of packages/lib-base/src/Fees.ts, and their decay.
use hliquity.Base.{
  ℕ, ◌+◌, ◌≤◌, ◌<◌, ◌≡◌, refl, Bool, true, false, Option, ok, err, Error, arith, Result-cases,
  >>=-then, ◌⊎◌, inl, inr, Bool-cases,
}
use hliquity.Decimal
use hliquity.Decimal.{Decimal}
use hliquity.Decimal.Arith.{mul-le, div_mono}
use hliquity.Decimal.Power.{pow-le_one, pow_assertion}
use hliquity.Fees.{
  Fees, set_recovery_mode, base_rate, borrowing_rate, redemption_rate,
  minutes_since_last_fee_operation, rate_with_fraction,
}

-- What the constructor guarantees: a decay factor of less than one.
abbrev pub IsValid : Fees → Type 0
IsValid f = f.minute_decay_factor < Decimal.one

-- In a window of 0xffffffff minutes the base rate is defined.
abbrev pub IsRecent : Fees → Option ℕ → Type 0
IsRecent f when = minutes_since_last_fee_operation f when ≤ 0xffffffff

-- Changing the mode of valid fees succeeds, keeps them valid and changes nothing else.
pub set_recovery_mode-IsValid :
    (f : Fees) (mode : Bool)
    → IsValid f
    → set_recovery_mode f mode ≡ ok (record f { recovery_mode = mode })
unfolding set_recovery_mode
set_recovery_mode-IsValid f mode valid = ground arith

-- The base rate at a time not more than 0xffffffff minutes after the last fee operation is defined,
-- and does not exceed the rate without decay.
pub base_rate_decays :
    (f : Fees) (when : Option ℕ)
    → IsValid f
    → IsRecent f when
    → (r : Decimal) × (base_rate f when ≡ ok r) × (r ≤ f.base_rate_without_decay)
unfolding base_rate
base_rate_decays f when valid recent =
    let (p, found, le) =
      pow-le_one f.minute_decay_factor (minutes_since_last_fee_operation f when) (omega arith)
        recent in
    (Decimal.mul p f.base_rate_without_decay, rw found, mul-le p f.base_rate_without_decay le)

-- Past that window the assertion of `pow` fails.
pub base_rate_expired :
    (f : Fees) (when : Option ℕ)
    → 0xffffffff < minutes_since_last_fee_operation f when
    → base_rate f when ≡ err Error.assertion
unfolding base_rate
base_rate_expired f when h = rw (pow_assertion _ _ h)

-- In recovery mode the borrowing rate is 0. Otherwise, for valid fees in the window and constants
-- whose minimum does not exceed the maximum, it is defined and lies between the two, and it exceeds
-- the minimum by no more than the base rate without decay.
pub borrowing_rate_bounds :
    (f : Fees) (when : Option ℕ)
    → IsValid f
    → IsRecent f when
    → f.constants.minimum_borrowing_rate ≤ f.constants.maximum_borrowing_rate
    → (r : Decimal) × (borrowing_rate f when ≡ ok r)
      × (((f.recovery_mode ≡ true) × (r ≡ 0))
          ⊎ ((f.recovery_mode ≡ false) × (f.constants.minimum_borrowing_rate ≤ r)))
      × (r ≤ f.constants.maximum_borrowing_rate)
      × (r ≤ f.constants.minimum_borrowing_rate + f.base_rate_without_decay)
unfolding borrowing_rate Decimal.min Decimal.add
borrowing_rate_bounds f when valid recent ordered =
    let (b, found, le) = base_rate_decays f when valid recent in
    elim (Bool-cases f.recovery_mode) [
      | inl on ↦ (0, ground arith, inl (on, refl), omega arith, omega arith)
      | inr off ↦ (
        Decimal.min (Decimal.add f.constants.minimum_borrowing_rate b)
            f.constants.maximum_borrowing_rate,
        ground arith,
        inr (off, ground arith),
        ground arith,
        ground arith,
      )
    ]

-- For valid fees in the window and a minimum of at most 100%, the redemption rate is defined and
-- lies between the minimum and 100%, whatever fraction of the supply is redeemed.
pub redemption_rate_bounds :
    (f : Fees) (fraction : Decimal) (when : Option ℕ)
    → IsValid f
    → IsRecent f when
    → f.constants.minimum_redemption_rate ≤ Decimal.one
    → (r : Decimal) × (redemption_rate f fraction when ≡ ok r)
      × (f.constants.minimum_redemption_rate ≤ r)
      × (r ≤ Decimal.one)
unfolding redemption_rate Decimal.min Decimal.add
redemption_rate_bounds f fraction when valid recent ordered =
    let (b, found, le) = base_rate_decays f when valid recent in
    (
      Decimal.min
          (Decimal.add f.constants.minimum_redemption_rate (rate_with_fraction f fraction b))
          Decimal.one,
      rw found,
      ground arith,
      ground arith,
    )

-- No redemption rate exceeds 100%.
pub redemption_rate-le_one :
    (f : Fees) (fraction : Decimal) (when : Option ℕ) {r : Decimal}
    → redemption_rate f fraction when ≡ ok r
    → r ≤ Decimal.one
unfolding redemption_rate Decimal.min
redemption_rate-le_one f fraction when h =
    >>=-then (base_rate f when) _ h λ b found h0. ground arith

rate_with_fraction_mono :
    (f : Fees) (x y b : Decimal) → x ≤ y → rate_with_fraction f x b ≤ rate_with_fraction f y b
unfolding rate_with_fraction Decimal.is_zero Decimal.add
rate_with_fraction_mono f x y b h = ground (arith, div_mono x y f.beta h)

-- Redeeming a larger fraction of the supply is never charged a lower rate.
pub redemption_rate_mono :
    (f : Fees) (x y : Decimal) (when : Option ℕ) {r s : Decimal}
    → x ≤ y
    → redemption_rate f x when ≡ ok r
    → redemption_rate f y when ≡ ok s
    → r ≤ s
unfolding redemption_rate Decimal.min Decimal.add
redemption_rate_mono f x y when h p q = elim (Result-cases (base_rate f when)) [
  | inl (b, found) ↦
      let p' = rw found at p in
      let q' = rw found at q in ground (arith, rate_with_fraction_mono f x y b h)
  | inr (e, failed) ↦ let p' = rw failed at p in cc
]
