-- ===== src/Base/Throw.antt =====
-- What a call that may throw returns: its value, or the error that it throws.
use Prim.Native.String.{String}
use mathlib.Core.Path.{◌≡◌, refl}
use mathlib.Core.Logic.{◌⊎◌, inl, inr}
use mathlib.Core.Bool.{Bool, true, false}
use mathlib.Core.List.{List}
use mathlib.Core.Option.{Option, none, some}

-- The errors thrown, one for each message of the source; `assertion` is a failed `assert`.
pub data Error : Type 0 where
  assertion negative_decimal bad_decimal_format invalid_decimalish : Error
  bad_big_number negative_precision : Error
  net_debt_below_reserve create_onto_existing close_empty : Error
  keys_not_allowed keys_missing : List String → Error
  collateral_changes_conflict debt_changes_conflict no_parameter : Error
  current_exceeds_initial : Error
  -- an answer that a contract or a node refuses, and `reduce` on no element
  call_rejected reduce_of_empty invalid_backend_status : Error
  amount_too_low_to_redeem not_truncated not_implemented infinite_approval still_pending : Error

pub data Result {ℓ} (A : Type ℓ) : Type ℓ where
  err : Error → Result A
  ok : A → Result A

-- A missing value throws.
abbrev pub or_throw {ℓ} : {A : Type ℓ} → Option A → Error → Result A
or_throw none e = err e
or_throw (some a) e = ok a

infixl 5 ◌>>=◌
abbrev pub ◌>>=◌ {ℓ κ} : {A : Type ℓ} {B : Type κ} → Result A → (A → Result B) → Result B
err thrown >>= rest = err thrown
ok returned >>= rest = rest returned

infixl 5 ◌>>◌
abbrev pub ◌>>◌ {ℓ} : {B : Type ℓ} → Result (Unit {0}) → Result B → Result B
err thrown >> rest = err thrown
ok _ >> rest = rest

-- `assert`, and `if (!c) throw e`.
abbrev pub guard : Bool → Error → Result (Unit {0})
guard false thrown = err thrown
guard true thrown = ok tt

module _ {ℓ} {A : Type ℓ} where
  pub Result-cases : (r : Result A) → ((a : A) × (r ≡ ok a)) ⊎ ((e : Error) × (r ≡ err e))
  Result-cases (err thrown) = inr (thrown, refl)
  Result-cases (ok returned) = inl (returned, refl)

  -- Inversion of a successful bind.
  pub >>=-eq-ok {κ} :
      {B : Type κ} (first : Result A) (rest : A → Result B) {result : B}
      → (first >>= rest) ≡ ok result
      → (returned : A) × (first ≡ ok returned) × (rest returned ≡ ok result)
  >>=-eq-ok (err thrown) rest h = cc
  >>=-eq-ok (ok returned) rest h = (returned, refl, h)

  -- The same inversion, for a goal that follows from the value that was returned.
  pub >>=-then {κ ν} :
      {B : Type κ} {Goal : Type ν} (first : Result A) (rest : A → Result B) {result : B}
      → (first >>= rest) ≡ ok result
      → ((returned : A) → first ≡ ok returned → rest returned ≡ ok result → Goal)
      → Goal
  >>=-then (err thrown) rest h goal = cc
  >>=-then (ok returned) rest h goal = goal returned refl h
