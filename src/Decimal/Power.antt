-- ===== src/Decimal/Power.antt =====
-- `Decimal.pow`: the loop against repeated multiplication, and the bounds of a decay factor's powers.
use native.Mathlib.Nat.{mul_comm, mul_assoc, pow-suc}
use hliquity.Base.{
  ℕ, zero, suc, ◌+◌, ◌*◌, ◌/◌, ◌%◌, ◌^◌, ◌≤◌, ◌<◌, ◌≡◌, refl, ◌∙◌, ap, ◌==◌, ltb, Bool, true, false,
  Bool-cases, inl, inr, ok, err, Error, arith, if◌then◌else◌,
}
use hliquity.Decimal.{Decimal, digits, one, pow, pow_loop, pow_rounds, rounded_mul}
use hliquity.Decimal.Arith.{rounded_mul_whole, rounded_mul-le_right, rounded_mul-le_left}

-- The power of a whole number, by repeated multiplication.
pub power : ℕ → ℕ → ℕ
power a zero = 1
power a (suc n) = a * power a n

power-double : (a n : ℕ) → power (a * a) n ≡ power a (n + n)
unfolding power
power-double a zero = refl
power-double a (suc n) =
    let e : suc n + suc n ≡ suc (suc (n + n)) = omega arith in rw (e, power-double a n, mul_assoc)

-- One round halves the exponent and squares the base; an odd exponent moves a factor to `b`.
power-halve :
    (a b e : ℕ) → power (a * a) (e / 2) * (if e % 2 == 1 then a * b else b) ≡ power a e * b
power-halve a b e = elim (Bool-cases (e % 2 == 1)) [
  | inl odd ↦
      let s : e ≡ suc (e / 2 + e / 2) = ground arith in
      rw (odd, power-double)
        (let p : power a e ≡ a * power a (e / 2 + e / 2) = unfold power in ap (power a) s in
          omega (arith, ap (λ (t : ℕ). t * b) p))
  | inr even ↦ let s : e / 2 + e / 2 ≡ e = ground arith in rw (even, power-double, s)
]

pow_fits : (rounds e : ℕ) → e < 2 * 2 ^ suc rounds → e / 2 < 2 * 2 ^ rounds
pow_fits rounds e h =
    let p : 2 ^ suc rounds ≡ 2 * 2 ^ rounds = pow-suc 2 rounds ∙ mul_comm _ _ in omega arith

pow_loop_more :
    (rounds e x y : ℕ)
    → ltb 1 e ≡ true
    → pow_loop (suc rounds) e x y
      ≡ pow_loop rounds (e / 2) (rounded_mul x x) (if e % 2 == 1 then rounded_mul x y else y)
unfolding pow_loop
pow_loop_more rounds e x y more = rw more

pow_loop_last : (rounds e x y : ℕ) → ltb 1 e ≡ false → pow_loop rounds e x y ≡ (x, y)
unfolding pow_loop
pow_loop_last zero e x y last = refl
pow_loop_last (suc rounds) e x y last = rw last

odd_factor_whole :
    (c : Bool) (a b : ℕ)
    → (if c then rounded_mul (a * digits) (b * digits) else b * digits)
      ≡ (if c then a * b else b) * digits
odd_factor_whole true a b = rounded_mul_whole a b
odd_factor_whole false a b = refl

-- On whole numbers the loop computes the power exactly, if the rounds suffice for the exponent.
pow_loop_whole :
    (rounds e a b : ℕ)
    → 0 < e
    → e < 2 * 2 ^ rounds
    → rounded_mul
        (pow_loop rounds e (a * digits) (b * digits)).0
        (pow_loop rounds e (a * digits) (b * digits)).1
      ≡ power a e * b * digits
pow_loop_whole zero e a b pos fits =
    let one_left : e ≡ 1 = omega arith in
    unfold pow_loop power in rw (one_left, rounded_mul_whole) (omega arith)
pow_loop_whole (suc rounds) e a b pos fits = elim (Bool-cases (ltb 1 e)) [
  | inl more ↦
      let ih =
        pow_loop_whole rounds (e / 2) (a * a) (if e % 2 == 1 then a * b else b) (ground arith)
          (pow_fits rounds e fits) in
      rw (pow_loop_more rounds e _ _ more, rounded_mul_whole a a, odd_factor_whole, ih, power-halve)
        refl
  | inr last ↦
      let one_left : e ≡ 1 = ground arith in
      rw (pow_loop_last (suc rounds) e _ _ last, rounded_mul_whole, one_left)
        (unfold power in omega arith)
]

-- For a base that is a whole number, `pow` is exact: it returns the power, for every exponent of
-- 32 bits.
pub pow-power : (a e : ℕ) → e ≤ 0xffffffff → pow (a * digits) e ≡ ok (power a e * digits)
unfolding pow
pow-power a zero fits = unfold power in refl
pow-power a (suc zero) fits = unfold power in ap ok (omega arith)
pow-power a (suc (suc e)) fits =
    let p = pow_loop_whole pow_rounds (suc (suc e)) a 1 (omega arith) (omega arith) in
    ground (arith, p)

pow_loop_le :
    (rounds e x y : ℕ)
    → x ≤ one
    → y ≤ one
    → ((pow_loop rounds e x y).0 ≤ x) × ((pow_loop rounds e x y).1 ≤ one)
pow_loop_le zero e x y hx hy = unfold pow_loop in (omega arith, hy)
pow_loop_le (suc rounds) e x y hx hy = elim (Bool-cases (ltb 1 e)) [
  | inl more ↦
      let x' = rounded_mul x x in
      let hx' : x' ≤ x = rounded_mul-le_right x x hx in
      let y' = if e % 2 == 1 then rounded_mul x y else y in
      let hy' : y' ≤ one = ground (arith, rounded_mul-le_right x y hx) in
      let ih = pow_loop_le rounds (e / 2) x' y' (omega arith) hy' in
      rw (pow_loop_more rounds e _ _ more) (omega arith)
  | inr last ↦ rw (pow_loop_last (suc rounds) e _ _ last) (omega arith)
]

-- A factor of at most one has powers, with an exponent of 1 to 0xffffffff, that do not exceed it.
pub pow_le_self :
    (d : Decimal) (e : ℕ)
    → d ≤ one
    → 0 < e
    → e ≤ 0xffffffff
    → (p : Decimal) × (pow d e ≡ ok p) × (p ≤ d)
unfolding pow
pow_le_self d zero hd pos fits = absurd (omega arith)
pow_le_self d (suc zero) hd pos fits = (d, refl, omega arith)
pow_le_self d (suc (suc e)) hd pos fits =
    let (hx, hy) = pow_loop_le pow_rounds (suc (suc e)) d digits hd (omega arith) in
    let (x, y) = pow_loop pow_rounds (suc (suc e)) d digits in
    (rounded_mul x y, ground arith, omega (arith, rounded_mul-le_left x y hy))

-- The powers of a factor of at most one are at most one, also at the exponent 0.
pub pow-le_one :
    (d : Decimal) (e : ℕ) → d ≤ one → e ≤ 0xffffffff → (p : Decimal) × (pow d e ≡ ok p) × (p ≤ one)
pow-le_one d zero hd fits = (one, unfold pow in refl, omega arith)
pow-le_one d (suc e) hd fits =
    let (p, found, le) = pow_le_self d (suc e) hd (omega arith) fits in (p, found, omega arith)

-- An exponent of more than 32 bits fails the assertion.
pub pow_assertion : (d : Decimal) (e : ℕ) → 0xffffffff < e → pow d e ≡ err Error.assertion
unfolding pow
pow_assertion d e h = ground arith
