-- ===== src/Decimal/Text/Notation.antt =====
-- Decimal notation, which has the behaviour that packages/lib-base/src/Decimal.ts relies on in the
-- conversions of BigNumber.
use hliquity.Base.{
  ℕ, zero, suc, ◌+◌, ◌-◌, ◌*◌, ◌/◌, ◌%◌, ◌^◌, ◌≤◌, ◌<◌, ◌≡◌, ◌≢◌, refl, ap, true, false, not,
  Option, none, some, [], ◌∷◌, ◌++◌, ltb, if◌then◌else◌, arith, length, length-append, All,
  All-append, Bool-cases, inl, inr,
}
use native.Mathlib.Nat.{pow-suc}
use hliquity.Decimal.BigText.{Text, BigText, IsDecimal, IsDigit, value}
use hliquity.Decimal.Text.{is_nil, all_digits}

abbrev read : Text → Option ℕ
read s = if not (is_nil s) then (if all_digits s then some (value 0 s) else none) else none

-- The digits of `n`; `fuel` is more than `n`.
abbrev write : ℕ → ℕ → Text
write zero n = []
write (suc fuel) n = elim (ltb n 10) [
  | true ↦ (b'0' + n) ∷ []
  | false ↦ write fuel (n / 10) ++ (b'0' + n % 10) ∷ []
]

abbrev pub decimal_text : BigText
decimal_text = record { from = read; to_string = λ n. write (suc n) n }

value-append : (n : ℕ) (s t : Text) → value n (s ++ t) ≡ value (value n s) t
value-append n [] t = refl
value-append n (c ∷ s) t = value-append (n * 10 + (c - b'0')) s t

all_digits-All : (s : Text) → All IsDigit s → all_digits s ≡ true
all_digits-All [] h = refl
all_digits-All (c ∷ s) h = ground (arith, all_digits-All s h.1)

write_small : (fuel n : ℕ) → ltb n 10 ≡ true → write (suc fuel) n ≡ (b'0' + n) ∷ []
write_small fuel n small = rw (write, small) refl

write_large :
    (fuel n : ℕ)
    → ltb n 10 ≡ false
    → write (suc fuel) n ≡ write fuel (n / 10) ++ (b'0' + n % 10) ∷ []
write_large fuel n large = rw (write, large) refl

write-digits : (fuel n : ℕ) → All IsDigit (write fuel n)
write-digits zero n = tt
write-digits (suc fuel) n = elim (Bool-cases (ltb n 10)) [
  | inl small ↦ rw (write_small fuel n small) ((ground arith, ground arith), tt)
  | inr large ↦ rw (write_large fuel n large) (
      All-append IsDigit (write fuel (n / 10)) ((b'0' + n % 10) ∷ []) (write-digits fuel (n / 10))
        ((omega arith, omega arith), tt))
]

write_ne_nil : (fuel n : ℕ) → write (suc fuel) n ≢ []
write_ne_nil fuel n e = elim (Bool-cases (ltb n 10)) [
  | inl small ↦ let e' = rw (write_small fuel n small) at e in cc
  | inr large ↦
      let e' = rw (write_large fuel n large) at e in
      absurd
        (omega (arith, ap length e', length-append (write fuel (n / 10)) ((b'0' + n % 10) ∷ [])))
]

value-write : (fuel n : ℕ) → n < fuel → value 0 (write fuel n) ≡ n
value-write zero n h = absurd (omega arith)
value-write (suc fuel) n h = elim (Bool-cases (ltb n 10)) [
  | inl small ↦ rw (write_small fuel n small) (omega arith)
  | inr large ↦
      rw
        (
          write_large fuel n large,
          value-append 0 (write fuel (n / 10)) ((b'0' + n % 10) ∷ []),
          value-write fuel (n / 10) (ground arith),
        )
        (omega arith)
]

write_pos : (n k : ℕ) → ltb n 10 ≡ false → n < 10 ^ suc k → 0 < k
write_pos n zero large h = absurd (ground arith)
write_pos n (suc k) large h = omega arith

write_shortest : (fuel n k : ℕ) → 0 < k → n < 10 ^ k → length (write fuel n) ≤ k
write_shortest fuel n zero pos h = absurd (omega arith)
write_shortest zero n (suc k) pos h = omega arith
write_shortest (suc fuel) n (suc k) pos h = elim (Bool-cases (ltb n 10)) [
  | inl small ↦ rw (write_small fuel n small) (omega arith)
  | inr large ↦
      let fits : n / 10 < 10 ^ k = omega (arith, pow-suc 10 k) in
      let h = write_shortest fuel (n / 10) k (write_pos n k large h) fits in
      rw (write_large fuel n large)
        (omega (arith, length-append (write fuel (n / 10)) ((b'0' + n % 10) ∷ [])))
]

pub decimal_text-IsDecimal : IsDecimal decimal_text
decimal_text-IsDecimal = record {
  from_digits = λ s filled h. ground (arith, all_digits-All s h);
  to_string_digits = λ n. write-digits (suc n) n;
  to_string_ne_nil = λ n. write_ne_nil n n;
  value_to_string = λ n. value-write (suc n) n (omega arith);
  to_string_shortest = λ n k pos h. write_shortest (suc n) n k pos h;
}
