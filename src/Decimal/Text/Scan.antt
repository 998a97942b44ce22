-- ===== src/Decimal/Text/Scan.antt =====
-- The scanners of `_fromString` in packages/lib-base/src/Decimal.ts on digits, points and zeros.
use hliquity.Base.{
  ℕ, zero, suc, ◌≤◌, ◌≡◌, ◌≢◌, refl, true, ◌&&◌, ◌⊎◌, none, some, [], ◌∷◌, ◌++◌, ◌==◌, arith,
  length, replicate, All, Bool-cases, inl, inr,
}
use hliquity.Decimal.BigText.{Text, IsDigit, value}
use hliquity.Decimal.Text.{is_nil, matches_mantissa, matches_format, split_at, trim_zeros}

pub matches_mantissa_digits : (s : Text) → All IsDigit s → matches_mantissa s ≡ true
unfolding matches_mantissa
matches_mantissa_digits [] h = refl
matches_mantissa_digits (c ∷ s) h = ground (arith, matches_mantissa_digits s h.1)

pub matches_digits : (s : Text) → All IsDigit s → matches_format s ≡ true
unfolding matches_format
matches_digits [] h = refl
matches_digits (c ∷ s) h = ground (arith, matches_digits s h.1)

pub matches_point :
    (s t : Text) → All IsDigit s → All IsDigit t → matches_format (s ++ b'.' ∷ t) ≡ true
unfolding matches_format
matches_point [] t h k = ground (arith, matches_mantissa_digits t k)
matches_point (c ∷ s) t h k = ground (arith, matches_point s t h.1 k)

-- No separator, and the first separator.
pub split_digits : (sep : ℕ) (s : Text) → All (λ c. c ≢ sep) s → split_at sep s ≡ none
unfolding split_at
split_digits sep [] h = refl
split_digits sep (c ∷ s) h = ground (arith, split_digits sep s h.1)

pub split_point :
    (sep : ℕ) (s t : Text) → All (λ c. c ≢ sep) s → split_at sep (s ++ sep ∷ t) ≡ some (s, t)
unfolding split_at
split_point sep [] t h = ground arith
split_point sep (c ∷ s) t h = ground (arith, split_point sep s t h.1)

pub digits_ne :
    (sep : ℕ) (s : Text) → (sep ≡ b'.') ⊎ (sep ≡ b'e') → All IsDigit s → All (λ c. c ≢ sep) s
digits_ne sep [] e h = tt
digits_ne sep (c ∷ s) e h = (λ same. ground arith, digits_ne sep s e h.1)

-- Trailing zeros are restored, leading ones do not count.
pub length-trim_zeros : (s : Text) → length (trim_zeros s) ≤ length s
unfolding trim_zeros
length-trim_zeros [] = omega arith
length-trim_zeros (c ∷ s) = ground (arith, length-trim_zeros s)

pub trim_zeros-restore : (s : Text) → (k : ℕ) × (trim_zeros s ++ replicate k b'0' ≡ s)
unfolding trim_zeros
trim_zeros-restore [] = (0, refl)
trim_zeros-restore (c ∷ s) =
    let (k, restored) = trim_zeros-restore s in
    elim (Bool-cases (is_nil (trim_zeros s) && c == b'0')) [
      | inl zero_left ↦
          let gone : trim_zeros s ≡ [] = ground arith in
          let zeros : replicate k b'0' ≡ s = rw gone at restored in
          let digit : b'0' ≡ c = ground arith in (suc k, rw (zero_left, zeros, digit) refl)
      | inr kept ↦ (k, rw (kept, restored) refl)
    ]

pub All-trim_zeros : (s : Text) → All IsDigit s → All IsDigit (trim_zeros s)
unfolding trim_zeros
All-trim_zeros [] h = tt
All-trim_zeros (c ∷ s) h = elim (Bool-cases (is_nil (trim_zeros s) && c == b'0')) [
  | inl zero_left ↦ rw zero_left tt
  | inr kept ↦ rw kept (h.0, All-trim_zeros s h.1)
]

pub value-replicate : (k : ℕ) (s : Text) → value 0 (replicate k b'0' ++ s) ≡ value 0 s
value-replicate zero s = refl
value-replicate (suc k) s = value-replicate k s
