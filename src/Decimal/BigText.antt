-- ===== src/Decimal/BigText.antt =====
-- The text of big numbers. `BigNumber` of @ethersproject/bignumber is not part of the repository:
-- what Decimal.ts uses of its conversions is a parameter, with the behaviour that is relied on.
-- A text is the list of its code points.
use hliquity.Base.{
  ℕ, ◌+◌, ◌-◌, ◌*◌, ◌^◌, ◌≤◌, ◌<◌, ◌≡◌, ◌≢◌, Option, some, List, [], ◌∷◌, All, length,
}

abbrev pub Text : Type 0
Text = List ℕ

abbrev pub IsDigit : ℕ → Type 0
IsDigit c = (b'0' ≤ c) × (c ≤ b'9')

-- The number that digits spell behind `n`.
abbrev pub value : ℕ → Text → ℕ
value n [] = n
value n (c ∷ s) = value (n * 10 + (c - b'0')) s

-- `BigNumber.from(text)`, with `none` where it throws, and `toString()`.
pub record BigText : Type 0 where
  pub from : Text → Option ℕ
  pub to_string : ℕ → Text

-- A text of decimal digits, leading zeros allowed, is read as the number that it spells. A number
-- is written in decimal digits that spell it, as few as it needs.
pub record IsDecimal (big : BigText) : Type 0 where
  pub from_digits : (s : Text) → s ≢ [] → All IsDigit s → big.from s ≡ some (value 0 s)
  pub to_string_digits : (n : ℕ) → All IsDigit (big.to_string n)
  pub to_string_ne_nil : (n : ℕ) → big.to_string n ≢ []
  pub value_to_string : (n : ℕ) → value 0 (big.to_string n) ≡ n
  pub to_string_shortest : (n k : ℕ) → 0 < k → n < 10 ^ k → length (big.to_string n) ≤ k
