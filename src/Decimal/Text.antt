-- ===== src/Decimal/Text.antt =====
-- packages/lib-base/src/Decimal.ts: `Decimal.from` on texts, and `toString`.
pub mod Scan
pub mod RoundTrip
pub mod Notation
mod Tests
use hliquity.Base.{
  ℕ, zero, suc, ◌+◌, ◌-◌, ◌*◌, ◌/◌, ◌%◌, ◌^◌, Bool, true, false, ◌&&◌, ◌||◌, not, Option, none,
  some, List, [], ◌∷◌, ◌++◌, Result, ok, err, Error, ◌>>=◌, ◌>>◌, guard, or_throw, ltb, leb, ◌==◌,
  if◌then◌else◌, length, take, replicate, codes,
}
use hliquity.Decimal
use hliquity.Decimal.{Decimal}
use hliquity.Decimal.BigText.{Text, BigText}

abbrev pub is_digit : ℕ → Bool
is_digit c = leb b'0' c && leb c b'9'

abbrev pub is_nil : Text → Bool
is_nil [] = true
is_nil (c ∷ s) = false

-- The tail of `stringRepresentationFormat` from behind the `e`: `[-+]?[0-9]+`.
abbrev pub all_digits : Text → Bool
all_digits [] = true
all_digits (c ∷ s) = is_digit c && all_digits s

unfoldable pub matches_exponent : Text → Bool
matches_exponent [] = false
matches_exponent (c ∷ s) =
    if c == b'-' || c == b'+' then not (is_nil s) && all_digits s else is_digit c && all_digits s

-- The format from behind the point: `[0-9]*(e[-+]?[0-9]+)?`.
unfoldable pub matches_mantissa : Text → Bool
unfolding matches_exponent
matches_mantissa [] = true
matches_mantissa (c ∷ s) =
    if c == b'e' then matches_exponent s else is_digit c && matches_mantissa s

-- `/^[0-9]*(\.[0-9]*)?(e[-+]?[0-9]+)?$/`
unfoldable pub matches_format : Text → Bool
unfolding matches_mantissa matches_exponent
matches_format [] = true
matches_format (c ∷ s) =
    if c == b'.'
    then matches_mantissa s
    else if c == b'e'
    then matches_exponent s
    else is_digit c && matches_format s

-- `s.split(sep)` of a text with at most one separator; `none` is a text without it.
unfoldable pub split_at : ℕ → Text → Option (Text × Text)
split_at sep [] = none
split_at sep (c ∷ s) =
    let rest = split_at sep s in
    if c == sep
    then some ([], s)
    else (elim rest [ none ↦ none | some (before, behind) ↦ some (c ∷ before, behind) ])

module _ (big : BigText) where
  -- `BigNumber.from(s)`, which throws on what is no number.
  unfoldable pub big_from : Text → Result ℕ
  big_from s = or_throw (big.from s) Error.bad_big_number

  -- `"".padEnd` and `substr` on the mantissa: eight digits.
  unfoldable pub mantissa_digits : Text → Text
  mantissa_digits mantissa =
      if ltb (length mantissa) Decimal.precision
      then mantissa ++ replicate (Decimal.precision - length mantissa) b'0'
      else take Decimal.precision mantissa

  -- A representation without point, and one with its two parts.
  unfoldable pub from_whole : Text → Result Decimal
  unfolding big_from
  from_whole representation = do n ← big_from representation; ok (n * Decimal.digits)

  unfoldable pub from_parts : Text → Text → Result Decimal
  unfolding big_from mantissa_digits
  from_parts characteristic mantissa = do
    whole ← if is_nil characteristic then ok 0 else big_from characteristic
    fraction ← big_from (mantissa_digits mantissa)
    ok (whole * Decimal.digits + fraction)

  -- A representation without exponent.
  abbrev pub from_split : Option (Text × Text) → Text → Result Decimal
  from_split none representation = from_whole representation
  from_split (some (characteristic, mantissa)) representation = from_parts characteristic mantissa

  unfoldable pub from_plain : Text → Result Decimal
  unfolding from_whole from_parts split_at
  from_plain representation = from_split (split_at b'.' representation) representation

  -- The recursive call of `_fromString`, on a coefficient: it is empty or has no exponent.
  unfoldable pub from_coefficient : Text → Result Decimal
  unfolding from_plain matches_format
  from_coefficient representation =
      if is_nil representation || not (matches_format representation)
      then err Error.bad_decimal_format
      else from_plain representation

  -- A coefficient, scaled by an exponent.
  unfoldable pub scale : Decimal → Text → Result Decimal
  unfolding big_from
  scale coefficient [] = do e ← big_from []; ok (coefficient * 10 ^ e)
  scale coefficient (c ∷ exponent) =
      if c == b'-'
      then (do e ← big_from exponent; ok (coefficient / 10 ^ e))
      else if c == b'+'
      then (do e ← big_from exponent; ok (coefficient * 10 ^ e))
      else (do e ← big_from (c ∷ exponent); ok (coefficient * 10 ^ e))

  abbrev pub from_exponent_split : Option (Text × Text) → Text → Result Decimal
  from_exponent_split none representation = from_plain representation
  from_exponent_split (some (coefficient, exponent)) representation =
      from_coefficient coefficient >>= λ c. scale c exponent

  -- `_fromString`
  unfoldable pub from_string : Text → Result Decimal
  unfolding from_coefficient scale split_at matches_format
  from_string representation =
      if is_nil representation || not (matches_format representation)
      then err Error.bad_decimal_format
      else from_exponent_split (split_at b'e' representation) representation

-- What is converted into a Decimal; a JavaScript number by its own `toString()`.
pub data Decimalish : Type 0 where
  decimal : Decimal → Decimalish
  other_object : Decimalish
  string : Text → Decimalish
  number : Text → Decimalish
  other : Decimalish

-- `s.padStart(n, "0")`
unfoldable pub pad_start : ℕ → Text → Text
pad_start n s = replicate (n - length s) b'0' ++ s

-- `s.replace(/0*$/, "")`
unfoldable pub trim_zeros : Text → Text
trim_zeros [] = []
trim_zeros (c ∷ s) = let rest = trim_zeros s in if is_nil rest && c == b'0' then [] else c ∷ rest

abbrev pub infinity_sign : Text
infinity_sign = 0x221e ∷ []

module _ (big : BigText) where
  -- `Decimal.from`; what has no other type counts as 0.
  unfoldable pub from : Decimalish → Result Decimal
  unfolding from_string
  from (decimal d) = ok d
  from other_object = err Error.invalid_decimalish
  from (string s) = from_string big s
  from (number s) = from_string big s
  from other = from_string big (b'0' ∷ [])

  unfoldable pub to_string_with_automatic_precision : Decimal → Text
  unfolding pad_start trim_zeros
  to_string_with_automatic_precision d =
      let characteristic = d / Decimal.digits in
      let mantissa = d % Decimal.digits in
      if mantissa == 0
      then big.to_string characteristic
      else big.to_string characteristic
        ++ b'.' ∷ trim_zeros (pad_start Decimal.precision (big.to_string mantissa))

  unfoldable pub round_up : Decimal → ℕ → ℕ
  round_up d p = d + Decimal.get_digits (Decimal.precision - 1 - p) * 5

  unfoldable pub to_string_with_precision : Decimal → ℕ → Text
  unfolding pad_start round_up
  to_string_with_precision d p =
      let value = if ltb p Decimal.precision then round_up d p else d in
      let characteristic = value / Decimal.digits in
      let mantissa = value % Decimal.digits in
      if p == 0
      then big.to_string characteristic
      else big.to_string characteristic
        ++ b'.' ∷ take p (pad_start Decimal.precision (big.to_string mantissa))

  -- The precision is an optional argument.
  unfoldable pub to_string : Decimal → Option ℕ → Text
  unfolding Decimal.infinite to_string_with_precision to_string_with_automatic_precision
  to_string d p = elim (Decimal.infinite d) [
    | some i ↦ infinity_sign
    | none ↦ elim p [
      | some n ↦ to_string_with_precision d n
      | none ↦ to_string_with_automatic_precision d
    ]
  ]
