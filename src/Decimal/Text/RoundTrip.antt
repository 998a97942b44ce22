-- ===== src/Decimal/Text/RoundTrip.antt =====
-- `Decimal.from` reads back what `toString` of packages/lib-base/src/Decimal.ts prints.
use hliquity.Base.{
  ℕ, ◌+◌, ◌-◌, ◌*◌, ◌/◌, ◌%◌, ◌<◌, ◌≡◌, ◌≢◌, refl, sym, ◌∙◌, ap, true, false, none, [], ◌∷◌, ◌++◌,
  ok, err, Error, ltb, ◌==◌, arith, length, replicate, length-append, length-replicate, take_all,
  All, All-append, All-replicate, Bool-cases, inl, inr, ltb→le,
}
use mathlib.Core.List.{append-nil}
use hliquity.Decimal
use hliquity.Decimal.{Decimal}
use hliquity.Decimal.BigText.{Text, BigText, IsDecimal, IsDigit, value}
use hliquity.Decimal.Text.Scan.{
  matches_digits, matches_point, split_digits, split_point, digits_ne, trim_zeros-restore,
  All-trim_zeros, value-replicate,
}
use hliquity.Decimal.Text.{
  is_nil, matches_format, split_at, big_from, mantissa_digits, from_whole, from_parts, from_plain,
  from_string, string, from, pad_start, trim_zeros, to_string, to_string_with_automatic_precision,
}

-- The padded mantissa has eight digits and the same value.
module _ (big : BigText) (laws : IsDecimal big) (m : ℕ) (fits : m < Decimal.digits) where
  padded : Text
  padded = pad_start Decimal.precision (big.to_string m)

  length-padded : length padded ≡ 8
  unfolding padded pad_start
  length-padded = omega (
    arith,
    length-append (replicate (8 - length (big.to_string m)) b'0') (big.to_string m),
    length-replicate {A = ℕ} (8 - length (big.to_string m)) b'0',
    laws.to_string_shortest m 8 (omega arith) fits,
  )

  value-padded : value 0 padded ≡ m
  unfolding padded pad_start
  value-padded =
      value-replicate (Decimal.precision - length (big.to_string m)) (big.to_string m)
      ∙ laws.value_to_string m

  padded_digits : All IsDigit padded
  unfolding padded pad_start
  padded_digits =
      All-append IsDigit _ _ (All-replicate IsDigit _ b'0' (omega arith, omega arith))
        (laws.to_string_digits m)

  -- The mantissa that is read back is the one that was printed.
  mantissa_digits-trim_zeros : mantissa_digits big (trim_zeros padded) ≡ padded
  unfolding mantissa_digits
  mantissa_digits-trim_zeros =
      let (k, restored) = trim_zeros-restore padded in
      let t = trim_zeros padded in
      let lengths : length t + k ≡ 8 = omega (
        arith,
        ap length restored,
        length-append t (replicate k b'0'),
        length-replicate {A = ℕ} k b'0',
        length-padded,
      ) in
      elim (Bool-cases (ltb (length t) Decimal.precision)) [
        | inl short ↦
            let missing : k ≡ Decimal.precision - length t = omega arith in
            rw (short, ← missing) restored
        | inr full ↦
            let exact : k ≡ 0 = omega (arith, ltb→le (length t) Decimal.precision full) in
            let same : t ≡ padded = sym (append-nil t) ∙ (rw exact at restored) in
            rw full (rw same (take_all padded 8 length-padded))
      ]

module _ (big : BigText) (laws : IsDecimal big) where
  big_from_to_string : (n : ℕ) → big_from big (big.to_string n) ≡ ok n
  unfolding big_from
  big_from_to_string n =
      rw
        (
          laws.from_digits (big.to_string n) (laws.to_string_ne_nil n) (laws.to_string_digits n),
          laws.value_to_string n,
        )
        refl

  -- What has no exponent is read as it is.
  from_string_plain :
      (s : Text)
      → is_nil s ≡ false
      → matches_format s ≡ true
      → split_at b'e' s ≡ none
      → from_string big s ≡ from_plain big s
  unfolding from_string
  from_string_plain s filled matched plain = rw (filled, matched, plain) refl

  -- A text of digits without a point.
  from_string_whole : (n : ℕ) → from_string big (big.to_string n) ≡ ok (n * Decimal.digits)
  from_string_whole n =
      let s = big.to_string n in
      let h = laws.to_string_digits n in
      let filled : is_nil s ≡ false = ground (arith, laws.to_string_ne_nil n) in
      from_string_plain s filled (matches_digits s h)
        (split_digits b'e' s (digits_ne b'e' s (inr refl) h))
      ∙ (unfold from_plain from_whole in
          rw (split_digits b'.' s (digits_ne b'.' s (inl refl) h), big_from_to_string n) refl)

  -- Digits, a point and digits.
  from_string_parts :
      (n : ℕ) (t p : Text)
      → All IsDigit t
      → mantissa_digits big t ≡ p
      → p ≢ []
      → All IsDigit p
      → from_string big (big.to_string n ++ b'.' ∷ t) ≡ ok (n * Decimal.digits + value 0 p)
  from_string_parts n t p digits_t read filled_p digits_p =
      let s = big.to_string n in
      let h = laws.to_string_digits n in
      let filled : is_nil s ≡ false = ground (arith, laws.to_string_ne_nil n) in
      let filled' : is_nil (s ++ b'.' ∷ t) ≡ false = ground (arith, laws.to_string_ne_nil n) in
      from_string_plain (s ++ b'.' ∷ t) filled' (matches_point s t h digits_t) (
        split_digits b'e' (s ++ b'.' ∷ t) (
          All-append (λ c. c ≢ b'e') s (b'.' ∷ t) (digits_ne b'e' s (inr refl) h)
            (omega arith, digits_ne b'e' t (inr refl) digits_t)))
      ∙ (unfold from_plain from_parts big_from in
          rw
            (
              split_point b'.' s t (digits_ne b'.' s (inl refl) h),
              filled,
              big_from_to_string n,
              read,
              laws.from_digits p filled_p digits_p,
            )
            refl)

  to_string_finite :
      (d : Decimal)
      → d ≢ Decimal.infinity
      → to_string big d none ≡ to_string_with_automatic_precision big d
  unfolding to_string
  to_string_finite d finite = ground arith

  from_automatic : (d : Decimal) → from_string big (to_string_with_automatic_precision big d) ≡ ok d
  unfolding to_string_with_automatic_precision padded
  from_automatic d =
      let n = d / Decimal.digits in
      let m = d % Decimal.digits in
      let whole : n * Decimal.digits + m ≡ d = omega arith in
      elim (Bool-cases (m == 0)) [
        | inl none_left ↦
            let e : n * Decimal.digits ≡ d = ground arith in
            rw (none_left, from_string_whole n, e) refl
        | inr some_left ↦
            let fits : m < Decimal.digits = omega arith in
            let p = padded big laws m fits in
            rw
              (
                some_left,
                from_string_parts n (trim_zeros p) p
                    (All-trim_zeros p (padded_digits big laws m fits))
                    (mantissa_digits-trim_zeros big laws m fits)
                    (λ e. absurd (omega (arith, ap length e, length-padded big laws m fits)))
                    (padded_digits big laws m fits),
                value-padded big laws m fits,
                whole,
              )
              refl
      ]

  -- A finite Decimal, printed with automatic precision, is read back.
  pub from-to_string :
      (d : Decimal) → d ≢ Decimal.infinity → from big (string (to_string big d none)) ≡ ok d
  unfolding from
  from-to_string d finite = rw (to_string_finite d finite) (from_automatic d)

  -- Infinity is printed as a sign that `from` refuses.
  pub from-to_string_infinity :
      from big (string (to_string big Decimal.infinity none)) ≡ err Error.bad_decimal_format
  unfolding from to_string from_string
  from-to_string_infinity = refl
