-- ===== src/Decimal/Text/Tests.antt =====
-- Tests of the texts of packages/lib-base/src/Decimal.ts, with decimal notation in the place of
-- BigNumber's conversions.
use hliquity.Base.{◌≡◌, refl, none, some, ok, err, Error, arith, codes}
use hliquity.Decimal.Text.{from, to_string, from_string, string}
use hliquity.Decimal.Text.RoundTrip.{from-to_string}
use hliquity.Decimal.Text.Notation.{decimal_text, decimal_text-IsDecimal}

from-to_string_example :
    from decimal_text (string (to_string decimal_text 123_450_000_000 none)) ≡ ok 123_450_000_000
from-to_string_example =
    from-to_string decimal_text decimal_text-IsDecimal 123_450_000_000 (omega arith)

-- Texts without and with an exponent, the digits past the precision cut off, and no number.
from_string_decimal : from_string decimal_text (codes "1.5") ≡ ok 150_000_000
unfolding from_string
from_string_decimal = refl

from_string_exponent : from_string decimal_text (codes "5e-3") ≡ ok 500_000
unfolding from_string
from_string_exponent = refl

from_string_cut : from_string decimal_text (codes "0.999037758833783000") ≡ ok 99_903_775
unfolding from_string
from_string_cut = refl

from_string_negative : from_string decimal_text (codes "-1") ≡ err Error.bad_decimal_format
unfolding from_string
from_string_negative = refl

to_string_decimal : to_string decimal_text 150_000_000 none ≡ codes "1.5"
unfolding to_string
to_string_decimal = refl

to_string_rounded : to_string decimal_text 199_500_000 (some 2) ≡ codes "2.00"
unfolding to_string
to_string_rounded = refl
