-- ===== src/Fixed/Parts.antt =====
-- `from_str` on a printed number: what its parts accept.
use epiphany.Base.{
  ℕ, ◌+◌, ◌-◌, ◌*◌, ◌^◌, ◌≤◌, ◌≡◌, refl, Bool, [], ◌∷◌, arith, if◌then◌else◌, length,
}
use epiphany.Base.Int.{pos}
use epiphany.Base.Result.{ok}
use epiphany.Text.{Text}
use epiphany.Text.Scan.{byte_len-digits}
use epiphany.Text.Decimal.{value}
use epiphany.Text.Digits.{AreDigits}
use epiphany.Fixed.{scale, i64_max, parse_digits, from_parts, negate}

-- A text of digits whose value fits is read as its value; the empty text is 0.
parse_digits-AreDigits :
    (s part : Text)
    → AreDigits part
    → value 0 part ≤ i64_max
    → parse_digits s part ≡ ok (value 0 part)
unfolding parse_digits
parse_digits-AreDigits s [] h fits = refl
parse_digits-AreDigits s (c ∷ part) h fits = ground arith

-- The digits of both parts, put together at the scale.
pub from_parts-AreDigits :
    (s int_part frac_part : Text) (negative : Bool) (v : ℕ)
    → AreDigits int_part
    → AreDigits frac_part
    → length frac_part ≤ 4
    → value 0 frac_part * 10 ^ (4 - length frac_part) ≡ v
    → value 0 frac_part ≤ v
    → value 0 int_part * scale + v ≤ i64_max
    → from_parts s negative int_part frac_part
      ≡ ok (record {
        scaled =
            if negative
            then negate (value 0 int_part * scale + v)
            else pos (value 0 int_part * scale + v);
      })
unfolding from_parts
from_parts-AreDigits s int_part frac_part negative v hi hf len e small fits =
    rw
      (
        byte_len-digits frac_part hf,
        parse_digits-AreDigits s int_part hi (omega arith),
        parse_digits-AreDigits s frac_part hf (omega arith),
        e,
      )
      (ground arith)
