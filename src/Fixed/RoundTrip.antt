-- ===== src/Fixed/RoundTrip.antt =====
-- Printing and reading a number back.
use epiphany.Base.{
  ℕ, suc, ◌+◌, ◌-◌, ◌*◌, ◌/◌, ◌%◌, ◌^◌, ◌≤◌, ◌≡◌, refl, Bool, true, false, not, [], ◌∷◌, ◌++◌, ◌==◌,
  arith, if◌then◌else◌, length, Bool-cases, inl, inr, ◌≢◌,
}
use epiphany.Base.Int.{ℤ, pos, negsuc}
use epiphany.Base.Result.{Result, ok, err}
use epiphany.Text.{
  Text, all_chars, drop_end_while, byte_len, split_once, strip_prefix, trim, is_whitespace,
}
use epiphany.Text.Scan.{all_chars-append, all_chars_mono, trim-printable}
use epiphany.Text.Decimal.{is_digit, value, print_digits, u64_digits}
use epiphany.Text.Digits.{AreDigits, print_digits-AreDigits}
use epiphany.Fixed.{
  Fixed, scale, i64_max, frac_text, from_parts, negate, display_abs, from_body, from_str, display,
  split_sign, sign, IsI64, unsigned_abs,
}
use epiphany.Model.{ModelError, overflow}
use epiphany.Fixed.Parts.{from_parts-AreDigits}
use epiphany.Fixed.Printed.{
  frac_text-AreDigits, length-frac_text, value-frac_text, from_body-pos, whole_digits,
  value-whole_digits, display_abs-whole, display_abs-frac, split_point-whole, split_point-frac,
  BeginsWithDigit, display_abs-BeginsWithDigit, pos_of_BeginsWithDigit, frac_text-le,
}

from_whole :
    (s : Text) (negative : Bool) (a : ℕ) (t : Text) (v : ℕ)
    → AreDigits t
    → length t ≤ 4
    → value 0 t * 10 ^ (4 - length t) ≡ v
    → value 0 t ≤ v
    → a / scale * scale + v ≡ a
    → a ≤ i64_max
    → from_parts s negative (whole_digits a) t
      ≡ ok (record { scaled = if negative then negate a else pos a })
from_whole s negative a t v ht len e small sum fits =
    let total : value 0 (whole_digits a) * scale + v ≡ a =
      omega (arith, value-whole_digits a fits) in
    rw total at (
      from_parts-AreDigits s (whole_digits a) t negative v
        (print_digits-AreDigits u64_digits (a / scale)) ht len e small (rw total fits))

-- What is printed behind the sign is read back.
from_body-display_abs :
    (s : Text) (negative : Bool) (a : ℕ)
    → a ≤ i64_max
    → from_body s negative (display_abs a)
      ≡ ok (record { scaled = if negative then negate a else pos a })
from_body-display_abs s negative a fits =
    rw
      (from_body-pos s negative (display_abs a)
        (pos_of_BeginsWithDigit (display_abs a) (display_abs-BeginsWithDigit a)))
      (elim (Bool-cases (a % scale == 0)) [
        | inl e ↦
            rw (display_abs-whole a e, split_point-whole a)
              (from_whole s negative a [] 0 refl (omega arith) refl (omega arith) (ground arith)
                fits)
        | inr e ↦
            rw (display_abs-frac a e, split_point-frac a (frac_text (a % scale)))
              (from_whole s negative a (frac_text (a % scale)) (a % scale)
                (frac_text-AreDigits (a % scale)) (length-frac_text (a % scale) (omega arith))
                (value-frac_text (a % scale) (omega arith)) (frac_text-le (a % scale) (omega arith))
                (omega arith) fits)
      ])

abbrev printable : ℕ → Bool
printable c = not (is_whitespace c)

digits-printable : (s : Text) → AreDigits s → all_chars printable s ≡ true
digits-printable s = all_chars_mono is_digit printable (λ c h. ground arith) s

display_abs-printable : (a : ℕ) → all_chars printable (display_abs a) ≡ true
unfolding display_abs
display_abs-printable a = ground (
  arith,
  all_chars-append printable (whole_digits a) (b'.' ∷ frac_text (a % scale)),
  digits-printable (whole_digits a) (print_digits-AreDigits u64_digits (a / scale)),
  digits-printable (frac_text (a % scale)) (frac_text-AreDigits (a % scale)),
)

sign-printable : (z : ℤ) → all_chars printable (sign z) ≡ true
sign-printable (pos n) = refl
sign-printable (negsuc n) = refl

-- Printed text has no whitespace to trim.
trim-display : (x : Fixed) → trim (display x) ≡ display x
unfolding display
trim-display x = trim-printable (display x) (
    ground (
      arith,
      all_chars-append printable (sign x.scaled) (display_abs (unsigned_abs x.scaled)),
      sign-printable x.scaled,
      display_abs-printable (unsigned_abs x.scaled),
    ))

split_sign-unsigned : (t : Text) → BeginsWithDigit t → split_sign t ≡ (false, t)
unfolding split_sign strip_prefix
split_sign-unsigned [] h = absurd h
split_sign-unsigned (c ∷ t) h = ground arith

abbrev from_signed : Text → Bool × Text → Result ModelError Fixed
from_signed s p = from_body s p.0 p.1

from_signed-display :
    (s : Text) (z : ℤ)
    → IsI64 z
    → z ≢ negsuc i64_max
    → from_signed s (split_sign (sign z ++ display_abs (unsigned_abs z)))
      ≡ ok (record { scaled = z })
unfolding split_sign strip_prefix
from_signed-display s (pos n) h ne =
    rw (split_sign-unsigned (display_abs n) (display_abs-BeginsWithDigit n))
      (from_body-display_abs s false n h.0)
from_signed-display s (negsuc n) h ne = from_body-display_abs s true (suc n) (least n h.1 ne)
  where
    least : (n : ℕ) → suc n ≤ i64_max + 1 → negsuc n ≢ negsuc i64_max → suc n ≤ i64_max
    least n fits ne = ground arith

-- Reading the printed form of a number gives the number back, for every `i64` but the least one.
pub from_str-display :
    (x : Fixed) → IsI64 x.scaled → x.scaled ≢ negsuc i64_max → from_str (display x) ≡ ok x
unfolding from_str
from_str-display x h ne =
    rw trim-display (unfold display in from_signed-display (display x) x.scaled h ne)

-- The printed form of the least `i64` is refused: its magnitude does not fit before it is negated.
pub from_str-least : from_str (display (record { scaled = negsuc i64_max })) ≡ err overflow
unfolding from_str display print_digits drop_end_while trim strip_prefix split_once byte_len
from_str-least = refl
