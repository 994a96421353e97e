-- ===== src/Fixed/Printed.antt =====
-- The printed form of a fixed-point number: its digits, and how the parser splits it.
use mathlib.Core.List.{append-nil}
use native.Mathlib.Nat.{one-le-pow}
use epiphany.Base.{
  ℕ, ◌-◌, ◌*◌, ◌/◌, ◌%◌, ◌^◌, ◌≤◌, ◌<◌, ◌≡◌, refl, Bool, true, false, not, [], ◌∷◌, ◌++◌, ◌==◌,
  arith, length, Bool-cases, inl, inr,
}
use epiphany.Text.{Text, all_chars}
use epiphany.Text.Scan.{
  all_chars-drop_end_while, all_chars_mono, split_once-absent, split_once-first,
}
use epiphany.Text.Decimal.{
  is_digit, value, print_digits, zero_pad, u64_digits, length-zero_pad, value-zero_pad,
  length-print_digits, value-print_digits,
}
use epiphany.Text.Digits.{
  AreDigits, print_digits-AreDigits, zero_pad-AreDigits, length-drop_end_while, value-drop_zeros,
  print_digits-pos,
}
use epiphany.Fixed.{scale, i64_max, frac_text, from_parts, display_abs, split_point, from_body}

-- the padded fraction, before its trailing zeros are popped
abbrev pub padded : ℕ → Text
padded frac = zero_pad 4 (print_digits u64_digits frac)

pub padded-AreDigits : (frac : ℕ) → AreDigits (padded frac)
padded-AreDigits frac =
    zero_pad-AreDigits 4 (print_digits u64_digits frac) (print_digits-AreDigits u64_digits frac)

pub length-padded : (frac : ℕ) → frac < scale → length (padded frac) ≡ 4
length-padded frac h =
    length-zero_pad 4 (print_digits u64_digits frac) (length-print_digits 3 u64_digits frac h)

pub value-padded : (frac : ℕ) → frac < scale → value 0 (padded frac) ≡ frac
value-padded frac h = rw (value-zero_pad) (value-print_digits u64_digits frac (omega arith))

pub frac_text-AreDigits : (frac : ℕ) → AreDigits (frac_text frac)
unfolding frac_text
frac_text-AreDigits frac = all_chars-drop_end_while _ is_digit (padded frac) (padded-AreDigits frac)

pub length-frac_text : (frac : ℕ) → frac < scale → length (frac_text frac) ≤ 4
unfolding frac_text
length-frac_text frac h =
    omega (arith, length-padded frac h, length-drop_end_while (λ c. c == b'0') (padded frac))

pub value-frac_text :
    (frac : ℕ) → frac < scale → value 0 (frac_text frac) * 10 ^ (4 - length (frac_text frac)) ≡ frac
unfolding frac_text
value-frac_text frac h =
    rw (length-padded frac h, value-padded frac h) at (value-drop_zeros 0 (padded frac))

pub not_point : (s : Text) → AreDigits s → all_chars (λ c. not (c == b'.')) s ≡ true
not_point s = all_chars_mono is_digit _ (λ c h. ground arith) s

pub from_body-pos :
    (s : Text) (negative : Bool) (body : Text)
    → 0 < length body
    → from_body s negative body
      ≡ (let (int_part, frac_part) = split_point body in from_parts s negative int_part frac_part)
unfolding from_body
from_body-pos s negative [] h = elim h [ ]
from_body-pos s negative (c ∷ body) h = refl

abbrev pub whole_digits : ℕ → Text
whole_digits a = print_digits u64_digits (a / scale)

pub value-whole_digits : (a : ℕ) → a ≤ i64_max → value 0 (whole_digits a) ≡ a / scale
value-whole_digits a fits = value-print_digits u64_digits (a / scale) (omega arith)

pub display_abs-whole : (a : ℕ) → (a % scale == 0) ≡ true → display_abs a ≡ whole_digits a
unfolding display_abs
display_abs-whole a e = rw e

pub display_abs-frac :
    (a : ℕ)
    → (a % scale == 0) ≡ false
    → display_abs a ≡ whole_digits a ++ (b'.' ∷ frac_text (a % scale))
unfolding display_abs
display_abs-frac a e = rw e

pub split_point-whole : (a : ℕ) → split_point (whole_digits a) ≡ (whole_digits a, [])
unfolding split_point
split_point-whole a = rw (
    split_once-absent b'.' (whole_digits a)
      (not_point (whole_digits a) (print_digits-AreDigits u64_digits (a / scale))))

pub split_point-frac :
    (a : ℕ) (t : Text) → split_point (whole_digits a ++ (b'.' ∷ t)) ≡ (whole_digits a, t)
unfolding split_point
split_point-frac a t = rw (
    split_once-first b'.' (whole_digits a) t
      (not_point (whole_digits a) (print_digits-AreDigits u64_digits (a / scale))))

-- A text that begins with a digit: it carries no sign.
abbrev pub BeginsWithDigit : Text → Type 0
BeginsWithDigit [] = ⊥
BeginsWithDigit (c ∷ s) = is_digit c ≡ true

pub digits-BeginsWithDigit : (d t : Text) → AreDigits d → 0 < length d → BeginsWithDigit (d ++ t)
digits-BeginsWithDigit [] t h l = elim l [ ]
digits-BeginsWithDigit (c ∷ d) t h l = ground arith

pub display_abs-BeginsWithDigit : (a : ℕ) → BeginsWithDigit (display_abs a)
display_abs-BeginsWithDigit a =
    let begins = λ (t : Text).
      digits-BeginsWithDigit (whole_digits a) t (print_digits-AreDigits u64_digits (a / scale))
        (print_digits-pos 19 (a / scale)) in
    elim (Bool-cases (a % scale == 0)) [
      | inl e ↦ rw (display_abs-whole a e) (rw append-nil at (begins []))
      | inr e ↦ rw (display_abs-frac a e) (begins (b'.' ∷ frac_text (a % scale)))
    ]

pub pos_of_BeginsWithDigit : (s : Text) → BeginsWithDigit s → 0 < length s
pos_of_BeginsWithDigit [] h = absurd h
pos_of_BeginsWithDigit (c ∷ s) h = omega arith

pub le-mul-pow : (x k : ℕ) → x ≤ x * 10 ^ k
le-mul-pow x k = grind (arith, one-le-pow k 10)

pub frac_text-le : (frac : ℕ) → frac < scale → value 0 (frac_text frac) ≤ frac
frac_text-le frac h = omega (
  arith,
  value-frac_text frac h,
  le-mul-pow (value 0 (frac_text frac)) (4 - length (frac_text frac)),
)
