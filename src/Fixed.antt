-- ===== src/Fixed.antt =====
-- Exact fixed-point numbers: crates/epiphany-core/src/value.rs. A value is an `i64`, kept as an
-- integer whose range is stated where it matters.
mod Parts
pub mod Printed
pub mod RoundTrip
pub mod Bounds
mod Tests
use mathlib.Core.Option.{get_or}
use epiphany.Base.{
  ℕ, ◌+◌, ◌-◌, ◌*◌, ◌≤◌, zero, suc, Bool, true, false, not, ◌&&◌, Option, none, some, List, [], ◌∷◌,
  ◌++◌, ltb, leb, ◌==◌, if◌then◌else◌, ◌/◌, ◌%◌, ◌^◌,
}
use epiphany.Base.Int.{ℤ, pos, negsuc, ◌*ℤ◌, pos_part, neg_part}
use epiphany.Base.Result.{Result, ok, err, ◌>>=◌, ◌>>◌, guard, ok_or}
use epiphany.Text.{Text, trim, strip_prefix, split_once, byte_len, all_chars, drop_end_while}
use epiphany.Text.Decimal.{is_digit, value, print_digits, u64_digits, zero_pad}
use epiphany.Model.{ModelError, overflow, invalid_number}

abbrev pub scale_decimals : ℕ
scale_decimals = 4

abbrev pub scale : ℕ
scale = 10000

abbrev pub i64_max : ℕ
i64_max = 2 ^ 63 - 1

-- The integers that an `i64` holds.
abbrev pub IsI64 : ℤ → Type 0
IsI64 z = (pos_part z ≤ i64_max) × (neg_part z ≤ i64_max + 1)

abbrev pub in_i64 : ℤ → Bool
in_i64 z = leb (pos_part z) i64_max && leb (neg_part z) (i64_max + 1)

pub record Fixed : Type 0 where
  pub scaled : ℤ

abbrev pub nought : Fixed
nought = record { scaled = pos 0 }

pub from_int : ℤ → Result ModelError Fixed
unfolding ◌*ℤ◌
from_int n = let v = n *ℤ pos scale in if in_i64 v then ok (record { scaled = v }) else err overflow

unfoldable pub is_zero_i64 : ℤ → Bool
is_zero_i64 (pos n) = n == 0
is_zero_i64 (negsuc n) = false

unfoldable pub is_zero : Fixed → Bool
unfolding is_zero_i64
is_zero x = is_zero_i64 x.scaled

-- i64::unsigned_abs
abbrev pub unsigned_abs : ℤ → ℕ
unsigned_abs (pos n) = n
unsigned_abs (negsuc n) = suc n

abbrev pub sign : ℤ → Text
sign (pos n) = []
sign (negsuc n) = b'-' ∷ []

-- format!("{:04}", frac), then the trailing zeros are popped
pub frac_text : ℕ → Text
frac_text frac =
    drop_end_while (λ c. c == b'0') (zero_pad scale_decimals (print_digits u64_digits frac))

-- the text behind the sign
pub display_abs : ℕ → Text
unfolding frac_text
display_abs a =
    let int = a / scale in
    let frac = a % scale in
    if frac == 0
    then print_digits u64_digits int
    else print_digits u64_digits int ++ (b'.' ∷ frac_text frac)

-- fmt::Display
pub display : Fixed → Text
unfolding display_abs
display x = sign x.scaled ++ display_abs (unsigned_abs x.scaled)

-- i64::checked_mul and checked_add, on operands that are not negative
abbrev pub checked : ℕ → Option ℕ
checked v = if leb v i64_max then some v else none

-- the closure `digits` of `from_str`; `s` is the whole text, for the error
pub parse_digits : Text → Text → Result ModelError ℕ
parse_digits s [] = ok 0
parse_digits s (c ∷ part) =
    if not (all_chars is_digit (c ∷ part))
    then err (invalid_number s)
    else ok_or (checked (value 0 (c ∷ part))) (invalid_number s)

-- the sign, and the text behind it
pub split_sign : Text → Bool × Text
split_sign trimmed = elim (strip_prefix b'-' trimmed) [
  | some rest ↦ (true, rest)
  | none ↦ (false, get_or (strip_prefix b'+' trimmed) trimmed)
]

abbrev pub negate : ℕ → ℤ
negate zero = pos 0
negate (suc n) = negsuc n

pub split_point : Text → Text × Text
split_point body = get_or (split_once b'.' body) (body, [])

-- `from_str` from the test of the fraction's length on
pub from_parts : Text → Bool → Text → Text → Result ModelError Fixed
unfolding parse_digits
from_parts s negative int_part frac_part = do
  guard (leb (byte_len frac_part) scale_decimals) (invalid_number s)
  int_val ← parse_digits s int_part
  frac_val ← parse_digits s frac_part
  frac_scaled ← ok_or (checked (frac_val * 10 ^ (scale_decimals - byte_len frac_part))) overflow
  whole ← ok_or (checked (int_val * scale)) overflow
  magnitude ← ok_or (checked (whole + frac_scaled)) overflow
  ok (record { scaled = if negative then negate magnitude else pos magnitude })

-- `from_str` behind the sign
pub from_body : Text → Bool → Text → Result ModelError Fixed
unfolding from_parts split_point
from_body s negative [] = err (invalid_number s)
from_body s negative (c ∷ body) =
    let (int_part, frac_part) = split_point (c ∷ body) in from_parts s negative int_part frac_part

-- FromStr
pub from_str : Text → Result ModelError Fixed
unfolding split_sign from_body
from_str s = let (negative, body) = split_sign (trim s) in from_body s negative body
