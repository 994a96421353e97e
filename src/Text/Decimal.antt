-- ===== src/Text/Decimal.antt =====
-- Decimal digits: printing a number, and the value that a text of digits spells.
use native.Mathlib.Nat.{pow-suc}
use epiphany.Base.{
  ℕ, zero, suc, ◌+◌, ◌-◌, ◌*◌, ◌/◌, ◌%◌, ◌^◌, ◌<◌, ◌≡◌, refl, Bool, ◌&&◌, List, [], ◌∷◌, ◌++◌, leb,
  ltb, arith, if◌then◌else◌, length, replicate, ◌≤◌, length-append, length-replicate,
}

abbrev pub is_digit : ℕ → Bool
is_digit c = leb b'0' c && leb c b'9'

abbrev pub value : ℕ → List ℕ → ℕ
value n [] = n
value n (c ∷ s) = value (n * 10 + (c - b'0')) s

-- The digits of a number, as integer formatting prints them: one digit for each unit of fuel.
unfoldable pub print_digits : ℕ → ℕ → List ℕ
print_digits zero n = []
print_digits (suc f) n =
    let rest = print_digits f (n / 10) in
    if ltb n 10 then (b'0' + n) ∷ [] else rest ++ (b'0' + n % 10) ∷ []

-- a u64 has at most twenty digits
abbrev pub u64_digits : ℕ
u64_digits = 20

-- format!("{:0width$}", …) on the printed digits
abbrev pub zero_pad : ℕ → List ℕ → List ℕ
zero_pad width s = replicate (width - length s) b'0' ++ s

value-append : (n : ℕ) (s t : List ℕ) → value n (s ++ t) ≡ value (value n s) t
value-append n [] t = refl
value-append n (c ∷ s) t = value-append (n * 10 + (c - b'0')) s t

tenth : (f n : ℕ) → n < 10 ^ suc f → n / 10 < 10 ^ f
tenth f n h = omega (arith, pow-suc 10 f)

-- Reading the printed digits gives the number back, where the fuel covers its digits.
pub value-print_digits : (f n : ℕ) → n < 10 ^ f → value 0 (print_digits f n) ≡ n
unfolding print_digits
value-print_digits zero n h = omega arith
value-print_digits (suc f) n h = ground (
  arith,
  value-append 0 (print_digits f (n / 10)) ((b'0' + n % 10) ∷ []),
  value-print_digits f (n / 10) (tenth f n h),
)

pub length-zero_pad : (w : ℕ) (s : List ℕ) → length s ≤ w → length (zero_pad w s) ≡ w
length-zero_pad w s h = omega (
  arith,
  length-append (replicate (w - length s) b'0') s,
  length-replicate {A = ℕ} (w - length s) b'0',
)

value-replicate : (k : ℕ) (s : List ℕ) → value 0 (replicate k b'0' ++ s) ≡ value 0 s
value-replicate zero s = refl
value-replicate (suc k) s = value-replicate k s

pub value-zero_pad : (w : ℕ) (s : List ℕ) → value 0 (zero_pad w s) ≡ value 0 s
value-zero_pad w s = value-replicate (w - length s) s

-- A number below `10 ^ w` has at most `w` digits (and at least one).
pub length-print_digits : (w f n : ℕ) → n < 10 ^ suc w → length (print_digits f n) ≤ suc w
unfolding print_digits
length-print_digits w zero n h = omega arith
length-print_digits zero (suc f) n h = ground arith
length-print_digits (suc w) (suc f) n h = ground (
  arith,
  length-append (print_digits f (n / 10)) ((b'0' + n % 10) ∷ []),
  length-print_digits w f (n / 10) (tenth (suc w) n h),
)
