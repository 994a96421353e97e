-- ===== src/Base/Bits.antt =====
-- Bit operations on fields that do not overlap, as arithmetic. Both laws go by induction on the
-- count of digits that the operation's own recursion has left.
use Prim.Native.Nat.{
  ℕ, zero, suc, ◌+◌, ◌-◌, ◌*◌, ◌/◌, ◌^◌, ◌≤◌, ◌<◌, min, max, bit_and, bit_or, digits,
  bit_and-bitwise, bit_or-bitwise,
}
use mathlib.Core.Path.{◌≡◌, refl, ap, ◌∙◌}
use native.Mathlib.Nat.{pow-suc, one-le-pow, mul-le-mul}
use native.Mathlib.Omega.{arith}

pub double_pow : (q k : ℕ) → q * 2 ^ suc k ≡ 2 * (q * 2 ^ k)
double_pow q k = omega (arith, ap (λ (t : ℕ). q * t) (pow-suc 2 k))

or_digits : (n a k q : ℕ) → a ≤ n → a < 2 ^ k → digits (λ b. b) max n a (q * 2 ^ k) ≡ a + q * 2 ^ k
or_digits zero zero k q h lt = omega arith
or_digits zero (suc a) k q h lt = absurd (omega arith)
or_digits (suc n) zero k q h lt = omega arith
or_digits (suc n) (suc a) zero q h lt = absurd (omega arith)
or_digits (suc n) (suc a) (suc k) q h lt =
    ground (
      arith,
      double_pow q k,
      or_digits n (suc a / 2) k q (omega arith) (omega (arith, pow-suc 2 k)),
    )

-- `low | (q << k)`, when `low` fits `k` bits
pub bit_or_shifted : (low k q : ℕ) → low < 2 ^ k → bit_or low (q * 2 ^ k) ≡ low + q * 2 ^ k
bit_or_shifted low k q lt = bit_or-bitwise low (q * 2 ^ k) ∙ or_digits low low k q (omega arith) lt

and_digits :
    (n a w q r : ℕ)
    → a ≤ n
    → a ≡ q * 2 ^ w + r
    → r < 2 ^ w
    → digits (λ b. zero) min n a (2 ^ w - 1) ≡ r
and_digits zero zero w q r h e lt = omega arith
and_digits zero (suc a) w q r h e lt = absurd (omega arith)
and_digits (suc n) zero w q r h e lt = omega arith
and_digits (suc n) (suc a) zero q r h e lt =
    ground
      (arith, and_digits n (suc a / 2) zero (suc a / 2) 0 (omega arith) (omega arith) (omega arith))
and_digits (suc n) (suc a) (suc w) q r h e lt = ground (
  arith,
  double_pow q w,
  pow-suc 2 w,
  one-le-pow w 2,
  and_digits n (suc a / 2) w q (r / 2) (omega arith) (omega (arith, double_pow q w, e))
      (omega (arith, pow-suc 2 w)),
)

-- `(q << w | r) & mask`, when `r` fits `w` bits and the mask has `w` ones
pub bit_and_mask : (w q r : ℕ) → r < 2 ^ w → bit_and (q * 2 ^ w + r) (2 ^ w - 1) ≡ r
bit_and_mask w q r lt =
    bit_and-bitwise (q * 2 ^ w + r) (2 ^ w - 1)
    ∙ and_digits (q * 2 ^ w + r) (q * 2 ^ w + r) w q r (omega arith) refl lt

pub pow_add : (m n : ℕ) → 2 ^ (m + n) ≡ 2 ^ m * 2 ^ n
pow_add m zero = grind arith
pow_add m (suc n) =
    let shift : 2 ^ (m + suc n) ≡ 2 ^ suc (m + n) = ap (λ (k : ℕ). 2 ^ k) (omega arith) in
    omega (arith, shift, pow-suc 2 (m + n), pow_add m n, ap (λ (t : ℕ). 2 ^ m * t) (pow-suc 2 n))

pub mul_le_mul : (a b c : ℕ) → a ≤ b → a * c ≤ b * c
mul_le_mul a b c h = mul-le-mul h (omega arith)
