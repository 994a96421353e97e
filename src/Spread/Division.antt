-- ===== src/Spread/Division.antt =====
-- Truncating division has a remainder smaller than the divisor.
use native.Mathlib.Nat.{div-add-mod, mod-lt}
use epiphany.Base.{ℕ, zero, suc, ◌-◌, ◌/◌, ◌≤◌, ◌<◌, ◌≡◌, refl, arith}
use epiphany.Base.Int.{ℤ, pos, negsuc, pos_part, neg_part, ◌+ℤ◌, ◌-ℤ◌, ◌*ℤ◌, int_laws, abs}
use epiphany.Fixed.{negate}
use epiphany.Spread.{tdiv}

unfoldable pub rem : ℤ → ℤ → ℤ
rem a b = a -ℤ tdiv a b *ℤ b

abs-negate : (n : ℕ) → abs (negate n) ≡ n
abs-negate zero = refl
abs-negate (suc n) = refl

negate_parts : (n : ℕ) → (pos_part (negate n) ≡ 0) × (neg_part (negate n) ≡ n)
negate_parts zero = omega arith
negate_parts (suc n) = omega arith

-- The quotient's magnitude is the quotient of the magnitudes.
pub abs-tdiv : (a b : ℤ) → abs (tdiv a b) ≡ abs a / abs b
unfolding tdiv
abs-tdiv (pos a) (pos b) = refl
abs-tdiv (pos a) (negsuc b) = abs-negate (a / suc b)
abs-tdiv (negsuc a) (pos b) = abs-negate (suc a / b)
abs-tdiv (negsuc a) (negsuc b) = refl

pub tdiv-rem : (a b : ℤ) → a ≡ tdiv a b *ℤ b +ℤ rem a b
unfolding rem
tdiv-rem a b = omega (int_laws)

abs-sub-negate : (m q : ℕ) → q ≤ m → abs (pos m -ℤ pos q) ≡ m - q
unfolding ◌-ℤ◌
abs-sub-negate m q h = ground arith

pub abs-rem-lt : (a b : ℤ) → 0 < abs b → abs (rem a b) < abs b
unfolding rem tdiv ◌-ℤ◌ ◌*ℤ◌
abs-rem-lt (pos a) (pos b) h = ground (arith, div-add-mod a b, mod-lt a h)
abs-rem-lt (pos a) (negsuc b) h = ground (arith, div-add-mod a (suc b), mod-lt a h)
abs-rem-lt (negsuc a) (pos b) h = ground (arith, div-add-mod (suc a) b, mod-lt (suc a) h)
abs-rem-lt (negsuc a) (negsuc b) h = ground (arith, div-add-mod (suc a) (suc b), mod-lt (suc a) h)
