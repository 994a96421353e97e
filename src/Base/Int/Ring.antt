-- ===== src/Base/Int/Ring.antt =====
-- The ring laws of the integers, through the two parts of an integer.
use epiphany.Base.{ℕ, zero, suc, ◌+◌, ◌*◌, ◌≤◌, ◌≡◌, ap, arith, replicate}
use epiphany.Base.Int.{
  ℤ, pos, negsuc, pos_part, neg_part, ◌+ℤ◌, ◌*ℤ◌, +ℤ_parts, int_laws, abs, sum_ℤ,
}

pub *ℤ_parts :
    (a b : ℤ)
    → pos_part (a *ℤ b) + (pos_part a * neg_part b + neg_part a * pos_part b)
      ≡ neg_part (a *ℤ b) + (pos_part a * pos_part b + neg_part a * neg_part b)
unfolding ◌*ℤ◌
*ℤ_parts a b = ground arith

pub *ℤ-+ℤ : (a b c : ℤ) → a *ℤ (b +ℤ c) ≡ a *ℤ b +ℤ a *ℤ c
*ℤ-+ℤ a b c = omega (
  int_laws,
  *ℤ_parts a (b +ℤ c),
  *ℤ_parts a b,
  *ℤ_parts a c,
  ap (λ (t : ℕ). pos_part a * t) (+ℤ_parts b c),
  ap (λ (t : ℕ). neg_part a * t) (+ℤ_parts b c),
)

pub +ℤ-*ℤ : (a b c : ℤ) → (a +ℤ b) *ℤ c ≡ a *ℤ c +ℤ b *ℤ c
+ℤ-*ℤ a b c = omega (
  int_laws,
  *ℤ_parts (a +ℤ b) c,
  *ℤ_parts a c,
  *ℤ_parts b c,
  ap (λ (t : ℕ). t * pos_part c) (+ℤ_parts a b),
  ap (λ (t : ℕ). t * neg_part c) (+ℤ_parts a b),
)

pub abs-*ℤ : (a b : ℤ) → abs (a *ℤ b) ≡ abs a * abs b
unfolding ◌*ℤ◌
abs-*ℤ (pos m) (pos n) = ground arith
abs-*ℤ (pos m) (negsuc n) = ground arith
abs-*ℤ (negsuc m) (pos n) = ground arith
abs-*ℤ (negsuc m) (negsuc n) = ground arith

pub abs-parts : (a : ℤ) → abs a ≡ pos_part a + neg_part a
abs-parts (pos n) = omega arith
abs-parts (negsuc n) = omega arith

pub abs-+ℤ : (a b : ℤ) → abs (a +ℤ b) ≤ abs a + abs b
unfolding ◌+ℤ◌
abs-+ℤ a b = ground arith

pub sum_ℤ-replicate : (n : ℕ) (b : ℤ) → sum_ℤ (replicate n b) ≡ b *ℤ pos n
sum_ℤ-replicate zero b = omega (int_laws, *ℤ_parts b (pos 0))
sum_ℤ-replicate (suc n) b =
    rw (sum_ℤ-replicate n b) (omega (int_laws, *ℤ_parts b (pos (suc n)), *ℤ_parts b (pos n)))
