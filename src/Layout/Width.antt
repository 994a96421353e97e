-- ===== src/Layout/Width.antt =====
-- The width of a field: every index below the element count fits, in at most 32 bits.
use native.Mathlib.Nat.{pow-suc}
use epiphany.Base.{ℕ, zero, suc, ◌-◌, ◌/◌, ◌^◌, ◌≤◌, ◌<◌, ◌≡◌, Bool-cases, inl, inr, leb, arith}
use epiphany.Layout.{bit_count, leading_zeros, bits_for}

bit_count_le : (fuel n : ℕ) → bit_count fuel n ≤ fuel
unfolding bit_count
bit_count_le zero n = omega arith
bit_count_le (suc fuel) zero = omega arith
bit_count_le (suc fuel) (suc n) = omega (arith, bit_count_le fuel (suc n / 2))

bit_count_fits : (fuel n : ℕ) → n < 2 ^ fuel → n < 2 ^ bit_count fuel n
unfolding bit_count
bit_count_fits zero n h = h
bit_count_fits (suc fuel) zero h = omega arith
bit_count_fits (suc fuel) (suc n) h = omega (
  arith,
  pow-suc 2 fuel,
  pow-suc 2 (bit_count fuel (suc n / 2)),
  bit_count_fits fuel (suc n / 2) (omega (arith, h, pow-suc 2 fuel)),
)

-- A field is from 1 to 32 bits wide.
pub bits_for_le : (len : ℕ) → bits_for len ≤ 32
unfolding bits_for
bits_for_le len = ground arith

-- An index below the count of elements fits the field.
pub bits_for_fits : (len i : ℕ) → len < 2 ^ 32 → i < len → i < 2 ^ bits_for len
unfolding bits_for leading_zeros
bits_for_fits len i h lt = elim (Bool-cases (leb len 1)) [
  | inl e ↦ rw e (ground arith)
  | inr e ↦
      let exact : 32 - (32 - bit_count 32 (len - 1)) ≡ bit_count 32 (len - 1) =
        omega (arith, bit_count_le 32 (len - 1)) in
      let below : len - 1 < 2 ^ bit_count 32 (len - 1) =
        bit_count_fits 32 (len - 1) (omega arith) in
      rw (e, exact) (omega (arith, below))
]
