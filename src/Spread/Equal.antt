-- ===== src/Spread/Equal.antt =====
-- The even split: `distribute_equal`.
use native.Mathlib.Nat.{div-add-mod, mod-lt}
use epiphany.Base.{
  ℕ, zero, suc, ◌<◌, ◌≡◌, refl, ◌∙◌, arith, length, All, All-replicate, ◌⊎◌, replicate,
  length-replicate,
}
use epiphany.Base.Int.{ℤ, pos, negsuc, ◌+ℤ◌, ◌-ℤ◌, ◌*ℤ◌, int_laws, abs, sum_ℤ}
use epiphany.Base.Int.Ring.{sum_ℤ-replicate}
use epiphany.Fixed.{IsI64}
use epiphany.Spread.{tdiv, step_of, allocate_remainder, distribute_equal}
use epiphany.Spread.Division.{rem, abs-rem-lt}
use epiphany.Spread.Allocate.{sum-allocate_remainder, allocate_by_one, length-allocate}

sum-rem : (total : ℤ) (n : ℕ) → tdiv total (pos n) *ℤ pos n +ℤ rem total (pos n) ≡ total
unfolding rem
sum-rem total n = omega int_laws

-- One unit more than an even share of several leaves is still an `i64`.
share_fits :
    (total : ℤ) (n : ℕ)
    → IsI64 total
    → 0 < abs (rem total (pos (suc n)))
    → IsI64 (tdiv total (pos (suc n)) +ℤ step_of (rem total (pos (suc n))))
unfolding rem tdiv step_of ◌-ℤ◌ ◌*ℤ◌ ◌+ℤ◌
share_fits (pos a) n h p = ground (arith, div-add-mod a (suc n), mod-lt a {m = suc n} (omega arith))
share_fits (negsuc a) n h p =
    ground (arith, div-add-mod (suc a) (suc n), mod-lt (suc a) {m = suc n} (omega arith))

-- The even split sums to the total.
pub sum-distribute_equal :
    (total : ℤ) (n : ℕ) → IsI64 total → 0 < n → sum_ℤ (distribute_equal total n) ≡ total
unfolding distribute_equal rem
sum-distribute_equal total zero h p = elim p [ ]
sum-distribute_equal total (suc n) h p =
    sum-allocate_remainder (replicate (suc n) base) (rem total (pos (suc n)))
      (omega (
        arith,
        abs-rem-lt total (pos (suc n)) (omega arith),
        length-replicate {A = ℤ} (suc n) base,
      ))
      (λ q.
        All-replicate (λ x. IsI64 (x +ℤ step_of (rem total (pos (suc n))))) (suc n) base
          (share_fits total n h q))
    ∙ (rw (sum_ℤ-replicate (suc n) base) (sum-rem total (suc n)))
  where
    base : ℤ
    base = tdiv total (pos (suc n))

-- Each leaf of the even split holds the truncated quotient, or that and one unit more in the
-- direction of the remainder; there are as many leaves as asked for.
pub distribute_equal_even :
    (total : ℤ) (n : ℕ)
    → IsI64 total
    → let base = tdiv total (pos n) in
      let up = base +ℤ step_of (total -ℤ base *ℤ pos n) in
      All (λ x. (x ≡ base) ⊎ (x ≡ up)) (distribute_equal total n)
      × (length (distribute_equal total n) ≡ n)
unfolding distribute_equal rem allocate_remainder
distribute_equal_even total zero h = (tt, refl)
distribute_equal_even total (suc n) h = (
  allocate_by_one (step_of r) (abs r) (suc n) base (share_fits total n h),
  length-allocate (step_of r) (abs r) (replicate (suc n) base) ∙ length-replicate (suc n) base,
)
  where
    base : ℤ
    base = tdiv total (pos (suc n))

    r : ℤ
    r = rem total (pos (suc n))
