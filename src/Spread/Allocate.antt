-- ===== src/Spread/Allocate.antt =====
-- Handing out a remainder, one unit to each leading leaf.
use epiphany.Base.{
  ℕ, zero, suc, ◌≤◌, ◌<◌, ◌≡◌, refl, ap, arith, List, [], ◌∷◌, length, All, All-replicate, ◌⊎◌, inl,
  inr, replicate,
}
use epiphany.Base.Int.{ℤ, pos, negsuc, ◌+ℤ◌, ◌*ℤ◌, int_laws, abs, sum_ℤ}
use epiphany.Base.Int.Ring.{*ℤ_parts}
use epiphany.Fixed.{IsI64}
use epiphany.Spread.{wrap_i64, allocate, step_of, allocate_remainder}

-- An integer in range is kept as it is.
pub wrap_i64-IsI64 : (z : ℤ) → IsI64 z → wrap_i64 z ≡ z
unfolding wrap_i64
wrap_i64-IsI64 (pos n) h = ground arith
wrap_i64-IsI64 (negsuc n) h = ground arith

pub length-allocate :
    (step : ℤ) (left : ℕ) (out : List ℤ) → length (allocate step left out) ≡ length out
unfolding allocate
length-allocate step left [] = refl
length-allocate step zero (x ∷ out) = refl
length-allocate step (suc left) (x ∷ out) = ap suc (length-allocate step left out)

sum-allocate :
    (step : ℤ) (left : ℕ) (out : List ℤ)
    → left ≤ length out
    → (0 < left → All (λ x. IsI64 (x +ℤ step)) out)
    → sum_ℤ (allocate step left out) ≡ sum_ℤ out +ℤ step *ℤ pos left
unfolding allocate
sum-allocate step zero [] h fits = omega (int_laws, *ℤ_parts step (pos 0))
sum-allocate step (suc left) [] h fits = absurd (omega arith)
sum-allocate step zero (x ∷ out) h fits = omega (int_laws, *ℤ_parts step (pos 0))
sum-allocate step (suc left) (x ∷ out) h fits =
    rw
      (
        wrap_i64-IsI64 (x +ℤ step) (fits (omega arith)).0,
        sum-allocate step left out (omega arith) (λ _. (fits (omega arith)).1),
      )
      (omega (int_laws, *ℤ_parts step (pos left), *ℤ_parts step (pos (suc left))))

step_of-*ℤ : (r : ℤ) → step_of r *ℤ pos (abs r) ≡ r
unfolding step_of ◌*ℤ◌
step_of-*ℤ (pos n) = ground arith
step_of-*ℤ (negsuc n) = ground arith

-- The remainder is added to the sum, where there are leaves enough and none of them wraps around.
pub sum-allocate_remainder :
    (out : List ℤ) (r : ℤ)
    → abs r ≤ length out
    → (0 < abs r → All (λ x. IsI64 (x +ℤ step_of r)) out)
    → sum_ℤ (allocate_remainder out r) ≡ sum_ℤ out +ℤ r
unfolding allocate_remainder
sum-allocate_remainder out r h fits = rw (sum-allocate (step_of r) (abs r) out h fits, step_of-*ℤ r)

-- A leaf is given at most one unit.
pub allocate_by_one :
    (step : ℤ) (left n : ℕ) (b : ℤ)
    → (0 < left → IsI64 (b +ℤ step))
    → All (λ x. (x ≡ b) ⊎ (x ≡ b +ℤ step)) (allocate step left (replicate n b))
unfolding allocate
allocate_by_one step zero zero b h = tt
allocate_by_one step (suc left) zero b h = tt
allocate_by_one step zero (suc n) b h =
    (inl refl, All-replicate (λ x. (x ≡ b) ⊎ (x ≡ b +ℤ step)) n b (inl refl))
allocate_by_one step (suc left) (suc n) b h = (
  inr (wrap_i64-IsI64 (b +ℤ step) (h (omega arith))),
  allocate_by_one step left n b (λ _. h (omega arith)),
)
