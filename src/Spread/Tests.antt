-- ===== src/Spread/Tests.antt =====
-- Runs of the spread, and its one case that is not exact.
use mathlib.Core.Option.{some-injective}
use epiphany.Base.{List, some, All, arith, subst, ◌≡◌, refl, [], ◌∷◌, ◌-◌, ◌^◌}
use epiphany.Base.Int.{ℤ, sum_ℤ, pos, negsuc, ◌+ℤ◌, ◌-ℤ◌, ◌*ℤ◌}
use epiphany.Fixed.{i64_max}
use epiphany.Spread.Proportional.{IsInner, sum-distribute_proportional}
use epiphany.Spread.{shares, distribute_equal, distribute_proportional, wrap_i64}

equal_rounds : distribute_equal (pos 100) 3 ≡ pos 34 ∷ pos 33 ∷ pos 33 ∷ []
unfolding distribute_equal wrap_i64 ◌+ℤ◌ ◌-ℤ◌ ◌*ℤ◌
equal_rounds = refl

equal_negative : distribute_equal (negsuc 99) 3 ≡ negsuc 33 ∷ negsuc 32 ∷ negsuc 32 ∷ []
unfolding distribute_equal wrap_i64 ◌+ℤ◌ ◌-ℤ◌ ◌*ℤ◌
equal_negative = refl

proportional_rounds :
    distribute_proportional (pos 100) (pos 1 ∷ pos 1 ∷ pos 4 ∷ []) ≡ pos 17 ∷ pos 17 ∷ pos 66 ∷ []
unfolding distribute_proportional wrap_i64 ◌+ℤ◌ ◌-ℤ◌ ◌*ℤ◌
proportional_rounds = refl

-- The shares of the largest total over weights that cancel leave one unit over, and the first
-- share, which is the largest `i64` already, wraps around.
proportional_wraps :
    distribute_proportional (pos i64_max) (pos 2 ∷ pos 1 ∷ pos 1 ∷ negsuc 1 ∷ [])
    ≡ negsuc i64_max ∷ pos (2 ^ 62 - 1) ∷ pos (2 ^ 62 - 1) ∷ negsuc (i64_max - 1) ∷ []
unfolding distribute_proportional wrap_i64 ◌+ℤ◌ ◌-ℤ◌ ◌*ℤ◌
proportional_wraps = refl

abbrev mixed : List ℤ
mixed = pos 5 ∷ negsuc 0 ∷ pos 3 ∷ []

mixed-shares : (out : List ℤ) → shares (pos 100) (sum_ℤ mixed) mixed ≡ some out → All IsInner out
unfolding shares ◌+ℤ◌ ◌*ℤ◌
mixed-shares out h = subst (All IsInner) (some-injective _ _ h) (omega arith)

sum-distribute_proportional_example : sum_ℤ (distribute_proportional (pos 100) mixed) ≡ pos 100
sum-distribute_proportional_example =
    sum-distribute_proportional (pos 100) mixed (omega arith) (omega arith) (omega arith)
      mixed-shares
