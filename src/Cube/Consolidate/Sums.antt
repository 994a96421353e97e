-- ===== src/Cube/Consolidate/Sums.antt =====
-- Sums over the numbers below a bound.
use native.Mathlib.Nat.{zero-mul, suc-mul}
use epiphany.Base.{ℕ, zero, suc, ◌+◌, ◌*◌, ◌<◌, ◌≡◌, refl, ap, arith}

abbrev pub sum : (ℕ → ℕ) → ℕ → ℕ
sum f zero = 0
sum f (suc n) = f 0 + sum (λ i. f (suc i)) n

pub sum_ext : (f g : ℕ → ℕ) (n : ℕ) → ((i : ℕ) → i < n → f i ≡ g i) → sum f n ≡ sum g n
sum_ext f g zero h = refl
sum_ext f g (suc n) h = omega (
  arith,
  h 0 (omega arith),
  sum_ext (λ i. f (suc i)) (λ i. g (suc i)) n (λ i l. h (suc i) (omega arith)),
)

pub sum_zero : (f : ℕ → ℕ) (n : ℕ) → ((i : ℕ) → f i ≡ 0) → sum f n ≡ 0
sum_zero f zero h = refl
sum_zero f (suc n) h = omega (arith, h 0, sum_zero (λ i. f (suc i)) n (λ i. h (suc i)))

pub sum_add : (f g : ℕ → ℕ) (n : ℕ) → sum (λ i. f i + g i) n ≡ sum f n + sum g n
sum_add f g zero = omega arith
sum_add f g (suc n) = omega (arith, sum_add (λ i. f (suc i)) (λ i. g (suc i)) n)

pub sum_split : (f : ℕ → ℕ) (m n : ℕ) → sum f (m + n) ≡ sum f m + sum (λ i. f (m + i)) n
sum_split f zero n =
    let start : sum f (0 + n) ≡ sum f n = ap (λ k. sum f k) {y = n} (omega arith) in
    omega (arith, start, sum_ext f (λ i. f (0 + i)) n (λ i l. ap f (omega arith)))
sum_split f (suc m) n =
    let start : sum f (suc m + n) ≡ sum f (suc (m + n)) =
      ap (λ k. sum f k) {y = suc (m + n)} (omega arith) in
    omega (
      arith,
      start,
      sum_split (λ i. f (suc i)) m n,
      sum_ext (λ i. f (suc (m + i))) (λ i. f (suc m + i)) n (λ i l. ap f (omega arith)),
    )

suc_blocks : (q len : ℕ) → suc q * len ≡ len + q * len
suc_blocks q len = omega (arith, suc-mul q len)

zero_block : (len r : ℕ) → r ≡ 0 * len + r
zero_block len r = omega (arith, zero-mul len)

next_block : (j len r : ℕ) → len + (j * len + r) ≡ suc j * len + r
next_block j len r = omega (arith, suc-mul j len)

-- in blocks of a length
pub sum_blocks :
    (f : ℕ → ℕ) (len q : ℕ) → sum f (q * len) ≡ sum (λ j. sum (λ r. f (j * len + r)) len) q
sum_blocks f len zero = ap (λ k. sum f k) (zero-mul len)
sum_blocks f len (suc q) =
    let start : sum f (suc q * len) ≡ sum f (len + q * len) =
      ap (λ k. sum f k) (suc_blocks q len) in
    omega (
      arith,
      start,
      sum_split f len (q * len),
      sum_ext f (λ r. f (0 * len + r)) len (λ r l. ap f (zero_block len r)),
      sum_blocks (λ i. f (len + i)) len q,
      sum_ext (λ j. sum (λ r. f (len + (j * len + r))) len)
          (λ j. sum (λ r. f (suc j * len + r)) len) q
          (λ j l.
            sum_ext (λ r. f (len + (j * len + r))) (λ r. f (suc j * len + r)) len
              (λ r k. ap f (next_block j len r))),
    )
