-- ===== src/Spread.antt =====
-- Data spreading: crates/epiphany-core/src/spread.rs. The values are scaled `i64`s; the sums are
-- the source's `i128`s, which cannot overflow here and are plain integers.
pub mod Division
pub mod Allocate
pub mod Equal
pub mod Shares
pub mod Proportional
pub mod Leaves
mod Tests
use epiphany.Base.{
  ℕ, zero, suc, ◌+◌, ◌-◌, ◌*◌, ◌/◌, ◌%◌, ◌≡◌, Bool, true, false, Option, none, some, List, [], ◌∷◌,
  map, leb, ltb, ◌==◌, if◌then◌else◌, length, replicate, ◌^◌, ◌&&◌, ◌≤◌,
}
use epiphany.Base.Int.{ℤ, pos, negsuc, ◌+ℤ◌, ◌-ℤ◌, ◌*ℤ◌, pos_part, neg_part, abs, sum_ℤ}
use epiphany.Fixed.{i64_max, negate, in_i64}

-- `/` on signed integers truncates towards zero.
pub tdiv : ℤ → ℤ → ℤ
tdiv (pos a) (pos b) = pos (a / b)
tdiv (pos a) (negsuc b) = negate (a / suc b)
tdiv (negsuc a) (pos b) = negate (suc a / b)
tdiv (negsuc a) (negsuc b) = pos (suc a / suc b)

-- What an `i64` keeps of an integer: the value modulo 2^64, as a two's complement number.
of_word : ℕ → ℤ
of_word w = if leb w i64_max then pos w else negsuc (2 ^ 64 - 1 - w)

pub wrap_i64 : ℤ → ℤ
unfolding of_word
wrap_i64 (pos n) = of_word (n % 2 ^ 64)
wrap_i64 (negsuc n) = of_word (2 ^ 64 - 1 - n % 2 ^ 64)

-- the loop of `allocate_remainder`: one `step` for each leading leaf while units are left
pub allocate : ℤ → ℕ → List ℤ → List ℤ
allocate step left [] = []
allocate step zero (x ∷ xs) = x ∷ xs
allocate step (suc left) (x ∷ xs) = wrap_i64 (x +ℤ step) ∷ allocate step left xs

pub step_of : ℤ → ℤ
step_of (pos n) = pos 1
step_of (negsuc n) = negsuc 0

pub allocate_remainder : List ℤ → ℤ → List ℤ
unfolding allocate step_of
allocate_remainder out remainder = allocate (step_of remainder) (abs remainder) out

pub distribute_equal : ℤ → ℕ → List ℤ
unfolding tdiv allocate_remainder
distribute_equal total zero = []
distribute_equal total (suc n) =
    let base = tdiv total (pos (suc n)) in
    let remainder = total -ℤ base *ℤ pos (suc n) in
    allocate_remainder (replicate (suc n) base) remainder

-- the shares, as far as each is an `i64`
pub shares : ℤ → ℤ → List ℤ → Option (List ℤ)
unfolding tdiv
shares t sum [] = some []
shares t sum (w ∷ ws) =
    let share = tdiv (t *ℤ w) sum in
    let rest = shares t sum ws in
    if in_i64 share then (elim rest [ none ↦ none | some out ↦ some (share ∷ out) ]) else none

is_zero : ℤ → Bool
is_zero (pos zero) = true
is_zero z = false

pub distribute_proportional : ℤ → List ℤ → List ℤ
unfolding distribute_equal shares allocate_remainder is_zero
distribute_proportional total weights =
    let sum = sum_ℤ weights in
    if is_zero sum
    then distribute_equal total (length weights)
    else elim (shares total sum weights) [
      | none ↦ distribute_equal total (length weights)
      | some out ↦ allocate_remainder out (wrap_i64 (total -ℤ sum_ℤ out))
    ]
