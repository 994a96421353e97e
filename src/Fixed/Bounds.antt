-- ===== src/Fixed/Bounds.antt =====
-- The range of what `from_str` and `from_int` return.
use epiphany.Base.{◌≡◌, ◌≤◌, Bool, [], ◌∷◌, arith}
use epiphany.Base.Int.{ℤ, pos, pos_part, neg_part, ◌*ℤ◌}
use epiphany.Base.Result.{ok, err}
use epiphany.Text.{Text, trim}
use epiphany.Model.{overflow}
use epiphany.Fixed.{
  Fixed, scale, i64_max, IsI64, from_parts, from_body, from_str, from_int, split_sign, split_point,
}

abbrev IsMagnitude : ℤ → Type 0
IsMagnitude z = (pos_part z ≤ i64_max) × (neg_part z ≤ i64_max)

from_parts-IsMagnitude :
    (s : Text) (negative : Bool) (int_part frac_part : Text) (x : Fixed)
    → from_parts s negative int_part frac_part ≡ ok x
    → IsMagnitude x.scaled
unfolding from_parts
from_parts-IsMagnitude s negative int_part frac_part x h = ground arith

from_body-IsMagnitude :
    (s : Text) (negative : Bool) (body : Text) (x : Fixed)
    → from_body s negative body ≡ ok x
    → IsMagnitude x.scaled
unfolding from_body
from_body-IsMagnitude s negative [] x h = cc
from_body-IsMagnitude s negative (c ∷ body) x h =
    let p = split_point (c ∷ body) in from_parts-IsMagnitude s negative p.0 p.1 x h

-- A number that is read has a magnitude of at most 2^63 - 1: the least `i64` is never read.
pub from_str_bounds :
    (s : Text) {x : Fixed}
    → from_str s ≡ ok x
    → (pos_part x.scaled ≤ i64_max) × (neg_part x.scaled ≤ i64_max)
unfolding from_str
from_str_bounds s {x} h = let p = split_sign (trim s) in from_body-IsMagnitude s p.0 p.1 x h

-- A whole number is scaled exactly when its product with the scale is an `i64`.
pub from_int_exact :
    (n : ℤ)
    → (IsI64 (n *ℤ pos scale) → from_int n ≡ ok (record { scaled = n *ℤ pos scale }))
      × (¬ IsI64 (n *ℤ pos scale) → from_int n ≡ err overflow)
unfolding from_int
from_int_exact n = (λ h. ground arith, λ h. ground arith)
