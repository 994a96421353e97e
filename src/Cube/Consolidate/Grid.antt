-- ===== src/Cube/Consolidate/Grid.antt =====
-- The mixed-radix walk over the leaf coordinates meets each of them once
-- (`consolidate_with` of crates/epiphany-core/src/cube.rs).
use native.Mathlib.Nat.{mul-add-mod_self_right, mul-add-div_right, mod-eq_of_lt, div-eq_of_lt}
use epiphany.Base.{
  ℕ, ◌+◌, ◌*◌, ◌/◌, ◌%◌, ◌<◌, ◌≡◌, refl, ap, sym, ◌∙◌, Bool, true, false, Option, none, some, List,
  [], ◌∷◌, length, get_or, arith, if◌then◌else◌, ◌==◌, ==_iff,
}
use epiphany.Base.Assoc.{lookup}
use epiphany.Base.Assoc.Unique.{IsUnique}
use epiphany.Base.Eq.{nat_eq, list_beq}
use epiphany.Base.Int.{ℤ, pos}
use epiphany.Fixed.{Fixed}
use epiphany.Cube.Consolidate.{combo_at, cell_weight, cell_term, term, wrapping_mul, from_i64}
use epiphany.Cube.Consolidate.Sums.{sum, sum_ext, sum_zero, sum_blocks}

-- how many leaf coordinates there are
abbrev pub space : List (List (ℕ × ℤ)) → ℕ
space [] = 1
space (weights ∷ per_dim) = space per_dim * length weights

-- the leaves of each dimension are distinct
abbrev pub AreDistinct : List (List (ℕ × ℤ)) → Type 0
AreDistinct [] = Unit
AreDistinct (weights ∷ per_dim) = IsUnique weights × AreDistinct per_dim

-- the term of one number, at one coordinate
abbrev pub pick : List ℕ → Fixed → List ℕ × ℕ → ℕ
pick coord value combo = if list_beq combo.0 coord then term combo.1 value else 0

-- the term of one leaf of the first dimension
abbrev select : ℕ → (ℤ → ℕ) → ℕ × ℤ → ℕ
select index H x = if x.0 == index then H x.1 else 0

abbrev selected : (ℤ → ℕ) → Option ℤ → ℕ
selected H none = 0
selected H (some w) = H w

select_first :
    (b : Bool) (w : ℤ) (H : ℤ → ℕ) (tail : ℕ) (o : Option ℤ)
    → (b ≡ true → o ≡ none)
    → tail ≡ selected H o
    → (if b then H w else 0) + tail ≡ selected H (if b then some w else o)
select_first true w H tail o n e = omega (arith, e, ap (selected H) (n refl))
select_first false w H tail o n e = omega (arith, e)

sum-select :
    (weights : List (ℕ × ℤ)) (index : ℕ) (H : ℤ → ℕ)
    → IsUnique weights
    → sum (λ r. select index H (get_or weights r (0, pos 0))) (length weights)
      ≡ selected H (lookup index weights)
unfolding lookup
sum-select [] index H h = refl
sum-select ((leaf, w) ∷ weights) index H h =
    select_first (leaf == index) w H
      (sum (λ r. select index H (get_or weights r (0, pos 0))) (length weights))
      (lookup index weights) (λ e. ap (λ k. lookup k weights) (sym ((==_iff leaf index).0 e)) ∙ h.0)
      (sum-select weights index H h.1)

mod_block : (len q r : ℕ) → r < len → (q * len + r) % len ≡ r
mod_block len q r h = mul-add-mod_self_right q len r ∙ mod-eq_of_lt h

div_block : (len q r : ℕ) → r < len → (q * len + r) / len ≡ q
div_block len q r h =
    mul-add-div_right (omega arith) q r ∙ ap (λ k. q + k) (div-eq_of_lt h) ∙ omega arith

-- the digits of a number in the block `q`
combo_block :
    (weights : List (ℕ × ℤ)) (per_dim : List (List (ℕ × ℤ))) (q r w : ℕ)
    → r < length weights
    → let found = get_or weights r (0, pos 0) in
      let rest = combo_at per_dim q (wrapping_mul w (from_i64 found.1)) in
      combo_at (weights ∷ per_dim) (q * length weights + r) w ≡ (found.0 ∷ rest.0, rest.1)
unfolding combo_at
combo_block weights per_dim q r w h =
    let place = mod_block (length weights) q r h in
    let block = div_block (length weights) q r h in
    λ i.
      let found = get_or weights (place i) (0, pos 0) in
      let rest = combo_at per_dim (block i) (wrapping_mul w (from_i64 found.1)) in
      (found.0 ∷ rest.0, rest.1)

pick_cons :
    (index : ℕ) (coord : List ℕ) (value : Fixed) (leaf : ℕ) (rest : List ℕ × ℕ)
    → pick (index ∷ coord) value (leaf ∷ rest.0, rest.1)
      ≡ (if leaf == index then pick coord value rest else 0)
pick_cons index coord value leaf rest = ground arith

block_term :
    (weights : List (ℕ × ℤ)) (per_dim : List (List (ℕ × ℤ))) (index : ℕ) (coord : List ℕ)
    (value : Fixed) (j r w : ℕ)
    → r < length weights
    → pick (index ∷ coord) value (combo_at (weights ∷ per_dim) (j * length weights + r) w)
      ≡ select index
          (λ x. pick coord value (combo_at per_dim j (wrapping_mul w (from_i64 x))))
          (get_or weights r (0, pos 0))
block_term weights per_dim index coord value j r w m =
    let found = get_or weights r (0, pos 0) in
    let rest = combo_at per_dim j (wrapping_mul w (from_i64 found.1)) in
    ap (pick (index ∷ coord) value) (combo_block weights per_dim j r w m)
    ∙ pick_cons index coord value found.0 rest

by_lookup :
    (per_dim : List (List (ℕ × ℤ))) (coord : List ℕ) (value : Fixed) (w : ℕ) (o : Option ℤ)
    → ((x : ℤ)
        → sum
            (λ j. pick coord value (combo_at per_dim j (wrapping_mul w (from_i64 x))))
            (space per_dim)
          ≡ cell_term (cell_weight per_dim coord (wrapping_mul w (from_i64 x))) value)
    → sum
        (λ j. selected (λ x. pick coord value (combo_at per_dim j (wrapping_mul w (from_i64 x)))) o)
        (space per_dim)
      ≡ cell_term
          (elim o [
            | none ↦ none
            | some x ↦ cell_weight per_dim coord (wrapping_mul w (from_i64 x))
          ])
          value
by_lookup per_dim coord value w none ih = sum_zero (λ j. 0) (space per_dim) (λ j. refl)
by_lookup per_dim coord value w (some x) ih = ih x

-- The numbers below `space` meet a coordinate once, with the weight that `cell_weight` finds, if
-- each component is a leaf of its dimension; otherwise never.
pub sum-pick :
    (per_dim : List (List (ℕ × ℤ))) (coord : List ℕ) (value : Fixed) (w : ℕ)
    → AreDistinct per_dim
    → length coord ≡ length per_dim
    → sum (λ n. pick coord value (combo_at per_dim n w)) (space per_dim)
      ≡ cell_term (cell_weight per_dim coord w) value
unfolding combo_at cell_weight
sum-pick [] [] value w h l = omega arith
sum-pick [] (i ∷ coord) value w h l = absurd (omega (arith, l))
sum-pick (weights ∷ per_dim) [] value w h l = absurd (omega (arith, l))
sum-pick (weights ∷ per_dim) (index ∷ coord) value w h l =
    let len = length weights in
    let F = λ (n : ℕ). pick (index ∷ coord) value (combo_at (weights ∷ per_dim) n w) in
    let H =
      λ (j : ℕ) (x : ℤ). pick coord value (combo_at per_dim j (wrapping_mul w (from_i64 x))) in
    sum_blocks F len (space per_dim)
    ∙ sum_ext (λ j. sum (λ r. F (j * len + r)) len) (λ j. selected (H j) (lookup index weights))
        (space per_dim)
        (λ j k.
          sum_ext (λ r. F (j * len + r)) (λ r. select index (H j) (get_or weights r (0, pos 0))) len
            (λ r m. block_term weights per_dim index coord value j r w m)
          ∙ sum-select weights index (H j) h.0)
    ∙ by_lookup per_dim coord value w (lookup index weights)
        (λ x. sum-pick per_dim coord value (wrapping_mul w (from_i64 x)) h.1 (omega (arith, l)))
