-- ===== src/Cube/Consolidate/Loop.antt =====
-- The dense loop runs over the leaf coordinates of a cube
-- (`get` and `consolidate_with` of crates/epiphany-core/src/cube.rs).
use mathlib.Core.Option.{some-injective}
use native.Mathlib.Nat.{mod-lt, mul-zero, mul_assoc, mul_comm, div-lt_iff_lt-mul}
use epiphany.Base.{
  ℕ, zero, suc, ◌+◌, ◌*◌, ◌/◌, ◌%◌, ◌^◌, ◌<◌, ◌≤◌, ◌≡◌, refl, ap, ◌∙◌, subst, inl, inr, some, List,
  [], ◌∷◌, length, get_or, arith, ltb, All, Bool-cases, In,
}
use epiphany.Base.Assoc.Unique.{IsUnique}
use epiphany.Base.Eq.{list_eq, nat_eq}
use epiphany.Base.Int.{ℤ, pos}
use epiphany.Base.Result.{ok, bind-eq-ok, ok-injective}
use epiphany.Model.{Failure}
use epiphany.Fixed.{Fixed}
use epiphany.Dimension.{Dimension}
use epiphany.Dimension.Leaves.{leaf_weights}
use epiphany.Layout.RoundTrip.{Fits}
use epiphany.Cube.{counts}
use epiphany.Cube.WellFormed.{AreCounted}
use epiphany.Cube.Consolidate.{
  dense_loop, leaf_space, combo_at, expand, sparse_sum, wrapping_mul, wrapping_add, from_i64, term,
}
use epiphany.Cube.Consolidate.Sums.{sum, sum_ext}
use epiphany.Cube.Consolidate.Grid.{space, AreDistinct}
use epiphany.Cube.Consolidate.Exchange.{
  value_in, dense_total-sparse_total, sparse_sum-total, dense_loop-total,
}
use epiphany.Cube.Consolidate.Leaves.{leaf_weights-IsUnique}

-- the leaves of each dimension are elements of it
abbrev pub AreElements : List Dimension → List (List (ℕ × ℤ)) → Type 0
AreElements [] [] = Unit
AreElements (d ∷ ds) (weights ∷ per_dim) =
    ((x : ℕ × ℤ) → In x weights → x.0 < length d.elements) × AreElements ds per_dim
AreElements _ _ = ⊥

pub expand-AreElements :
    (ds : List Dimension) (coord : List ℕ) (per_dim : List (List (ℕ × ℤ)))
    → length coord ≡ length ds
    → expand ds coord ≡ ok per_dim
    → AreDistinct per_dim × AreElements ds per_dim × (length per_dim ≡ length ds)
unfolding expand
expand-AreElements [] [] per_dim l h =
    subst (λ p. AreDistinct p × AreElements [] p × (length p ≡ 0)) (ok-injective [] per_dim h)
      (tt, tt, refl)
expand-AreElements [] (i ∷ coord) per_dim l h = absurd (omega (arith, l))
expand-AreElements (d ∷ ds) [] per_dim l h = absurd (omega (arith, l))
expand-AreElements (d ∷ ds) (i ∷ coord) per_dim l h =
    let first = bind-eq-ok (leaf_weights d i) _ h in
    let rest = bind-eq-ok (expand ds coord) _ first.2 in
    let ih = expand-AreElements ds coord rest.0 (omega (arith, l)) rest.1 in
    let leaves = leaf_weights-IsUnique d i first.0 first.1 in
    subst (λ p. AreDistinct p × AreElements (d ∷ ds) p × (length p ≡ length (d ∷ ds)))
      (ok-injective (first.0 ∷ rest.0) per_dim rest.2)
      ((leaves.0, ih.0), (leaves.1, ih.1), omega (arith, ih.2))

pub In-get_or : (m : List (ℕ × ℤ)) (r : ℕ) → r < length m → In (get_or m r (0, pos 0)) m
In-get_or [] r h = elim h [ ]
In-get_or (x ∷ m) zero h = inl refl
In-get_or (x ∷ m) (suc r) h = inr (In-get_or m r (omega arith))

pub factor_pos : (a b n : ℕ) → n < a * b → 0 < b
factor_pos a zero n l = absurd (omega (arith, l, mul-zero a))
factor_pos a (suc b) n l = omega arith

-- The numbers below `space` are coordinates of elements.
pub combo_at-Fits :
    (ds : List Dimension) (per_dim : List (List (ℕ × ℤ))) (n w : ℕ)
    → AreCounted ds
    → AreElements ds per_dim
    → n < space per_dim
    → Fits (counts ds) ((combo_at per_dim n w).0)
unfolding combo_at
combo_at-Fits [] [] n w c a l = tt
combo_at-Fits [] (weights ∷ per_dim) n w c a l = absurd a
combo_at-Fits (d ∷ ds) [] n w c a l = absurd a
combo_at-Fits (d ∷ ds) (weights ∷ per_dim) n w c a l =
    let len = length weights in
    let some_leaf = factor_pos (space per_dim) len n l in
    let found = get_or weights (n % len) (0, pos 0) in
    (
      omega arith,
      omega (arith, c.0, a.0 found (In-get_or weights (n % len) (mod-lt n some_leaf))),
      combo_at-Fits ds per_dim (n / len) (wrapping_mul w (from_i64 found.1)) c.1 a.1
          ((div-lt_iff_lt-mul some_leaf).1 l),
    )

pub leaf_space-space :
    (per_dim : List (List (ℕ × ℤ))) (acc total : ℕ)
    → leaf_space per_dim acc ≡ some total
    → total ≡ acc * space per_dim
unfolding leaf_space
leaf_space-space [] acc total h = omega (arith, some-injective acc total h)
leaf_space-space (weights ∷ per_dim) acc total h =
    elim (Bool-cases (ltb (acc * length weights) (2 ^ 64))) [
      | inl t ↦
          leaf_space-space per_dim (acc * length weights) total (rw t at h)
          ∙ mul_assoc acc (length weights) (space per_dim)
          ∙ ap (λ k. acc * k) (mul_comm (length weights) (space per_dim))
      | inr t ↦ absurd (let h' = rw t at h in cc)
    ]

-- the loop over the leaf coordinates, for two readers that agree below `space`
dense_loop_ext :
    (from : Failure → Failure) (per_dim : List (List (ℕ × ℤ))) (A B : List ℕ → Fixed)
    (count n acc : ℕ)
    → n + count ≤ space per_dim
    → ((k : ℕ) → k < space per_dim → A ((combo_at per_dim k 1).0) ≡ B ((combo_at per_dim k 1).0))
    → dense_loop from (λ c. ok (A c)) per_dim count n acc
      ≡ dense_loop from (λ c. ok (B c)) per_dim count n acc
unfolding dense_loop
dense_loop_ext from per_dim A B zero n acc l h = refl
dense_loop_ext from per_dim A B (suc count) n acc l h =
    let combo = combo_at per_dim n 1 in
    ap
      (λ v.
        dense_loop from (λ c. ok (A c)) per_dim count (suc n) (wrapping_add acc (term combo.1 v)))
      (h n (omega arith))
    ∙ dense_loop_ext from per_dim A B count (suc n) (wrapping_add acc (term combo.1 (B combo.0)))
        (omega arith) h

-- The loop over the leaf coordinates gives the sum over a list of cells that has the values read.
pub loop_sum :
    (per_dim : List (List (ℕ × ℤ))) (V : List ℕ → Fixed) (cells : List (List ℕ × Fixed))
    → AreDistinct per_dim
    → IsUnique cells
    → All (λ (cell : List ℕ × Fixed). length cell.0 ≡ length per_dim) cells
    → ((k : ℕ)
        → k < space per_dim
        → V ((combo_at per_dim k 1).0) ≡ value_in cells ((combo_at per_dim k 1).0))
    → dense_loop (λ (e : Failure). e) (λ c. ok (V c)) per_dim (space per_dim) 0 0
      ≡ ok (sparse_sum per_dim cells 0)
loop_sum per_dim V cells d u l h =
    let T = λ (k : ℕ). let combo = combo_at per_dim k 1 in term combo.1 (value_in cells combo.0) in
    let shift : sum (λ i. T (0 + i)) (space per_dim) ≡ sum T (space per_dim) =
      sum_ext (λ i. T (0 + i)) T (space per_dim) (λ i m. ap T {x = 0 + i} {y = i} (omega arith)) in
    dense_loop_ext (λ e. e) per_dim V (value_in cells) (space per_dim) 0 0 (omega arith) h
    ∙ dense_loop-total (λ e. e) per_dim (value_in cells) (space per_dim) 0 0 (omega arith)
    ∙ ap (λ k. ok k)
        (omega (
          arith,
          shift,
          dense_total-sparse_total per_dim cells d u l,
          sparse_sum-total per_dim cells 0 (omega arith),
        ))
