-- ===== src/Cube/Consolidate/Exchange.antt =====
-- The sum over all leaf coordinates is the sum over the stored cells
-- (`get` and `consolidate_with` of crates/epiphany-core/src/cube.rs).
use epiphany.Base.{
  ℕ, zero, suc, ◌+◌, ◌%◌, ◌^◌, ◌<◌, ◌≡◌, ◌≢◌, refl, ap, sym, ◌∙◌, Bool, true, false, Option, none,
  some, List, [], ◌∷◌, length, arith, if◌then◌else◌, inl, inr, Bool-cases, All,
}
use epiphany.Base.Assoc.{lookup}
use epiphany.Base.Assoc.Unique.{IsUnique}
use epiphany.Base.Eq.{list_eq, list_beq, list_beq_iff}
use epiphany.Base.Int.{ℤ}
use epiphany.Base.Result.{ok}
use epiphany.Model.{Failure}
use epiphany.Fixed.{Fixed, nought}
use epiphany.Cube.{or_nought}
use epiphany.Cube.Consolidate.{
  combo_at, cell_weight, cell_term, term, wrapping_mul, wrapping_add, from_i64, sparse_sum,
  dense_loop,
}
use epiphany.Cube.Consolidate.Sums.{sum, sum_ext, sum_zero, sum_add}
use epiphany.Cube.Consolidate.Grid.{space, AreDistinct, pick, sum-pick}

-- the value of a coordinate in a list of cells
abbrev pub value_in : List (List ℕ × Fixed) → List ℕ → Fixed
value_in cells coord = or_nought (lookup coord cells)

abbrev pub dense_total : List (List (ℕ × ℤ)) → List (List ℕ × Fixed) → ℕ
dense_total per_dim cells =
    sum (λ n. let combo = combo_at per_dim n 1 in term combo.1 (value_in cells combo.0))
      (space per_dim)

abbrev pub sparse_total : List (List (ℕ × ℤ)) → List (List ℕ × Fixed) → ℕ
sparse_total per_dim [] = 0
sparse_total per_dim ((coord, value) ∷ cells) =
    cell_term (cell_weight per_dim coord 1) value + sparse_total per_dim cells

term-nought : (w : ℕ) → term w nought ≡ 0
unfolding wrapping_mul from_i64
term-nought w = omega arith

true-ne-false : true ≢ false
true-ne-false e = cc

list_beq_sym : (a b : List ℕ) → list_beq a b ≡ list_beq b a
list_beq_sym a b = elim (Bool-cases (list_beq a b)) [
  | inl e ↦ e ∙ sym ((list_beq_iff b a).1 (sym ((list_beq_iff a b).0 e)))
  | inr e ↦ elim (Bool-cases (list_beq b a)) [
    | inl f ↦ absurd (true-ne-false (sym ((list_beq_iff a b).1 (sym ((list_beq_iff b a).0 f))) ∙ e))
    | inr f ↦ e ∙ sym f
  ]
]

new_term :
    (b : Bool) (w : ℕ) (value : Fixed) (o : Option Fixed)
    → (b ≡ true → o ≡ none)
    → term w (or_nought (if b then some value else o))
      ≡ term w (or_nought o) + (if b then term w value else 0)
new_term true w value o h =
    omega (arith, term-nought w, ap (λ (p : Option Fixed). term w (or_nought p)) (h refl))
new_term false w value o h = omega arith

-- one cell more, at one coordinate
term_cons :
    (coord : List ℕ) (value : Fixed) (cells : List (List ℕ × Fixed)) (combo : List ℕ × ℕ)
    → lookup coord cells ≡ none
    → term combo.1 (value_in ((coord, value) ∷ cells) combo.0)
      ≡ term combo.1 (value_in cells combo.0) + pick coord value combo
unfolding lookup
term_cons coord value cells combo h =
    new_term (list_beq coord combo.0) combo.1 value (lookup combo.0 cells)
      (λ e. ap (λ (c : List ℕ). lookup c cells) (sym ((list_beq_iff coord combo.0).0 e)) ∙ h)
    ∙ ap
        (λ (b : Bool).
          term combo.1 (value_in cells combo.0) + (if b then term combo.1 value else 0))
        (list_beq_sym coord combo.0)

pub dense_total-sparse_total :
    (per_dim : List (List (ℕ × ℤ))) (cells : List (List ℕ × Fixed))
    → AreDistinct per_dim
    → IsUnique cells
    → All (λ (cell : List ℕ × Fixed). length cell.0 ≡ length per_dim) cells
    → dense_total per_dim cells ≡ sparse_total per_dim cells
unfolding lookup
dense_total-sparse_total per_dim [] d u a =
    sum_zero (λ n. term ((combo_at per_dim n 1).1) nought) (space per_dim)
      (λ n. term-nought ((combo_at per_dim n 1).1))
dense_total-sparse_total per_dim ((coord, value) ∷ cells) d u a =
    let old =
      λ (n : ℕ). let combo = combo_at per_dim n 1 in term combo.1 (value_in cells combo.0) in
    let new = λ (n : ℕ). pick coord value (combo_at per_dim n 1) in
    let both = λ (n : ℕ).
      let combo = combo_at per_dim n 1 in
      term combo.1 (value_in ((coord, value) ∷ cells) combo.0) in
    omega (
      arith,
      sum_ext both (λ n. old n + new n) (space per_dim)
          (λ n l. term_cons coord value cells (combo_at per_dim n 1) u.0),
      sum_add old new (space per_dim),
      sum-pick per_dim coord value 1 d a.0,
      dense_total-sparse_total per_dim cells d u.1 a.1,
    )

-- The two loops, with their sums cut to 128 bits at each step.
pub sparse_sum-total :
    (per_dim : List (List (ℕ × ℤ))) (cells : List (List ℕ × Fixed)) (acc : ℕ)
    → acc < 2 ^ 128
    → sparse_sum per_dim cells acc ≡ (acc + sparse_total per_dim cells) % 2 ^ 128
unfolding sparse_sum
sparse_sum-total per_dim [] acc h = omega arith
sparse_sum-total per_dim ((coord, value) ∷ cells) acc h =
    let t = cell_term (cell_weight per_dim coord 1) value in
    omega (arith, sparse_sum-total per_dim cells (wrapping_add acc t) (omega arith))

pub dense_loop-total :
    (from : Failure → Failure) (per_dim : List (List (ℕ × ℤ))) (V : List ℕ → Fixed)
    (count n acc : ℕ)
    → acc < 2 ^ 128
    → dense_loop from (λ c. ok (V c)) per_dim count n acc
      ≡ ok (
          (acc
            + sum (λ i. let combo = combo_at per_dim (n + i) 1 in term combo.1 (V combo.0)) count)
          % 2 ^ 128)
unfolding dense_loop
dense_loop-total from per_dim V zero n acc h = ap (λ k. ok k) (omega arith)
dense_loop-total from per_dim V (suc count) n acc h =
    let T = λ (k : ℕ). let combo = combo_at per_dim k 1 in term combo.1 (V combo.0) in
    let first : T (n + 0) ≡ T n = ap T (omega arith) in
    let rest : sum (λ i. T (n + suc i)) count ≡ sum (λ i. T (suc n + i)) count =
      sum_ext (λ i. T (n + suc i)) (λ i. T (suc n + i)) count (λ i l. ap T (omega arith)) in
    dense_loop-total from per_dim V count (suc n) (wrapping_add acc (T n)) (omega arith)
    ∙ ap (λ k. ok k) (omega (arith, first, rest))
