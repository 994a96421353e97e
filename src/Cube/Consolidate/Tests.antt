-- ===== src/Cube/Consolidate/Tests.antt =====
-- Consolidating reads of a small cube, and the theorems at it.
use epiphany.Base.{◌≡◌, refl, List, [], ◌∷◌, arith, ℕ, ◌⊎◌, Bool, true, false, if◌then◌else◌}
use epiphany.Base.Assoc.{lookup, insert}
use epiphany.Base.Eq.{list_beq}
use epiphany.Cube.Consolidate.Fed.{consolidate_fed}
use epiphany.Cube.Consolidate.Fed.Covered.{IsCovered, consolidate_fed-consolidate_with}
use epiphany.Base.Int.{ℤ}
use epiphany.Base.Result.{ok, err}
use epiphany.Model.{Failure, rejected, overflow}
use epiphany.Fixed.{Fixed, nought, is_zero, is_zero_i64}
use epiphany.Dimension.{element}
use epiphany.Dimension.Leaves.{leaf_weights, saturating_mul, weights_loop, finish}
use epiphany.Store.{put, entries}
use epiphany.Layout.{unpack, pack, component, layout_of}
use epiphany.Cube.{
  Cube, fresh, new, counts, set_leaf, check_coord, check_elements, check_leaf_write, check_numeric,
}
use epiphany.Cube.Sample.{dims, start, five}
use epiphany.Cube.WellFormed.{IsCube, new-IsCube}
use epiphany.Cube.Cells.{set_leaf-IsCube}
use epiphany.Cube.Consolidate.{
  consolidate_with, get, numeric_leaves, expand, sparse_sum, cell_weight, wrapping_mul, from_i64,
}
use epiphany.Cube.Consolidate.Stored.{IsFilled}
use epiphany.Cube.Consolidate.Filled.{set_leaf-IsFilled, new-IsFilled}
use epiphany.Cube.Consolidate.Exact.{consolidate_with-get, dense_get, IsUncountable}

start-IsCube : IsCube start
unfolding new
start-IsCube = new-IsCube (b'c' ∷ []) dims start (omega arith, (omega arith, tt)) refl

start-IsFilled : IsFilled (counts start.dimensions) start.cells
unfolding fresh
start-IsFilled = new-IsFilled Fixed (2 ∷ 2 ∷ [])

-- the cube after a write of 5 for the month
abbrev month : Cube
month = record start { cells = put start.cells start.layout (0 ∷ 0 ∷ []) five }

month_built : set_leaf start (0 ∷ 0 ∷ []) five ≡ ok month
unfolding set_leaf check_leaf_write check_coord check_elements check_numeric element is_zero
    is_zero_i64 fresh
month_built = refl

month-IsCube : IsCube month
month-IsCube = set_leaf-IsCube start month (0 ∷ 0 ∷ []) five start-IsCube month_built

set_leaf-IsFilled_example : IsFilled (counts month.dimensions) month.cells
set_leaf-IsFilled_example =
    set_leaf-IsFilled start month (0 ∷ 0 ∷ []) five start-IsCube start-IsFilled month_built

-- the read of the year
year : get month (0 ∷ 1 ∷ []) ≡ ok five
unfolding get check_coord check_elements numeric_leaves element expand leaf_weights weights_loop
    finish fresh sparse_sum cell_weight entries unpack wrapping_mul from_i64 put pack component
    layout_of insert lookup saturating_mul is_zero_i64
year = refl

-- the reads of the year agree
consolidate_with-get_example :
    (dense_get month (0 ∷ 1 ∷ []) ≡ get month (0 ∷ 1 ∷ []))
    ⊎ ((per_dim : List (List (ℕ × ℤ))) × (expand month.dimensions (0 ∷ 1 ∷ []) ≡ ok per_dim)
        × IsUncountable per_dim)
      × (dense_get month (0 ∷ 1 ∷ []) ≡ err (rejected overflow))
consolidate_with-get_example =
    consolidate_with-get month month-IsCube set_leaf-IsFilled_example (0 ∷ 1 ∷ [])

-- a rule that gives the month 5 and other cells nothing
rule : List ℕ → Fixed
rule coord = if list_beq (0 ∷ 0 ∷ []) coord then five else nought

outside : (b : Bool) → (if b then true else false) ≡ false → (if b then five else nought) ≡ nought
outside true h = cc
outside false h = refl

rule-IsCovered : IsCovered start rule ((0 ∷ 0 ∷ []) ∷ [])
unfolding rule fresh
rule-IsCovered = ((refl, tt), λ coord k e f. outside (list_beq (0 ∷ 0 ∷ []) coord) f)

consolidate_fed-consolidate_with_example :
    consolidate_fed (λ (e : Failure). e) (λ c. ok (rule c)) start (0 ∷ 1 ∷ []) ((0 ∷ 0 ∷ []) ∷ [])
    ≡ consolidate_with (λ (e : Failure). e) (λ c. ok (rule c)) start (0 ∷ 1 ∷ [])
consolidate_fed-consolidate_with_example =
    consolidate_fed-consolidate_with start start-IsCube start-IsFilled rule ((0 ∷ 0 ∷ []) ∷ [])
      rule-IsCovered (0 ∷ 1 ∷ [])
