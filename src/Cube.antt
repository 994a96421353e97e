-- ===== src/Cube.antt =====
-- The cube: dimensions and a sparse store of leaf cells, with the reads and writes of single cells
-- (crates/epiphany-core/src/cube.rs).
pub mod WellFormed
pub mod Cells
pub mod Strings
pub mod Batch
pub mod Pins
pub mod Consolidate
pub mod Sample
mod Tests
use epiphany.Base.{
  ℕ, suc, Bool, true, false, ◌||◌, Option, none, some, List, [], ◌∷◌, map, length, ◌==◌,
  if◌then◌else◌,
}
use epiphany.Base.Result.{Result, ok, err, ◌>>=◌, ◌>>◌, guard}
use epiphany.Text.{Text}
use epiphany.Model.{
  ModelError, Failure, lift, rank_mismatch, cell_type_mismatch, write_to_non_leaf,
  string_cell_requires_string_element, empty_cube,
}
use epiphany.Fixed.{Fixed, nought, is_zero}
use epiphany.Dimension.{Dimension, Element, leaf, string, consolidated, element}
use epiphany.Dimension as D
use epiphany.Layout.{Layout, layout_of}
use epiphany.Store.{CellStore}
use epiphany.Store as S
use epiphany.Pool.{StringPool, empty, intern}
use epiphany.Pool as P

pub record Cube : Type 0 where
  pub name : Text
  pub dimensions : List Dimension
  pub layout : Layout
  pub cells : CellStore Fixed
  pub string_cells : CellStore ℕ
  pub string_pool : StringPool

-- the element counts of the dimensions
abbrev pub counts : List Dimension → List ℕ
counts [] = []
counts (d ∷ ds) = D.len d ∷ counts ds

-- the cube that `new` makes
unfoldable pub fresh : Text → List Dimension → Cube
fresh name dimensions =
    let layout = layout_of (counts dimensions) in
    record {
      name = name;
      dimensions = dimensions;
      layout = layout;
      cells = S.new layout.narrow;
      string_cells = S.new layout.narrow;
      string_pool = empty;
    }

-- Cube::new
pub new : Text → List Dimension → Result ModelError Cube
unfolding fresh
new name [] = err empty_cube
new name (d ∷ ds) = ok (fresh name (d ∷ ds))

-- Cube::rank
abbrev pub rank : Cube → ℕ
rank cube = length cube.dimensions

-- The loops over the components of a coordinate stop with the shorter of the two lists; the code
-- would panic on a longer coordinate, whose length `check_coord` has refused before.
unfoldable pub check_elements : List Dimension → List ℕ → Result ModelError (Unit {0})
check_elements (d ∷ ds) (index ∷ coord) = do e ← element d index; check_elements ds coord
check_elements _ _ = ok tt

-- Cube::check_coord
unfoldable pub check_coord : Cube → List ℕ → Result ModelError (Unit {0})
unfolding check_elements
check_coord cube coord = do
  guard (length coord == rank cube) (rank_mismatch (rank cube) (length coord))
  check_elements cube.dimensions coord

-- the loop of `check_leaf_write`
unfoldable pub check_numeric : List Dimension → List ℕ → Result ModelError (Unit {0})
check_numeric (d ∷ ds) (index ∷ coord) = do
  e ← element d index
  elim e.kind [
    | leaf ↦ check_numeric ds coord
    | string ↦ err (cell_type_mismatch d.name e.name)
    | consolidated ↦ err (write_to_non_leaf d.name e.name)
  ]
check_numeric _ _ = ok tt

-- Cube::check_leaf_write
unfoldable pub check_leaf_write : Cube → List ℕ → Result ModelError (Unit {0})
unfolding check_numeric
check_leaf_write cube coord = do check_coord cube coord; check_numeric cube.dimensions coord

-- Cube::set_leaf
unfoldable pub set_leaf : Cube → List ℕ → Fixed → Result ModelError Cube
set_leaf cube coord value = do
  check_leaf_write cube coord
  ok (record cube {
    cells =
        if is_zero value
        then S.clear cube.cells cube.layout coord
        else S.put cube.cells cube.layout coord value;
  })

abbrev pub or_nought : Option Fixed → Fixed
or_nought none = nought
or_nought (some v) = v

-- Cube::leaf_value
pub leaf_value : Cube → List ℕ → Fixed
leaf_value cube coord = or_nought (S.get cube.cells cube.layout coord)

-- Cube::get_leaf
pub get_leaf : Cube → List ℕ → Result ModelError Fixed
unfolding leaf_value
get_leaf cube coord = do check_coord cube coord; ok (leaf_value cube coord)

-- the loop of `check_string_write`: whether a component is a string element, given those before
pub check_leaves : Bool → List Dimension → List ℕ → Result ModelError Bool
check_leaves addresses_string (d ∷ ds) (index ∷ coord) = do
  e ← element d index
  elim e.kind [
    | leaf ↦ check_leaves addresses_string ds coord
    | string ↦ check_leaves true ds coord
    | consolidated ↦ err (write_to_non_leaf d.name e.name)
  ]
check_leaves addresses_string _ _ = ok addresses_string

-- Cube::check_string_write
pub check_string_write : Cube → List ℕ → Result ModelError (Unit {0})
unfolding check_leaves
check_string_write cube coord = do
  check_coord cube coord
  addresses_string ← check_leaves false cube.dimensions coord
  guard addresses_string (string_cell_requires_string_element cube.name)

-- `set_string` behind its check
unfoldable pub store_string : Cube → List ℕ → Text → Cube
store_string cube coord [] = record cube {
  string_cells = S.clear cube.string_cells cube.layout coord;
}
store_string cube coord (c ∷ value) =
    let (pool, id) = intern cube.string_pool (c ∷ value) in
    record cube { string_pool = pool; string_cells = S.put cube.string_cells cube.layout coord id }

-- Cube::set_string
pub set_string : Cube → List ℕ → Text → Result ModelError Cube
unfolding store_string
set_string cube coord value = do check_string_write cube coord; ok (store_string cube coord value)

abbrev pub pool_text : StringPool → Option ℕ → Result Failure (Option Text)
pool_text pool none = ok none
pool_text pool (some id) = do t ← P.get pool id; ok (some t)

-- Cube::get_string
pub get_string : Cube → List ℕ → Result Failure (Option Text)
get_string cube coord = do
  lift (check_coord cube coord)
  pool_text cube.string_pool (S.get cube.string_cells cube.layout coord)

-- BatchWrite
pub data BatchWrite : Type 0 where
  leaf_write : (coord : List ℕ) (value : Fixed) → BatchWrite
  string_write : (coord : List ℕ) (value : Text) → BatchWrite

abbrev pub check_write : Cube → BatchWrite → Result ModelError (Unit {0})
check_write cube (leaf_write coord value) = check_leaf_write cube coord
check_write cube (string_write coord value) = check_string_write cube coord

-- map_err(|e| (index, e))
abbrev pub at_index {ℓ} : {A : Type ℓ} → ℕ → Result ModelError A → Result (ℕ × ModelError) A
at_index index (ok a) = ok a
at_index index (err e) = err (index, e)

-- the loop of `validate_batch`, from an index on
pub validate_from : ℕ → Cube → List BatchWrite → Result (ℕ × ModelError) (Unit {0})
validate_from index cube [] = ok tt
validate_from index cube (write ∷ writes) = do
  at_index index (check_write cube write)
  validate_from (suc index) cube writes

-- Cube::validate_batch
pub validate_batch : Cube → List BatchWrite → Result (ℕ × ModelError) (Unit {0})
unfolding validate_from
validate_batch cube writes = validate_from 0 cube writes
