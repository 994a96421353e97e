-- ===== src/Cube/Tests.antt =====
-- Runs of a small cube, and the theorems at it.
use epiphany.Base.{◌≡◌, refl, List, [], ◌∷◌, some, arith}
use epiphany.Base.Result.{ok, err}
use epiphany.Model.{cell_type_mismatch}
use epiphany.Fixed.{is_zero, is_zero_i64}
use epiphany.Dimension.{element}
use epiphany.Store.{put}
use epiphany.Cube.{
  Cube, fresh, new, set_leaf, get_leaf, check_coord, check_elements, check_leaf_write,
  check_numeric, set_string, get_string, store_string, check_string_write, check_leaves, BatchWrite,
  leaf_write, validate_batch, validate_from,
}
use epiphany.Cube.Sample.{dims, start, five}
use epiphany.Cube.WellFormed.{IsCube, new-IsCube}
use epiphany.Cube.Cells.{get_leaf-set_leaf}
use epiphany.Cube.Strings.{get_string-set_string}
use epiphany.Cube.Batch.{validate_batch-apply_batch, apply_batch, verdict}

start-IsCube : IsCube start
unfolding new
start-IsCube = new-IsCube (b'c' ∷ []) dims start (omega arith, (omega arith, tt)) refl

-- the cube after a write of 5
abbrev one_cell : Cube
one_cell = record start { cells = put start.cells start.layout (0 ∷ 0 ∷ []) five }

one_cell_built : set_leaf start (0 ∷ 0 ∷ []) five ≡ ok one_cell
unfolding set_leaf check_leaf_write check_coord check_elements check_numeric element is_zero
    is_zero_i64 fresh
one_cell_built = refl

get_leaf-set_leaf_example : get_leaf one_cell (0 ∷ 0 ∷ []) ≡ ok five
get_leaf-set_leaf_example =
    get_leaf-set_leaf start one_cell (0 ∷ 0 ∷ []) (0 ∷ 0 ∷ []) five start-IsCube one_cell_built

abbrev one_text : Cube
one_text = store_string start (1 ∷ 0 ∷ []) (b'o' ∷ b'k' ∷ [])

one_text_built : set_string start (1 ∷ 0 ∷ []) (b'o' ∷ b'k' ∷ []) ≡ ok one_text
unfolding set_string check_string_write check_coord check_elements check_leaves element fresh
one_text_built = refl

get_string-set_string_example : get_string one_text (1 ∷ 0 ∷ []) ≡ ok (some (b'o' ∷ b'k' ∷ []))
unfolding fresh
get_string-set_string_example =
    get_string-set_string start one_text (1 ∷ 0 ∷ []) (1 ∷ 0 ∷ []) (b'o' ∷ b'k' ∷ []) start-IsCube
      (omega arith) one_text_built

abbrev writes : List BatchWrite
writes = leaf_write (0 ∷ 0 ∷ []) five ∷ leaf_write (1 ∷ 0 ∷ []) five ∷ []

-- The second write names a string element.
refused : validate_batch start writes ≡ err (1, cell_type_mismatch (b'm' ∷ []) (b't' ∷ []))
unfolding validate_batch validate_from check_leaf_write check_coord check_elements check_numeric
    element fresh
refused = refl

validate_batch-apply_batch_example :
    validate_batch start writes ≡ verdict (apply_batch start writes)
validate_batch-apply_batch_example = validate_batch-apply_batch start writes
