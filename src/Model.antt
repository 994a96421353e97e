-- ===== src/Model.antt =====
-- The errors of the model: `ModelError` of crates/epiphany-core/src/error.rs.
use epiphany.Base.{ℕ}
use epiphany.Base.Result.{Result, ok, err}
use epiphany.Text.{Text}

pub data ModelError : Type 0 where
  element_not_found : (dimension element : Text) → ModelError
  element_index_out_of_range : (dimension : Text) (index len : ℕ) → ModelError
  rank_mismatch : (expected got : ℕ) → ModelError
  write_to_non_leaf : (dimension element : Text) → ModelError
  cycle_detected : (dimension parent child : Text) → ModelError
  parent_not_consolidated : (dimension element : Text) → ModelError
  overflow : ModelError
  cellset_too_large : (cells cap : ℕ) → ModelError
  empty_cube : ModelError
  invalid_number : (text : Text) → ModelError
  attribute_not_found : (dimension attribute : Text) → ModelError
  attribute_type_mismatch : (dimension attribute : Text) → ModelError
  attribute_kind_conflict : (dimension attribute : Text) → ModelError
  alias_conflict : (dimension alias : Text) → ModelError
  cell_type_mismatch : (dimension element : Text) → ModelError
  string_cell_requires_string_element : (cube : Text) → ModelError
  unknown_dimension : (cube dimension : Text) → ModelError
  duplicate_dimension : (dimension : Text) → ModelError
  element_kind_conflict : (dimension element : Text) → ModelError
  edge_weight_conflict : (dimension parent child : Text) → ModelError
  invalid_reorder : (dimension : Text) → ModelError
  self_parent : (dimension element : Text) → ModelError
  consolidation_has_children : (dimension element : Text) → ModelError
  duplicate_element : (dimension element : Text) → ModelError

-- How an operation of the model ends without a result: by an error, or by a panic (an index out
-- of range).
pub data Failure : Type 0 where
  rejected : ModelError → Failure
  panic : Failure

-- a call that cannot panic, among calls that can
abbrev pub lift {ℓ} : {A : Type ℓ} → Result ModelError A → Result Failure A
lift (ok a) = ok a
lift (err e) = err (rejected e)
