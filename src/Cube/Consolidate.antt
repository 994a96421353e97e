-- ===== src/Cube/Consolidate.antt =====
-- The consolidating reads of a cube, sparse over its stored cells and dense over the leaves of a
-- coordinate (`get` and `consolidate_with` of crates/epiphany-core/src/cube.rs).
pub mod Sums
pub mod Grid
pub mod Exchange
pub mod Stored
pub mod Leaves
pub mod Loop
pub mod Exact
pub mod Filled
pub mod Fed
mod Tests
use native.Mathlib.Nat.{pow-suc}
use epiphany.Base.{
  ℕ, zero, suc, ◌+◌, ◌-◌, ◌*◌, ◌/◌, ◌%◌, ◌^◌, Bool, true, false, Option, none, some, List, [], ◌∷◌,
  length, get_or, ltb, leb, ◌==◌, if◌then◌else◌,
}
use epiphany.Base.Assoc.{lookup}
use epiphany.Base.Eq.{nat_eq}
use epiphany.Base.Int.{ℤ, pos, negsuc}
use epiphany.Base.Result.{Result, ok, err, ◌>>=◌, ◌>>◌}
use epiphany.Model.{ModelError, Failure, rejected, lift, overflow}
use epiphany.Fixed.{Fixed, nought}
use epiphany.Dimension.{Dimension, ElementKind, element, leaf, string, consolidated}
use epiphany.Dimension.Leaves.{leaf_weights}
use epiphany.Store as S
use epiphany.Cube.{Cube, rank, check_coord, leaf_value}

-- An `i128` is kept as its bits, a number below 2 ^ 128; its operations wrap around.
abbrev pub wrapping_add : ℕ → ℕ → ℕ
wrapping_add a b = (a + b) % 2 ^ 128

pub wrapping_mul : ℕ → ℕ → ℕ
wrapping_mul a b = a * b % 2 ^ 128

-- i128::from
pub from_i64 : ℤ → ℕ
from_i64 (pos n) = n % 2 ^ 128
from_i64 (negsuc n) = 2 ^ 128 - 1 - n

-- i64::try_from
abbrev pub try_i64 : ℕ → Option ℤ
try_i64 bits =
    if ltb bits (2 ^ 63)
    then some (pos bits)
    else (if leb (2 ^ 128 - 2 ^ 63) bits then some (negsuc (2 ^ 128 - 1 - bits)) else none)

-- the loop of `all_numeric_leaf`
pub numeric_leaves : List Dimension → List ℕ → Result ModelError Bool
numeric_leaves (d ∷ ds) (index ∷ coord) = do
  e ← element d index
  elim e.kind [ leaf ↦ numeric_leaves ds coord | string ↦ ok false | consolidated ↦ ok false ]
numeric_leaves _ _ = ok true

-- Cube::all_numeric_leaf
abbrev pub all_numeric_leaf : Cube → List ℕ → Result ModelError Bool
all_numeric_leaf cube coord = numeric_leaves cube.dimensions coord

-- the leaves of each component with their weights
pub expand : List Dimension → List ℕ → Result Failure (List (List (ℕ × ℤ)))
expand (d ∷ ds) (index ∷ coord) = do
  weights ← leaf_weights d index
  rest ← expand ds coord
  ok (weights ∷ rest)
expand _ _ = ok []

-- cell_weight, from a weight on
pub cell_weight : List (List (ℕ × ℤ)) → List ℕ → ℕ → Option ℕ
cell_weight [] coord weight = some weight
cell_weight (weights ∷ per_dim) [] weight = none
cell_weight (weights ∷ per_dim) (index ∷ coord) weight = elim (lookup index weights) [
  | none ↦ none
  | some w ↦ cell_weight per_dim coord (wrapping_mul weight (from_i64 w))
]

-- what a cell adds to a sum, in bits
abbrev pub term : ℕ → Fixed → ℕ
term weight value = wrapping_mul weight (from_i64 value.scaled)

abbrev pub cell_term : Option ℕ → Fixed → ℕ
cell_term none value = 0
cell_term (some weight) value = term weight value

-- The sum over the stored cells. A cell that does not contribute adds nothing.
pub sparse_sum : List (List (ℕ × ℤ)) → List (List ℕ × Fixed) → ℕ → ℕ
sparse_sum per_dim [] acc = acc
sparse_sum per_dim ((coord, value) ∷ cells) acc =
    sparse_sum per_dim cells (wrapping_add acc (cell_term (cell_weight per_dim coord 1) value))

abbrev pub to_fixed : ℕ → Result Failure Fixed
to_fixed acc = elim (try_i64 acc) [
  | none ↦ err (rejected overflow)
  | some scaled ↦ ok (record { scaled = scaled })
]

-- `get` of a coordinate that is not a leaf
abbrev pub sparse : Cube → List (List (ℕ × ℤ)) → Result Failure Fixed
sparse cube per_dim = to_fixed (sparse_sum per_dim (S.entries cube.cells cube.layout (rank cube)) 0)

-- Cube::get
unfoldable pub get : Cube → List ℕ → Result Failure Fixed
get cube coord = do
  lift (check_coord cube coord)
  direct ← lift (all_numeric_leaf cube coord)
  elim direct [
    | true ↦ ok (leaf_value cube coord)
    | false ↦ do per_dim ← expand cube.dimensions coord; sparse cube per_dim
  ]

-- usize::checked_mul over the dimensions
pub leaf_space : List (List (ℕ × ℤ)) → ℕ → Option ℕ
leaf_space [] total = some total
leaf_space (weights ∷ per_dim) total =
    let next = leaf_space per_dim (total * length weights) in
    if ltb (total * length weights) (2 ^ 64) then next else none

-- the mixed-radix digits of a number: the leaf coordinate with its weight
pub combo_at : List (List (ℕ × ℤ)) → ℕ → ℕ → List ℕ × ℕ
combo_at [] rem weight = ([], weight)
combo_at (weights ∷ per_dim) rem weight =
    let found = get_or weights (rem % length weights) (0, pos 0) in
    let rest = combo_at per_dim (rem / length weights) (wrapping_mul weight (from_i64 found.1)) in
    (found.0 ∷ rest.0, rest.1)

-- map_err with the conversion of the caller's error type
abbrev pub converted : {E : Type 0} {A : Type 0} → (Failure → E) → Result Failure A → Result E A
converted from (ok a) = ok a
converted from (err e) = err (from e)

module _ {E : Type 0} (from : Failure → E) (source : List ℕ → Result E Fixed) where
  -- the loop over the leaf coordinates: so many of them, from a number on
  pub dense_loop : List (List (ℕ × ℤ)) → ℕ → ℕ → ℕ → Result E ℕ
  dense_loop per_dim zero n acc = ok acc
  dense_loop per_dim (suc count) n acc =
      let combo = combo_at per_dim n 1 in
      do
        value ← source combo.0
        dense_loop per_dim count (suc n) (wrapping_add acc (term combo.1 value))

  -- `consolidate_with` of a coordinate that is not a leaf
  abbrev pub dense : List (List (ℕ × ℤ)) → Option ℕ → Result E Fixed
  dense per_dim none = err (from (rejected overflow))
  dense per_dim (some zero) = ok nought
  dense per_dim (some (suc total)) = do
    acc ← dense_loop per_dim (suc total) 0 0
    converted from (to_fixed acc)

  -- Cube::consolidate_with
  pub consolidate_with : Cube → List ℕ → Result E Fixed
  consolidate_with cube coord = do
    converted from (lift (check_coord cube coord))
    direct ← converted from (lift (all_numeric_leaf cube coord))
    elim direct [
      | true ↦ source coord
      | false ↦ do
        per_dim ← converted from (expand cube.dimensions coord)
        dense per_dim (leaf_space per_dim 1)
    ]
