-- ===== src/Spread/Leaves.antt =====
-- The spread of a value over the leaves of a coordinate
-- (`spread_leaves` of crates/epiphany-core/src/spread.rs). The reader of a leaf and the exclusion are
-- arguments, as in the code; the error of the reader is the type `Q`.
pub mod Sum
pub mod Odometer
pub mod Targets
pub mod Ordered
pub mod Below
mod Tests
use epiphany.Base.{
  ℕ, zero, suc, ◌+◌, ◌*◌, ◌^◌, ◌-◌, Bool, true, false, Option, none, some, List, [], ◌∷◌, length,
  get_or, ltb, leb, ◌==◌, if◌then◌else◌, replicate,
}
use epiphany.Base.Int.{ℤ, pos, negsuc}
use epiphany.Base.Result.{Result, ok, err, ◌>>=◌, ◌>>◌, ok_or, guard}
use epiphany.Model.{ModelError, Failure, rejected, panic, rank_mismatch}
use epiphany.Fixed.{Fixed}
use epiphany.Dimension.{Dimension}
use epiphany.Dimension.Leaves.{leaf_weights}
use epiphany.Cube.{Cube, rank}
use epiphany.Spread.{distribute_equal, distribute_proportional}

pub data SpreadMethod : Type 0 where
  equal : SpreadMethod
  proportional : SpreadMethod
  repeat : SpreadMethod
  clear : SpreadMethod

-- The last constructor stands for a panic of the code.
pub data SpreadError (Q : Type 0) : Type 0 where
  weighted_consolidation : SpreadError Q
  too_many_leaves : (count cap : ℕ) → SpreadError Q
  all_excluded : SpreadError Q
  read : Q → SpreadError Q
  panicked : SpreadError Q

abbrev pub max_spread_leaves : ℕ
max_spread_leaves = 200000

abbrev pub is_one : ℤ → Bool
is_one (pos n) = n == 1
is_one (negsuc n) = false

-- the leaves of one dimension, if their weights are all 1
abbrev pub unit_leaves : List (ℕ × ℤ) → Option (List ℕ)
unit_leaves [] = some []
unit_leaves ((leaf, weight) ∷ weights) =
    if is_one weight
    then (elim (unit_leaves weights) [ none ↦ none | some leaves ↦ some (leaf ∷ leaves) ])
    else none

-- the next combination: the last digit moves first, and carries when it is at its end
pub advance : List (List ℕ) → List ℕ → List ℕ × Bool
advance (leaves ∷ per_dim) (digit ∷ combo) =
    let rest = advance per_dim combo in
    if rest.1
    then (if ltb (suc digit) (length leaves)
        then (suc digit ∷ rest.0, false)
        else (0 ∷ rest.0, true))
    else (digit ∷ rest.0, false)
advance _ _ = ([], true)

-- The coordinate of a combination, whose digits are below the numbers of leaves.
pub coord_of : List (List ℕ) → List ℕ → List ℕ
coord_of (leaves ∷ per_dim) (digit ∷ combo) = get_or leaves digit 0 ∷ coord_of per_dim combo
coord_of _ _ = []

-- so many coordinates, from a combination on
pub coords_from : ℕ → List (List ℕ) → List ℕ → List (List ℕ)
coords_from zero per_dim combo = []
coords_from (suc count) per_dim combo =
    coord_of per_dim combo ∷ coords_from count per_dim ((advance per_dim combo).0)

unfoldable pub retain : (List ℕ → Bool) → List (List ℕ) → List (List ℕ)
retain exclude [] = []
retain exclude (coord ∷ coords) =
    let rest = retain exclude coords in if exclude coord then rest else coord ∷ rest

abbrev pub zip_writes : List (List ℕ) → List ℤ → List (List ℕ × Fixed)
zip_writes (coord ∷ coords) (v ∷ values) = (coord, record { scaled = v }) ∷ zip_writes coords values
zip_writes _ _ = []

module _ {Q : Type 0} where
  -- the check of the number of leaves, with a product that saturates
  pub count_leaves : List (List ℕ) → ℕ → Result (SpreadError Q) ℕ
  count_leaves [] count = ok count
  count_leaves (leaves ∷ per_dim) count =
      let product = count * length leaves in
      let next = if ltb product (2 ^ 64) then product else 2 ^ 64 - 1 in
      do
        guard (leb next max_spread_leaves) (too_many_leaves next max_spread_leaves)
        count_leaves per_dim next

module _ {Q : Type 0} (of_model : ModelError → Q) where
  abbrev pub failed : {A : Type 0} → Result Failure A → Result (SpreadError Q) A
  failed (ok a) = ok a
  failed (err (rejected e)) = err (read (of_model e))
  failed (err panic) = err panicked

  -- the leaves of each dimension, or nothing where a dimension has none
  pub plain_leaves : List Dimension → List ℕ → Result (SpreadError Q) (Option (List (List ℕ)))
  plain_leaves (d ∷ ds) (index ∷ target) = do
    weights ← failed (leaf_weights d index)
    leaves ← ok_or (unit_leaves weights) weighted_consolidation
    elim leaves [
      | [] ↦ ok none
      | first ∷ others ↦ do
        rest ← plain_leaves ds target
        ok (elim rest [ none ↦ none | some per_dim ↦ some ((first ∷ others) ∷ per_dim) ])
    ]
  plain_leaves _ _ = ok (some [])

module _ {Q : Type 0} (read_leaf : List ℕ → Result Q Fixed) where
  abbrev pub read_weight : Result Q Fixed → Result (SpreadError Q) ℤ
  read_weight (ok v) = ok v.scaled
  read_weight (err e) = err (read e)

  -- the current values of the leaves
  pub read_weights : List (List ℕ) → Result (SpreadError Q) (List ℤ)
  read_weights [] = ok []
  read_weights (coord ∷ coords) = do
    weight ← read_weight (read_leaf coord)
    rest ← read_weights coords
    ok (weight ∷ rest)

  -- the value of each leaf
  abbrev pub values_by : SpreadMethod → ℤ → List (List ℕ) → Result (SpreadError Q) (List ℤ)
  values_by repeat total coords = ok (replicate (length coords) total)
  values_by clear total coords = ok (replicate (length coords) (pos 0))
  values_by equal total coords = ok (distribute_equal total (length coords))
  values_by proportional total coords = do
    weights ← read_weights coords
    ok (distribute_proportional total weights)

  -- the writes, to the leaves that are kept
  abbrev pub writes_to :
      SpreadMethod → Fixed → List (List ℕ) → Result (SpreadError Q) (List (List ℕ × Fixed))
  writes_to method value [] = err all_excluded
  writes_to method value (first ∷ others) = do
    values ← values_by method value.scaled (first ∷ others)
    ok (zip_writes (first ∷ others) values)

module _ {Q : Type 0} (of_model : ModelError → Q) (read_leaf : List ℕ → Result Q Fixed)
    (exclude : List ℕ → Bool) where
  abbrev pub writes_over :
      SpreadMethod → Fixed → Option (List (List ℕ)) → Result (SpreadError Q) (List (List ℕ × Fixed))
  writes_over method value none = ok []
  writes_over method value (some per_dim) = do
    count ← count_leaves per_dim 1
    writes_to read_leaf method value
        (retain exclude (coords_from count per_dim (replicate (length per_dim) 0)))

  pub spread_leaves :
      Cube → List ℕ → Fixed → SpreadMethod → Result (SpreadError Q) (List (List ℕ × Fixed))
  spread_leaves cube target value method = do
    guard (length target == rank cube) (read (of_model (rank_mismatch (rank cube) (length target))))
    leaves ← plain_leaves of_model cube.dimensions target
    writes_over method value leaves
