-- ===== src/Cube/Consolidate/Fed.antt =====
-- The consolidating read over the stored and the fed cells
-- (`consolidate_fed` of crates/epiphany-core/src/cube.rs).
pub mod Visits
pub mod Covered
use epiphany.Base.{
  ℕ, zero, suc, Bool, true, false, Option, none, some, List, [], ◌∷◌, if◌then◌else◌,
}
use epiphany.Base.Assoc.{lookup}
use epiphany.Base.Eq.{list_beq, nat_eq}
use epiphany.Base.Int.{ℤ}
use epiphany.Base.Result.{Result, ok, err, ◌>>=◌, ◌>>◌}
use epiphany.Model.{ModelError, Failure, rejected, panic, lift, overflow}
use epiphany.Fixed.{Fixed, nought}
use epiphany.Dimension.{Dimension}
use epiphany.Store as S
use epiphany.Cube.{Cube, rank, check_coord}
use epiphany.Cube.Consolidate.{
  converted, to_fixed, expand, leaf_space, all_numeric_leaf, wrapping_add, wrapping_mul, from_i64,
  term,
}

-- cell_weight of a coordinate from outside, which may be too short
pub fed_weight : List (List (ℕ × ℤ)) → List ℕ → ℕ → Result Failure (Option ℕ)
fed_weight [] coord weight = ok (some weight)
fed_weight (weights ∷ per_dim) [] weight = err panic
fed_weight (weights ∷ per_dim) (index ∷ coord) weight = elim (lookup index weights) [
  | none ↦ ok none
  | some w ↦ fed_weight per_dim coord (wrapping_mul weight (from_i64 w))
]

abbrev pub is_seen : List (List ℕ) → List ℕ → Bool
is_seen [] coord = false
is_seen (c ∷ seen) coord = if list_beq c coord then true else is_seen seen coord

-- the coordinates of the stored cells
abbrev pub keys : List (List ℕ × Fixed) → List (List ℕ)
keys [] = []
keys ((coord, value) ∷ cells) = coord ∷ keys cells

-- the coordinates that have been counted, and the sum
abbrev pub Visited : Type 0
Visited = List (List ℕ) × ℕ

module _ {E : Type 0} (from : Failure → E) (source : List ℕ → Result E Fixed) where
  -- the value of a coordinate that contributes, counted unless it has been
  abbrev pub count_once : List ℕ → ℕ → Visited → Result E Visited
  count_once coord weight (seen, acc) =
      if is_seen seen coord
      then ok (seen, acc)
      else do value ← source coord; ok (coord ∷ seen, wrapping_add acc (term weight value))

  abbrev pub count_some : List ℕ → Option ℕ → Visited → Result E Visited
  count_some coord none state = ok state
  count_some coord (some weight) state = count_once coord weight state

  -- the loop over a list of coordinates
  pub visit : List (List (ℕ × ℤ)) → List (List ℕ) → Visited → Result E Visited
  visit per_dim [] state = ok state
  visit per_dim (coord ∷ coords) state = do
    weight ← converted from (fed_weight per_dim coord 1)
    next ← count_some coord weight state
    visit per_dim coords next

  -- `consolidate_fed` of a coordinate that is not a leaf
  abbrev pub fed_sum : Cube → List (List (ℕ × ℤ)) → List (List ℕ) → Option ℕ → Result E Fixed
  fed_sum cube per_dim fed none = err (from (rejected overflow))
  fed_sum cube per_dim fed (some zero) = ok nought
  fed_sum cube per_dim fed (some (suc total)) = do
    cells ← visit per_dim (keys (S.entries cube.cells cube.layout (rank cube))) ([], 0)
    all ← visit per_dim fed cells
    converted from (to_fixed all.1)

  -- Cube::consolidate_fed
  pub consolidate_fed : Cube → List ℕ → List (List ℕ) → Result E Fixed
  consolidate_fed cube coord fed = do
    converted from (lift (check_coord cube coord))
    direct ← converted from (lift (all_numeric_leaf cube coord))
    elim direct [
      | true ↦ source coord
      | false ↦ do
        per_dim ← converted from (expand cube.dimensions coord)
        fed_sum cube per_dim fed (leaf_space per_dim 1)
    ]
