-- ===== src/Cube/WellFormed.antt =====
-- A well-formed cube, and what its checks establish of a coordinate.
use epiphany.Base.{
  ℕ, ◌<◌, ◌^◌, ◌≡◌, refl, subst, some, List, [], ◌∷◌, length, get_elem?, ◌==◌, ==_iff, arith,
}
use epiphany.Base.Result.{ok, bind-eq-ok, guard-eq-ok}
use epiphany.Text.{Text}
use epiphany.Model.{rank_mismatch}
use epiphany.Fixed.{Fixed}
use epiphany.Dimension.{Dimension, element}
use epiphany.Dimension.Hierarchy.WellFormed.{element-eq-ok}
use epiphany.Layout.{layout_of}
use epiphany.Layout.RoundTrip.{Fits}
use epiphany.Store.{CellStore}
use epiphany.Store as S
use epiphany.Store.Refines.{IsFor, new-IsFor, get-new}
use epiphany.Pool.Intern.{IsPool, empty-IsPool}
use epiphany.Cube.{
  Cube, counts, rank, check_elements, check_coord, check_leaf_write, check_string_write, new, fresh,
}

-- Element counts are `u32`s in the code.
abbrev pub AreCounted : List Dimension → Type 0
AreCounted [] = Unit
AreCounted (d ∷ ds) = (length d.elements < 2 ^ 32) × AreCounted ds

-- The layout is that of the dimensions, both stores are keyed by it, the pool is well formed, and
-- each id that is stored has a text.
pub record IsCube (cube : Cube) : Type 0 where
  pub counted : AreCounted cube.dimensions
  pub laid_out : cube.layout ≡ layout_of (counts cube.dimensions)
  pub cells_keyed : IsFor (counts cube.dimensions) cube.cells
  pub strings_keyed : IsFor (counts cube.dimensions) cube.string_cells
  pub pooled : IsPool cube.string_pool
  pub texts :
      (coord : List ℕ) (id : ℕ)
      → Fits (counts cube.dimensions) coord
      → S.get cube.string_cells cube.layout coord ≡ some id
      → (t : Text) × (get_elem? cube.string_pool.by_id id ≡ some t)

-- A coordinate that the loop of `check_coord` accepts, of the right length, fits the layout.
check_elements-Fits :
    (ds : List Dimension) (coord : List ℕ)
    → AreCounted ds
    → length coord ≡ length ds
    → check_elements ds coord ≡ ok tt
    → Fits (counts ds) coord
unfolding check_elements
check_elements-Fits [] [] small same e = tt
check_elements-Fits [] (i ∷ coord) small same e = absurd (omega (arith, same))
check_elements-Fits (d ∷ ds) [] small same e = absurd (omega (arith, same))
check_elements-Fits (d ∷ ds) (i ∷ coord) small same e =
    let (x, found, rest) = bind-eq-ok (element d i) _ e in
    let inside = (element-eq-ok d i x found).1 in
    (
      omega arith,
      omega (arith, inside, small.0),
      check_elements-Fits ds coord small.1 (omega (arith, same)) rest,
    )

pub check_coord-Fits :
    (cube : Cube) (coord : List ℕ)
    → IsCube cube
    → check_coord cube coord ≡ ok tt
    → Fits (counts cube.dimensions) coord
unfolding check_coord
check_coord-Fits cube coord h e =
    let (same, rest) =
      guard-eq-ok (length coord == rank cube) (rank_mismatch (rank cube) (length coord)) _ e in
    check_elements-Fits cube.dimensions coord h.counted ((==_iff (length coord) (rank cube)).0 same)
      rest

-- The write checks start with the check of the coordinate.
pub check_leaf_write-check_coord :
    (cube : Cube) (coord : List ℕ)
    → check_leaf_write cube coord ≡ ok tt
    → check_coord cube coord ≡ ok tt
unfolding check_leaf_write
check_leaf_write-check_coord cube coord e =
    let (u, k, rest) = bind-eq-ok (check_coord cube coord) _ e in k

pub check_string_write-check_coord :
    (cube : Cube) (coord : List ℕ)
    → check_string_write cube coord ≡ ok tt
    → check_coord cube coord ≡ ok tt
unfolding check_string_write
check_string_write-check_coord cube coord e =
    let (u, k, rest) = bind-eq-ok (check_coord cube coord) _ e in k

fresh-IsCube : (name : Text) (ds : List Dimension) → AreCounted ds → IsCube (fresh name ds)
unfolding fresh
fresh-IsCube name ds small = record {
  counted = small;
  laid_out = refl;
  cells_keyed = new-IsFor Fixed (counts ds);
  strings_keyed = new-IsFor ℕ (counts ds);
  pooled = empty-IsPool;
  texts = λ coord id fits q.
      absurd (cc (get-new ℕ (layout_of (counts ds)).narrow (layout_of (counts ds)) coord, q));
}

-- A new cube is well formed.
pub new-IsCube :
    (name : Text) (ds : List Dimension) (cube : Cube)
    → AreCounted ds
    → new name ds ≡ ok cube
    → IsCube cube
unfolding new
new-IsCube name [] cube small e = cc
new-IsCube name (d ∷ ds) cube small e =
    let same : fresh name (d ∷ ds) ≡ cube = cc in
    subst IsCube same (fresh-IsCube name (d ∷ ds) small)
