-- ===== src/Cube/Consolidate/Filled.antt =====
-- Writes of leaves keep each cell under one key
-- (`set_leaf` of crates/epiphany-core/src/cube.rs).
use epiphany.Base.{ℕ, ◌≡◌, subst, List, inl, inr, sym, Bool-cases}
use epiphany.Base.Result.{ok}
use epiphany.Fixed.{Fixed, is_zero}
use epiphany.Layout.{layout_of}
use epiphany.Store as S
use epiphany.Cube.{Cube, counts, set_leaf}
use epiphany.Cube.WellFormed.{IsCube, check_coord-Fits, check_leaf_write-check_coord}
use epiphany.Cube.Cells.{set_leaf-eq-ok}
use epiphany.Cube.Consolidate.Stored.{IsFilled, put-IsFilled, clear-IsFilled}

-- A new store is empty.
pub new-IsFilled :
    (V : Type 0) (lens : List ℕ) → IsFilled lens (S.new {V = V} (layout_of lens).narrow)
new-IsFilled V lens = elim (Bool-cases (layout_of lens).narrow) [
  | inl e ↦ subst (λ b. IsFilled lens (S.new {V = V} b)) (sym e) (e, tt, tt)
  | inr e ↦ subst (λ b. IsFilled lens (S.new {V = V} b)) (sym e) (tt, tt)
]

-- A successful write of a leaf to a well-formed cube whose store has each cell under one key, that of
-- a coordinate in range, leaves a store of which the same holds.
pub set_leaf-IsFilled :
    (cube cube' : Cube) (coord : List ℕ) (value : Fixed)
    → IsCube cube
    → IsFilled (counts cube.dimensions) cube.cells
    → set_leaf cube coord value ≡ ok cube'
    → IsFilled (counts cube'.dimensions) cube'.cells
set_leaf-IsFilled cube cube' coord value w f e =
    let (k, same) = set_leaf-eq-ok cube cube' coord value e in
    let inside = check_coord-Fits cube coord w (check_leaf_write-check_coord cube coord k) in
    let lens = counts cube.dimensions in
    subst (λ c. IsFilled (counts c.dimensions) c.cells) same
      (elim (Bool-cases (is_zero value)) [
        | inl z ↦ rw (z, w.laid_out) (clear-IsFilled lens cube.cells coord f)
        | inr z ↦ rw (z, w.laid_out) (put-IsFilled lens cube.cells coord value inside f)
      ])
