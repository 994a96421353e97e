-- ===== src/Cube/Cells.antt =====
-- Numeric cells: what `get_leaf` reads after `set_leaf`.
use epiphany.Base.{
  ℕ, ◌≡◌, refl, ap, subst, ◌∙◌, Bool, true, false, Option, none, some, List, Bool-cases, inl, inr,
  if◌then◌else◌, arith,
}
use epiphany.Base.Int.{ℤ, pos, negsuc}
use epiphany.Base.Eq.{list_beq, list_beq_iff}
use epiphany.Base.Result.{Result, ok, bind-eq-ok, Result-cases}
use epiphany.Model.{ModelError}
use epiphany.Fixed.{Fixed, nought, is_zero, is_zero_i64}
use epiphany.Layout.{layout_of}
use epiphany.Layout.RoundTrip.{Fits}
use epiphany.Store.{CellStore}
use epiphany.Store as S
use epiphany.Store.Refines.{put-IsFor, clear-IsFor, get-put, get-clear}
use epiphany.Cube.{
  Cube, counts, check_coord, check_leaf_write, set_leaf, get_leaf, leaf_value, or_nought,
}
use epiphany.Cube.WellFormed.{IsCube, check_coord-Fits, check_leaf_write-check_coord}

-- the cube that a successful `set_leaf` leaves
abbrev pub stored : Cube → List ℕ → Fixed → Cube
stored cube coord value = record cube {
  cells =
      if is_zero value
      then S.clear cube.cells cube.layout coord
      else S.put cube.cells cube.layout coord value;
}

pub set_leaf-eq-ok :
    (cube cube' : Cube) (coord : List ℕ) (value : Fixed)
    → set_leaf cube coord value ≡ ok cube'
    → (check_leaf_write cube coord ≡ ok tt) × (stored cube coord value ≡ cube')
unfolding set_leaf
set_leaf-eq-ok cube cube' coord value e =
    let (u, k, rest) = bind-eq-ok (check_leaf_write cube coord) _ e in (k, cc)

stored-IsCube :
    (cube : Cube) (coord : List ℕ) (value : Fixed) → IsCube cube → IsCube (stored cube coord value)
stored-IsCube cube coord value h = record {
  counted = h.counted;
  laid_out = h.laid_out;
  cells_keyed = elim (Bool-cases (is_zero value)) [
    | inl e ↦
        rw (e, h.laid_out) (clear-IsFor (counts cube.dimensions) cube.cells coord h.cells_keyed)
    | inr e ↦
        rw (e, h.laid_out) (put-IsFor (counts cube.dimensions) cube.cells coord value h.cells_keyed)
  ];
  strings_keyed = h.strings_keyed;
  pooled = h.pooled;
  texts = h.texts;
}

-- A successful `set_leaf` keeps the cube well formed.
pub set_leaf-IsCube :
    (cube cube' : Cube) (coord : List ℕ) (value : Fixed)
    → IsCube cube
    → set_leaf cube coord value ≡ ok cube'
    → IsCube cube'
set_leaf-IsCube cube cube' coord value h e =
    let (k, same) = set_leaf-eq-ok cube cube' coord value e in
    subst IsCube same (stored-IsCube cube coord value h)

is_zero_i64-true : (z : ℤ) → is_zero_i64 z ≡ true → z ≡ pos 0
unfolding is_zero_i64
is_zero_i64-true (pos n) e = ground arith
is_zero_i64-true (negsuc n) e = cc

is_zero-nought : (value : Fixed) → is_zero value ≡ true → value ≡ nought
unfolding is_zero
is_zero-nought value e =
    ap (λ (z : ℤ). let v : Fixed = record { scaled = z } in v) (is_zero_i64-true value.scaled e)

or_nought-if :
    (t : Bool) (x y : Option Fixed)
    → or_nought (if t then x else y) ≡ (if t then or_nought x else or_nought y)
or_nought-if true x y = refl
or_nought-if false x y = refl

stored_value :
    (cube : Cube) (a b : List ℕ) (value : Fixed)
    → IsCube cube
    → Fits (counts cube.dimensions) a
    → Fits (counts cube.dimensions) b
    → leaf_value (stored cube a value) b ≡ (if list_beq a b then value else leaf_value cube b)
unfolding leaf_value
stored_value cube a b value h fa fb =
    let lens = counts cube.dimensions in
    elim (Bool-cases (is_zero value)) [
      | inl e ↦
          rw (e, h.laid_out, is_zero-nought value e)
            (ap or_nought (get-clear lens cube.cells a b h.cells_keyed fa fb)
              ∙ or_nought-if (list_beq a b) none (S.get cube.cells (layout_of lens) b))
      | inr e ↦
          rw (e, h.laid_out)
            (ap or_nought (get-put lens cube.cells a b value h.cells_keyed fa fb)
              ∙ or_nought-if (list_beq a b) (some value) (S.get cube.cells (layout_of lens) b))
    ]

check_coord-stored :
    (cube : Cube) (a b : List ℕ) (value : Fixed)
    → check_coord (stored cube a value) b ≡ check_coord cube b
unfolding check_coord
check_coord-stored cube a b value = refl

ok-if :
    (t : Bool) (x y : Fixed)
    → ◌≡◌ {A = Result ModelError Fixed} (ok (if t then x else y)) (if t then ok x else ok y)
ok-if true x y = refl
ok-if false x y = refl

get_leaf-stored :
    (cube : Cube) (a b : List ℕ) (value : Fixed)
    → IsCube cube
    → check_coord cube a ≡ ok tt
    → get_leaf (stored cube a value) b ≡ (if list_beq a b then ok value else get_leaf cube b)
unfolding get_leaf
get_leaf-stored cube a b value h ka =
    let fa = check_coord-Fits cube a h ka in
    elim (Result-cases (check_coord cube b)) [
      | inl (u, kb) ↦
          let fb = check_coord-Fits cube b h kb in
          rw (check_coord-stored cube a b value, kb, stored_value cube a b value h fa fb)
            (ok-if (list_beq a b) value (leaf_value cube b))
      | inr (x, kb) ↦ elim (Bool-cases (list_beq a b)) [
        | inl same ↦ absurd (cc (ap (check_coord cube) ((list_beq_iff a b).0 same), ka, kb))
        | inr other ↦ rw (check_coord-stored cube a b value, kb, other) refl
      ]
    ]

-- After a successful `set_leaf`, `get_leaf` returns the value that was written at its coordinate,
-- zero included, and what it returned before, errors included, at every other one.
pub get_leaf-set_leaf :
    (cube cube' : Cube) (a b : List ℕ) (value : Fixed)
    → IsCube cube
    → set_leaf cube a value ≡ ok cube'
    → get_leaf cube' b ≡ (if list_beq a b then ok value else get_leaf cube b)
get_leaf-set_leaf cube cube' a b value h e =
    let (k, same) = set_leaf-eq-ok cube cube' a value e in
    subst (λ c. get_leaf c b ≡ (if list_beq a b then ok value else get_leaf cube b)) same
      (get_leaf-stored cube a b value h (check_leaf_write-check_coord cube a k))
