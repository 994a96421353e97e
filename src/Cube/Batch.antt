-- ===== src/Cube/Batch.antt =====
-- `validate_batch` against the writes themselves, made one after the other.
use epiphany.Base.{ℕ, suc, ◌≡◌, refl, sym, ◌∙◌, List, [], ◌∷◌, inl, inr}
use epiphany.Base.Result.{Result, ok, err, ◌>>=◌, ◌>>◌, Result-cases}
use epiphany.Model.{ModelError}
use epiphany.Cube.{
  Cube, check_coord, check_leaf_write, check_string_write, set_leaf, set_string, store_string,
  BatchWrite, leaf_write, string_write, check_write, at_index, validate_from, validate_batch,
}
use epiphany.Cube.Cells.{stored}

-- one write, made
abbrev pub apply_write : Cube → BatchWrite → Result ModelError Cube
apply_write cube (leaf_write coord value) = set_leaf cube coord value
apply_write cube (string_write coord value) = set_string cube coord value

-- The writes, made in order; the first one that fails ends the run with its index.
unfoldable pub apply_from : ℕ → Cube → List BatchWrite → Result (ℕ × ModelError) Cube
apply_from index cube [] = ok cube
apply_from index cube (write ∷ writes) = do
  next ← at_index index (apply_write cube write)
  apply_from (suc index) next writes

unfoldable pub apply_batch : Cube → List BatchWrite → Result (ℕ × ModelError) Cube
unfolding apply_from
apply_batch cube writes = apply_from 0 cube writes

-- the verdict, without the cube
abbrev pub verdict {ℓ} : {E : Type ℓ} → Result E Cube → Result E (Unit {0})
verdict (ok cube) = ok tt
verdict (err e) = err e

-- what a write leaves behind its check
abbrev written : Cube → BatchWrite → Cube
written cube (leaf_write coord value) = stored cube coord value
written cube (string_write coord value) = store_string cube coord value

apply_write-check_write :
    (cube : Cube) (write : BatchWrite)
    → apply_write cube write ≡ (check_write cube write >> ok (written cube write))
unfolding set_leaf set_string
apply_write-check_write cube (leaf_write coord value) = refl
apply_write-check_write cube (string_write coord value) = refl

-- A write changes no check.
check_write-written :
    (cube : Cube) (first second : BatchWrite)
    → check_write (written cube first) second ≡ check_write cube second
unfolding check_leaf_write check_string_write check_coord store_string
check_write-written cube (leaf_write a v) (leaf_write b w) = refl
check_write-written cube (leaf_write a v) (string_write b w) = refl
check_write-written cube (string_write a []) (leaf_write b w) = refl
check_write-written cube (string_write a []) (string_write b w) = refl
check_write-written cube (string_write a (c ∷ v)) (leaf_write b w) = refl
check_write-written cube (string_write a (c ∷ v)) (string_write b w) = refl

validate_from-written :
    (index : ℕ) (cube : Cube) (write : BatchWrite) (writes : List BatchWrite)
    → validate_from index (written cube write) writes ≡ validate_from index cube writes
unfolding validate_from
validate_from-written index cube write [] = refl
validate_from-written index cube write (next ∷ writes) =
    rw (check_write-written cube write next, validate_from-written (suc index) cube write writes)
      refl

validate_from-apply_from :
    (index : ℕ) (cube : Cube) (writes : List BatchWrite)
    → validate_from index cube writes ≡ verdict (apply_from index cube writes)
unfolding validate_from apply_from
validate_from-apply_from index cube [] = refl
validate_from-apply_from index cube (write ∷ writes) =
    elim (Result-cases (check_write cube write)) [
      | inl (u, e) ↦
          rw (apply_write-check_write cube write, e)
            (sym (validate_from-written (suc index) cube write writes)
              ∙ validate_from-apply_from (suc index) (written cube write) writes)
      | inr (x, e) ↦ rw (apply_write-check_write cube write, e) refl
    ]

-- `validate_batch` accepts a batch exactly when all its writes, made in order, succeed, and refuses
-- it with the index and the error of the first one that fails.
pub validate_batch-apply_batch :
    (cube : Cube) (writes : List BatchWrite)
    → validate_batch cube writes ≡ verdict (apply_batch cube writes)
unfolding validate_batch apply_batch
validate_batch-apply_batch cube writes = validate_from-apply_from 0 cube writes
