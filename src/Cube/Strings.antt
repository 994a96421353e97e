-- ===== src/Cube/Strings.antt =====
-- String cells: what `get_string` reads after `set_string`.
use mathlib.Core.Option.{some-injective}
use epiphany.Base.{
  ℕ, ◌≡◌, refl, ap, sym, subst, ◌∙◌, Option, none, some, List, [], ◌∷◌, Bool-cases, Option-cases,
  inl, inr, if◌then◌else◌, get_elem?, length, ◌<◌, ◌^◌,
}
use epiphany.Base.Eq.{list_beq, list_beq_iff}
use epiphany.Base.Result.{ok, bind-eq-ok, Result-cases}
use epiphany.Text.{Text}
use epiphany.Layout.RoundTrip.{Fits}
use epiphany.Store.{CellStore}
use epiphany.Store as S
use epiphany.Store.Refines.{put-IsFor, clear-IsFor, get-put, get-clear}
use epiphany.Pool.{StringPool, intern}
use epiphany.Pool as P
use epiphany.Pool.Intern.{intern-IsInterned}
use epiphany.Cube.{
  Cube, counts, check_coord, check_string_write, set_string, store_string, get_string, pool_text,
}
use epiphany.Cube.WellFormed.{IsCube, check_coord-Fits, check_string_write-check_coord}

pub set_string-eq-ok :
    (cube cube' : Cube) (coord : List ℕ) (value : Text)
    → set_string cube coord value ≡ ok cube'
    → (check_string_write cube coord ≡ ok tt) × (store_string cube coord value ≡ cube')
unfolding set_string
set_string-eq-ok cube cube' coord value e =
    let (u, k, rest) = bind-eq-ok (check_string_write cube coord) _ e in (k, cc)

-- the string cells behind a clear and a put
cleared :
    (cube : Cube) (a b : List ℕ)
    → IsCube cube
    → Fits (counts cube.dimensions) a
    → Fits (counts cube.dimensions) b
    → S.get (S.clear cube.string_cells cube.layout a) cube.layout b
      ≡ (if list_beq a b then none else S.get cube.string_cells cube.layout b)
cleared cube a b h fa fb =
    rw h.laid_out (get-clear (counts cube.dimensions) cube.string_cells a b h.strings_keyed fa fb)

replaced :
    (cube : Cube) (a b : List ℕ) (id : ℕ)
    → IsCube cube
    → Fits (counts cube.dimensions) a
    → Fits (counts cube.dimensions) b
    → S.get (S.put cube.string_cells cube.layout a id) cube.layout b
      ≡ (if list_beq a b then some id else S.get cube.string_cells cube.layout b)
replaced cube a b id h fa fb =
    rw h.laid_out (get-put (counts cube.dimensions) cube.string_cells a b id h.strings_keyed fa fb)

store_string-IsCube :
    (cube : Cube) (coord : List ℕ) (value : Text)
    → IsCube cube
    → Fits (counts cube.dimensions) coord
    → length cube.string_pool.by_id < 2 ^ 32
    → IsCube (store_string cube coord value)
unfolding store_string
store_string-IsCube cube coord [] h fits room = record {
  counted = h.counted;
  laid_out = h.laid_out;
  cells_keyed = h.cells_keyed;
  strings_keyed =
      rw h.laid_out (clear-IsFor (counts cube.dimensions) cube.string_cells coord h.strings_keyed);
  pooled = h.pooled;
  texts = λ b id fb q. elim (Bool-cases (list_beq coord b)) [
    | inl e ↦
        let k = cleared cube coord b h fits fb in
        absurd (let bad : none ≡ some id = sym (rw e at k) ∙ q in cc)
    | inr e ↦ let k = cleared cube coord b h fits fb in h.texts b id fb (sym (rw e at k) ∙ q)
  ];
}
store_string-IsCube cube coord (c ∷ value) h fits room = record {
  counted = h.counted;
  laid_out = h.laid_out;
  cells_keyed = h.cells_keyed;
  strings_keyed = rw h.laid_out (
      put-IsFor (counts cube.dimensions) cube.string_cells coord
        (intern cube.string_pool (c ∷ value)).1 h.strings_keyed);
  pooled = (intern-IsInterned cube.string_pool (c ∷ value) h.pooled room).0;
  texts = λ b id fb q.
      let (pool', new) = intern cube.string_pool (c ∷ value) in
      let added = intern-IsInterned cube.string_pool (c ∷ value) h.pooled room in
      let k = replaced cube coord b new h fits fb in
      elim (Bool-cases (list_beq coord b)) [
        | inl e ↦
            let same : new ≡ id = some-injective new id (sym (rw e at k) ∙ q) in
            (c ∷ value, ap (get_elem? pool'.by_id) (sym same) ∙ added.1)
        | inr e ↦ let (t, there) = h.texts b id fb (sym (rw e at k) ∙ q) in (t, added.2 id t there)
      ];
}

-- A successful `set_string` keeps the cube well formed, while its pool has fewer than 2^32 texts.
pub set_string-IsCube :
    (cube cube' : Cube) (coord : List ℕ) (value : Text)
    → IsCube cube
    → length cube.string_pool.by_id < 2 ^ 32
    → set_string cube coord value ≡ ok cube'
    → IsCube cube'
set_string-IsCube cube cube' coord value h room e =
    let (k, same) = set_string-eq-ok cube cube' coord value e in
    subst IsCube same (
      store_string-IsCube cube coord value h
        (check_coord-Fits cube coord h (check_string_write-check_coord cube coord k)) room)

-- the text that a cell holds after it is written
abbrev pub cell_text : Text → Option Text
cell_text [] = none
cell_text (c ∷ value) = some (c ∷ value)

get-eq :
    (pool : StringPool) (id : ℕ) (t : Text)
    → get_elem? pool.by_id id ≡ some t
    → P.get pool id ≡ ok t
unfolding P.get
get-eq pool id t e = rw e refl

-- A cell that was not written reads the same from the pool behind an intern.
kept_text :
    (cube : Cube) (b : List ℕ) (pool' : StringPool)
    → IsCube cube
    → Fits (counts cube.dimensions) b
    → ((j : ℕ) (t : Text)
        → get_elem? cube.string_pool.by_id j ≡ some t
        → get_elem? pool'.by_id j ≡ some t)
    → pool_text pool' (S.get cube.string_cells cube.layout b)
      ≡ pool_text cube.string_pool (S.get cube.string_cells cube.layout b)
kept_text cube b pool' h fb keeps = elim (Option-cases (S.get cube.string_cells cube.layout b)) [
  | inl e ↦ rw e refl
  | inr (id, e) ↦
      let (t, there) = h.texts b id fb e in
      rw (e, get-eq cube.string_pool id t there, get-eq pool' id t (keeps id t there)) refl
]

-- the text of the cell at `b` in the cube behind the check
stored_text :
    (cube : Cube) (a b : List ℕ) (value : Text)
    → IsCube cube
    → length cube.string_pool.by_id < 2 ^ 32
    → Fits (counts cube.dimensions) a
    → Fits (counts cube.dimensions) b
    → let cube' = store_string cube a value in
      pool_text cube'.string_pool (S.get cube'.string_cells cube'.layout b) ≡ (
        if list_beq a b
        then ok (cell_text value)
        else pool_text cube.string_pool (S.get cube.string_cells cube.layout b))
unfolding store_string
stored_text cube a b [] h room fa fb = elim (Bool-cases (list_beq a b)) [
  | inl e ↦ rw (cleared cube a b h fa fb, e) refl
  | inr e ↦ rw (cleared cube a b h fa fb, e) refl
]
stored_text cube a b (c ∷ value) h room fa fb =
    let (pool', id) = intern cube.string_pool (c ∷ value) in
    let added = intern-IsInterned cube.string_pool (c ∷ value) h.pooled room in
    elim (Bool-cases (list_beq a b)) [
      | inl e ↦ rw (replaced cube a b id h fa fb, e, get-eq pool' id (c ∷ value) added.1) refl
      | inr e ↦ rw (replaced cube a b id h fa fb, e) (kept_text cube b pool' h fb added.2)
    ]

check_coord-store_string :
    (cube : Cube) (a b : List ℕ) (value : Text)
    → check_coord (store_string cube a value) b ≡ check_coord cube b
unfolding check_coord store_string
check_coord-store_string cube a b [] = refl
check_coord-store_string cube a b (c ∷ value) = refl

get_string-store_string :
    (cube : Cube) (a b : List ℕ) (value : Text)
    → IsCube cube
    → length cube.string_pool.by_id < 2 ^ 32
    → check_coord cube a ≡ ok tt
    → get_string (store_string cube a value) b
      ≡ (if list_beq a b then ok (cell_text value) else get_string cube b)
unfolding get_string
get_string-store_string cube a b value h room ka =
    let fa = check_coord-Fits cube a h ka in
    elim (Result-cases (check_coord cube b)) [
      | inl (u, kb) ↦
          rw (check_coord-store_string cube a b value, kb)
            (stored_text cube a b value h room fa (check_coord-Fits cube b h kb))
      | inr (x, kb) ↦ elim (Bool-cases (list_beq a b)) [
        | inl same ↦ absurd (cc (ap (check_coord cube) ((list_beq_iff a b).0 same), ka, kb))
        | inr other ↦ rw (check_coord-store_string cube a b value, kb, other) refl
      ]
    ]

-- After a successful `set_string`, `get_string` returns the text that was written at its
-- coordinate, nothing for the empty text, and what it returned before, errors included, at every
-- other one, while the pool has fewer than 2^32 texts.
pub get_string-set_string :
    (cube cube' : Cube) (a b : List ℕ) (value : Text)
    → IsCube cube
    → length cube.string_pool.by_id < 2 ^ 32
    → set_string cube a value ≡ ok cube'
    → get_string cube' b ≡ (if list_beq a b then ok (cell_text value) else get_string cube b)
get_string-set_string cube cube' a b value h room e =
    let (k, same) = set_string-eq-ok cube cube' a value e in
    subst (λ c. get_string c b ≡ (if list_beq a b then ok (cell_text value) else get_string cube b))
      same (get_string-store_string cube a b value h room (check_string_write-check_coord cube a k))
