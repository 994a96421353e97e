-- ===== src/Durable/Snapshot.antt =====
-- A snapshot and its load (`Model::to_model_text` and `build_cube_from_doc` of
-- crates/epiphany-core/src/text.rs): its numbers are printed into the text, and parsed when it is
-- loaded, and the dimensions of the cube are found by their names. The rest of the
-- text (the elements and edges of a dimension, the coordinates of the cells, the string cells) is taken
-- as it was saved.
use epiphany.Base.Assoc.{lookup, insert, lookup-insert}
use epiphany.Base.Eq.{list_eq, list_beq, list_beq_iff, beq_refl}
use epiphany.Text.{Text}
use epiphany.Base.{
  sym, some, map, Bool-cases, inl, inr, if◌then◌else◌, ℕ, List, [], ◌∷◌, ◌≡◌, ◌≢◌, refl, ap, ◌∙◌,
  All,
}
use epiphany.Base.Result.{Result, ok, err, ok_or, ◌>>=◌}
use epiphany.Model.{ModelError, unknown_dimension}
use epiphany.Fixed.{Fixed, display, from_str, IsI64, i64_max}
use epiphany.Fixed.RoundTrip.{from_str-display}
use epiphany.Base.Int.{negsuc}
use epiphany.Dimension.{Dimension, AttributeValue, text_value, numeric_value}
use epiphany.Store.{CellStore, narrow, wide}
use epiphany.Cube.{Cube}
use epiphany.Durable.{PersistError, load}

-- map_err(PersistError::Load)
abbrev pub loading : {A : Type 0} → Result ModelError A → Result PersistError A
loading (ok a) = ok a
loading (err e) = err (load e)

-- the text of a number, parsed
unfoldable pub read_number : Fixed → Result PersistError Fixed
read_number value = loading (from_str (display value))

abbrev pub traverse :
    {A : Type 0} → (A → Result PersistError A) → List A → Result PersistError (List A)
traverse f [] = ok []
traverse f (x ∷ xs) = do y ← f x; ys ← traverse f xs; ok (y ∷ ys)

abbrev pub read_cell : {K : Type 0} → K × Fixed → Result PersistError (K × Fixed)
read_cell (key, value) = do number ← read_number value; ok (key, number)

unfoldable pub read_cells : CellStore Fixed → Result PersistError (CellStore Fixed)
read_cells (narrow m) = do cells ← traverse read_cell m; ok (narrow cells)
read_cells (wide m) = do cells ← traverse read_cell m; ok (wide cells)

abbrev pub read_attribute : ℕ × AttributeValue → Result PersistError (ℕ × AttributeValue)
read_attribute (attribute, text_value value) = ok (attribute, text_value value)
read_attribute (attribute, numeric_value value) = do
  number ← read_number value
  ok (attribute, numeric_value number)

pub read_dimension : Dimension → Result PersistError Dimension
read_dimension d = do
  values ← traverse (traverse read_attribute) d.attr_values
  ok (record d { attr_values = values })

-- `dims_by_name`: of two dimensions with one name the later one is kept
abbrev pub dims_by_name : List (Text × Dimension) → List Dimension → List (Text × Dimension)
dims_by_name named [] = named
dims_by_name named (d ∷ ds) = dims_by_name (insert d.name d named) ds

-- the dimension that a name of the cube stands for in the text
abbrev pub named_dimension :
    Text → List (Text × Dimension) → Dimension → Result PersistError Dimension
named_dimension cube named d = ok_or (lookup d.name named) (load (unknown_dimension cube d.name))

-- Model::load_from_path of the snapshot of a cube
unfoldable pub load_snapshot : Cube → Result PersistError Cube
unfolding read_dimension read_cells
load_snapshot cube = do
  found ← traverse read_dimension cube.dimensions
  dimensions ← traverse (named_dimension cube.name (dims_by_name [] found)) cube.dimensions
  cells ← read_cells cube.cells
  ok (record cube { dimensions = dimensions; cells = cells })

-- a number whose text is read back
abbrev pub IsReadable : Fixed → Type 0
IsReadable value = IsI64 value.scaled × (value.scaled ≢ negsuc i64_max)

abbrev pub AreReadable : CellStore Fixed → Type 0
AreReadable (narrow m) = All (λ (cell : ℕ × Fixed). IsReadable cell.1) m
AreReadable (wide m) = All (λ (cell : List ℕ × Fixed). IsReadable cell.1) m

abbrev pub IsReadableValue : ℕ × AttributeValue → Type 0
IsReadableValue (attribute, text_value value) = Unit
IsReadableValue (attribute, numeric_value value) = IsReadable value

abbrev pub names : List Dimension → List Text
names ds = map (λ (d : Dimension). d.name) ds

-- no text stands twice in the list
abbrev pub AreDifferent : List Text → Type 0
AreDifferent [] = Unit
AreDifferent (x ∷ xs) = All (λ y. x ≢ y) xs × AreDifferent xs

-- The numbers of a cube, its cells and its numeric attributes, are i64s other than the least, and no two
-- of its dimensions have the same name.
abbrev pub HasReadable : Cube → Type 0
HasReadable cube =
    All
      (λ (d : Dimension).
        All (λ (row : List (ℕ × AttributeValue)). All IsReadableValue row) d.attr_values)
      cube.dimensions
    × AreReadable cube.cells
    × AreDifferent (names cube.dimensions)

traverse-same :
    {A : Type 0} (f : A → Result PersistError A) (P : A → Type 0) (xs : List A)
    → ((x : A) → P x → f x ≡ ok x)
    → All P xs
    → traverse f xs ≡ ok xs
traverse-same f P [] h a = refl
traverse-same f P (x ∷ xs) h a =
    ap (λ m. m >>= λ y. traverse f xs >>= λ ys. ok (y ∷ ys)) (h x a.0)
    ∙ ap (λ m. m >>= λ ys. ok (x ∷ ys)) (traverse-same f P xs h a.1)

read_number-same : (value : Fixed) → IsReadable value → read_number value ≡ ok value
unfolding read_number
read_number-same value h = ap loading (from_str-display value h.0 h.1)

read_cell-same : {K : Type 0} (cell : K × Fixed) → IsReadable cell.1 → read_cell cell ≡ ok cell
read_cell-same (key, value) h = ap (λ m. m >>= λ n. ok (key, n)) (read_number-same value h)

read_cells-same : (s : CellStore Fixed) → AreReadable s → read_cells s ≡ ok s
unfolding read_cells
read_cells-same (narrow m) h =
    ap (λ r. r >>= λ cells. ok (narrow cells)) (traverse-same read_cell _ m read_cell-same h)
read_cells-same (wide m) h =
    ap (λ r. r >>= λ cells. ok (wide cells)) (traverse-same read_cell _ m read_cell-same h)

read_attribute-same : (x : ℕ × AttributeValue) → IsReadableValue x → read_attribute x ≡ ok x
read_attribute-same (attribute, text_value value) h = refl
read_attribute-same (attribute, numeric_value value) h =
    ap (λ m. m >>= λ n. ok (attribute, numeric_value n)) (read_number-same value h)

read_dimension-same :
    (d : Dimension)
    → All (λ (row : List (ℕ × AttributeValue)). All IsReadableValue row) d.attr_values
    → read_dimension d ≡ ok d
unfolding read_dimension
read_dimension-same d h =
    ap (λ m. m >>= λ values. ok (record d { attr_values = values }))
      (traverse-same (traverse read_attribute) (All IsReadableValue) d.attr_values
        (λ row k. traverse-same read_attribute IsReadableValue row read_attribute-same k) h)

other-dims_by_name :
    (k : Text) (named : List (Text × Dimension)) (ds : List Dimension)
    → All (λ y. k ≢ y) (names ds)
    → lookup k (dims_by_name named ds) ≡ lookup k named
other-dims_by_name k named [] h = refl
other-dims_by_name k named (d ∷ ds) h =
    other-dims_by_name k (insert d.name d named) ds h.1
    ∙ lookup-insert d.name k d named
    ∙ elim (Bool-cases (list_beq d.name k)) [
      | inl q ↦ absurd (h.0 (sym ((list_beq_iff d.name k).0 q)))
      | inr q ↦ rw q refl
    ]

-- Dimensions with different names are found under them.
own-dims_by_name :
    (named : List (Text × Dimension)) (ds : List Dimension)
    → AreDifferent (names ds)
    → All (λ (d : Dimension). lookup d.name (dims_by_name named ds) ≡ some d) ds
own-dims_by_name named [] h = tt
own-dims_by_name named (d ∷ ds) h = (
  other-dims_by_name d.name (insert d.name d named) ds h.0
      ∙ lookup-insert d.name d.name d named
      ∙ ap (λ b. if b then some d else lookup d.name named) (beq_refl d.name),
  own-dims_by_name (insert d.name d named) ds h.1,
)

-- A snapshot of readable numbers and dimensions with different names is loaded to the cube that was saved.
pub load_snapshot-same : (cube : Cube) → HasReadable cube → load_snapshot cube ≡ ok cube
unfolding load_snapshot
load_snapshot-same cube h =
    let named = dims_by_name [] cube.dimensions in
    ap
      (λ m. m >>= λ found.
        traverse (named_dimension cube.name (dims_by_name [] found)) cube.dimensions >>= λ ds.
        read_cells cube.cells >>= λ cells. ok (record cube { dimensions = ds; cells = cells }))
      (traverse-same read_dimension _ cube.dimensions read_dimension-same h.0)
    ∙ ap
        (λ m. m >>= λ ds.
          read_cells cube.cells >>= λ cells. ok (record cube { dimensions = ds; cells = cells }))
        (traverse-same (named_dimension cube.name named)
          (λ (d : Dimension). lookup d.name named ≡ some d) cube.dimensions
          (λ d e. ap (λ o. ok_or o (load (unknown_dimension cube.name d.name))) e)
          (own-dims_by_name [] cube.dimensions h.2))
    ∙ ap (λ m. m >>= λ cells. ok (record cube { cells = cells })) (read_cells-same cube.cells h.1)
