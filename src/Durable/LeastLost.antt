-- ===== src/Durable/LeastLost.antt =====
-- A checkpoint of a cube that holds the least number
-- (crates/epiphany-persist/src/store.rs and crates/epiphany-core/src/text.rs).
use epiphany.Base.{ℕ, ◌≡◌, refl, ap, sym, ◌∙◌, inl, inr, false, List, [], ◌∷◌, In}
use epiphany.Base.Int.{negsuc}
use epiphany.Base.Result.{Result, ok, err, ◌>>=◌}
use epiphany.Model.{overflow}
use epiphany.Fixed.{Fixed, i64_max}
use epiphany.Fixed.RoundTrip.{from_str-least}
use epiphany.Store.{CellStore, narrow, wide}
use epiphany.Cube.{Cube}
use epiphany.Durable.{
  PersistError, load, poisoned_store, Store, completes, checkpoint, checkpoint_model,
}
use epiphany.Durable.Snapshot.{
  loading, read_number, traverse, read_cell, read_cells, read_dimension, dims_by_name,
  named_dimension, load_snapshot,
}
use epiphany.Durable.Commands.{Answer, open_store, loaded}
use epiphany.Durable.Backed.{Succeeds}
use epiphany.Durable.Failed.{if-false}

abbrev pub least : Fixed
least = record { scaled = negsuc i64_max }

-- a stored cell holds the least number
abbrev pub HoldsLeast : CellStore Fixed → Type 0
HoldsLeast (narrow m) = (key : ℕ) × In (key, least) m
HoldsLeast (wide m) = (key : List ℕ) × In (key, least) m

abbrev IsRefused : {A : Type 0} → Result PersistError A → Type 0
IsRefused m = (e : PersistError) × (m ≡ err e)

bind-IsRefused :
    {A : Type 0} {B : Type 0} (m : Result PersistError A) (f : A → Result PersistError B)
    → ((a : A) → IsRefused (f a))
    → IsRefused (m >>= f)
bind-IsRefused (ok a) f h = h a
bind-IsRefused (err e) f h = (e, refl)

start-IsRefused :
    {A : Type 0} {B : Type 0} (m : Result PersistError A) (f : A → Result PersistError B)
    → IsRefused m
    → IsRefused (m >>= f)
start-IsRefused m f (e, h) = (e, ap (λ r. r >>= f) h)

traverse-IsRefused :
    {A : Type 0} (f : A → Result PersistError A) (x : A) (xs : List A)
    → IsRefused (f x)
    → In x xs
    → IsRefused (traverse f xs)
traverse-IsRefused f x [] h i = absurd i
traverse-IsRefused f x (y ∷ xs) h (inl e) = start-IsRefused (f y) _ (h.0, ap f (sym e) ∙ h.1)
traverse-IsRefused f x (y ∷ xs) h (inr i) =
    bind-IsRefused (f y) _ (λ z. start-IsRefused (traverse f xs) _ (traverse-IsRefused f x xs h i))

read_cell-least : {K : Type 0} (key : K) → IsRefused (read_cell (key, least))
unfolding read_number
read_cell-least key = (load overflow, ap (λ m. loading m >>= λ n. ok (key, n)) from_str-least)

read_cells-least : (s : CellStore Fixed) → HoldsLeast s → IsRefused (read_cells s)
unfolding read_cells
read_cells-least (narrow m) h =
    start-IsRefused (traverse read_cell m) _
      (traverse-IsRefused read_cell (h.0, least) m (read_cell-least h.0) h.1)
read_cells-least (wide m) h =
    start-IsRefused (traverse read_cell m) _
      (traverse-IsRefused read_cell (h.0, least) m (read_cell-least h.0) h.1)

load_snapshot-least : (cube : Cube) → HoldsLeast cube.cells → IsRefused (load_snapshot cube)
unfolding load_snapshot
load_snapshot-least cube h = bind-IsRefused (traverse read_dimension cube.dimensions) _ (λ found.
    bind-IsRefused (traverse (named_dimension cube.name (dims_by_name [] found)) cube.dimensions) _
      (λ ds. start-IsRefused (read_cells cube.cells) _ (read_cells-least cube.cells h)))

-- A checkpoint of a cube in which a stored cell holds the least i64 succeeds, if the store is not
-- poisoned and no call of the file system fails, and the store cannot be opened afterwards.
pub checkpoint-least_lost :
    (s : Store)
    → s.poisoned ≡ false
    → HoldsLeast s.cube.cells
    → let answer = checkpoint completes s in
      Succeeds answer × ((e : PersistError) × ((open_store answer.0.disk).1 ≡ err e))
unfolding checkpoint checkpoint_model open_store
checkpoint-least_lost s p h =
    let answer = checkpoint_model completes s in
    let same = if-false s.poisoned (s, err poisoned_store) answer p in
    let lost = load_snapshot-least s.cube h in
    (
      ap (λ (x : Answer). x.1) same,
      (
        lost.0,
        ap (λ (x : Answer). (open_store x.0.disk).1) same
            ∙ ap (λ m. (loaded answer.0.disk m).1) lost.1,
      ),
    )
