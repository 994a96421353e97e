-- ===== src/Store.antt =====
-- The sparse cell store, keyed by packed keys or by coordinates: `CellStore` of
-- crates/epiphany-core/src/cube.rs. Its two maps are association lists.
pub mod Refines
mod Tests
use epiphany.Base.{ℕ, Bool, true, false, Option, none, some, List, [], ◌∷◌, length}
use epiphany.Base.Eq.{nat_eq, list_eq}
use epiphany.Base.Assoc.{lookup, insert, remove}
use epiphany.Layout.{Layout, pack, unpack}

pub data CellStore (V : Type 0) : Type 0 where
  narrow : List (ℕ × V) → CellStore V
  wide : List (List ℕ × V) → CellStore V

module _ {V : Type 0} where
  -- CellStore::new
  abbrev pub new : Bool → CellStore V
  new true = narrow []
  new false = wide []

  -- CellStore::len
  pub len : CellStore V → ℕ
  len (narrow m) = length m
  len (wide m) = length m

  -- CellStore::get
  unfoldable pub get : CellStore V → Layout → List ℕ → Option V
  get (narrow m) layout coord = lookup (pack layout coord) m
  get (wide m) layout coord = lookup coord m

  -- CellStore::put
  unfoldable pub put : CellStore V → Layout → List ℕ → V → CellStore V
  put (narrow m) layout coord value = narrow (insert (pack layout coord) value m)
  put (wide m) layout coord value = wide (insert coord value m)

  -- CellStore::clear
  unfoldable pub clear : CellStore V → Layout → List ℕ → CellStore V
  clear (narrow m) layout coord = narrow (remove (pack layout coord) m)
  clear (wide m) layout coord = wide (remove coord m)

  unfoldable pub unpack_keys : Layout → ℕ → List (ℕ × V) → List (List ℕ × V)
  unpack_keys layout rank [] = []
  unpack_keys layout rank ((key, value) ∷ m) =
      (unpack layout key rank, value) ∷ unpack_keys layout rank m

  -- CellStore::entries, with `Entries::next` run to the end
  unfoldable pub entries : CellStore V → Layout → ℕ → List (List ℕ × V)
  unfolding unpack_keys
  entries (narrow m) layout rank = unpack_keys layout rank m
  entries (wide m) layout rank = m
