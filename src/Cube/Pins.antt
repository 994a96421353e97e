-- ===== src/Cube/Pins.antt =====
-- `pin_element_to_top` and `unpin_element_from_top` of crates/epiphany-core/src/cube.rs: both find an
-- element by the names of its dimension and its own.
use epiphany.Base.{ℕ, suc, Bool, Option, none, some, List, [], ◌∷◌, get_elem?, set, if◌then◌else◌}
use epiphany.Base.Eq.{list_beq}
use epiphany.Base.Result.{Result, ok, ◌>>=◌, ok_or}
use epiphany.Text.{Text}
use epiphany.Model.{ModelError, unknown_dimension, element_not_found}
use epiphany.Dimension.{Dimension, index_of}
use epiphany.Dimension.Elements as E
use epiphany.Cube.{Cube}

-- iter().position of a name, from an index on
pub position : List Dimension → Text → ℕ → Option ℕ
position [] name i = none
position (d ∷ ds) name i =
    let rest = position ds name (suc i) in if list_beq d.name name then some i else rest

-- Cube::dimension_index
pub dimension_index : Cube → Text → Result ModelError ℕ
unfolding position
dimension_index cube name =
    ok_or (position cube.dimensions name 0) (unknown_dimension cube.name name)

-- Cube::pin_element_to_top, and with `false` Cube::unpin_element_from_top
unfoldable pub pin_element : Cube → Text → Text → Bool → Result ModelError Cube
pin_element cube dimension element pinned = do
  d ← dimension_index cube dimension
  found ← ok_or (get_elem? cube.dimensions d) (unknown_dimension cube.name dimension)
  index ← ok_or (index_of found element) (element_not_found dimension element)
  next ← E.set_pin found index pinned
  ok (record cube { dimensions = set cube.dimensions d next })
