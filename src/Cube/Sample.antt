-- ===== src/Cube/Sample.antt =====
-- A cube of two dimensions for tests: a numeric and a string measure, and a month below a year.
use epiphany.Base.{ℕ, false, List, [], ◌∷◌}
use epiphany.Base.Int.{pos}
use epiphany.Fixed.{Fixed}
use epiphany.Dimension.{Dimension, Element, ElementKind, Edge, leaf, string, consolidated}
use epiphany.Cube.{Cube, fresh}

abbrev pub named : ℕ → ElementKind → Element
named c kind = record { name = c ∷ []; kind = kind; pinned_to_top = false }

abbrev pub flat : ℕ → Element → Element → List (List Edge) → Dimension
flat name a b edges = record {
  name = name ∷ [];
  elements = a ∷ b ∷ [];
  index_by_name = (b.name, 1) ∷ (a.name, 0) ∷ [];
  children = edges;
  attributes = [];
  attr_index_by_name = [];
  attr_values = [] ∷ [] ∷ [];
  alias_to_element = [];
}

abbrev pub dims : List Dimension
dims =
    flat b'm' (named b'n' leaf) (named b't' string) ([] ∷ [] ∷ [])
    ∷ flat b'd' (named b'j' leaf) (named b'y' consolidated)
        ([] ∷ (record { child = 0; weight = pos 1 } ∷ []) ∷ [])
    ∷ []

abbrev pub start : Cube
start = fresh (b'c' ∷ []) dims

abbrev pub five : Fixed
five = record { scaled = pos 50000 }
