-- ===== src/Dimension.antt =====
-- A dimension: its elements, their names and the hierarchy over them
-- (crates/epiphany-core/src/dimension.rs). The operations are in the modules below.
pub mod Elements
pub mod Hierarchy
pub mod Leaves
mod Tests
use epiphany.Base.{
  ℕ, ◌≡◌, ◌%◌, ◌^◌, Bool, true, false, Option, none, some, List, [], ◌∷◌, map, get_elem?, length,
}
use epiphany.Base.Int.{ℤ}
use epiphany.Base.Eq.{nat_eq, list_eq}
use epiphany.Base.Assoc.{lookup}
use epiphany.Base.Result.{Result, ok, err}
use epiphany.Text.{Text}
use epiphany.Model.{ModelError, element_index_out_of_range}
use epiphany.Fixed.{Fixed}

pub data ElementKind : Type 0 where
  leaf string consolidated : ElementKind

pub is_leaf : ElementKind → Bool
is_leaf consolidated = false
is_leaf _ = true

pub is_string : ElementKind → Bool
is_string string = true
is_string _ = false

pub record Element : Type 0 where
  pub name : Text
  pub kind : ElementKind
  pub pinned_to_top : Bool

pub data AttributeKind : Type 0 where
  text numeric alias : AttributeKind

pub data AttributeValue : Type 0 where
  text_value : Text → AttributeValue
  numeric_value : Fixed → AttributeValue

pub record AttributeDef : Type 0 where
  pub name : Text
  pub kind : AttributeKind

pub record Edge : Type 0 where
  pub child : ℕ
  pub weight : ℤ

-- `HashMap`s are association lists, `Vec`s lists.
pub record Dimension : Type 0 where
  pub name : Text
  pub elements : List Element
  pub index_by_name : List (Text × ℕ)
  pub children : List (List Edge)
  pub attributes : List AttributeDef
  pub attr_index_by_name : List (Text × ℕ)
  pub attr_values : List (List (ℕ × AttributeValue))
  pub alias_to_element : List (Text × ℕ)

abbrev pub new : Text → Dimension
new name = record {
  name = name;
  elements = [];
  index_by_name = [];
  children = [];
  attributes = [];
  attr_index_by_name = [];
  attr_values = [];
  alias_to_element = [];
}

-- `as u32`
abbrev pub as_u32 : ℕ → ℕ
as_u32 n = n % 2 ^ 32

-- Dimension::len
abbrev pub len : Dimension → ℕ
len d = as_u32 (length d.elements)

-- Dimension::element
unfoldable pub element : Dimension → ℕ → Result ModelError Element
element d index = elim (get_elem? d.elements index) [
  | some e ↦ ok e
  | none ↦ err (element_index_out_of_range d.name index (len d))
]

-- Dimension::index_of
abbrev pub index_of : Dimension → Text → Option ℕ
index_of d name = lookup name d.index_by_name

-- Dimension::resolve
pub resolve : Dimension → Text → Option ℕ
resolve d name = elim (index_of d name) [ some i ↦ some i | none ↦ lookup name d.alias_to_element ]
