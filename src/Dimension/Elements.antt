-- ===== src/Dimension/Elements.antt =====
-- Elements one at a time: `add_element`, `set_kind`, the pins and `add_attribute` of
-- crates/epiphany-core/src/dimension.rs.
pub mod Add
pub mod Kind
use epiphany.Base.{
  ℕ, suc, Bool, true, false, not, ◌&&◌, Option, none, some, List, [], ◌∷◌, ◌++◌, get_elem?, set,
  length, if◌then◌else◌,
}
use epiphany.Base.Eq.{nat_eq, list_eq}
use epiphany.Base.Assoc.{lookup, insert}
use epiphany.Base.Result.{Result, ok, err, ◌>>=◌, ◌>>◌, guard}
use epiphany.Text.{Text}
use epiphany.Model.{ModelError, consolidation_has_children}
use epiphany.Dimension.{
  Dimension, Element, ElementKind, AttributeKind, AttributeDef, Edge, leaf, string, consolidated,
  element, index_of, as_u32,
}
use epiphany.Dimension.Hierarchy.{is_consolidated, edges_of}

-- the fresh half of `add_element`
unfoldable pub push_element : Dimension → Text → ElementKind → Dimension
push_element d name kind = record d {
  index_by_name = insert name (as_u32 (length d.elements)) d.index_by_name;
  elements = d.elements ++ (record { name = name; kind = kind; pinned_to_top = false }) ∷ [];
  children = d.children ++ [] ∷ [];
  attr_values = d.attr_values ++ [] ∷ [];
}

-- Dimension::add_element, with the index it returns
unfoldable pub add_element : Dimension → Text → ElementKind → Dimension × ℕ
unfolding push_element
add_element d name kind = elim (index_of d name) [
  | some existing ↦ (d, existing)
  | none ↦ (push_element d name kind, as_u32 (length d.elements))
]

unfoldable pub add_leaf : Dimension → Text → Dimension × ℕ
unfolding add_element
add_leaf d name = add_element d name leaf

pub add_string : Dimension → Text → Dimension × ℕ
unfolding add_element
add_string d name = add_element d name string

unfoldable pub add_consolidated : Dimension → Text → Dimension × ℕ
unfolding add_element
add_consolidated d name = add_element d name consolidated

abbrev pub same_kind : ElementKind → ElementKind → Bool
same_kind leaf leaf = true
same_kind string string = true
same_kind consolidated consolidated = true
same_kind _ _ = false

abbrev pub is_empty : List Edge → Bool
is_empty [] = true
is_empty (e ∷ es) = false

-- `set_kind` when the kind is another one
pub change_kind :
    Dimension → ℕ → Element → ElementKind → Result ModelError (Dimension × ElementKind)
change_kind d index e kind = do
  guard (not (is_consolidated e.kind && not (is_empty (edges_of d.children index))))
      (consolidation_has_children d.name e.name)
  ok (record d { elements = set d.elements index (record e { kind = kind }) }, e.kind)

-- Dimension::set_kind, with the kind before
pub set_kind : Dimension → ℕ → ElementKind → Result ModelError (Dimension × ElementKind)
unfolding change_kind
set_kind d index kind = do
  e ← element d index
  if same_kind e.kind kind then ok (d, e.kind) else change_kind d index e kind

-- Dimension::pin_to_top and unpin_from_top
unfoldable pub set_pin : Dimension → ℕ → Bool → Result ModelError Dimension
set_pin d index pin = do
  e ← element d index
  ok (record d { elements = set d.elements index (record e { pinned_to_top = pin }) })

-- Dimension::add_attribute, with the index it returns
pub add_attribute : Dimension → Text → AttributeKind → Dimension × ℕ
add_attribute d name kind = elim (lookup name d.attr_index_by_name) [
  | some existing ↦ (d, existing)
  | none ↦ (
    record d {
      attr_index_by_name = insert name (as_u32 (length d.attributes)) d.attr_index_by_name;
      attributes = d.attributes ++ (record { name = name; kind = kind }) ∷ [];
    },
    as_u32 (length d.attributes),
  )
]
