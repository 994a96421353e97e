-- ===== src/Dimension/Hierarchy.antt =====
-- The edges of a dimension: `add_child`, `remove_child`, `reparent`, `reaches` and the reads of
-- crates/epiphany-core/src/dimension.rs.
pub mod Graph
pub mod Marks
pub mod Search
pub mod WellFormed
pub mod AddChild
pub mod Reparent
pub mod Moves
use epiphany.Base.{
  ℕ, zero, suc, ◌+◌, Bool, true, false, not, ◌||◌, Option, none, some, List, [], ◌∷◌, map,
  get_elem?, set, length, replicate, ◌==◌, if◌then◌else◌, ◌++◌,
}
use epiphany.Base.Int.{ℤ}
use epiphany.Base.Result.{Result, ok, err, ◌>>=◌, ◌>>◌, guard, ok_or}
use epiphany.Text.{Text}
use epiphany.Model.{
  ModelError, Failure, rejected, panic, lift, parent_not_consolidated, cycle_detected, self_parent,
}
use epiphany.Dimension.{Dimension, Element, Edge, ElementKind, leaf, string, consolidated, element}

-- the edges under an element; none out of range
abbrev pub edges_of : List (List Edge) → ℕ → List Edge
edges_of g n = elim (get_elem? g n) [ none ↦ [] | some es ↦ es ]

-- pushes the children of the edges, the last one on top
abbrev pub push_children : List Edge → List ℕ → List ℕ
push_children [] stack = stack
push_children (e ∷ es) stack = push_children es (e.child ∷ stack)

-- The loop of `reaches`, with its stack and its marks. `none` stands for an index out of range,
-- where the code would panic, and for fuel that has run out.
unfoldable pub reaches_loop : ℕ → List (List Edge) → ℕ → List ℕ → List Bool → Option Bool
reaches_loop zero g to stack seen = none
reaches_loop (suc fuel) g to [] seen = some false
reaches_loop (suc fuel) g to (node ∷ stack) seen = elim (node == to) [
  | true ↦ some true
  | false ↦ elim (get_elem? seen node) [
    | none ↦ none
    | some true ↦ reaches_loop fuel g to stack seen
    | some false ↦ elim (get_elem? g node) [
      | none ↦ none
      | some es ↦ reaches_loop fuel g to (push_children es stack) (set seen node true)
    ]
  ]
]

abbrev pub count_edges : List (List Edge) → ℕ
count_edges [] = 0
count_edges (es ∷ g) = length es + count_edges g

-- One round for the start, one for each edge, and one to see the empty stack.
unfoldable pub reaches : Dimension → ℕ → ℕ → Option Bool
unfolding reaches_loop
reaches d from to =
    reaches_loop (count_edges d.children + 2) d.children to (from ∷ [])
      (replicate (length d.elements) false)

-- pushes an edge onto those of its parent
abbrev pub push_edge : List (List Edge) → ℕ → Edge → List (List Edge)
push_edge [] n e = []
push_edge (es ∷ g) zero e = (es ++ e ∷ []) ∷ g
push_edge (es ∷ g) (suc n) e = es ∷ push_edge g n e

abbrev pub is_consolidated : ElementKind → Bool
is_consolidated consolidated = true
is_consolidated _ = false

-- edges.retain(|e| e.child != child)
unfoldable pub drop_edges_to : ℕ → List Edge → List Edge
drop_edges_to child [] = []
drop_edges_to child (e ∷ es) =
    let rest = drop_edges_to child es in if e.child == child then rest else e ∷ rest

-- `reaches` inside an operation: its panic aborts the operation
abbrev pub check_reaches : Dimension → ℕ → ℕ → Result Failure Bool
check_reaches d from to = ok_or (reaches d from to) panic

-- Dimension::add_child
unfoldable pub add_child : Dimension → ℕ → ℕ → ℤ → Result Failure Dimension
add_child d parent child weight = do
  c ← lift (element d child)
  p ← lift (element d parent)
  guard (is_consolidated p.kind) (rejected (parent_not_consolidated d.name p.name))
  cyclic ← if child == parent then ok true else check_reaches d child parent
  guard (not cyclic) (rejected (cycle_detected d.name p.name c.name))
  ok (record d {
    children = push_edge d.children parent (record { child = child; weight = weight });
  })

-- Dimension::remove_child
pub remove_child : Dimension → ℕ → ℕ → Result Failure Dimension
unfolding drop_edges_to
remove_child d parent child = do
  c ← lift (element d child)
  p ← lift (element d parent)
  ok (record d {
    children = set d.children parent (drop_edges_to child (edges_of d.children parent));
  })

-- the second half of `reparent`: a leaf that gains a child becomes a consolidation
unfoldable pub attach : Dimension → ℕ → ℕ → ℤ → Element → Dimension
attach d child parent weight p = record d {
  elements = set d.elements parent (record p { kind = consolidated });
  children = push_edge d.children parent (record { child = child; weight = weight });
}

unfoldable pub detach : Dimension → ℕ → Dimension
unfolding drop_edges_to
detach d child = record d { children = map (drop_edges_to child) d.children }

-- Dimension::reparent
unfoldable pub reparent : Dimension → ℕ → Option ℕ → ℤ → Result Failure Dimension
unfolding attach detach
reparent d child none weight = do c ← lift (element d child); ok (detach d child)
reparent d child (some parent) weight = do
  c ← lift (element d child)
  p ← lift (element d parent)
  guard (not (parent == child)) (rejected (self_parent d.name c.name))
  cyclic ← check_reaches d child parent
  guard (not cyclic) (rejected (cycle_detected d.name p.name c.name))
  ok (attach (detach d child) child parent weight p)

-- Dimension::children_of
pub children_of : Dimension → ℕ → Result ModelError (List ℕ)
children_of d index = do
  e ← element d index
  ok (map (λ (edge : Edge). edge.child) (edges_of d.children index))

find_weight : ℕ → List Edge → Option ℤ
find_weight child [] = none
find_weight child (e ∷ es) = if e.child == child then some e.weight else find_weight child es

-- Dimension::child_weight
pub child_weight : Dimension → ℕ → ℕ → Result ModelError (Option ℤ)
unfolding find_weight
child_weight d parent child = do
  p ← element d parent
  c ← element d child
  ok (find_weight child (edges_of d.children parent))
