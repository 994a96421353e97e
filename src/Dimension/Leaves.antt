-- ===== src/Dimension/Leaves.antt =====
-- Expanding an element into its leaves: `leaf_weights` of crates/epiphany-core/src/dimension.rs.
pub mod Queue
pub mod Sort
pub mod Walk
pub mod Visit
pub mod Run
pub mod Exact
use Prim.Native.Nat.{◌^◌}
use epiphany.Base.{
  ℕ, zero, suc, ◌+◌, ◌-◌, Bool, true, false, ◌||◌, Option, none, some, List, [], ◌∷◌, ◌++◌, map,
  get_elem?, leb, ◌==◌, if◌then◌else◌, length,
}
use epiphany.Base.Int.{ℤ, pos, negsuc, ◌*ℤ◌}
use epiphany.Base.Eq.{nat_eq}
use epiphany.Base.Assoc.{insert}
use epiphany.Base.Result.{Result, ok, err, ◌>>=◌, ok_or}
use epiphany.Model.{ModelError, Failure, panic, lift}
use epiphany.Fixed.{i64_max, is_zero_i64}
use epiphany.Dimension.{Dimension, Element, ElementKind, Edge, leaf, string, consolidated, element}
use epiphany.Dimension.Hierarchy.{count_edges}

-- i64::saturating_mul
unfoldable pub clamp_i64 : ℤ → ℤ
clamp_i64 (pos n) = if leb n i64_max then pos n else pos i64_max
clamp_i64 (negsuc n) = if leb n i64_max then negsuc n else negsuc i64_max

unfoldable pub saturating_mul : ℤ → ℤ → ℤ
unfolding clamp_i64 ◌*ℤ◌
saturating_mul a b = clamp_i64 (a *ℤ b)

-- HashSet::contains
abbrev pub contains : ℕ → List ℕ → Bool
contains n [] = false
contains n (x ∷ xs) = x == n || contains n xs

-- what a consolidation appends to the queue
abbrev pub weighted : ℤ → List Edge → List (ℕ × ℤ)
weighted w [] = []
weighted w (e ∷ es) = (e.child, saturating_mul w e.weight) ∷ weighted w es

-- The loop of `leaf_weights`, with its queue, its visited elements and the weights found. `none`
-- stands for an index out of range, where the code would panic, and for fuel that has run out.
unfoldable pub weights_loop :
    ℕ
    → List Element
    → List (List Edge)
    → List (ℕ × ℤ)
    → List ℕ
    → List (ℕ × ℤ)
    → Option (List (ℕ × ℤ))
weights_loop zero els g queue visited acc = none
weights_loop (suc fuel) els g [] visited acc = some acc
weights_loop (suc fuel) els g ((node, weight) ∷ queue) visited acc = elim (contains node visited) [
  | true ↦ weights_loop fuel els g queue visited acc
  | false ↦ elim (get_elem? els node) [
    | none ↦ none
    | some e ↦ elim e.kind [
      | leaf ↦ weights_loop fuel els g queue (node ∷ visited) (insert node weight acc)
      | string ↦ weights_loop fuel els g queue (node ∷ visited) acc
      | consolidated ↦ elim (get_elem? g node) [
        | none ↦ none
        | some es ↦ weights_loop fuel els g (queue ++ weighted weight es) (node ∷ visited) acc
      ]
    ]
  ]
]

-- filter(|&(_, w)| w != 0)
abbrev pub nonzero : List (ℕ × ℤ) → List (ℕ × ℤ)
nonzero [] = []
nonzero ((n, w) ∷ ws) = let rest = nonzero ws in if is_zero_i64 w then rest else (n, w) ∷ rest

-- sort_by_key on the leaf
unfoldable pub insert_sorted : ℕ × ℤ → List (ℕ × ℤ) → List (ℕ × ℤ)
insert_sorted x [] = x ∷ []
insert_sorted x (y ∷ ys) =
    let rest = insert_sorted x ys in if leb x.0 y.0 then x ∷ y ∷ ys else y ∷ rest

unfoldable pub sort_by_leaf : List (ℕ × ℤ) → List (ℕ × ℤ)
unfolding insert_sorted
sort_by_leaf [] = []
sort_by_leaf (x ∷ xs) = insert_sorted x (sort_by_leaf xs)

unfoldable pub finish : List (ℕ × ℤ) → List (ℕ × ℤ)
unfolding sort_by_leaf
finish acc = sort_by_leaf (nonzero acc)

-- Dimension::leaf_weights. One round for the start, one for each edge, and one to see the empty
-- queue.
unfoldable pub leaf_weights : Dimension → ℕ → Result Failure (List (ℕ × ℤ))
unfolding weights_loop finish
leaf_weights d index = do
  e ← lift (element d index)
  acc ←
      ok_or
        (weights_loop (count_edges d.children + 2) d.elements d.children ((index, pos 1) ∷ []) []
          [])
        panic
  ok (finish acc)
