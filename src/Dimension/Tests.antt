-- ===== src/Dimension/Tests.antt =====
-- A dimension with two numeric leaves (0 and 1), a consolidation of both (2) and an empty one (3):
-- what its operations do, and the theorems applied to it.
use epiphany.Base.{
  length, ◌<◌, ◌^◌, ℕ, false, ◌≡◌, refl, ap, zero, suc, List, [], ◌∷◌, some, arith, ◌↔◌, In, inl,
  inr,
}
use epiphany.Base.Int.{ℤ, pos, ◌*ℤ◌}
use epiphany.Base.Eq.{nat_eq, list_eq}
use epiphany.Base.Assoc.{lookup, insert, remove}
use epiphany.Base.Result.{ok, err}
use epiphany.Model.{rejected, cycle_detected}
use epiphany.Fixed.{is_zero_i64}
use epiphany.Dimension.{Dimension, Element, ElementKind, Edge, leaf, consolidated, new, element}
use epiphany.Dimension.Elements.{add_element, add_leaf, add_consolidated, push_element}
use epiphany.Dimension.Elements.Add.{
  IsAdded, IsNamed, new-IsNamed, add_element-IsNamed, new-IsHierarchy, add_element-IsHierarchy,
  add_element-IsAdded,
}
use epiphany.Dimension.Hierarchy.{
  reaches, reaches_loop, add_child, reparent, attach, detach, drop_edges_to, push_edge,
}
use epiphany.Dimension.Hierarchy.Graph.{Descends}
use epiphany.Dimension.Hierarchy.Search.{IsRight, reaches-IsRight}
use epiphany.Dimension.Hierarchy.WellFormed.{IsHierarchy}
use epiphany.Dimension.Hierarchy.AddChild.{add_child_exact, add_child-IsHierarchy}
use epiphany.Dimension.Hierarchy.Reparent.{reparent-IsHierarchy}
use epiphany.Dimension.Hierarchy.Moves.{HasParent, SameElsewhere, reparent_moves}
use epiphany.Dimension.Leaves.{
  leaf_weights, weights_loop, saturating_mul, clamp_i64, finish, sort_by_leaf, insert_sorted,
}
use epiphany.Dimension.Leaves.Queue.{Queued}
use epiphany.Dimension.Leaves.Sort.{IsAscending}
use epiphany.Dimension.Leaves.Walk.{IsNumeric}
use epiphany.Dimension.Leaves.Exact.{
  IsPlain, leaf_weights-IsPlain, IsWeighted, leaf_weights-IsWeighted,
}

abbrev named : ℕ → ElementKind → Element
named c kind = record { name = c ∷ []; kind = kind; pinned_to_top = false }

abbrev edge : ℕ → ℤ → Edge
edge child weight = record { child = child; weight = weight }

-- the four elements with the given edges
abbrev region_with : List (List Edge) → Dimension
region_with g = record {
  name = b'r' ∷ [];
  elements =
      named b'n' leaf ∷ named b's' leaf ∷ named b't' consolidated ∷ named b'w' consolidated ∷ [];
  index_by_name = (b'w' ∷ [], 3) ∷ (b't' ∷ [], 2) ∷ (b's' ∷ [], 1) ∷ (b'n' ∷ [], 0) ∷ [];
  children = g;
  attributes = [];
  attr_index_by_name = [];
  attr_values = [] ∷ [] ∷ [] ∷ [] ∷ [];
  alias_to_element = [];
}

abbrev bare : Dimension
bare = region_with ([] ∷ [] ∷ [] ∷ [] ∷ [])

abbrev one_child : Dimension
one_child = region_with ([] ∷ [] ∷ (edge 0 (pos 1) ∷ []) ∷ [] ∷ [])

abbrev region : Dimension
region = region_with ([] ∷ [] ∷ (edge 0 (pos 1) ∷ edge 1 (pos 1) ∷ []) ∷ [] ∷ [])

bare_built :
    (add_consolidated
      (add_consolidated
        (add_leaf (add_leaf (new (b'r' ∷ [])) (b'n' ∷ [])).0 (b's' ∷ [])).0
        (b't' ∷ [])).0
      (b'w' ∷ [])).0
    ≡ bare
unfolding add_consolidated add_leaf add_element push_element lookup insert remove
bare_built = refl

bare-IsHierarchy : IsHierarchy bare
unfolding add_consolidated add_leaf add_element push_element lookup insert remove
bare-IsHierarchy = add_element-IsHierarchy _ (b'w' ∷ []) consolidated (
    add_element-IsHierarchy _ (b't' ∷ []) consolidated (
      add_element-IsHierarchy _ (b's' ∷ []) leaf
        (add_element-IsHierarchy (new (b'r' ∷ [])) (b'n' ∷ []) leaf (new-IsHierarchy (b'r' ∷ [])))))

one_child_built : add_child bare 2 0 (pos 1) ≡ ok one_child
unfolding add_child reaches reaches_loop element
one_child_built = refl

region_built : add_child one_child 2 1 (pos 1) ≡ ok region
unfolding add_child reaches reaches_loop element
region_built = refl

one_child-IsHierarchy : IsHierarchy one_child
one_child-IsHierarchy =
    add_child-IsHierarchy bare one_child 2 0 (pos 1) bare-IsHierarchy one_child_built

region-IsHierarchy : IsHierarchy region
region-IsHierarchy =
    add_child-IsHierarchy one_child region 2 1 (pos 1) one_child-IsHierarchy region_built

add_child-IsHierarchy_example : IsHierarchy region
add_child-IsHierarchy_example =
    add_child-IsHierarchy one_child region 2 1 (pos 1) one_child-IsHierarchy region_built

reaches-IsRight_example : IsRight region.children 1 2 (reaches region 2 1)
reaches-IsRight_example = reaches-IsRight region 2 1 refl region-IsHierarchy.ranged (omega arith)

-- the two consolidations, one below the other
abbrev crossed : Dimension
crossed = region_with ([] ∷ [] ∷ (edge 3 (pos 1) ∷ []) ∷ [] ∷ [])

-- The other way round closes a cycle.
cycle_refused :
    add_child crossed 3 2 (pos 1)
    ≡ err (rejected (cycle_detected (b'r' ∷ []) (b'w' ∷ []) (b't' ∷ [])))
unfolding add_child reaches reaches_loop element
cycle_refused = refl

add_child_exact_example :
    (Descends region.children 2 3
      → add_child region 3 2 (pos 1)
        ≡ err (rejected (cycle_detected (b'r' ∷ []) (b'w' ∷ []) (b't' ∷ []))))
    × (¬ Descends region.children 2 3
        → add_child region 3 2 (pos 1)
          ≡ ok (record region { children = push_edge region.children 3 (edge 2 (pos 1)) }))
add_child_exact_example =
    add_child_exact region 3 2 (pos 1) (named b'w' consolidated) (named b't' consolidated)
      region-IsHierarchy refl refl refl

abbrev moved : Dimension
moved = region_with ([] ∷ [] ∷ (edge 1 (pos 1) ∷ []) ∷ (edge 0 (pos 5) ∷ []) ∷ [])

moved_built : reparent region 0 (some 3) (pos 5) ≡ ok moved
unfolding reparent attach detach drop_edges_to reaches reaches_loop element
moved_built = refl

reparent-IsHierarchy_example : IsHierarchy moved
reparent-IsHierarchy_example =
    reparent-IsHierarchy region moved 0 (some 3) (pos 5) region-IsHierarchy moved_built

reparent_moves_example : HasParent moved 0 (some 3) × SameElsewhere region moved 0
reparent_moves_example =
    reparent_moves region moved 0 (some 3) (pos 5) region-IsHierarchy moved_built

-- A diamond: 1 stands directly below 2 with the weight 1, and below 3 with the weight 7.
abbrev diamond : Dimension
diamond =
    region_with (
      []
      ∷ []
      ∷ (edge 3 (pos 2) ∷ edge 1 (pos 1) ∷ [])
      ∷ (edge 1 (pos 7) ∷ edge 0 (pos 3) ∷ [])
      ∷ [])

-- The most direct path gives the weight.
diamond_expanded : leaf_weights diamond 2 ≡ ok ((0, pos 6) ∷ (1, pos 1) ∷ [])
unfolding leaf_weights weights_loop saturating_mul clamp_i64 finish sort_by_leaf insert_sorted
    element ◌*ℤ◌ insert remove is_zero_i64
diamond_expanded = refl

region-IsPlain : IsPlain region
region-IsPlain zero e m = absurd m
region-IsPlain (suc zero) e m = absurd m
region-IsPlain (suc (suc zero)) e (inl q) = ap (λ (x : Edge). x.weight) q
region-IsPlain (suc (suc zero)) e (inr (inl q)) = ap (λ (x : Edge). x.weight) q
region-IsPlain (suc (suc zero)) e (inr (inr q)) = absurd q
region-IsPlain (suc (suc (suc zero))) e m = absurd m
region-IsPlain (suc (suc (suc (suc n)))) e m = absurd m

leaf_weights-IsPlain_example :
    (out : List (ℕ × ℤ)) × (leaf_weights region 2 ≡ ok out)
    × IsAscending out
    × ((n : ℕ) (w : ℤ)
        → In (n, w) out ↔ (Descends region.children 2 n × IsNumeric region n × (w ≡ pos 1)))
leaf_weights-IsPlain_example =
    leaf_weights-IsPlain region 2 region-IsHierarchy region-IsPlain (omega arith)

moved-IsHierarchy : IsHierarchy moved
moved-IsHierarchy =
    reparent-IsHierarchy region moved 0 (some 3) (pos 5) region-IsHierarchy moved_built

moved-IsWeighted : IsWeighted moved
unfolding is_zero_i64
moved-IsWeighted zero e m = absurd m
moved-IsWeighted (suc zero) e m = absurd m
moved-IsWeighted (suc (suc zero)) e (inl q) = ap (λ (x : Edge). is_zero_i64 x.weight) q
moved-IsWeighted (suc (suc zero)) e (inr q) = absurd q
moved-IsWeighted (suc (suc (suc zero))) e (inl q) = ap (λ (x : Edge). is_zero_i64 x.weight) q
moved-IsWeighted (suc (suc (suc zero))) e (inr q) = absurd q
moved-IsWeighted (suc (suc (suc (suc n)))) e m = absurd m

leaf_weights-IsWeighted_example :
    (out : List (ℕ × ℤ)) × (leaf_weights moved 3 ≡ ok out)
    × IsAscending out
    × ((n : ℕ) → Queued out n ↔ (Descends moved.children 3 n × IsNumeric moved n))
    × ((n : ℕ) (w : ℤ) → In (n, w) out → is_zero_i64 w ≡ false)
leaf_weights-IsWeighted_example =
    leaf_weights-IsWeighted moved 3 moved-IsHierarchy moved-IsWeighted (omega arith)

abbrev one_name : Dimension
one_name = (add_element (new (b'r' ∷ [])) (b'n' ∷ []) leaf).0

one_name-IsNamed : IsNamed one_name
one_name-IsNamed =
    add_element-IsNamed (new (b'r' ∷ [])) (b'n' ∷ []) leaf (omega arith) (new-IsNamed (b'r' ∷ []))

one_name_small : length one_name.elements < 2 ^ 32
unfolding add_element push_element lookup
one_name_small = omega arith

add_element-IsAdded_example :
    IsAdded one_name (b'e' ∷ []) leaf (add_element one_name (b'e' ∷ []) leaf)
add_element-IsAdded_example =
    add_element-IsAdded one_name (b'e' ∷ []) leaf one_name_small one_name-IsNamed
