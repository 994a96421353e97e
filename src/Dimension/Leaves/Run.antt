-- ===== src/Dimension/Leaves/Run.antt =====
-- The loop of `leaf_weights` ends within its fuel.
use epiphany.Base.{
  ℕ, zero, suc, ◌+◌, ◌<◌, ◌≡◌, refl, sym, subst, false, Option, some, List, [], ◌∷◌, ◌++◌,
  get_elem?, length, ◌⊎◌, inl, inr, arith, Bool-cases, In, get_elem?-lt, length-append,
}
use epiphany.Base.Int.{ℤ}
use epiphany.Base.Assoc.{insert}
use epiphany.Base.Eq.{nat_eq}
use epiphany.Dimension.{Dimension, Element, ElementKind, leaf, string, consolidated, Edge}
use epiphany.Dimension.Hierarchy.{edges_of}
use epiphany.Dimension.Hierarchy.WellFormed.{IsHierarchy}
use epiphany.Dimension.Leaves.{contains, weighted, weights_loop, saturating_mul}
use epiphany.Dimension.Leaves.Queue.{unvisited, unvisited-visit, unvisited-cons_le, length-weighted}
use epiphany.Dimension.Leaves.Walk.{Visited, IsWalk, IsWalk-skip}
use epiphany.Dimension.Leaves.Visit.{visit_leaf, visit_string, visit_consolidated}

module _ (els : List Element) (g : List (List Edge)) (fuel node : ℕ) (weight : ℤ)
    (queue : List (ℕ × ℤ)) (visited : List ℕ) (acc : List (ℕ × ℤ)) where
  loop-skip :
      Visited visited node
      → weights_loop (suc fuel) els g ((node, weight) ∷ queue) visited acc
        ≡ weights_loop fuel els g queue visited acc
  unfolding weights_loop
  loop-skip v = ground arith

  module _ (e : Element) (new : contains node visited ≡ false)
      (is_e : get_elem? els node ≡ some e) where
    loop-leaf :
        e.kind ≡ leaf
        → weights_loop (suc fuel) els g ((node, weight) ∷ queue) visited acc
          ≡ weights_loop fuel els g queue (node ∷ visited) (insert node weight acc)
    unfolding weights_loop
    loop-leaf kind = ground arith

    loop-string :
        e.kind ≡ string
        → weights_loop (suc fuel) els g ((node, weight) ∷ queue) visited acc
          ≡ weights_loop fuel els g queue (node ∷ visited) acc
    unfolding weights_loop
    loop-string kind = ground arith

    loop-consolidated :
        (es : List Edge)
        → e.kind ≡ consolidated
        → get_elem? g node ≡ some es
        → weights_loop (suc fuel) els g ((node, weight) ∷ queue) visited acc
          ≡ weights_loop fuel els g (queue ++ weighted weight es) (node ∷ visited) acc
    unfolding weights_loop
    loop-consolidated es kind is_es = ground arith

ElementKind-cases : (k : ElementKind) → (k ≡ leaf) ⊎ ((k ≡ string) ⊎ (k ≡ consolidated))
ElementKind-cases leaf = inl refl
ElementKind-cases string = inr (inl refl)
ElementKind-cases consolidated = inr (inr refl)

module _ (d : Dimension) (h : IsHierarchy d) (root : ℕ) (W : ℤ → Type 0)
    (grow : (n : ℕ) (e : Edge) (w : ℤ)
      → In e (edges_of d.children n)
      → W w
      → W (saturating_mul w e.weight)) where
  -- The run ends with a record that a finished walk has.
  abbrev pub Ends : Option (List (ℕ × ℤ)) → Type 0
  Ends r =
      (out : List (ℕ × ℤ)) × (visited : List ℕ) × (r ≡ some out) × IsWalk d root W [] visited out

  Ends-eq : {r r' : Option (List (ℕ × ℤ))} → r ≡ r' → Ends r' → Ends r
  Ends-eq e x = subst Ends (sym e) x

  pub weights_loop-Ends :
      (fuel : ℕ) (queue : List (ℕ × ℤ)) (visited : List ℕ) (acc : List (ℕ × ℤ))
      → IsWalk d root W queue visited acc
      → length queue + unvisited 0 d.children visited < fuel
      → Ends (weights_loop fuel d.elements d.children queue visited acc)
  weights_loop-Ends zero queue visited acc s lt = absurd (omega arith)
  weights_loop-Ends (suc fuel) [] visited acc s lt = (acc, visited, unfold weights_loop in refl, s)
  weights_loop-Ends (suc fuel) ((node, weight) ∷ queue) visited acc s lt =
      let fits = (s.queued (node, weight) (inl refl)).1 in
      let (e, is_e) = get_elem?-lt d.elements node fits in
      elim (Bool-cases (contains node visited)) [
        | inl v ↦ Ends-eq (loop-skip d.elements d.children fuel node weight queue visited acc v) (
            weights_loop-Ends fuel queue visited acc
              (IsWalk-skip d root W node weight queue visited acc v s) (omega arith))
        | inr new ↦ elim (ElementKind-cases e.kind) [
          | inl kind ↦
              Ends-eq
                (loop-leaf d.elements d.children fuel node weight queue visited acc e new is_e kind)
                (weights_loop-Ends fuel queue (node ∷ visited) (insert node weight acc)
                  (visit_leaf d h root W grow node weight queue visited acc e is_e kind s)
                  (omega (arith, unvisited-cons_le 0 d.children visited node)))
          | inr (inl kind) ↦
              Ends-eq
                (loop-string d.elements d.children fuel node weight queue visited acc e new is_e
                  kind)
                (weights_loop-Ends fuel queue (node ∷ visited) acc
                  (visit_string d h root W grow node weight queue visited acc e is_e kind s)
                  (omega (arith, unvisited-cons_le 0 d.children visited node)))
          | inr (inr kind) ↦
              let (es, is_es) =
                get_elem?-lt d.children node (subst (λ x. node < x) (sym h.sized) fits) in
              Ends-eq
                (loop-consolidated d.elements d.children fuel node weight queue visited acc e new
                  is_e es kind is_es)
                (weights_loop-Ends fuel (queue ++ weighted weight es) (node ∷ visited) acc
                  (visit_consolidated d h root W grow node weight queue visited acc e es is_e kind
                    is_es s)
                  (omega (
                    arith,
                    length-append queue (weighted weight es),
                    length-weighted weight es,
                    unvisited-visit 0 d.children visited node node es (omega arith) is_es new,
                  )))
        ]
      ]
