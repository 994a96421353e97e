-- ===== src/Dimension/Leaves/Visit.antt =====
-- One round of `leaf_weights`, for each kind of element.
use epiphany.Base.{
  ℕ, ◌<◌, ◌≡◌, refl, sym, subst, ◌∙◌, some, List, ◌∷◌, ◌++◌, get_elem?, length, inl, inr, ◌==◌,
  arith, ==_iff, Bool-cases, In, In-append, In-append_left, In-append_right,
}
use epiphany.Base.Int.{ℤ}
use epiphany.Base.Assoc.{insert}
use epiphany.Base.Eq.{nat_eq}
use epiphany.Dimension.{Dimension, Element, leaf, string, consolidated, Edge}
use epiphany.Dimension.Hierarchy.{edges_of}
use epiphany.Dimension.Hierarchy.Graph.{Descends, down}
use epiphany.Dimension.Hierarchy.WellFormed.{IsHierarchy}
use epiphany.Dimension.Leaves.{weighted, saturating_mul}
use epiphany.Dimension.Leaves.Queue.{
  weighted-has, In-weighted, In-insert, In-insert_self, In-insert_ne,
}
use epiphany.Dimension.Leaves.Sort.{insert-Distinct}
use epiphany.Dimension.Leaves.Walk.{
  Visited, Visited-self, Visited-cons, Visited-cases, IsNumeric, kind_of, leaf-ne-consolidated,
  string-ne-consolidated, leaf-ne-string, IsWalk, IsWalk-visit,
}

module _ (d : Dimension) (h : IsHierarchy d) (root : ℕ) (W : ℤ → Type 0)
    (grow : (n : ℕ) (e : Edge) (w : ℤ)
      → In e (edges_of d.children n)
      → W w
      → W (saturating_mul w e.weight)) where
  pub visit_leaf :
      (node : ℕ) (weight : ℤ) (queue : List (ℕ × ℤ)) (visited : List ℕ) (acc : List (ℕ × ℤ))
      (e : Element)
      → get_elem? d.elements node ≡ some e
      → e.kind ≡ leaf
      → IsWalk d root W ((node, weight) ∷ queue) visited acc
      → IsWalk d root W queue (node ∷ visited) (insert node weight acc)
  visit_leaf node weight queue visited acc e is_e kind s =
      let (below, fits, w_ok) = s.queued (node, weight) (inl refl) in
      IsWalk-visit d root W node weight queue queue visited acc (insert node weight acc) s
        (λ m k. k) (λ x m. s.queued x (inr m))
        (λ c k. absurd (leaf-ne-consolidated (sym kind ∙ h.parents node c k e is_e)))
        (λ n w m. elim (In-insert node n weight w acc m) [
          | inl (a, b) ↦ (
            subst (Descends d.children root) (sym a) below,
            subst (IsNumeric d) (sym a) (e, is_e, kind),
            subst W (sym b) w_ok,
            subst (Visited (node ∷ visited)) (sym a) (Visited-self visited node),
          )
          | inr old ↦ let (p, q, r, v) = s.sound n w old in (p, q, r, Visited-cons visited node n v)
        ])
        (λ n v num. elim (Bool-cases (node == n)) [
          | inl q ↦ (
            weight,
            subst (λ x. In (x, weight) (insert node weight acc)) ((==_iff node n).0 q)
                (In-insert_self node weight acc),
          )
          | inr q ↦ elim (Visited-cases visited node n v) [
            | inl z ↦ absurd (ground arith)
            | inr v' ↦
                let (w, m) = s.complete n v' num in
                (w, In-insert_ne node n weight w acc (λ z. ground arith) m)
          ]
        ])
        (insert-Distinct node weight acc s.once)

  pub visit_string :
      (node : ℕ) (weight : ℤ) (queue : List (ℕ × ℤ)) (visited : List ℕ) (acc : List (ℕ × ℤ))
      (e : Element)
      → get_elem? d.elements node ≡ some e
      → e.kind ≡ string
      → IsWalk d root W ((node, weight) ∷ queue) visited acc
      → IsWalk d root W queue (node ∷ visited) acc
  visit_string node weight queue visited acc e is_e kind s =
      IsWalk-visit d root W node weight queue queue visited acc acc s (λ m k. k)
        (λ x m. s.queued x (inr m))
        (λ c k. absurd (string-ne-consolidated (sym kind ∙ h.parents node c k e is_e)))
        (λ n w m. let (p, q, r, v) = s.sound n w m in (p, q, r, Visited-cons visited node n v))
        (λ n v num. elim (Visited-cases visited node n v) [
          | inl z ↦ absurd (not_numeric n z num)
          | inr v' ↦ s.complete n v' num
        ])
        s.once
    where
      not_numeric : (n : ℕ) → node ≡ n → IsNumeric d n → ⊥
      not_numeric n z (x, is_x, is_leaf) = leaf-ne-string (
          sym is_leaf
          ∙ kind_of d n x e is_x (subst (λ y. get_elem? d.elements y ≡ some e) z is_e)
          ∙ kind)

  pub visit_consolidated :
      (node : ℕ) (weight : ℤ) (queue : List (ℕ × ℤ)) (visited : List ℕ) (acc : List (ℕ × ℤ))
      (e : Element) (es : List Edge)
      → get_elem? d.elements node ≡ some e
      → e.kind ≡ consolidated
      → get_elem? d.children node ≡ some es
      → IsWalk d root W ((node, weight) ∷ queue) visited acc
      → IsWalk d root W (queue ++ weighted weight es) (node ∷ visited) acc
  visit_consolidated node weight queue visited acc e es is_e kind is_es s =
      let (below, fits, w_ok) = s.queued (node, weight) (inl refl) in
      let row : edges_of d.children node ≡ es = rw (is_es, edges_of) in
      IsWalk-visit d root W node weight queue (queue ++ weighted weight es) visited acc acc s
        (λ m k. (k.0, In-append_left (m, k.0) queue (weighted weight es) k.1))
        (λ x m. elim (In-append x queue (weighted weight es) m) [
          | inl old ↦ s.queued x (inr old)
          | inr new ↦
              In-weighted (λ y. Descends d.children root y.0 × (y.0 < length d.elements) × W y.1)
                weight es
                (λ y k.
                  let edge = subst (In y) (sym row) k in
                  (
                    down below (y, edge, refl),
                    subst (λ z. y.child < z) h.sized (h.ranged node y.child (y, edge, refl)),
                    grow node y weight edge w_ok,
                  ))
                x new
        ])
        (λ c k.
          let (y, m, q) = k in
          let (w, here_too) = weighted-has weight es y (subst (In y) row m) in
          (
            w,
            In-append_right (c, w) queue (weighted weight es)
                (subst (λ z. In (z, w) (weighted weight es)) q here_too),
          ))
        (λ n w m. let (p, q, r, v) = s.sound n w m in (p, q, r, Visited-cons visited node n v))
        (λ n v num. elim (Visited-cases visited node n v) [
          | inl z ↦ absurd (not_numeric n z num)
          | inr v' ↦ s.complete n v' num
        ])
        s.once
    where
      not_numeric : (n : ℕ) → node ≡ n → IsNumeric d n → ⊥
      not_numeric n z (x, is_x, is_leaf) = leaf-ne-consolidated (
          sym is_leaf
          ∙ kind_of d n x e is_x (subst (λ y. get_elem? d.elements y ≡ some e) z is_e)
          ∙ kind)
