-- ===== src/Dimension/Hierarchy/WellFormed.antt =====
-- A well-formed hierarchy, and what the operations on edges share.
use mathlib.Core.Option.{some-injective}
use epiphany.Base.{
  ℕ, zero, suc, ◌<◌, ◌≡◌, refl, ap, sym, ◌∙◌, true, false, none, some, List, [], ◌∷◌, get_elem?,
  length, inl, inr, arith, Option-cases, lt-get_elem?,
}
use epiphany.Base.Result.{ok, ok_or}
use epiphany.Model.{lift}
use epiphany.Dimension.{Edge, Element, ElementKind, Dimension, element, consolidated, leaf, string}
use epiphany.Dimension.Hierarchy.{push_edge, reaches, is_consolidated, check_reaches}
use epiphany.Dimension.Hierarchy.Graph.{
  IsChild, Descends, IsAcyclic, IsAcyclic-push_edge, IsChild-push_edge,
}
use epiphany.Dimension.Hierarchy.Marks.{InRange}
use epiphany.Dimension.Hierarchy.Search.{IsRight, reaches-IsRight}

-- A row of edges for each element, edges that lead to elements, no cycle, and children under
-- consolidations alone.
pub record IsHierarchy (d : Dimension) : Type 0 where
  pub sized : length d.children ≡ length d.elements
  pub ranged : InRange d.children
  pub acyclic : IsAcyclic d.children
  pub parents :
      (n c : ℕ)
      → IsChild d.children n c
      → (e : Element) → get_elem? d.elements n ≡ some e
      → e.kind ≡ consolidated

pub length-push_edge :
    (g : List (List Edge)) (n : ℕ) (e : Edge) → length (push_edge g n e) ≡ length g
length-push_edge [] n e = refl
length-push_edge (es ∷ g) zero e = refl
length-push_edge (es ∷ g) (suc n) e = ap suc (length-push_edge g n e)

pub element-eq-ok :
    (d : Dimension) (i : ℕ) (e : Element)
    → element d i ≡ ok e
    → (get_elem? d.elements i ≡ some e) × (i < length d.elements)
unfolding element
element-eq-ok d i e h =
    let found : get_elem? d.elements i ≡ some e = ground arith in
    (found, lt-get_elem? d.elements i e found)

-- one more edge, from a consolidation to an element that it does not stand below
pub push_edge-IsHierarchy :
    (d : Dimension) (p : ℕ) (e : Edge) (x : Element)
    → IsHierarchy d
    → get_elem? d.elements p ≡ some x
    → x.kind ≡ consolidated
    → e.child < length d.elements
    → ¬ Descends d.children e.child p
    → IsHierarchy (record d { children = push_edge d.children p e })
push_edge-IsHierarchy d p e x h is_x kind fits free = record {
  sized = length-push_edge d.children p e ∙ h.sized;
  ranged = λ n c k. elim (IsChild-push_edge d.children p e n c k) [
    | inl old ↦ omega (arith, length-push_edge d.children p e, h.ranged n c old)
    | inr (a, b) ↦ rw (b, length-push_edge d.children p e, h.sized) fits
  ];
  acyclic = IsAcyclic-push_edge d.children p e h.acyclic free;
  parents = λ n c k y is_y. elim (IsChild-push_edge d.children p e n c k) [
    | inl old ↦ h.parents n c old y is_y
    | inr (a, b) ↦
        ap (λ (z : Element). z.kind)
          (some-injective y x (sym is_y ∙ ap (get_elem? d.elements) a ∙ is_x))
        ∙ kind
  ];
}

IsRight-check :
    (d : Dimension) (from to : ℕ)
    → IsRight d.children to from (reaches d from to)
    → (Descends d.children from to → check_reaches d from to ≡ ok true)
      × (¬ Descends d.children from to → check_reaches d from to ≡ ok false)
IsRight-check d from to h = elim (Option-cases (reaches d from to)) [
  | inl e ↦ absurd (let k : IsRight d.children to from none = rw e at h in k)
  | inr (true, e) ↦
      let k : Descends d.children from to = rw e at h in (λ p. rw (e, ok_or), λ q. absurd (q k))
  | inr (false, e) ↦
      let k : ¬ Descends d.children from to = rw e at h in (λ p. absurd (k p), λ q. rw (e, ok_or))
]

pub check_reaches_lem :
    (d : Dimension) (from to : ℕ)
    → IsHierarchy d
    → from < length d.elements
    → (Descends d.children from to → check_reaches d from to ≡ ok true)
      × (¬ Descends d.children from to → check_reaches d from to ≡ ok false)
check_reaches_lem d from to h fits =
    IsRight-check d from to (reaches-IsRight d from to h.sized h.ranged fits)

pub element-eq :
    (d : Dimension) (i : ℕ) (e : Element) → get_elem? d.elements i ≡ some e → element d i ≡ ok e
unfolding element
element-eq d i e h = ground arith

pub lift-eq-ok :
    (d : Dimension) (i : ℕ) (e : Element)
    → lift (element d i) ≡ ok e
    → get_elem? d.elements i ≡ some e
unfolding element
lift-eq-ok d i e h = ground arith

pub is_consolidated-true : (k : ElementKind) → is_consolidated k ≡ true → k ≡ consolidated
is_consolidated-true leaf h = cc
is_consolidated-true string h = cc
is_consolidated-true consolidated h = refl
