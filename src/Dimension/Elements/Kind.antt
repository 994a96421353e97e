-- ===== src/Dimension/Elements/Kind.antt =====
-- Changing the kind of an element: the hierarchy stays well formed.
use epiphany.Base.{
  ℕ, ◌≡◌, sym, subst, ◌∙◌, true, false, not, ◌&&◌, some, List, [], ◌∷◌, get_elem?, set, inl, inr,
  ◌==◌, ==_iff, arith, In, Bool-cases, length-set, get_elem?-set_ne,
}
use epiphany.Base.Result.{Result, ok, bind-eq-ok, guard-eq-ok}
use epiphany.Model.{ModelError, consolidation_has_children}
use epiphany.Dimension.{Dimension, Element, ElementKind, Edge, element}
use epiphany.Dimension.Hierarchy.{is_consolidated, edges_of}
use epiphany.Dimension.Hierarchy.Graph.{IsChild}
use epiphany.Dimension.Hierarchy.WellFormed.{IsHierarchy, element-eq-ok}
use epiphany.Dimension.Elements.{set_kind, change_kind, same_kind, is_empty}

-- an element without children, given any kind
retype-IsHierarchy :
    (d : Dimension) (i : ℕ) (e e' : Element)
    → get_elem? d.elements i ≡ some e
    → ((c : ℕ) → ¬ IsChild d.children i c)
    → IsHierarchy d
    → IsHierarchy (record d { elements = set d.elements i e' })
retype-IsHierarchy d i e e' is_e bare h = record {
  sized = h.sized ∙ sym (length-set d.elements i e');
  ranged = h.ranged;
  acyclic = h.acyclic;
  parents = λ n c k x is_x. elim (Bool-cases (i == n)) [
    | inl q ↦ absurd (bare c (subst (λ m. IsChild d.children m c) (sym ((==_iff i n).0 q)) k))
    | inr q ↦
        h.parents n c k x
          (sym (get_elem?-set_ne d.elements e' (λ same. absurd (grind (arith, same, q)))) ∙ is_x)
  ];
}

is_empty-In : (es : List Edge) (x : Edge) → is_empty es ≡ true → ¬ In x es
is_empty-In [] x e m = m
is_empty-In (y ∷ es) x e m = absurd (cc)

not_consolidated-bare :
    (d : Dimension) (i c : ℕ) (e : Element)
    → IsHierarchy d
    → get_elem? d.elements i ≡ some e
    → is_consolidated e.kind ≡ false
    → ¬ IsChild d.children i c
not_consolidated-bare d i c e h is_e q k = absurd (cc (h.parents i c k e is_e, q))

change_kind-IsHierarchy :
    (d d' : Dimension) (i : ℕ) (e : Element) (kind old : ElementKind)
    → IsHierarchy d
    → get_elem? d.elements i ≡ some e
    → change_kind d i e kind ≡ ok (d', old)
    → IsHierarchy d'
unfolding change_kind
change_kind-IsHierarchy d d' i e kind old h is_e run =
    let (test, done) =
      guard-eq-ok (not (is_consolidated e.kind && not (is_empty (edges_of d.children i))))
        (consolidation_has_children d.name e.name) _ run in
    let same : record d { elements = set d.elements i (record e { kind = kind }) } ≡ d' = cc in
    subst IsHierarchy same (
      retype-IsHierarchy d i e (record e { kind = kind }) is_e
        (λ c k. elim (Bool-cases (is_consolidated e.kind)) [
          | inl q ↦ is_empty-In (edges_of d.children i) k.0 (ground (arith, test, q)) k.1
          | inr q ↦ not_consolidated-bare d i c e h is_e q k
        ])
        h)

-- A change of kind that is accepted keeps the hierarchy well formed.
pub set_kind-IsHierarchy :
    (d d' : Dimension) (i : ℕ) (kind old : ElementKind)
    → IsHierarchy d
    → set_kind d i kind ≡ ok (d', old)
    → IsHierarchy d'
unfolding set_kind
set_kind-IsHierarchy d d' i kind old h run =
    let (e, found, rest) = bind-eq-ok (element d i) _ run in
    elim (Bool-cases (same_kind e.kind kind)) [
      | inl q ↦
          let done : ◌≡◌ {A = Result ModelError (Dimension × ElementKind)} (ok (d, e.kind))
              (ok (d', old)) =
            rw q at rest in
          let same : d ≡ d' = cc in subst IsHierarchy same h
      | inr q ↦
          change_kind-IsHierarchy d d' i e kind old h (element-eq-ok d i e found).0 (rw q at rest)
    ]
