-- ===== src/Dimension/Hierarchy/Reparent.antt =====
-- `remove_child` and `reparent` keep the hierarchy well formed.
use mathlib.Core.Option.{some-injective}
use epiphany.Base.{
  ℕ, ◌<◌, ◌≡◌, refl, ap, sym, subst, ◌∙◌, false, not, Option, none, some, List, map, get_elem?, set,
  length, inl, inr, ◌==◌, arith, ==_iff, Bool-cases, length-set, get_elem?-set_self,
  get_elem?-set_ne, lt-get_elem?, length-map,
}
use epiphany.Base.Int.{ℤ}
use epiphany.Base.Result.{ok, bind-eq-ok, guard-eq-ok}
use epiphany.Model.{lift}
use epiphany.Dimension.{Edge, Element, Dimension, element, consolidated, len}
use epiphany.Dimension.Hierarchy.{
  edges_of, drop_edges_to, remove_child, reparent, attach, detach, check_reaches,
}
use epiphany.Dimension.Hierarchy.Graph.{
  Descends, Sub, IsAcyclic-Sub, Descends-mono, Sub-map_drop, Sub-set_drop,
}
use epiphany.Dimension.Hierarchy.AddChild.{true-ne-false}
use epiphany.Dimension.Hierarchy.WellFormed.{
  IsHierarchy, push_edge-IsHierarchy, check_reaches_lem, lift-eq-ok,
}

-- Fewer edges over the same elements.
fewer-IsHierarchy :
    (d : Dimension) (g : List (List Edge))
    → length g ≡ length d.children
    → Sub g d.children
    → IsHierarchy d
    → IsHierarchy (record d { children = g })
fewer-IsHierarchy d g len s h = record {
  sized = len ∙ h.sized;
  ranged = λ n c k. subst (λ x. c < x) (sym len) (h.ranged n c (s n c k));
  acyclic = IsAcyclic-Sub s h.acyclic;
  parents = λ n c k. h.parents n c (s n c k);
}

-- `remove_child` keeps the hierarchy well formed.
pub remove_child-IsHierarchy :
    (d d' : Dimension) (parent child : ℕ)
    → IsHierarchy d
    → remove_child d parent child ≡ ok d'
    → IsHierarchy d'
unfolding remove_child
remove_child-IsHierarchy d d' parent child h e =
    let (c, is_c, e1) = bind-eq-ok (lift (element d child)) _ e in
    let (p, is_p, e2) = bind-eq-ok (lift (element d parent)) _ e1 in
    let same : record d {
      children = set d.children parent (drop_edges_to child (edges_of d.children parent));
    }
        ≡ d' =
      cc in
    subst IsHierarchy same (
      fewer-IsHierarchy d (set d.children parent (drop_edges_to child (edges_of d.children parent)))
        (length-set d.children parent _) (Sub-set_drop child parent d.children) h)

detach-IsHierarchy : (d : Dimension) (child : ℕ) → IsHierarchy d → IsHierarchy (detach d child)
unfolding detach
detach-IsHierarchy d child h =
    fewer-IsHierarchy d (map (drop_edges_to child) d.children)
      (length-map d.children (drop_edges_to child)) (Sub-map_drop child d.children) h

-- a leaf that turns into a consolidation has no children to mind
promote-IsHierarchy :
    (d : Dimension) (i : ℕ) (p : Element)
    → IsHierarchy d
    → IsHierarchy (record d { elements = set d.elements i (record p { kind = consolidated }) })
promote-IsHierarchy d i p h = record {
  sized = h.sized ∙ sym (length-set d.elements i _);
  ranged = h.ranged;
  acyclic = h.acyclic;
  parents = λ n c k e is_e. elim (Bool-cases (i == n)) [
    | inl q ↦ promoted e (subst (λ x. get_elem? grown x ≡ some e) (sym ((==_iff i n).0 q)) is_e)
    | inr q ↦ h.parents n c k e (sym (get_elem?-set_ne d.elements _ (λ z. ground arith)) ∙ is_e)
  ];
}
  where
    grown : List Element
    grown = set d.elements i (record p { kind = consolidated })

    promoted : (e : Element) → get_elem? grown i ≡ some e → e.kind ≡ consolidated
    promoted e is_e =
        let fits : i < length d.elements = omega (
          arith,
          lt-get_elem? grown i e is_e,
          length-set d.elements i (record p { kind = consolidated }),
        ) in
        ap (λ (z : Element). z.kind)
          (some-injective e (record p { kind = consolidated })
            (sym is_e ∙ get_elem?-set_self d.elements i _ fits))

-- the state before the new edge
abbrev freed : Dimension → ℕ → ℕ → Element → Dimension
freed d child parent p = record (detach d child) {
  elements = set d.elements parent (record p { kind = consolidated });
}

freed-IsHierarchy :
    (d : Dimension) (child parent : ℕ) (p : Element)
    → IsHierarchy d
    → IsHierarchy (freed d child parent p)
freed-IsHierarchy d child parent p h =
    unfold detach in promote-IsHierarchy (detach d child) parent p (detach-IsHierarchy d child h)

attach-IsHierarchy :
    (d : Dimension) (child parent : ℕ) (weight : ℤ) (p : Element)
    → IsHierarchy d
    → get_elem? d.elements parent ≡ some p
    → child < length d.elements
    → ¬ Descends d.children child parent
    → IsHierarchy (attach (detach d child) child parent weight p)
unfolding attach detach
attach-IsHierarchy d child parent weight p h is_p fits free =
    push_edge-IsHierarchy (freed d child parent p) parent
      (record { child = child; weight = weight }) (record p { kind = consolidated })
      (freed-IsHierarchy d child parent p h)
      (get_elem?-set_self d.elements parent _ (lt-get_elem? d.elements parent p is_p)) refl
      (subst (λ x. child < x) (sym (length-set d.elements parent _)) fits)
      (λ q. free (Descends-mono (Sub-map_drop child d.children) q))

-- What a move under a parent has found and made.
pub reparent-eq-ok :
    (d d' : Dimension) (child parent : ℕ) (weight : ℤ)
    → reparent d child (some parent) weight ≡ ok d'
    → (c p : Element) × (get_elem? d.elements child ≡ some c)
      × (get_elem? d.elements parent ≡ some p)
      × (check_reaches d child parent ≡ ok false)
      × (attach (detach d child) child parent weight p ≡ d')
unfolding reparent
reparent-eq-ok d d' child parent weight h =
    let (c, is_c, h1) = bind-eq-ok (lift (element d child)) _ h in
    let (p, is_p, h2) = bind-eq-ok (lift (element d parent)) _ h1 in
    let (other, h3) = guard-eq-ok (not (parent == child)) _ _ h2 in
    let (cyclic, test, h4) = bind-eq-ok (check_reaches d child parent) _ h3 in
    let (free, h5) = guard-eq-ok (not cyclic) _ _ h4 in
    (c, p, lift-eq-ok d child c is_c, lift-eq-ok d parent p is_p, ground arith, cc)

pub reparent-none-eq-ok :
    (d d' : Dimension) (child : ℕ) (weight : ℤ)
    → reparent d child none weight ≡ ok d'
    → detach d child ≡ d'
unfolding reparent
reparent-none-eq-ok d d' child weight h =
    let (c, is_c, h1) = bind-eq-ok (lift (element d child)) _ h in cc

-- `reparent` keeps the hierarchy well formed: it never closes a cycle, and the new parent is a
-- consolidation afterwards.
pub reparent-IsHierarchy :
    (d d' : Dimension) (child : ℕ) (new_parent : Option ℕ) (weight : ℤ)
    → IsHierarchy d
    → reparent d child new_parent weight ≡ ok d'
    → IsHierarchy d'
reparent-IsHierarchy d d' child none weight h e =
    subst IsHierarchy (reparent-none-eq-ok d d' child weight e) (detach-IsHierarchy d child h)
reparent-IsHierarchy d d' child (some parent) weight h e =
    let (c, p, is_c, is_p, test, same) = reparent-eq-ok d d' child parent weight e in
    let fits = lt-get_elem? d.elements child c is_c in
    subst IsHierarchy same (
      attach-IsHierarchy d child parent weight p h is_p fits
        (λ q. true-ne-false ((check_reaches_lem d child parent h fits).0 q) test))
