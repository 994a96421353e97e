-- ===== src/Dimension/Hierarchy/AddChild.antt =====
-- `add_child` keeps the hierarchy well formed, and refuses exactly what would close a cycle.
use epiphany.Base.{
  ℕ, ◌<◌, ◌≡◌, subst, Bool, true, false, not, some, get_elem?, length, inl, inr, ◌==◌, arith,
  ==_iff, Bool-cases, if◌then◌else◌, lt-get_elem?,
}
use epiphany.Base.Int.{ℤ}
use epiphany.Base.Result.{Result, ok, err, bind-eq-ok, guard-eq-ok}
use epiphany.Model.{Failure, rejected, lift, cycle_detected}
use epiphany.Dimension.{Element, Dimension, element, consolidated}
use epiphany.Dimension.Hierarchy.{push_edge, add_child, is_consolidated, check_reaches}
use epiphany.Dimension.Hierarchy.Graph.{Descends, here}
use epiphany.Dimension.Hierarchy.WellFormed.{
  IsHierarchy, push_edge-IsHierarchy, check_reaches_lem, element-eq, lift-eq-ok,
  is_consolidated-true,
}

pub true-ne-false : {r : Result Failure Bool} → r ≡ ok true → r ≡ ok false → ⊥
true-ne-false p q = cc

-- The cycle test of `add_child`.
abbrev cyclic_test : Dimension → ℕ → ℕ → Result Failure Bool
cyclic_test d parent child = if child == parent then ok true else check_reaches d child parent

cyclic_test_lem :
    (d : Dimension) (parent child : ℕ)
    → IsHierarchy d
    → child < length d.elements
    → (Descends d.children child parent → cyclic_test d parent child ≡ ok true)
      × (¬ Descends d.children child parent → cyclic_test d parent child ≡ ok false)
cyclic_test_lem d parent child h fits = elim (Bool-cases (child == parent)) [
  | inl e ↦ (
    λ p. rw e,
    λ q. absurd (q (subst (Descends d.children child) ((==_iff child parent).0 e) here)),
  )
  | inr e ↦ rw e (check_reaches_lem d child parent h fits)
]

-- From elements of the dimension and a consolidation as parent, `add_child` is refused as a cycle
-- if the parent is the child or stands below it, and otherwise adds the edge.
pub add_child_exact :
    (d : Dimension) (parent child : ℕ) (weight : ℤ) (p c : Element)
    → IsHierarchy d
    → get_elem? d.elements parent ≡ some p
    → get_elem? d.elements child ≡ some c
    → p.kind ≡ consolidated
    → (Descends d.children child parent
        → add_child d parent child weight ≡ err (rejected (cycle_detected d.name p.name c.name)))
      × (¬ Descends d.children child parent
          → add_child d parent child weight
            ≡ ok (record d {
              children = push_edge d.children parent (record { child = child; weight = weight });
            }))
unfolding add_child
add_child_exact d parent child weight p c h is_p is_c kind =
    let test = cyclic_test_lem d parent child h (lt-get_elem? d.elements child c is_c) in
    rw (element-eq d child c is_c, element-eq d parent p is_p, kind)
      (λ q. rw (test.0 q), λ q. rw (test.1 q))

add_child-eq-ok :
    (d d' : Dimension) (parent child : ℕ) (weight : ℤ)
    → add_child d parent child weight ≡ ok d'
    → (c p : Element) × (get_elem? d.elements child ≡ some c)
      × (get_elem? d.elements parent ≡ some p)
      × (p.kind ≡ consolidated)
      × (cyclic_test d parent child ≡ ok false)
      × (record d {
        children = push_edge d.children parent (record { child = child; weight = weight });
      }
          ≡ d')
unfolding add_child
add_child-eq-ok d d' parent child weight h =
    let (c, is_c, h1) = bind-eq-ok (lift (element d child)) _ h in
    let (p, is_p, h2) = bind-eq-ok (lift (element d parent)) _ h1 in
    let (kind, h3) = guard-eq-ok (is_consolidated p.kind) _ _ h2 in
    let (cyclic, test, h4) = bind-eq-ok (cyclic_test d parent child) _ h3 in
    let (free, h5) = guard-eq-ok (not cyclic) _ _ h4 in
    (
      c,
      p,
      lift-eq-ok d child c is_c,
      lift-eq-ok d parent p is_p,
      is_consolidated-true p.kind kind,
      ground arith,
      cc,
    )

-- `add_child` keeps the hierarchy well formed, whatever it is given.
pub add_child-IsHierarchy :
    (d d' : Dimension) (parent child : ℕ) (weight : ℤ)
    → IsHierarchy d
    → add_child d parent child weight ≡ ok d'
    → IsHierarchy d'
add_child-IsHierarchy d d' parent child weight h e =
    let (c, p, is_c, is_p, kind, test, same) = add_child-eq-ok d d' parent child weight e in
    let fits = lt-get_elem? d.elements child c is_c in
    subst IsHierarchy same (
      push_edge-IsHierarchy d parent (record { child = child; weight = weight }) p h is_p kind fits
        (λ q. true-ne-false ((cyclic_test_lem d parent child h fits).0 q) test))
