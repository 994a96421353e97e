-- ===== src/Dimension/Hierarchy/Moves.antt =====
-- What `reparent` does to the edges: one parent for the moved element, and the others as they were.
use mathlib.Core.Option.{some-injective}
use epiphany.Base.{
  ℕ, ◌≡◌, ◌≢◌, ◌<◌, refl, sym, ap, subst, ◌∙◌, Option, none, some, length, length-map, inl, inr,
  lt-get_elem?, ◌↔◌, List,
}
use epiphany.Base.Int.{ℤ}
use epiphany.Base.Result.{ok}
use epiphany.Dimension.{Dimension, Edge}
use epiphany.Dimension.Hierarchy.{push_edge, drop_edges_to, reparent, attach, detach}
use epiphany.Dimension.Hierarchy.Graph.{
  IsChild, IsChild-map_drop, IsChild-push_edge, push_edge-keeps, push_edge-has,
}
use epiphany.Dimension.Hierarchy.WellFormed.{IsHierarchy}
use epiphany.Dimension.Hierarchy.Reparent.{reparent-eq-ok, reparent-none-eq-ok}

IsChild-detach :
    (d : Dimension) (child n c : ℕ)
    → IsChild (detach d child).children n c ↔ (IsChild d.children n c × (c ≢ child))
unfolding detach
IsChild-detach d child n c = IsChild-map_drop child d.children n c

-- The moved element has the new parent, if there is one, and no other.
abbrev pub HasParent : Dimension → ℕ → Option ℕ → Type 0
HasParent d child new_parent = (n : ℕ) → IsChild d.children n child ↔ (new_parent ≡ some n)

-- Every other element keeps its parents.
abbrev pub SameElsewhere : Dimension → Dimension → ℕ → Type 0
SameElsewhere d d' child = (n c : ℕ) → c ≢ child → IsChild d'.children n c ↔ IsChild d.children n c

attach-HasParent :
    (g : List (List Edge)) (child parent : ℕ) (weight : ℤ)
    → parent < length g
    → ((n : ℕ) → ¬ IsChild g n child)
    → (n : ℕ)
    → IsChild (push_edge g parent (record { child = child; weight = weight })) n child
      ↔ (some parent ≡ some n)
attach-HasParent g child parent weight fits orphan n = (
  λ k. elim (IsChild-push_edge g parent (record { child = child; weight = weight }) n child k) [
    | inl old ↦ absurd (orphan n old)
    | inr (a, b) ↦ ap some (sym a)
  ],
  λ e.
      subst (λ x. IsChild (push_edge g parent (record { child = child; weight = weight })) x child)
        (some-injective parent n e)
        (push_edge-has g parent (record { child = child; weight = weight }) fits),
)

attach-SameElsewhere :
    (g : List (List Edge)) (child parent : ℕ) (weight : ℤ) (n c : ℕ)
    → c ≢ child
    → IsChild (push_edge g parent (record { child = child; weight = weight })) n c ↔ IsChild g n c
attach-SameElsewhere g child parent weight n c ne = (
  λ k. elim (IsChild-push_edge g parent (record { child = child; weight = weight }) n c k) [
    | inl old ↦ old
    | inr (a, b) ↦ absurd (ne b)
  ],
  push_edge-keeps g parent (record { child = child; weight = weight }) n c,
)

-- After a successful `reparent` the element is a child of the new parent and of nothing else (of
-- nothing, if no parent was given), and every other element has the parents that it had.
pub reparent_moves :
    (d d' : Dimension) (child : ℕ) (new_parent : Option ℕ) (weight : ℤ)
    → IsHierarchy d
    → reparent d child new_parent weight ≡ ok d'
    → HasParent d' child new_parent × SameElsewhere d d' child
reparent_moves d d' child none weight h e =
    subst (λ x. HasParent x child none × SameElsewhere d x child)
      (reparent-none-eq-ok d d' child weight e)
      (
        λ n. (λ k. absurd (((IsChild-detach d child n child).0 k).1 refl), λ q. cc),
        λ n c ne. (
          λ k. ((IsChild-detach d child n c).0 k).0,
          λ k. (IsChild-detach d child n c).1 (k, ne),
        ),
      )
reparent_moves d d' child (some parent) weight h e =
    let (c, p, is_c, is_p, test, same) = reparent-eq-ok d d' child parent weight e in
    subst (λ x. HasParent x child (some parent) × SameElsewhere d x child) same
      (unfold attach in
        (
          attach-HasParent (detach d child).children child parent weight
              (unfold detach in
                subst (λ x. parent < x)
                  (sym (length-map d.children (drop_edges_to child) ∙ h.sized))
                  (lt-get_elem? d.elements parent p is_p))
              (λ n k. ((IsChild-detach d child n child).0 k).1 refl),
          λ n c ne.
              let moved =
                attach-SameElsewhere (detach d child).children child parent weight n c ne in
              let kept = IsChild-detach d child n c in
              (λ k. (kept.0 (moved.0 k)).0, λ k. moved.1 (kept.1 (k, ne))),
        ))
