-- ===== src/Cube/Consolidate/Leaves.antt =====
-- The leaves of an element are distinct elements of their dimension
-- (`leaf_weights` of crates/epiphany-core/src/dimension.rs).
use mathlib.Core.Option.{some-injective}
use epiphany.Base.{
  ℕ, zero, suc, ◌<◌, ◌≡◌, refl, ap, sym, subst, Option, none, some, List, [], ◌∷◌, ◌++◌, length,
  ◌+◌, get_elem?, arith, inl, inr, ◌⊎◌, Bool-cases, Option-cases, In, lt-get_elem?,
}
use epiphany.Base.Assoc.{lookup, insert}
use epiphany.Base.Assoc.Unique.{IsUnique}
use epiphany.Base.Eq.{nat_eq}
use epiphany.Base.Int.{ℤ, pos}
use epiphany.Base.Result.{ok, ok_or, bind-eq-ok, ok-injective}
use epiphany.Model.{lift, panic}
use epiphany.Dimension.{Dimension, Element, ElementKind, Edge, element, leaf, string, consolidated}
use epiphany.Dimension.Hierarchy.{count_edges}
use epiphany.Dimension.Leaves.{contains, weighted, weights_loop, finish, leaf_weights}
use epiphany.Dimension.Leaves.Queue.{In-remove}
use epiphany.Dimension.Leaves.Sort.{
  Distinct, IsAscending, insert-Distinct, In-finish, finish-IsAscending,
}

-- leaves that are distinct elements
abbrev pub AreLeaves : List Element → List (ℕ × ℤ) → Type 0
AreLeaves els m = Distinct m × ((x : ℕ × ℤ) → In x m → x.0 < length els)

insert-AreLeaves :
    (els : List Element) (node : ℕ) (w : ℤ) (acc : List (ℕ × ℤ))
    → node < length els
    → AreLeaves els acc
    → AreLeaves els (insert node w acc)
unfolding insert
insert-AreLeaves els node w acc l h = (
  insert-Distinct node w acc h.0,
  λ x m. elim m [
    | inl e ↦ subst (λ n. n < length els) (sym (ap (λ (y : ℕ × ℤ). y.0) e)) l
    | inr r ↦ h.1 x (In-remove node acc x r)
  ],
)

kind_cases : (k : ElementKind) → (k ≡ leaf) ⊎ (k ≡ string) ⊎ (k ≡ consolidated)
kind_cases leaf = inl refl
kind_cases string = inr (inl refl)
kind_cases consolidated = inr (inr refl)

weights_loop-AreLeaves :
    (fuel : ℕ) (els : List Element) (g : List (List Edge)) (queue : List (ℕ × ℤ)) (visited : List ℕ)
    (acc out : List (ℕ × ℤ))
    → AreLeaves els acc
    → weights_loop fuel els g queue visited acc ≡ some out
    → AreLeaves els out
unfolding weights_loop
weights_loop-AreLeaves zero els g queue visited acc out h e = cc
weights_loop-AreLeaves (suc fuel) els g [] visited acc out h e =
    subst (AreLeaves els) (some-injective acc out e) h
weights_loop-AreLeaves (suc fuel) els g ((node, w) ∷ queue) visited acc out h e =
    elim (Bool-cases (contains node visited)) [
      | inl c ↦
          weights_loop-AreLeaves fuel els g queue visited acc out h (rw (c, weights_loop) at e)
      | inr c ↦ elim (Option-cases (get_elem? els node)) [
        | inl n ↦ absurd (let e' = rw (c, weights_loop, n) at e in cc)
        | inr (x, n) ↦ elim (kind_cases x.kind) [
          | inl k ↦
              weights_loop-AreLeaves fuel els g queue (node ∷ visited) (insert node w acc) out
                (insert-AreLeaves els node w acc (lt-get_elem? els node x n) h)
                (rw (c, weights_loop, n, k) at e)
          | inr (inl k) ↦
              weights_loop-AreLeaves fuel els g queue (node ∷ visited) acc out h
                (rw (c, weights_loop, n, k) at e)
          | inr (inr k) ↦ elim (Option-cases (get_elem? g node)) [
            | inl q ↦ absurd (let e' = rw (c, weights_loop, n, k, q) at e in cc)
            | inr (es, q) ↦
                weights_loop-AreLeaves fuel els g (queue ++ weighted w es) (node ∷ visited) acc out
                  h (rw (c, weights_loop, n, k, q) at e)
          ]
        ]
      ]
    ]

ok_or-some : (o : Option (List (ℕ × ℤ))) (a : List (ℕ × ℤ)) → ok_or o panic ≡ ok a → o ≡ some a
ok_or-some none a h = cc
ok_or-some (some b) a h = ap (λ x. some x) (ok-injective b a h)

-- a leaf before all others is not among them
lookup-below : (k : ℕ) (m : List (ℕ × ℤ)) → ((y : ℕ × ℤ) → In y m → k < y.0) → lookup k m ≡ none
unfolding lookup
lookup-below k [] h = refl
lookup-below k ((j, w) ∷ m) h =
    ground (arith, h (j, w) (inl refl), lookup-below k m (λ y i. h y (inr i)))

IsAscending-IsUnique : (m : List (ℕ × ℤ)) → IsAscending m → IsUnique m
IsAscending-IsUnique [] h = tt
IsAscending-IsUnique (x ∷ m) h = (lookup-below x.0 m h.0, IsAscending-IsUnique m h.1)

-- What `leaf_weights` returns: leaves that ascend, all of them elements.
pub leaf_weights-IsAscending :
    (d : Dimension) (index : ℕ) (weights : List (ℕ × ℤ))
    → leaf_weights d index ≡ ok weights
    → IsAscending weights × ((x : ℕ × ℤ) → In x weights → x.0 < length d.elements)
unfolding leaf_weights
leaf_weights-IsAscending d index weights h =
    let found = bind-eq-ok (lift (element d index)) _ h in
    let walked =
      bind-eq-ok
        (ok_or
          (weights_loop (count_edges d.children + 2) d.elements d.children ((index, pos 1) ∷ []) []
            [])
          panic)
        _ found.2 in
    let acc = walked.0 in
    let same = ok-injective (finish acc) weights walked.2 in
    let leaves =
      weights_loop-AreLeaves (count_edges d.children + 2) d.elements d.children
        ((index, pos 1) ∷ []) [] [] acc (tt, λ x m. absurd m) (ok_or-some _ acc walked.1) in
    subst (λ out. IsAscending out × ((x : ℕ × ℤ) → In x out → x.0 < length d.elements)) same
      (finish-IsAscending acc leaves.0, λ x m. leaves.1 x (((In-finish acc x).0 m).0))

-- Each leaf is returned once.
pub leaf_weights-IsUnique :
    (d : Dimension) (index : ℕ) (weights : List (ℕ × ℤ))
    → leaf_weights d index ≡ ok weights
    → IsUnique weights × ((x : ℕ × ℤ) → In x weights → x.0 < length d.elements)
leaf_weights-IsUnique d index weights h =
    let leaves = leaf_weights-IsAscending d index weights h in
    (IsAscending-IsUnique weights leaves.0, leaves.1)
