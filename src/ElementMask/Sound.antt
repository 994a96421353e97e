-- ===== src/ElementMask/Sound.antt =====
-- What the mask lets through rests on no denied leaf.
use epiphany.Base.{
  ℕ, zero, suc, ◌≡◌, ◌≢◌, refl, ap, ◌∙◌, ◌⊎◌, Bool, true, false, some, List, [], ◌∷◌, get_elem?,
  Bool-cases, Option-cases, inl, inr, In, arith,
}
use epiphany.Base.Int.{ℤ}
use epiphany.Base.Result.{Result, ok, bind-eq-ok, ok-injective}
use epiphany.Model.{Failure}
use epiphany.Dimension.{Dimension}
use epiphany.Dimension.Leaves.{leaf_weights}
use epiphany.Cube.{Cube}
use epiphany.ElementMask.{
  ElementMask, any_bit, dim_has_denials, bit_at, index_denied, leaf_from, denies_leaf, any_leaf,
  leaves_denied, member_denied, denies_from, denies,
}

true-ne-false : true ≢ false
true-ne-false e = cc

any_bit-get : (bits : List Bool) (i : ℕ) → any_bit bits ≡ false → bit_at (some bits) i ≡ false
any_bit-get [] i e = refl
any_bit-get (b ∷ bits) zero e = ground arith
any_bit-get (b ∷ bits) (suc i) e = any_bit-get bits i (ground arith)

no_denials :
    (mask : ElementMask) (dim i : ℕ)
    → dim_has_denials mask dim ≡ false
    → index_denied mask dim i ≡ false
unfolding dim_has_denials index_denied
no_denials mask dim i e = elim (Option-cases (get_elem? mask.denied dim)) [
  | inl q ↦ rw q refl
  | inr (bits, q) ↦ rw q (any_bit-get bits i (rw (q, dim_has_denials) at e))
]

any_leaf-In :
    (mask : ElementMask) (dim leaf : ℕ) (w : ℤ) (ws : List (ℕ × ℤ))
    → any_leaf mask dim ws ≡ false
    → In (leaf, w) ws
    → index_denied mask dim leaf ≡ false
unfolding any_leaf
any_leaf-In mask dim leaf w [] e m = absurd m
any_leaf-In mask dim leaf w ((n, v) ∷ ws) e (inl q) =
    ap (λ (y : ℕ × ℤ). index_denied mask dim y.0) q ∙ (ground arith)
any_leaf-In mask dim leaf w ((n, v) ∷ ws) e (inr m) =
    any_leaf-In mask dim leaf w ws (ground arith) m

-- `leaf` is one of the leaves of the component `index` at the dimension `dim`.
abbrev pub IsLeafOf : Cube → ℕ → ℕ → ℕ → Type 0
IsLeafOf cube dim index leaf =
    (d : Dimension) × (ws : List (ℕ × ℤ)) × (w : ℤ) × (get_elem? cube.dimensions dim ≡ some d)
    × (leaf_weights d index ≡ ok ws)
    × In (leaf, w) ws

-- A coordinate each of whose components is that of `coord`, or one of the leaves of that, from a
-- dimension on.
abbrev pub IsBelow : Cube → ℕ → List ℕ → List ℕ → Type 0
IsBelow cube dim [] [] = Unit
IsBelow cube dim (index ∷ coord) (below ∷ rest) =
    ((below ≡ index) ⊎ IsLeafOf cube dim index below) × IsBelow cube (suc dim) coord rest
IsBelow cube dim _ _ = ⊥

member_denied_sound :
    (mask : ElementMask) (cube : Cube) (dim member leaf : ℕ)
    → member_denied mask cube dim member ≡ ok false
    → IsLeafOf cube dim member leaf
    → index_denied mask dim leaf ≡ false
unfolding member_denied leaves_denied
member_denied_sound mask cube dim member leaf e (d, ws, w, is_d, found, m) =
    elim (Bool-cases (dim_has_denials mask dim)) [
      | inr q ↦ no_denials mask dim leaf q
      | inl q ↦ elim (Bool-cases (index_denied mask dim member)) [
        | inl r ↦ absurd (true-ne-false (ok-injective true false (rw (q, r, member_denied) at e)))
        | inr r ↦
            let k : ◌≡◌ {A = Result Failure Bool} (ok (any_leaf mask dim ws)) (ok false) =
              rw (q, r, is_d, found, member_denied) at e in
            any_leaf-In mask dim leaf w ws (ok-injective (any_leaf mask dim ws) false k) m
      ]
    ]

-- a member that is not denied is not denied itself
member_denied_self :
    (mask : ElementMask) (cube : Cube) (dim member : ℕ)
    → member_denied mask cube dim member ≡ ok false
    → index_denied mask dim member ≡ false
unfolding member_denied leaves_denied
member_denied_self mask cube dim member e = elim (Bool-cases (dim_has_denials mask dim)) [
  | inr q ↦ no_denials mask dim member q
  | inl q ↦ elim (Bool-cases (index_denied mask dim member)) [
    | inl r ↦ absurd (true-ne-false (ok-injective true false (rw (q, r, member_denied) at e)))
    | inr r ↦ r
  ]
]

self_or_leaf :
    (mask : ElementMask) (cube : Cube) (dim member below : ℕ)
    → member_denied mask cube dim member ≡ ok false
    → (below ≡ member) ⊎ IsLeafOf cube dim member below
    → index_denied mask dim below ≡ false
self_or_leaf mask cube dim member below e (inl same) =
    ap (index_denied mask dim) same ∙ member_denied_self mask cube dim member e
self_or_leaf mask cube dim member below e (inr found) =
    member_denied_sound mask cube dim member below e found

denies_from_sound :
    (mask : ElementMask) (cube : Cube) (dim : ℕ) (coord leaves : List ℕ)
    → denies_from mask cube dim coord ≡ ok false
    → IsBelow cube dim coord leaves
    → leaf_from mask dim leaves ≡ false
unfolding denies_from leaf_from
denies_from_sound mask cube dim [] [] e b = refl
denies_from_sound mask cube dim [] (leaf ∷ leaves) e b = absurd b
denies_from_sound mask cube dim (index ∷ coord) [] e b = absurd b
denies_from_sound mask cube dim (index ∷ coord) (leaf ∷ leaves) e b =
    let (found, first, rest) = bind-eq-ok (member_denied mask cube dim index) _ e in
    elim (Bool-cases found) [
      | inl q ↦ absurd (true-ne-false (ok-injective true false (rw q at rest)))
      | inr q ↦
          let here = self_or_leaf mask cube dim index leaf (first ∙ ap ok q) b.0 in
          let below = denies_from_sound mask cube (suc dim) coord leaves (rw q at rest) b.1 in
          rw (here, below) refl
    ]

-- Where the mask does not deny a coordinate, it denies no component of the coordinate, and none of
-- the leaves that the components expand to: whichever of them a read takes, a string leaf itself or the
-- leaves below a consolidation, it meets no element that the principal may not see.
pub denies_sound :
    (mask : ElementMask) (cube : Cube) (coord leaves : List ℕ)
    → denies mask cube coord ≡ ok false
    → IsBelow cube 0 coord leaves
    → denies_leaf mask leaves ≡ false
unfolding denies denies_leaf
denies_sound mask cube coord leaves e b = denies_from_sound mask cube 0 coord leaves e b
