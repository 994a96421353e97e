-- ===== src/Cube/Consolidate/Fed/Covered.antt =====
-- The read over the stored and the fed cells is the dense read when the fed cells cover the values
-- that are not stored
-- (`consolidate_fed` and `consolidate_with` of crates/epiphany-core/src/cube.rs).
use native.Mathlib.Nat.{mod-lt, div-lt_iff_lt-mul}
use epiphany.Base.{
  ◌==◌, ==_iff, subst, ℕ, zero, suc, ◌/◌, ◌%◌, ◌<◌, ◌≡◌, ◌≢◌, refl, ap, sym, ◌∙◌, inl, inr, Bool,
  true, false, Option, none, some, List, [], ◌∷◌, length, get_or, arith, if◌then◌else◌, Bool-cases,
  In, All,
}
use epiphany.Base.Assoc.{lookup}
use epiphany.Base.Eq.{list_eq, nat_eq, list_beq}
use epiphany.Base.Int.{ℤ, pos}
use epiphany.Base.Result.{Result, ok, err, ◌>>=◌}
use epiphany.Model.{Failure, lift}
use epiphany.Fixed.{Fixed, nought}
use epiphany.Layout.RoundTrip.{Fits}
use epiphany.Store as S
use epiphany.Cube.{Cube, counts, check_coord, or_nought}
use epiphany.Cube.WellFormed.{IsCube, check_coord-Fits}
use epiphany.Cube.Consolidate.{
  combo_at, cell_weight, wrapping_mul, from_i64, converted, leaf_space, dense, dense_loop,
  consolidate_with, all_numeric_leaf, expand, sparse_sum, to_fixed,
}
use epiphany.Cube.Consolidate.Grid.{space, AreDistinct}
use epiphany.Cube.Consolidate.Exchange.{value_in, sparse_sum-total}
use epiphany.Cube.Consolidate.Stored.{IsFilled, Fits-length}
use epiphany.Cube.Consolidate.Loop.{
  AreElements, expand-AreElements, combo_at-Fits, leaf_space-space, loop_sum, factor_pos, In-get_or,
}
use epiphany.Cube.Consolidate.Exact.{
  stored_cells, cells-length, lookup-get, length-counts, dense-to_fixed, converted_id, lift-ok,
}
use epiphany.Cube.Consolidate.Fed.{keys, is_seen, visit, fed_sum, consolidate_fed, Visited}
use epiphany.Cube.Consolidate.Fed.Visits.{tabulate, lookup-tabulate, visit-IsSummed}

In-lookup : (m : List (ℕ × ℤ)) (x : ℕ × ℤ) → In x m → (w : ℤ) × (lookup x.0 m ≡ some w)
unfolding lookup
In-lookup [] x h = absurd h
In-lookup ((k, w) ∷ m) x h = elim (Bool-cases (k == x.0)) [
  | inl e ↦ (w, rw e refl)
  | inr e ↦ elim h [
    | inl q ↦ absurd (let t = (==_iff k x.0).1 (sym (ap (λ (y : ℕ × ℤ). y.0) q)) in cc)
    | inr q ↦ rw e (In-lookup m x q)
  ]
]

-- The numbers below `space` are coordinates that contribute.
combo_at-Contributes :
    (per_dim : List (List (ℕ × ℤ))) (n w v : ℕ)
    → n < space per_dim
    → (weight : ℕ) × (cell_weight per_dim ((combo_at per_dim n w).0) v ≡ some weight)
unfolding combo_at cell_weight
combo_at-Contributes [] n w v l = (v, refl)
combo_at-Contributes (weights ∷ per_dim) n w v l =
    let len = length weights in
    let some_leaf = factor_pos (space per_dim) len n l in
    let found = get_or weights (n % len) (0, pos 0) in
    let (u, e) = In-lookup weights found (In-get_or weights (n % len) (mod-lt n some_leaf)) in
    rw (cell_weight, e)
      (combo_at-Contributes per_dim (n / len) (wrapping_mul w (from_i64 found.1))
        (wrapping_mul v (from_i64 u)) ((div-lt_iff_lt-mul some_leaf).1 l))

is_seen-keys :
    (cells : List (List ℕ × Fixed)) (coord : List ℕ)
    → is_seen (keys cells) coord ≡ false
    → lookup coord cells ≡ none
unfolding lookup
is_seen-keys [] coord h = refl
is_seen-keys ((c, value) ∷ cells) coord h = elim (Bool-cases (list_beq c coord)) [
  | inl e ↦ absurd (let h' = rw e at h in cc)
  | inr e ↦ rw e (is_seen-keys cells coord (rw e at h))
]

keys-length :
    (n : ℕ) (cells : List (List ℕ × Fixed))
    → All (λ (cell : List ℕ × Fixed). length cell.0 ≡ n) cells
    → All (λ (coord : List ℕ). length coord ≡ n) (keys cells)
keys-length n [] a = tt
keys-length n ((c, value) ∷ cells) a = (a.0, keys-length n cells a.1)

bind_same :
    {A : Type 0} {B : Type 0} (m : Result Failure A) (f g : A → Result Failure B)
    → ((a : A) → m ≡ ok a → f a ≡ g a)
    → (converted (λ (e : Failure). e) m >>= f) ≡ (converted (λ (e : Failure). e) m >>= g)
bind_same (ok a) f g h = h a refl
bind_same (err e) f g h = refl

same_kind :
    {A : Type 0} (direct : Bool) (v x y : Result Failure A)
    → x ≡ y
    → ◌≡◌ {A = Result Failure A}
        (elim direct [ true ↦ v | false ↦ x ])
        (elim direct [ true ↦ v | false ↦ y ])
same_kind true v x y h = refl
same_kind false v x y h = h

-- The fed coordinates have the rank of the cube, and those that are neither stored nor fed have the
-- value zero.
abbrev pub IsCovered : Cube → (List ℕ → Fixed) → List (List ℕ) → Type 0
IsCovered cube V fed =
    All (λ (coord : List ℕ). length coord ≡ length cube.dimensions) fed
    × ((coord : List ℕ)
        → Fits (counts cube.dimensions) coord
        → S.get cube.cells cube.layout coord ≡ none
        → is_seen fed coord ≡ false
        → V coord ≡ nought)

true-ne-false : true ≢ false
true-ne-false e = cc

module _ (cube : Cube) (w : IsCube cube) (filled : IsFilled (counts cube.dimensions) cube.cells)
    (V : List ℕ → Fixed) (fed : List (List ℕ)) (covered : IsCovered cube V fed) where
  -- the value of a coordinate that contributes, after both loops
  seen_value :
      (coord : List ℕ) (seen : List (List ℕ))
      → Fits (counts cube.dimensions) coord
      → (is_seen (keys (stored_cells cube)) coord ≡ true → is_seen seen coord ≡ true)
      → (is_seen fed coord ≡ true → is_seen seen coord ≡ true)
      → V coord ≡ value_in (tabulate V seen) coord
  seen_value coord seen k by_store by_fed = elim (Bool-cases (is_seen seen coord)) [
    | inl t ↦ sym (
        ap or_nought
          (lookup-tabulate V seen coord ∙ ap (λ (b : Bool). if b then some (V coord) else none) t))
    | inr t ↦
        let not_fed : is_seen fed coord ≡ false = elim (Bool-cases (is_seen fed coord)) [
          | inl f ↦ absurd (true-ne-false (sym (by_fed f) ∙ t))
          | inr f ↦ f
        ] in
        let not_stored : is_seen (keys (stored_cells cube)) coord ≡ false =
          elim (Bool-cases (is_seen (keys (stored_cells cube)) coord)) [
            | inl f ↦ absurd (true-ne-false (sym (by_store f) ∙ t))
            | inr f ↦ f
          ] in
        let empty =
          sym (lookup-get cube w filled coord k)
          ∙ is_seen-keys (stored_cells cube) coord not_stored in
        covered.1 coord k empty not_fed
        ∙ sym (
            ap or_nought (
              lookup-tabulate V seen coord
              ∙ ap (λ (b : Bool). if b then some (V coord) else none) t))
  ]

  -- the two sums
  fed_sum-dense :
      (per_dim : List (List (ℕ × ℤ))) (total : Option ℕ)
      → leaf_space per_dim 1 ≡ total
      → AreDistinct per_dim
      → AreElements cube.dimensions per_dim
      → length per_dim ≡ length cube.dimensions
      → fed_sum (λ (e : Failure). e) (λ c. ok (V c)) cube per_dim fed total
        ≡ dense (λ (e : Failure). e) (λ c. ok (V c)) per_dim total
  fed_sum-dense per_dim none t d a l = refl
  fed_sum-dense per_dim (some zero) t d a l = refl
  fed_sum-dense per_dim (some (suc total)) t d a l =
      let cells = stored_cells cube in
      let first =
        visit-IsSummed per_dim V (keys cells) ([], 0)
          (keys-length (length per_dim) cells (cells-length cube w filled per_dim l))
          (omega arith, tt, tt) in
      let last =
        visit-IsSummed per_dim V fed first.0
          (subst (λ n. All (λ (coord : List ℕ). length coord ≡ n) fed) (sym l) covered.0) first.2 in
      let finish = λ (s : Visited). converted (λ (e : Failure). e) (to_fixed s.1) in
      let whole : suc total ≡ space per_dim =
        omega (arith, leaf_space-space per_dim 1 (suc total) t) in
      let seen = last.0.0 in
      let same = loop_sum per_dim V (tabulate V seen) d last.2.1 last.2.2 (λ n k.
        let c = (combo_at per_dim n 1).0 in
        let weight = combo_at-Contributes per_dim n 1 1 k in
        seen_value c seen (combo_at-Fits cube.dimensions per_dim n 1 w.counted a k)
          (λ s. last.3 c weight (inl (first.3 c weight (inr s)))) (λ s. last.3 c weight (inr s))) in
      let acc : sparse_sum per_dim (tabulate V seen) 0 ≡ last.0.1 =
        omega (arith, sparse_sum-total per_dim (tabulate V seen) 0 (omega arith), last.2.0) in
      ap
        (λ (m : Result Failure Visited).
          m >>= λ s. visit (λ (e : Failure). e) (λ c. ok (V c)) per_dim fed s >>= finish)
        first.1
      ∙ ap (λ (m : Result Failure Visited). m >>= finish) last.1
      ∙ converted_id (to_fixed last.0.1)
      ∙ sym (
          dense-to_fixed per_dim V (suc total) last.0.1 (
            ap (λ n. dense_loop (λ (e : Failure). e) (λ c. ok (V c)) per_dim n 0 0) whole
            ∙ same
            ∙ ap (λ k. ok k) acc))

  -- In a well-formed cube with each stored cell under one key, for any reader of leaf values that does
  -- not fail: if the fed coordinates have the rank of the cube, and each coordinate in range that is
  -- neither stored nor fed has the value zero, then consolidate_fed and consolidate_with give the same
  -- result at every coordinate, errors included.
  pub consolidate_fed-consolidate_with :
      (coord : List ℕ)
      → consolidate_fed (λ (e : Failure). e) (λ c. ok (V c)) cube coord fed
        ≡ consolidate_with (λ (e : Failure). e) (λ c. ok (V c)) cube coord
  unfolding consolidate_fed consolidate_with
  consolidate_fed-consolidate_with coord =
      bind_same (lift (check_coord cube coord)) _ _ (λ u checked.
        bind_same (lift (all_numeric_leaf cube coord)) _ _ (λ direct found.
          same_kind direct (ok (V coord)) _ _ (
            bind_same (expand cube.dimensions coord) _ _ (λ per_dim expanded.
              let inside =
                check_coord-Fits cube coord w (lift-ok (check_coord cube coord) u checked) in
              let same =
                Fits-length (counts cube.dimensions) coord inside ∙ length-counts cube.dimensions in
              let leaves = expand-AreElements cube.dimensions coord per_dim same expanded in
              fed_sum-dense per_dim (leaf_space per_dim 1) refl leaves.0 leaves.1 leaves.2))))
