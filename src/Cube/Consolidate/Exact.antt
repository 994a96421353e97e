-- ===== src/Cube/Consolidate/Exact.antt =====
-- The sparse and the dense consolidating read agree
-- (`get` and `consolidate_with` of crates/epiphany-core/src/cube.rs).
use epiphany.Base.{
  ℕ, zero, suc, ◌≡◌, refl, ap, sym, ◌∙◌, subst, ◌⊎◌, inl, inr, Bool, true, false, none, some, List,
  [], ◌∷◌, length, arith, Option-cases, All,
}
use epiphany.Base.Assoc.{lookup}
use epiphany.Base.Eq.{list_eq, nat_eq}
use epiphany.Base.Int.{ℤ}
use epiphany.Base.Result.{Result, ok, err, ◌>>=◌, ok-injective}
use epiphany.Model.{ModelError, Failure, rejected, lift, overflow}
use epiphany.Fixed.{Fixed}
use epiphany.Dimension.{Dimension}
use epiphany.Layout.{layout_of}
use epiphany.Layout.RoundTrip.{Fits}
use epiphany.Store as S
use epiphany.Cube.{Cube, counts, rank, check_coord, leaf_value, or_nought}
use epiphany.Cube.WellFormed.{IsCube, check_coord-Fits}
use epiphany.Cube.Consolidate.{
  get, sparse, to_fixed, consolidate_with, dense, dense_loop, converted, leaf_space, combo_at,
  expand, all_numeric_leaf, sparse_sum,
}
use epiphany.Cube.Consolidate.Grid.{space, AreDistinct}
use epiphany.Cube.Consolidate.Exchange.{value_in}
use epiphany.Cube.Consolidate.Stored.{IsFilled, Lists, entries-Lists, Fits-length}
use epiphany.Cube.Consolidate.Loop.{
  AreElements, expand-AreElements, combo_at-Fits, leaf_space-space, loop_sum,
}

-- The leaf space of a list of dimensions does not fit 64 bits.
abbrev pub IsUncountable : List (List (ℕ × ℤ)) → Type 0
IsUncountable per_dim = leaf_space per_dim 1 ≡ none

pub length-counts : (ds : List Dimension) → length (counts ds) ≡ length ds
length-counts [] = refl
length-counts (d ∷ ds) = omega (arith, length-counts ds)

-- a dense read of a cube's own leaf values
abbrev pub dense_get : Cube → List ℕ → Result Failure Fixed
dense_get cube coord = consolidate_with (λ e. e) (λ c. ok (leaf_value cube c)) cube coord

-- Two results agree, or `P` holds and the first is an overflow.
abbrev pub Agree : {A : Type 0} → Type 0 → Result Failure A → Result Failure A → Type 0
Agree P x y = (x ≡ y) ⊎ (P × (x ≡ err (rejected overflow)))

bind-Agree :
    {A : Type 0} {B : Type 0} {P : Type 0} (m : Result Failure A) (f g : A → Result Failure B)
    → ((a : A) → m ≡ ok a → Agree P (f a) (g a))
    → Agree P (converted (λ (e : Failure). e) m >>= f) (m >>= g)
bind-Agree (ok a) f g h = h a refl
bind-Agree (err e) f g h = inl refl

pub converted_id : {A : Type 0} (m : Result Failure A) → converted (λ (e : Failure). e) m ≡ m
converted_id (ok a) = refl
converted_id (err e) = refl

-- a read of a leaf, or one that consolidates
by_kind :
    {P : Type 0} {A : Type 0} (direct : Bool) (v x y : Result Failure A)
    → Agree P x y
    → Agree P (elim direct [ true ↦ v | false ↦ x ]) (elim direct [ true ↦ v | false ↦ y ])
by_kind true v x y h = inl refl
by_kind false v x y h = h

pub lift-ok : (m : Result ModelError Unit) (u : Unit {0}) → lift m ≡ ok u → m ≡ ok tt
lift-ok (ok a) u h = refl
lift-ok (err e) u h = cc

-- the end of a dense read, when the loop is the sparse sum
pub dense-to_fixed :
    (per_dim : List (List (ℕ × ℤ))) (V : List ℕ → Fixed) (total acc : ℕ)
    → dense_loop (λ (e : Failure). e) (λ c. ok (V c)) per_dim total 0 0 ≡ ok acc
    → dense (λ (e : Failure). e) (λ c. ok (V c)) per_dim (some total) ≡ to_fixed acc
unfolding dense_loop
dense-to_fixed per_dim V zero acc h = ap to_fixed (ok-injective 0 acc h)
dense-to_fixed per_dim V (suc total) acc h =
    ap (λ (m : Result Failure ℕ). m >>= λ a. converted (λ (e : Failure). e) (to_fixed a)) h
    ∙ converted_id (to_fixed acc)

abbrev pub stored_cells : Cube → List (List ℕ × Fixed)
stored_cells cube = S.entries cube.cells cube.layout (rank cube)

module _ (cube : Cube) (w : IsCube cube)
    (filled : IsFilled (counts cube.dimensions) cube.cells) where
  pub stored_cells-Lists : Lists (counts cube.dimensions) cube.cells (stored_cells cube)
  stored_cells-Lists =
      let lens = counts cube.dimensions in
      subst (λ l. Lists lens cube.cells (S.entries cube.cells l (rank cube))) (sym w.laid_out)
        (subst (λ n. Lists lens cube.cells (S.entries cube.cells (layout_of lens) n))
          (length-counts cube.dimensions) (entries-Lists lens cube.cells filled))

  pub cells-length :
      (per_dim : List (List (ℕ × ℤ)))
      → length per_dim ≡ length cube.dimensions
      → All (λ (cell : List ℕ × Fixed). length cell.0 ≡ length per_dim) (stored_cells cube)
  cells-length per_dim l =
      subst (λ n. All (λ (cell : List ℕ × Fixed). length cell.0 ≡ n) (stored_cells cube))
        (length-counts cube.dimensions ∙ sym l) stored_cells-Lists.1

  pub lookup-get :
      (coord : List ℕ)
      → Fits (counts cube.dimensions) coord
      → lookup coord (stored_cells cube) ≡ S.get cube.cells cube.layout coord
  lookup-get coord k =
      stored_cells-Lists.2 coord k ∙ ap (λ l. S.get cube.cells l coord) (sym w.laid_out)

  leaf_value-value_in :
      (coord : List ℕ)
      → Fits (counts cube.dimensions) coord
      → leaf_value cube coord ≡ value_in (stored_cells cube) coord
  unfolding leaf_value
  leaf_value-value_in coord k = ap or_nought (sym (lookup-get coord k))

  dense-sparse :
      (coord : List ℕ) (per_dim : List (List (ℕ × ℤ)))
      → AreDistinct per_dim
      → AreElements cube.dimensions per_dim
      → length per_dim ≡ length cube.dimensions
      → Agree
          (IsUncountable per_dim)
          (dense (λ (e : Failure). e) (λ c. ok (leaf_value cube c)) per_dim (leaf_space per_dim 1))
          (sparse cube per_dim)
  dense-sparse coord per_dim d a l = elim (Option-cases (leaf_space per_dim 1)) [
    | inl n ↦ inr (n, ap (dense (λ (e : Failure). e) (λ c. ok (leaf_value cube c)) per_dim) n)
    | inr (total, t) ↦
        let whole : total ≡ space per_dim = omega (arith, leaf_space-space per_dim 1 total t) in
        inl (
          ap (dense (λ (e : Failure). e) (λ c. ok (leaf_value cube c)) per_dim)
            (t ∙ ap (λ n. some n) whole)
          ∙ dense-to_fixed per_dim (leaf_value cube) (space per_dim)
              (sparse_sum per_dim (stored_cells cube) 0)
              (loop_sum per_dim (leaf_value cube) (stored_cells cube) d stored_cells-Lists.0
                (cells-length per_dim l)
                (λ n k.
                  leaf_value-value_in ((combo_at per_dim n 1).0)
                    (combo_at-Fits cube.dimensions per_dim n 1 w.counted a k))))
  ]

  -- In a well-formed cube with each stored cell under one key, consolidate_with over the leaf values of
  -- the cube gives what get gives, errors included, at every coordinate; unless the coordinate expands
  -- to a leaf space that 64 bits cannot count, where it fails with Overflow.
  pub consolidate_with-get :
      (coord : List ℕ)
      → (dense_get cube coord ≡ get cube coord)
        ⊎ ((per_dim : List (List (ℕ × ℤ))) × (expand cube.dimensions coord ≡ ok per_dim)
            × IsUncountable per_dim)
          × (dense_get cube coord ≡ err (rejected overflow))
  unfolding consolidate_with get
  consolidate_with-get coord = bind-Agree (lift (check_coord cube coord)) _ _ (λ u checked.
      bind-Agree (lift (all_numeric_leaf cube coord)) _ _ (λ direct found.
        by_kind direct (ok (leaf_value cube coord)) _ _ (
          bind-Agree (expand cube.dimensions coord) _ _ (λ per_dim expanded.
            let inside =
              check_coord-Fits cube coord w (lift-ok (check_coord cube coord) u checked) in
            let same =
              Fits-length (counts cube.dimensions) coord inside ∙ length-counts cube.dimensions in
            let leaves = expand-AreElements cube.dimensions coord per_dim same expanded in
            elim (dense-sparse coord per_dim leaves.0 leaves.1 leaves.2) [
              | inl e ↦ inl e
              | inr e ↦ inr ((per_dim, expanded, e.0), e.1)
            ]))))
