-- ===== src/Spread/Leaves/Targets.antt =====
-- The writes of a spread go to the products of the leaves that are not excluded
-- (`spread_leaves` of crates/epiphany-core/src/spread.rs).
use mathlib.Core.Option.{some-injective}
use native.Mathlib.Nat.{mul-suc, mul_comm, mul_assoc}
use epiphany.Base.{
  ℕ, zero, suc, ◌*◌, ◌-◌, ◌^◌, ◌≡◌, refl, ap, sym, ◌∙◌, ◌⊎◌, inl, inr, Bool, Option, none, some,
  List, [], ◌∷◌, length, map, arith, leb, ltb, leb→le, ◌==◌, length-replicate, if◌then◌else◌, subst,
}
use epiphany.Base.Int.{ℤ, pos}
use epiphany.Base.Result.{Result, ok, ◌>>=◌, ok_or, bind-eq-ok, guard-eq-ok, ok-injective}
use epiphany.Model.{ModelError, rank_mismatch}
use epiphany.Fixed.{Fixed}
use epiphany.Dimension.{Dimension}
use epiphany.Dimension.Leaves.{leaf_weights}
use epiphany.Cube.{Cube, rank}
use epiphany.Spread.Leaves.{
  SpreadMethod, equal, proportional, repeat, clear, SpreadError, read, max_spread_leaves,
  coords_from, retain, zip_writes, count_leaves, plain_leaves, read_weight, read_weights, values_by,
  writes_to, writes_over, spread_leaves, too_many_leaves, weighted_consolidation, unit_leaves,
  failed,
}
use epiphany.Spread.Leaves.Odometer.{size, blocks, product, zeros, AreNonempty, coords_from-product}
use epiphany.Spread.Leaves.Sum.{length-distribute_equal, length-distribute_proportional}

-- the coordinates that are written
abbrev pub targets : List (List ℕ × Fixed) → List (List ℕ)
targets writes = map (λ (w : List ℕ × Fixed). w.0) writes

targets-zip_writes :
    (coords : List (List ℕ)) (values : List ℤ)
    → length values ≡ length coords
    → targets (zip_writes coords values) ≡ coords
targets-zip_writes [] [] h = refl
targets-zip_writes [] (v ∷ values) h = refl
targets-zip_writes (c ∷ coords) [] h = absurd (omega (arith, h))
targets-zip_writes (c ∷ coords) (v ∷ values) h =
    ap (λ cs. c ∷ cs) (targets-zip_writes coords values (omega (arith, h)))

blocks-mul : (m n : ℕ) → blocks m n ≡ n * m
blocks-mul zero n = omega arith
blocks-mul (suc m) n = omega (arith, blocks-mul m n, mul-suc n m)

module _ {Q : Type 0} where
  count_leaves-size :
      (per_dim : List (List ℕ)) (count total : ℕ)
      → count_leaves {Q = Q} per_dim count ≡ ok total
      → total ≡ count * size per_dim
  unfolding count_leaves
  count_leaves-size [] count total h = sym (ok-injective count total h) ∙ omega arith
  count_leaves-size (leaves ∷ per_dim) count total h =
      let product' = count * length leaves in
      let next = if ltb product' (2 ^ 64) then product' else 2 ^ 64 - 1 in
      let (small, rest) =
        guard-eq-ok (leb next max_spread_leaves) (too_many_leaves next max_spread_leaves) _ h in
      let whole : next ≡ product' = ground (arith, leb→le next max_spread_leaves small) in
      count_leaves-size per_dim next total rest
      ∙ ap (λ n. n * size per_dim) whole
      ∙ mul_assoc count (length leaves) (size per_dim)
      ∙ ap (λ n. count * n)
          (mul_comm (length leaves) (size per_dim)
            ∙ sym (blocks-mul (length leaves) (size per_dim)))

-- one dimension more
pub joined :
    {Q : Type 0} (leaves : List ℕ) (rest : Option (List (List ℕ))) (per_dim : List (List ℕ))
    → ◌≡◌ {A = Result (SpreadError Q) (Option (List (List ℕ)))}
        (ok (elim rest [ none ↦ none | some others ↦ some (leaves ∷ others) ]))
        (ok (some per_dim))
    → (others : List (List ℕ)) × (rest ≡ some others) × (leaves ∷ others ≡ per_dim)
joined leaves none per_dim h = cc
joined leaves (some others) per_dim h = (
  others,
  refl,
  some-injective (leaves ∷ others) per_dim (ok-injective (some (leaves ∷ others)) (some per_dim) h),
)

joined-AreNonempty :
    {Q : Type 0} (leaves : List ℕ) (m : Result (SpreadError Q) (Option (List (List ℕ))))
    (per_dim : List (List ℕ))
    → ((others : List (List ℕ)) → m ≡ ok (some others) → AreNonempty others)
    → ◌≡◌ {A = Result (SpreadError Q) (Option (List (List ℕ)))}
        (elim leaves [
          | [] ↦ ok none
          | first ∷ others ↦ m >>= λ rest.
              ok (elim rest [ none ↦ none | some per_dim' ↦ some ((first ∷ others) ∷ per_dim') ])
        ])
        (ok (some per_dim))
    → AreNonempty per_dim
joined-AreNonempty [] m per_dim ih h = cc
joined-AreNonempty (first ∷ others) m per_dim ih h =
    let (rest, found, same) = bind-eq-ok m _ h in
    let (behind, is_behind, whole) = joined (first ∷ others) rest per_dim same in
    subst AreNonempty whole (omega arith, ih behind (found ∙ ap (λ o. ok o) is_behind))

module _ {Q : Type 0} (of_model : ModelError → Q) where
  plain_leaves-AreNonempty :
      (ds : List Dimension) (target : List ℕ) (per_dim : List (List ℕ))
      → plain_leaves of_model ds target ≡ ok (some per_dim)
      → AreNonempty per_dim
  unfolding plain_leaves
  plain_leaves-AreNonempty [] target per_dim h =
      subst AreNonempty (some-injective [] per_dim (ok-injective (some []) (some per_dim) h)) tt
  plain_leaves-AreNonempty (d ∷ ds) [] per_dim h =
      subst AreNonempty (some-injective [] per_dim (ok-injective (some []) (some per_dim) h)) tt
  plain_leaves-AreNonempty (d ∷ ds) (i ∷ target) per_dim h =
      let (weights, found, h') = bind-eq-ok (failed of_model (leaf_weights d i)) _ h in
      let (leaves, plain, h'') =
        bind-eq-ok (ok_or (unit_leaves weights) weighted_consolidation) _ h' in
      joined-AreNonempty leaves (plain_leaves of_model ds target) per_dim
        (λ others e. plain_leaves-AreNonempty ds target others e) h''

module _ {Q : Type 0} (read_leaf : List ℕ → Result Q Fixed) where
  length-read_weights :
      (coords : List (List ℕ)) (ws : List ℤ)
      → read_weights read_leaf coords ≡ ok ws
      → length ws ≡ length coords
  unfolding read_weights
  length-read_weights [] ws h = ap length (sym (ok-injective [] ws h))
  length-read_weights (c ∷ coords) ws h =
      let (w, first, h') = bind-eq-ok (read_weight read_leaf (read_leaf c)) _ h in
      let (rest, others, same) = bind-eq-ok (read_weights read_leaf coords) _ h' in
      ap length (sym (ok-injective (w ∷ rest) ws same))
      ∙ ap suc (length-read_weights coords rest others)

  length-values_by :
      (method : SpreadMethod) (total : ℤ) (coords : List (List ℕ)) (values : List ℤ)
      → values_by read_leaf method total coords ≡ ok values
      → length values ≡ length coords
  length-values_by equal total coords values h =
      ap length (sym (ok-injective _ values h)) ∙ length-distribute_equal total (length coords)
  length-values_by repeat total coords values h =
      ap length (sym (ok-injective _ values h)) ∙ length-replicate (length coords) total
  length-values_by clear total coords values h =
      ap length (sym (ok-injective _ values h)) ∙ length-replicate (length coords) (pos 0)
  length-values_by proportional total coords values h =
      let (ws, found, same) = bind-eq-ok (read_weights read_leaf coords) _ h in
      ap length (sym (ok-injective _ values same))
      ∙ length-distribute_proportional total ws
      ∙ length-read_weights coords ws found

  targets-writes_to :
      (method : SpreadMethod) (value : Fixed) (coords : List (List ℕ))
      (writes : List (List ℕ × Fixed))
      → writes_to read_leaf method value coords ≡ ok writes
      → targets writes ≡ coords
  targets-writes_to method value [] writes h = cc
  targets-writes_to method value (c ∷ coords) writes h =
      let (values, found, same) =
        bind-eq-ok (values_by read_leaf method value.scaled (c ∷ coords)) _ h in
      ap targets (sym (ok-injective (zip_writes (c ∷ coords) values) writes same))
      ∙ targets-zip_writes (c ∷ coords) values
          (length-values_by method value.scaled (c ∷ coords) values found)

module _ {Q : Type 0} (of_model : ModelError → Q) (read_leaf : List ℕ → Result Q Fixed)
    (exclude : List ℕ → Bool) where
  targets-writes_over :
      (ds : List Dimension) (target : List ℕ) (value : Fixed) (method : SpreadMethod)
      (writes : List (List ℕ × Fixed)) (leaves : Option (List (List ℕ)))
      → plain_leaves of_model ds target ≡ ok leaves
      → writes_over of_model read_leaf exclude method value leaves ≡ ok writes
      → ((plain_leaves of_model ds target ≡ ok none) × (writes ≡ []))
        ⊎ ((per_dim : List (List ℕ)) × (plain_leaves of_model ds target ≡ ok (some per_dim))
            × (targets writes ≡ retain exclude (product per_dim)))
  targets-writes_over ds target value method writes none found h =
      inl (found, sym (ok-injective [] writes h))
  targets-writes_over ds target value method writes (some per_dim) found h =
      let (count, counted, h') = bind-eq-ok (count_leaves per_dim 1) _ h in
      let whole : count ≡ size per_dim = omega (arith, count_leaves-size per_dim 1 count counted) in
      inr (
        per_dim,
        found,
        targets-writes_to read_leaf method value
              (retain exclude (coords_from count per_dim (zeros per_dim))) writes h'
            ∙ ap (λ n. retain exclude (coords_from n per_dim (zeros per_dim))) whole
            ∙ ap (retain exclude) (
                coords_from-product per_dim
                  (plain_leaves-AreNonempty of_model ds target per_dim found)),
      )

  -- the writes, on the lists that plain_leaves returns
  pub targets-product :
      (cube : Cube) (target : List ℕ) (value : Fixed) (method : SpreadMethod)
      (writes : List (List ℕ × Fixed))
      → spread_leaves of_model read_leaf exclude cube target value method ≡ ok writes
      → ((plain_leaves of_model cube.dimensions target ≡ ok none) × (writes ≡ []))
        ⊎ ((per_dim : List (List ℕ)) × (plain_leaves of_model cube.dimensions target
              ≡ ok (some per_dim))
            × (targets writes ≡ retain exclude (product per_dim)))
  unfolding spread_leaves
  targets-product cube target value method writes h =
      let (ranked, h') =
        guard-eq-ok (length target == rank cube)
          (read (of_model (rank_mismatch (rank cube) (length target)))) _ h in
      let (leaves, found, rest) = bind-eq-ok (plain_leaves of_model cube.dimensions target) _ h' in
      targets-writes_over cube.dimensions target value method writes leaves found rest
