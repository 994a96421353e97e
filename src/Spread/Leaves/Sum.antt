-- ===== src/Spread/Leaves/Sum.antt =====
-- The writes of a spread sum to the value that was entered
-- (`spread_leaves` of crates/epiphany-core/src/spread.rs).
use epiphany.Base.{
  ℕ, zero, suc, ◌*◌, ◌-◌, ◌^◌, ◌<◌, ◌≤◌, ◌≡◌, refl, ap, sym, ◌∙◌, ◌⊎◌, inl, inr, Bool, Option, none,
  some, List, [], ◌∷◌, length, map, arith, Bool-cases, Option-cases, leb, ltb, leb→le, ◌==◌,
  replicate, length-replicate, if◌then◌else◌, subst,
}
use epiphany.Base.Int.{ℤ, pos, ◌+ℤ◌, ◌-ℤ◌, ◌*ℤ◌, ◌≤ℤ◌, sum_ℤ, abs}
use epiphany.Base.Result.{Result, ok, err, bind-eq-ok, guard-eq-ok, ok-injective}
use epiphany.Model.{ModelError, rank_mismatch}
use epiphany.Fixed.{Fixed, i64_max, IsI64}
use epiphany.Cube.{Cube, rank}
use epiphany.Spread.{
  allocate, allocate_remainder, distribute_equal, distribute_proportional, shares, is_zero, step_of,
  tdiv,
}
use epiphany.Spread.Equal.{sum-distribute_equal}
use epiphany.Spread.Proportional.{AreNonneg, sum-distribute_proportional_nonneg}
use epiphany.Spread.Shares.{shares-nil, shares-cons}
use epiphany.Spread.Leaves.{
  SpreadMethod, equal, proportional, repeat, clear, read, max_spread_leaves, coords_from, retain,
  zip_writes, count_leaves, plain_leaves, read_weight, read_weights, values_by, writes_to,
  writes_over, spread_leaves, advance, too_many_leaves,
}

-- the sum of the values of some writes
abbrev pub total_of : List (List ℕ × Fixed) → ℤ
total_of writes = sum_ℤ (map (λ (w : List ℕ × Fixed). w.1.scaled) writes)

total_of-zip_writes :
    (coords : List (List ℕ)) (values : List ℤ)
    → length values ≡ length coords
    → total_of (zip_writes coords values) ≡ sum_ℤ values
total_of-zip_writes [] [] h = refl
total_of-zip_writes [] (v ∷ values) h = absurd (omega (arith, h))
total_of-zip_writes (c ∷ coords) [] h = absurd (omega (arith, h))
total_of-zip_writes (c ∷ coords) (v ∷ values) h =
    ap (λ s. v +ℤ s) (total_of-zip_writes coords values (omega (arith, h)))

length-allocate : (step : ℤ) (left : ℕ) (xs : List ℤ) → length (allocate step left xs) ≡ length xs
unfolding allocate
length-allocate step left [] = refl
length-allocate step zero (x ∷ xs) = refl
length-allocate step (suc left) (x ∷ xs) = omega (arith, length-allocate step left xs)

length-allocate_remainder : (out : List ℤ) (r : ℤ) → length (allocate_remainder out r) ≡ length out
unfolding allocate_remainder
length-allocate_remainder out r = length-allocate (step_of r) (abs r) out

pub length-distribute_equal : (total : ℤ) (n : ℕ) → length (distribute_equal total n) ≡ n
unfolding distribute_equal
length-distribute_equal total zero = refl
length-distribute_equal total (suc n) =
    let base = tdiv total (pos (suc n)) in
    length-allocate_remainder (replicate (suc n) base) (total -ℤ base *ℤ pos (suc n))
    ∙ length-replicate {A = ℤ} (suc n) base

length-shares : (t sum : ℤ) (ws out : List ℤ) → shares t sum ws ≡ some out → length out ≡ length ws
unfolding shares
length-shares t sum [] out h = ap length (shares-nil t sum out h)
length-shares t sum (w ∷ ws) out h =
    let (rest, e, out_is, fits) = shares-cons t sum w ws out h in
    ap length out_is ∙ ap suc (length-shares t sum ws rest e)

pub length-distribute_proportional :
    (t : ℤ) (ws : List ℤ) → length (distribute_proportional t ws) ≡ length ws
unfolding distribute_proportional
length-distribute_proportional t ws = elim (Bool-cases (is_zero (sum_ℤ ws))) [
  | inl e ↦ rw e (length-distribute_equal t (length ws))
  | inr e ↦ rw e (elim (Option-cases (shares t (sum_ℤ ws) ws)) [
    | inl n ↦ rw n (length-distribute_equal t (length ws))
    | inr (out, n) ↦ rw n (length-allocate_remainder out _ ∙ length-shares t (sum_ℤ ws) ws out n)
  ])
]

length-coords_from :
    (count : ℕ) (per_dim : List (List ℕ)) (combo : List ℕ)
    → length (coords_from count per_dim combo) ≡ count
unfolding coords_from
length-coords_from zero per_dim combo = refl
length-coords_from (suc count) per_dim combo =
    ap suc (length-coords_from count per_dim ((advance per_dim combo).0))

length-retain :
    (exclude : List ℕ → Bool) (coords : List (List ℕ))
    → length (retain exclude coords) ≤ length coords
unfolding retain
length-retain exclude [] = omega arith
length-retain exclude (c ∷ coords) = elim (Bool-cases (exclude c)) [
  | inl e ↦ rw e (omega (arith, length-retain exclude coords))
  | inr e ↦ rw e (omega (arith, length-retain exclude coords))
]

module _ {Q : Type 0} where
  count_leaves-le :
      (per_dim : List (List ℕ)) (count total : ℕ)
      → count ≤ max_spread_leaves
      → count_leaves {Q = Q} per_dim count ≡ ok total
      → total ≤ max_spread_leaves
  unfolding count_leaves
  count_leaves-le [] count total l h =
      subst (λ n. n ≤ max_spread_leaves) (ok-injective count total h) l
  count_leaves-le (leaves ∷ per_dim) count total l h =
      let product = count * length leaves in
      let next = if ltb product (2 ^ 64) then product else 2 ^ 64 - 1 in
      let (small, rest) =
        guard-eq-ok (leb next max_spread_leaves) (too_many_leaves next max_spread_leaves) _ h in
      count_leaves-le per_dim next total (leb→le next max_spread_leaves small) rest

module _ {Q : Type 0} (read_leaf : List ℕ → Result Q Fixed) where
  -- The leaves that are read are not negative.
  abbrev pub ReadsNonneg : Type 0
  ReadsNonneg = (coord : List ℕ) (v : Fixed) → read_leaf coord ≡ ok v → pos 0 ≤ℤ v.scaled

  -- The method distributes the value, and the value (and the weights) are in range.
  abbrev pub IsExact : SpreadMethod → Fixed → Type 0
  IsExact equal value = IsI64 value.scaled
  IsExact proportional value = (abs value.scaled < i64_max) × ReadsNonneg
  IsExact repeat value = ⊥
  IsExact clear value = ⊥

  weight_of :
      (m : Result Q Fixed) (w : ℤ)
      → read_weight read_leaf m ≡ ok w
      → (v : Fixed) × (m ≡ ok v) × (v.scaled ≡ w)
  weight_of (ok v) w h = (v, refl, ok-injective v.scaled w h)
  weight_of (err e) w h = cc

  read_weights-AreNonneg :
      (coords : List (List ℕ)) (ws : List ℤ)
      → ReadsNonneg
      → read_weights read_leaf coords ≡ ok ws
      → (length ws ≡ length coords) × AreNonneg ws
  unfolding read_weights
  read_weights-AreNonneg [] ws r h =
      subst (λ l. (length l ≡ 0) × AreNonneg l) (ok-injective [] ws h) (refl, tt)
  read_weights-AreNonneg (c ∷ coords) ws r h =
      let (w, first, h') = bind-eq-ok (read_weight read_leaf (read_leaf c)) _ h in
      let (rest, others, same) = bind-eq-ok (read_weights read_leaf coords) _ h' in
      let (v, found, is_w) = weight_of (read_leaf c) w first in
      let (len, nonneg) = read_weights-AreNonneg coords rest r others in
      subst (λ l. (length l ≡ suc (length coords)) × AreNonneg l) (ok-injective (w ∷ rest) ws same)
        (ap suc len, (subst (λ z. pos 0 ≤ℤ z) is_w (r c v found), nonneg))

  values_by-sum :
      (method : SpreadMethod) (value : Fixed) (coords : List (List ℕ)) (values : List ℤ)
      → IsExact method value
      → 0 < length coords
      → length coords ≤ max_spread_leaves
      → values_by read_leaf method value.scaled coords ≡ ok values
      → (length values ≡ length coords) × (sum_ℤ values ≡ value.scaled)
  values_by-sum equal value coords values x p l h =
      subst (λ vs. (length vs ≡ length coords) × (sum_ℤ vs ≡ value.scaled))
        (ok-injective _ values h)
        (
          length-distribute_equal value.scaled (length coords),
          sum-distribute_equal value.scaled (length coords) x p,
        )
  values_by-sum proportional value coords values x p l h =
      let (ws, found, same) = bind-eq-ok (read_weights read_leaf coords) _ h in
      let (len, nonneg) = read_weights-AreNonneg coords ws x.1 found in
      subst (λ vs. (length vs ≡ length coords) × (sum_ℤ vs ≡ value.scaled))
        (ok-injective _ values same)
        (
          length-distribute_proportional value.scaled ws ∙ len,
          sum-distribute_proportional_nonneg value.scaled ws x.0 (omega (arith, len))
              (omega (arith, len)) nonneg,
        )
  values_by-sum repeat value coords values x p l h = absurd x
  values_by-sum clear value coords values x p l h = absurd x

  writes_to-sum :
      (method : SpreadMethod) (value : Fixed) (coords : List (List ℕ))
      (writes : List (List ℕ × Fixed))
      → IsExact method value
      → length coords ≤ max_spread_leaves
      → writes_to read_leaf method value coords ≡ ok writes
      → total_of writes ≡ value.scaled
  writes_to-sum method value [] writes x l h = cc
  writes_to-sum method value (c ∷ coords) writes x l h =
      let (values, found, same) =
        bind-eq-ok (values_by read_leaf method value.scaled (c ∷ coords)) _ h in
      let (len, sums) = values_by-sum method value (c ∷ coords) values x (omega arith) l found in
      ap total_of (sym (ok-injective (zip_writes (c ∷ coords) values) writes same))
      ∙ total_of-zip_writes (c ∷ coords) values len
      ∙ sums

module _ {Q : Type 0} (of_model : ModelError → Q) (read_leaf : List ℕ → Result Q Fixed)
    (exclude : List ℕ → Bool) where
  writes_over-sum :
      (method : SpreadMethod) (value : Fixed) (leaves : Option (List (List ℕ)))
      (writes : List (List ℕ × Fixed))
      → IsExact read_leaf method value
      → writes_over of_model read_leaf exclude method value leaves ≡ ok writes
      → ((leaves ≡ none) × (writes ≡ [])) ⊎ (total_of writes ≡ value.scaled)
  writes_over-sum method value none writes x h = inl (refl, sym (ok-injective [] writes h))
  writes_over-sum method value (some per_dim) writes x h =
      let (count, counted, h') = bind-eq-ok (count_leaves per_dim 1) _ h in
      let start = replicate (length per_dim) 0 in
      let coords = coords_from count per_dim start in
      inr (
        writes_to-sum read_leaf method value (retain exclude coords) writes x
          (omega (
            arith,
            length-retain exclude coords,
            length-coords_from count per_dim start,
            count_leaves-le per_dim 1 count (omega arith) counted,
          ))
          h')

  -- If an even spread of an i64 succeeds, or a proportional spread of a value below 2^63 - 1 in magnitude
  -- over leaves of which none is read as negative, then its writes sum to the value, whatever leaves are
  -- excluded; or there are no writes, and a dimension has no leaves below its element.
  pub spread_leaves-sum :
      (cube : Cube) (target : List ℕ) (value : Fixed) (method : SpreadMethod)
      (writes : List (List ℕ × Fixed))
      → IsExact read_leaf method value
      → spread_leaves of_model read_leaf exclude cube target value method ≡ ok writes
      → ((plain_leaves of_model cube.dimensions target ≡ ok none) × (writes ≡ []))
        ⊎ (total_of writes ≡ value.scaled)
  unfolding spread_leaves
  spread_leaves-sum cube target value method writes x h =
      let (ranked, h') =
        guard-eq-ok (length target == rank cube)
          (read (of_model (rank_mismatch (rank cube) (length target)))) _ h in
      let (leaves, found, rest) = bind-eq-ok (plain_leaves of_model cube.dimensions target) _ h' in
      elim (writes_over-sum method value leaves writes x rest) [
        | inl e ↦ inl (found ∙ ap (λ o. ok o) e.0, e.1)
        | inr e ↦ inr e
      ]
