-- ===== src/Spread/Leaves/Odometer.antt =====
-- The walk over the combinations meets every leaf coordinate, in order
-- (`spread_leaves` of crates/epiphany-core/src/spread.rs).
use epiphany.Base.{
  ℕ, zero, suc, ◌+◌, ◌<◌, ◌≡◌, refl, ap, sym, subst, ◌∙◌, true, false, List, [], ◌∷◌, ◌++◌, length,
  map, arith, get_or, replicate, ltb, lt→ltb, All,
}
use epiphany.Spread.Leaves.{advance, coord_of, coords_from}

append_empty : (xs : List (List ℕ)) → xs ++ [] ≡ xs
append_empty [] = refl
append_empty (x ∷ xs) = ap (λ ys. x ∷ ys) (append_empty xs)

abbrev pub blocks : ℕ → ℕ → ℕ
blocks zero n = 0
blocks (suc m) n = blocks m n + n

-- how many coordinates there are
abbrev pub size : List (List ℕ) → ℕ
size [] = 1
size (leaves ∷ per_dim) = blocks (length leaves) (size per_dim)

abbrev pub rows : List ℕ → List (List ℕ) → List (List ℕ)
rows [] rest = []
rows (leaf ∷ leaves) rest = map (λ c. leaf ∷ c) rest ++ rows leaves rest

-- all leaf coordinates, in ascending order of the places of their components
abbrev pub product : List (List ℕ) → List (List ℕ)
product [] = [] ∷ []
product (leaves ∷ per_dim) = rows leaves (product per_dim)

abbrev pub zeros : List (List ℕ) → List ℕ
zeros per_dim = replicate (length per_dim) 0

-- So many steps lead from a combination to the first one, and the last step alone carries.
abbrev Ends : List (List ℕ) → ℕ → List ℕ → Type 0
Ends per_dim zero combo = ⊥
Ends per_dim (suc zero) combo = advance per_dim combo ≡ (zeros per_dim, true)
Ends per_dim (suc (suc n)) combo =
    ((advance per_dim combo).1 ≡ false) × Ends per_dim (suc n) ((advance per_dim combo).0)

module _ (leaves : List ℕ) (per_dim : List (List ℕ)) where
  step_on :
      (digit : ℕ) (combo : List ℕ)
      → (advance per_dim combo).1 ≡ false
      → advance (leaves ∷ per_dim) (digit ∷ combo) ≡ (digit ∷ (advance per_dim combo).0, false)
  unfolding advance
  step_on digit combo e = rw e refl

  step_next :
      (digit : ℕ) (combo : List ℕ)
      → advance per_dim combo ≡ (zeros per_dim, true)
      → suc digit < length leaves
      → advance (leaves ∷ per_dim) (digit ∷ combo) ≡ (suc digit ∷ zeros per_dim, false)
  unfolding advance
  step_next digit combo e l = rw (e, lt→ltb (suc digit) (length leaves) l) refl

  step_last :
      (digit : ℕ) (combo : List ℕ)
      → advance per_dim combo ≡ (zeros per_dim, true)
      → suc digit ≡ length leaves
      → advance (leaves ∷ per_dim) (digit ∷ combo) ≡ (zeros (leaves ∷ per_dim), true)
  unfolding advance
  step_last digit combo e l =
      let f : ltb (suc digit) (length leaves) ≡ false = ground (arith, l) in rw (e, f) refl

  -- the last block
  last_block :
      (digit n : ℕ) (combo : List ℕ)
      → suc digit ≡ length leaves
      → Ends per_dim n combo
      → Ends (leaves ∷ per_dim) n (digit ∷ combo)
        × (coords_from n (leaves ∷ per_dim) (digit ∷ combo)
            ≡ map (λ c. get_or leaves digit 0 ∷ c) (coords_from n per_dim combo))
  unfolding coords_from coord_of
  last_block digit zero combo l h = absurd h
  last_block digit (suc zero) combo l h = (step_last digit combo h l, refl)
  last_block digit (suc (suc n)) combo l h =
      let s = step_on digit combo h.0 in
      let ih = last_block digit (suc n) ((advance per_dim combo).0) l h.1 in
      rw s ((refl, ih.0), ap (λ cs. coord_of (leaves ∷ per_dim) (digit ∷ combo) ∷ cs) ih.1)

  -- a block with another one behind
  abbrev IsJoined : (digit n k : ℕ) (combo : List ℕ) (total : ℕ) → Type 0
  IsJoined digit n k combo total =
      Ends (leaves ∷ per_dim) total (digit ∷ combo)
      × (coords_from total (leaves ∷ per_dim) (digit ∷ combo)
          ≡ map (λ c. get_or leaves digit 0 ∷ c) (coords_from n per_dim combo)
            ++ coords_from k (leaves ∷ per_dim) (suc digit ∷ zeros per_dim))

  block :
      (digit n k : ℕ) (combo : List ℕ)
      → suc digit < length leaves
      → Ends per_dim n combo
      → Ends (leaves ∷ per_dim) k (suc digit ∷ zeros per_dim)
      → IsJoined digit n k combo (k + n)
  unfolding coords_from coord_of
  block digit zero k combo l h t = absurd h
  block digit n zero combo l h t = absurd t
  block digit (suc zero) (suc k) combo l h t =
      subst (IsJoined digit 1 (suc k) combo) {x = suc (suc k)} {y = suc k + 1} (omega arith)
        (rw (step_next digit combo h l) ((refl, t), refl))
  block digit (suc (suc n)) (suc k) combo l h t =
      let s = step_on digit combo h.0 in
      let ih =
        subst (IsJoined digit (suc n) (suc k) ((advance per_dim combo).0)) {x = suc k + suc n}
          {y = suc (k + suc n)} (omega arith)
          (block digit (suc n) (suc k) ((advance per_dim combo).0) l h.1 t) in
      subst (IsJoined digit (suc (suc n)) (suc k) combo) {x = suc (suc (k + suc n))}
        {y = suc k + suc (suc n)} (omega arith)
        (rw s ((refl, ih.0), ap (λ cs. coord_of (leaves ∷ per_dim) (digit ∷ combo) ∷ cs) ih.1))

  -- `rest` is what stands in `leaves` from a place on
  abbrev IsTail : ℕ → List ℕ → Type 0
  IsTail digit rest =
      (digit + length rest ≡ length leaves)
      × ((i : ℕ) → i < length rest → get_or rest i 0 ≡ get_or leaves (digit + i) 0)

  IsTail-cons :
      (digit leaf : ℕ) (rest : List ℕ)
      → IsTail digit (leaf ∷ rest)
      → (leaf ≡ get_or leaves digit 0) × IsTail (suc digit) rest
  IsTail-cons digit leaf rest h = (
    h.1 0 (omega arith) ∙ ap (λ k. get_or leaves k 0) {x = digit + 0} {y = digit} (omega arith),
    (
      omega (arith, h.0),
      λ i l.
          h.1 (suc i) (omega arith)
          ∙ ap (λ k. get_or leaves k 0) {x = digit + suc i} {y = suc digit + i} (omega arith),
    ),
  )

  -- the blocks from a digit on
  all_blocks :
      (digit leaf : ℕ) (rest : List ℕ)
      → IsTail digit (leaf ∷ rest)
      → Ends per_dim (size per_dim) (zeros per_dim)
      → Ends
          (leaves ∷ per_dim)
          (blocks (length (leaf ∷ rest)) (size per_dim))
          (digit ∷ zeros per_dim)
        × (coords_from
              (blocks (length (leaf ∷ rest)) (size per_dim))
              (leaves ∷ per_dim)
              (digit ∷ zeros per_dim)
            ≡ rows (leaf ∷ rest) (coords_from (size per_dim) per_dim (zeros per_dim)))
  all_blocks digit leaf [] t h =
      let one = last_block digit (size per_dim) (zeros per_dim) (omega (arith, t.0)) h in
      let row =
        map (λ (c : List ℕ). leaf ∷ c) (coords_from (size per_dim) per_dim (zeros per_dim)) in
      subst
        (λ n.
          Ends (leaves ∷ per_dim) n (digit ∷ zeros per_dim)
          × (coords_from n (leaves ∷ per_dim) (digit ∷ zeros per_dim) ≡ row ++ []))
        {x = size per_dim} {y = 0 + size per_dim} (omega arith)
        (
          one.0,
          one.1
              ∙ ap
                  (λ x.
                    map (λ (c : List ℕ). x ∷ c)
                      (coords_from (size per_dim) per_dim (zeros per_dim)))
                  (sym (IsTail-cons digit leaf [] t).0)
              ∙ sym (append_empty row),
        )
  all_blocks digit leaf (next ∷ rest) t h =
      let (is_leaf, t') = IsTail-cons digit leaf (next ∷ rest) t in
      let ih = all_blocks (suc digit) next rest t' h in
      let both =
        block digit (size per_dim) (blocks (length (next ∷ rest)) (size per_dim)) (zeros per_dim)
          (omega (arith, t.0)) h ih.0 in
      (
        both.0,
        both.1
            ∙ ap
                (λ cs.
                  map (λ c. get_or leaves digit 0 ∷ c)
                    (coords_from (size per_dim) per_dim (zeros per_dim))
                  ++ cs)
                ih.1
            ∙ ap
                (λ x.
                  map (λ (c : List ℕ). x ∷ c) (coords_from (size per_dim) per_dim (zeros per_dim))
                  ++ rows (next ∷ rest) (coords_from (size per_dim) per_dim (zeros per_dim)))
                (sym is_leaf),
      )

abbrev pub AreNonempty : List (List ℕ) → Type 0
AreNonempty per_dim = All (λ (leaves : List ℕ). 0 < length leaves) per_dim

walk :
    (per_dim : List (List ℕ))
    → AreNonempty per_dim
    → Ends per_dim (size per_dim) (zeros per_dim)
      × (coords_from (size per_dim) per_dim (zeros per_dim) ≡ product per_dim)
unfolding advance coords_from coord_of
walk [] h = (refl, refl)
walk ([] ∷ per_dim) h = absurd (omega (arith, h.0))
walk ((leaf ∷ leaves) ∷ per_dim) h =
    let ih = walk per_dim h.1 in
    let whole : IsTail (leaf ∷ leaves) per_dim 0 (leaf ∷ leaves) = (
      omega arith,
      λ i l. ap (λ k. get_or (leaf ∷ leaves) k 0) {x = i} {y = 0 + i} (omega arith),
    ) in
    let all = all_blocks (leaf ∷ leaves) per_dim 0 leaf leaves whole ih.0 in
    (all.0, all.1 ∙ ap (rows (leaf ∷ leaves)) ih.1)

-- Where each dimension has a leaf, as many steps as there are coordinates meet all of them in order.
pub coords_from-product :
    (per_dim : List (List ℕ))
    → AreNonempty per_dim
    → coords_from (size per_dim) per_dim (zeros per_dim) ≡ product per_dim
coords_from-product per_dim h = (walk per_dim h).1
