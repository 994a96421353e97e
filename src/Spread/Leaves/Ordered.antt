-- ===== src/Spread/Leaves/Ordered.antt =====
-- The leaf coordinates of a spread ascend, and are all the combinations of leaves
-- (`spread_leaves` of crates/epiphany-core/src/spread.rs).
use epiphany.Base.{
  ℕ, ◌<◌, ◌≡◌, refl, ap, sym, ◌∙◌, subst, ◌⊎◌, inl, inr, Bool, false, List, [], ◌∷◌, ◌++◌, map, In,
  In-append, In-append_left, In-append_right, All, Bool-cases, ◌↔◌,
}
use epiphany.Spread.Leaves.{retain}
use epiphany.Spread.Leaves.Odometer.{rows, product}

abbrev pub Ascends : List ℕ → Type 0
Ascends [] = Unit
Ascends (x ∷ xs) = ((y : ℕ) → In y xs → x < y) × Ascends xs

-- The first component in which two coordinates differ is less in the one.
abbrev pub Precedes : List ℕ → List ℕ → Type 0
Precedes (x ∷ xs) (y ∷ ys) = (x < y) ⊎ ((x ≡ y) × Precedes xs ys)
Precedes _ _ = ⊥

-- Each coordinate precedes all behind it, so that none occurs twice.
abbrev pub AreAscending : List (List ℕ) → Type 0
AreAscending [] = Unit
AreAscending (c ∷ cs) = ((d : List ℕ) → In d cs → Precedes c d) × AreAscending cs

-- a coordinate of one element of each list
abbrev pub IsChoice : List (List ℕ) → List ℕ → Type 0
IsChoice [] [] = Unit
IsChoice (leaves ∷ per_dim) (leaf ∷ coord) = In leaf leaves × IsChoice per_dim coord
IsChoice _ _ = ⊥

-- a coordinate of a row
In-row :
    (leaf : ℕ) (rest : List (List ℕ)) (c : List ℕ)
    → In c (map (λ (d : List ℕ). leaf ∷ d) rest) ↔ ((d : List ℕ) × In d rest × (c ≡ leaf ∷ d))
In-row leaf [] c = (λ h. absurd h, λ h. h.1)
In-row leaf (d ∷ rest) c = (
  λ h. elim h [
    | inl q ↦ (d, inl refl, q)
    | inr q ↦ let (e, m, same) = (In-row leaf rest c).0 q in (e, inr m, same)
  ],
  λ (e, m, same). elim m [
    | inl q ↦ inl (same ∙ ap (λ (x : List ℕ). leaf ∷ x) q)
    | inr q ↦ inr ((In-row leaf rest c).1 (e, q, same))
  ],
)

In-rows :
    (leaves : List ℕ) (rest : List (List ℕ)) (c : List ℕ)
    → In c (rows leaves rest)
      ↔ ((leaf : ℕ) × (d : List ℕ) × In leaf leaves × In d rest × (c ≡ leaf ∷ d))
In-rows [] rest c = (λ h. absurd h, λ h. h.2)
In-rows (leaf ∷ leaves) rest c =
    let row = map (λ (d : List ℕ). leaf ∷ d) rest in
    (
      λ h. elim (In-append c row (rows leaves rest) h) [
        | inl q ↦ let (d, m, same) = (In-row leaf rest c).0 q in (leaf, d, inl refl, m, same)
        | inr q ↦ let (x, d, n, m, same) = (In-rows leaves rest c).0 q in (x, d, inr n, m, same)
      ],
      λ (x, d, n, m, same). elim n [
        | inl q ↦
            In-append_left c row (rows leaves rest)
              ((In-row leaf rest c).1 (d, m, same ∙ ap (λ (y : ℕ). y ∷ d) q))
        | inr q ↦
            In-append_right c row (rows leaves rest) ((In-rows leaves rest c).1 (x, d, q, m, same))
      ],
    )

-- The product has all the choices, and no other coordinate.
pub In-product :
    (per_dim : List (List ℕ)) (c : List ℕ) → In c (product per_dim) ↔ IsChoice per_dim c
In-product [] [] = (λ h. tt, λ h. inl refl)
In-product [] (x ∷ c) = (λ h. elim h [ inl q ↦ absurd cc | inr q ↦ absurd q ], λ h. absurd h)
In-product (leaves ∷ per_dim) [] = (
  λ h. absurd (let (x, d, n, m, same) = (In-rows leaves (product per_dim) []).0 h in cc),
  λ h. absurd h,
)
In-product (leaves ∷ per_dim) (leaf ∷ c) = (
  λ h.
      (let (x, d, n, m, same) = (In-rows leaves (product per_dim) (leaf ∷ c)).0 h in
        let first : x ≡ leaf = cc in
        let others : d ≡ c = cc in
        (
          subst (λ y. In y leaves) first n,
          (In-product per_dim c).0 (subst (λ e. In e (product per_dim)) others m),
        )),
  λ h.
      (In-rows leaves (product per_dim) (leaf ∷ c)).1
        (leaf, c, h.0, (In-product per_dim c).1 h.1, refl),
)

append-AreAscending :
    (xs ys : List (List ℕ))
    → AreAscending xs
    → AreAscending ys
    → ((c d : List ℕ) → In c xs → In d ys → Precedes c d)
    → AreAscending (xs ++ ys)
append-AreAscending [] ys hx hy h = hy
append-AreAscending (x ∷ xs) ys hx hy h = (
  λ d m. elim (In-append d xs ys m) [ inl q ↦ hx.0 d q | inr q ↦ h x d (inl refl) q ],
  append-AreAscending xs ys hx.1 hy (λ c d m n. h c d (inr m) n),
)

row-AreAscending :
    (leaf : ℕ) (rest : List (List ℕ))
    → AreAscending rest
    → AreAscending (map (λ (d : List ℕ). leaf ∷ d) rest)
row-AreAscending leaf [] h = tt
row-AreAscending leaf (c ∷ rest) h = (
  λ d m.
      (let (e, n, same) = (In-row leaf rest d).0 m in
        subst (Precedes (leaf ∷ c)) (sym same) (inr (refl, h.0 e n))),
  row-AreAscending leaf rest h.1,
)

rows-AreAscending :
    (leaves : List ℕ) (rest : List (List ℕ))
    → Ascends leaves
    → AreAscending rest
    → AreAscending (rows leaves rest)
rows-AreAscending [] rest a h = tt
rows-AreAscending (leaf ∷ leaves) rest a h =
    append-AreAscending (map (λ (d : List ℕ). leaf ∷ d) rest) (rows leaves rest)
      (row-AreAscending leaf rest h) (rows-AreAscending leaves rest a.1 h)
      (λ c d m n.
        let (e, k, c_is) = (In-row leaf rest c).0 m in
        let (x, f, l, j, d_is) = (In-rows leaves rest d).0 n in
        subst (λ y. Precedes y d) (sym c_is)
          (subst (Precedes (leaf ∷ e)) (sym d_is) (inl (a.0 x l))))

pub product-AreAscending :
    (per_dim : List (List ℕ)) → All Ascends per_dim → AreAscending (product per_dim)
product-AreAscending [] a = ((λ d m. absurd m), tt)
product-AreAscending (leaves ∷ per_dim) a =
    rows-AreAscending leaves (product per_dim) a.0 (product-AreAscending per_dim a.1)

pub In-retain :
    (exclude : List ℕ → Bool) (cs : List (List ℕ)) (c : List ℕ)
    → In c (retain exclude cs) ↔ (In c cs × (exclude c ≡ false))
unfolding retain
In-retain exclude [] c = (λ h. absurd h, λ h. h.0)
In-retain exclude (d ∷ cs) c = elim (Bool-cases (exclude d)) [
  | inl e ↦ rw e (
    λ h. (let k = (In-retain exclude cs c).0 h in (inr k.0, k.1)),
    λ h. elim h.0 [
      | inl q ↦ absurd (let f = ap exclude q in let g = h.1 in cc)
      | inr q ↦ (In-retain exclude cs c).1 (q, h.1)
    ],
  )
  | inr e ↦ rw e (
    λ h. elim h [
      | inl q ↦ (inl q, ap exclude q ∙ e)
      | inr q ↦ let k = (In-retain exclude cs c).0 q in (inr k.0, k.1)
    ],
    λ h. elim h.0 [ inl q ↦ inl q | inr q ↦ inr ((In-retain exclude cs c).1 (q, h.1)) ],
  )
]

pub retain-AreAscending :
    (exclude : List ℕ → Bool) (cs : List (List ℕ))
    → AreAscending cs
    → AreAscending (retain exclude cs)
unfolding retain
retain-AreAscending exclude [] h = tt
retain-AreAscending exclude (c ∷ cs) h = elim (Bool-cases (exclude c)) [
  | inl e ↦ rw e (retain-AreAscending exclude cs h.1)
  | inr e ↦
      rw e ((λ d m. h.0 d (((In-retain exclude cs d).0 m).0)), retain-AreAscending exclude cs h.1)
]
