-- ===== src/Dimension/Leaves/Sort.antt =====
-- The end of `leaf_weights`: zero weights are dropped and the leaves sorted.
use epiphany.Base.{
  ℕ, ◌<◌, ◌≡◌, ◌≢◌, ap, sym, subst, ◌∙◌, Bool, true, false, List, [], ◌∷◌, ◌⊎◌, inl, inr, arith,
  Bool-cases, In, leb, ◌==◌, ◌↔◌,
}
use epiphany.Base.Int.{ℤ}
use epiphany.Base.Eq.{nat_eq}
use epiphany.Base.Assoc.{insert, remove}
use epiphany.Fixed.{is_zero_i64}
use epiphany.Dimension.Leaves.{nonzero, insert_sorted, sort_by_leaf, finish}
use epiphany.Dimension.Leaves.Queue.{In-remove}

-- No leaf is recorded twice.
abbrev pub Distinct : List (ℕ × ℤ) → Type 0
Distinct [] = Unit
Distinct ((n, w) ∷ m) = ((v : ℤ) → ¬ In (n, v) m) × Distinct m

-- The leaves ascend.
abbrev pub IsAscending : List (ℕ × ℤ) → Type 0
IsAscending [] = Unit
IsAscending (x ∷ ys) = ((y : ℕ × ℤ) → In y ys → x.0 < y.0) × IsAscending ys

not-In-remove : (k : ℕ) (v : ℤ) (m : List (ℕ × ℤ)) → ¬ In (k, v) (remove k m)
unfolding remove
not-In-remove k v [] h = h
not-In-remove k v ((j, w) ∷ m) h = elim (Bool-cases (j == k)) [
  | inl same ↦ not-In-remove k v m (rw same at h)
  | inr other ↦ elim (let h' : In (k, v) ((j, w) ∷ remove k m) = rw other at h in h') [
    | inl q ↦ ground (arith, ap (λ (y : ℕ × ℤ). y.0) q)
    | inr h'' ↦ not-In-remove k v m h''
  ]
]

remove-Distinct : (k : ℕ) (m : List (ℕ × ℤ)) → Distinct m → Distinct (remove k m)
unfolding remove
remove-Distinct k [] h = tt
remove-Distinct k ((j, w) ∷ m) h = elim (Bool-cases (j == k)) [
  | inl same ↦ rw same (remove-Distinct k m h.1)
  | inr other ↦ rw other (λ v q. h.0 v (In-remove k m (j, v) q), remove-Distinct k m h.1)
]

pub insert-Distinct : (k : ℕ) (v : ℤ) (m : List (ℕ × ℤ)) → Distinct m → Distinct (insert k v m)
unfolding insert
insert-Distinct k v m h = (λ w. not-In-remove k w m, remove-Distinct k m h)

In-nonzero :
    (m : List (ℕ × ℤ)) (x : ℕ × ℤ) → In x (nonzero m) ↔ (In x m × (is_zero_i64 x.1 ≡ false))
In-nonzero [] x = (λ h. absurd h, λ h. h.0)
In-nonzero ((n, w) ∷ m) x = elim (Bool-cases (is_zero_i64 w)) [
  | inl z ↦ rw z (
    λ h. let (a, b) = (In-nonzero m x).0 h in (inr a, b),
    λ h. elim h.0 [
      | inl q ↦ absurd (true-ne-false (sym z) (ap (λ (y : ℕ × ℤ). is_zero_i64 y.1) (sym q) ∙ h.1))
      | inr k ↦ (In-nonzero m x).1 (k, h.1)
    ],
  )
  | inr nz ↦ rw nz (
    λ h. elim h [
      | inl q ↦ (inl q, ap (λ (y : ℕ × ℤ). is_zero_i64 y.1) q ∙ nz)
      | inr k ↦ let (a, b) = (In-nonzero m x).0 k in (inr a, b)
    ],
    λ h. elim h.0 [ inl q ↦ inl q | inr k ↦ inr ((In-nonzero m x).1 (k, h.1)) ],
  )
]
  where
    true-ne-false : {b : Bool} → true ≡ b → b ≡ false → ⊥
    true-ne-false p q = cc

nonzero-Distinct : (m : List (ℕ × ℤ)) → Distinct m → Distinct (nonzero m)
nonzero-Distinct [] h = tt
nonzero-Distinct ((n, w) ∷ m) h = elim (Bool-cases (is_zero_i64 w)) [
  | inl z ↦ rw z (nonzero-Distinct m h.1)
  | inr nz ↦ rw nz (λ v q. h.0 v ((In-nonzero m (n, v)).0 q).0, nonzero-Distinct m h.1)
]

In-insert_sorted :
    (x : ℕ × ℤ) (ys : List (ℕ × ℤ)) (y : ℕ × ℤ) → In y (insert_sorted x ys) ↔ ((y ≡ x) ⊎ In y ys)
unfolding insert_sorted
In-insert_sorted x [] y = (λ h. h, λ h. h)
In-insert_sorted x (z ∷ ys) y = elim (Bool-cases (leb x.0 z.0)) [
  | inl le ↦ rw le (λ h. h, λ h. h)
  | inr gt ↦ rw gt (
    λ h. elim h [
      | inl q ↦ inr (inl q)
      | inr k ↦ elim ((In-insert_sorted x ys y).0 k) [ inl q ↦ inl q | inr m ↦ inr (inr m) ]
    ],
    λ h. elim h [
      | inl q ↦ inr ((In-insert_sorted x ys y).1 (inl q))
      | inr (inl q) ↦ inl q
      | inr (inr m) ↦ inr ((In-insert_sorted x ys y).1 (inr m))
    ],
  )
]

insert_sorted-IsAscending :
    (x : ℕ × ℤ) (ys : List (ℕ × ℤ))
    → ((v : ℤ) → ¬ In (x.0, v) ys)
    → IsAscending ys
    → IsAscending (insert_sorted x ys)
unfolding insert_sorted
insert_sorted-IsAscending x [] new h = (λ y k. absurd k, tt)
insert_sorted-IsAscending x (z ∷ ys) new h =
    let ne : x.0 ≢ z.0 = λ e. new z.1 (inl (λ i. (e i, z.1))) in
    elim (Bool-cases (leb x.0 z.0)) [
      | inl le ↦ let lt : x.0 < z.0 = ground arith in rw le (λ y k. below y lt k, h)
      | inr gt ↦
          let lt : z.0 < x.0 = ground arith in
          rw gt (
            λ y k. elim ((In-insert_sorted x ys y).0 k) [
              | inl q ↦ subst (λ (t : ℕ × ℤ). z.0 < t.0) (sym q) lt
              | inr m ↦ h.0 y m
            ],
            insert_sorted-IsAscending x ys (λ v k. new v (inr k)) h.1,
          )
    ]
  where
    below : (y : ℕ × ℤ) → x.0 < z.0 → In y (z ∷ ys) → x.0 < y.0
    below y lt (inl q) = subst (λ (t : ℕ × ℤ). x.0 < t.0) (sym q) lt
    below y lt (inr k) = let k' = h.0 y k in omega arith

In-sort_by_leaf : (m : List (ℕ × ℤ)) (x : ℕ × ℤ) → In x (sort_by_leaf m) ↔ In x m
unfolding sort_by_leaf
In-sort_by_leaf [] x = (λ h. h, λ h. h)
In-sort_by_leaf (y ∷ m) x =
    let step = In-insert_sorted y (sort_by_leaf m) x in
    let ih = In-sort_by_leaf m x in
    (
      λ h. elim (step.0 h) [ inl q ↦ inl q | inr k ↦ inr (ih.0 k) ],
      λ h. elim h [ inl q ↦ step.1 (inl q) | inr k ↦ step.1 (inr (ih.1 k)) ],
    )

sort_by_leaf-IsAscending : (m : List (ℕ × ℤ)) → Distinct m → IsAscending (sort_by_leaf m)
unfolding sort_by_leaf
sort_by_leaf-IsAscending [] h = tt
sort_by_leaf-IsAscending (x ∷ m) h =
    insert_sorted-IsAscending x (sort_by_leaf m) (λ v k. h.0 v ((In-sort_by_leaf m (x.0, v)).0 k))
      (sort_by_leaf-IsAscending m h.1)

-- The finished list holds just the records whose weight is not zero.
pub In-finish :
    (m : List (ℕ × ℤ)) (x : ℕ × ℤ) → In x (finish m) ↔ (In x m × (is_zero_i64 x.1 ≡ false))
unfolding finish
In-finish m x =
    let sorted = In-sort_by_leaf (nonzero m) x in
    let kept = In-nonzero m x in (λ h. kept.0 (sorted.0 h), λ h. sorted.1 (kept.1 h))

pub finish-IsAscending : (m : List (ℕ × ℤ)) → Distinct m → IsAscending (finish m)
unfolding finish
finish-IsAscending m h = sort_by_leaf-IsAscending (nonzero m) (nonzero-Distinct m h)
