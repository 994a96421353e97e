-- ===== src/Spread/Leaves/Below.antt =====
-- The writes of a spread go to the leaf coordinates below the target
-- (`spread_leaves` of crates/epiphany-core/src/spread.rs).
use epiphany.Base.{
  ℕ, ◌≡◌, refl, ap, sym, ◌∙◌, subst, ◌⊎◌, inl, inr, Bool, false, Option, none, some, List, [], ◌∷◌,
  length, arith, In, All, ◌↔◌, ◌==◌, ==_iff, Bool-cases,
}
use mathlib.Core.Option.{some-injective}
use epiphany.Base.Int.{ℤ}
use epiphany.Base.Result.{Result, ok, err, ◌>>=◌, ok_or, bind-eq-ok, guard-eq-ok, ok-injective}
use epiphany.Model.{ModelError, Failure, rejected, panic, rank_mismatch}
use epiphany.Fixed.{Fixed}
use epiphany.Dimension.{Dimension}
use epiphany.Dimension.Leaves.{leaf_weights}
use epiphany.Dimension.Leaves.Sort.{IsAscending}
use epiphany.Cube.{Cube, rank}
use epiphany.Cube.Consolidate.Leaves.{leaf_weights-IsAscending}
use epiphany.Spread.Leaves.{
  SpreadMethod, SpreadError, read, weighted_consolidation, is_one, unit_leaves, failed,
  plain_leaves, retain, spread_leaves,
}
use epiphany.Spread.Leaves.Odometer.{product}
use epiphany.Spread.Leaves.Targets.{targets, targets-product}
use epiphany.Spread.Leaves.Ordered.{
  Ascends, AreAscending, IsChoice, In-product, In-retain, product-AreAscending, retain-AreAscending,
}

-- A leaf that the expansion of an element has.
abbrev pub IsLeafBelow : Dimension → ℕ → ℕ → Type 0
IsLeafBelow d index leaf =
    (weights : List (ℕ × ℤ)) × (w : ℤ) × (leaf_weights d index ≡ ok weights) × In (leaf, w) weights

-- Each component is a leaf below that of the target.
abbrev pub IsLeafCoord : List Dimension → List ℕ → List ℕ → Type 0
IsLeafCoord [] [] [] = Unit
IsLeafCoord (d ∷ ds) (index ∷ target) (leaf ∷ coord) =
    IsLeafBelow d index leaf × IsLeafCoord ds target coord
IsLeafCoord _ _ _ = ⊥

rest_cons :
    (x : ℕ) (o : Option (List ℕ)) (leaves : List ℕ)
    → ◌≡◌ {A = Option (List ℕ)} (elim o [ none ↦ none | some l ↦ some (x ∷ l) ]) (some leaves)
    → (others : List ℕ) × (o ≡ some others) × (x ∷ others ≡ leaves)
rest_cons x none leaves h = cc
rest_cons x (some l) leaves h = (l, refl, some-injective (x ∷ l) leaves h)

unit_cons :
    (x : ℕ) (v : ℤ) (weights : List (ℕ × ℤ)) (leaves : List ℕ)
    → unit_leaves ((x, v) ∷ weights) ≡ some leaves
    → (others : List ℕ) × (unit_leaves weights ≡ some others) × (x ∷ others ≡ leaves)
unit_cons x v weights leaves h = elim (Bool-cases (is_one v)) [
  | inl e ↦ rest_cons x (unit_leaves weights) leaves (rw e at h)
  | inr e ↦ absurd (let k = rw e at h in cc)
]

-- The leaves without their weights, which are all 1.
In-unit_leaves :
    (weights : List (ℕ × ℤ)) (leaves : List ℕ) (leaf : ℕ)
    → unit_leaves weights ≡ some leaves
    → In leaf leaves ↔ ((w : ℤ) × In (leaf, w) weights)
In-unit_leaves [] leaves leaf h =
    subst (λ l. In leaf l ↔ ((w : ℤ) × In {A = ℕ × ℤ} (leaf, w) [])) (some-injective [] leaves h)
      (λ q. absurd q, λ q. absurd q.1)
In-unit_leaves ((x, v) ∷ weights) leaves leaf h =
    let (others, found, whole) = unit_cons x v weights leaves h in
    let ih = In-unit_leaves weights others leaf found in
    subst (λ l. In leaf l ↔ ((w : ℤ) × In (leaf, w) ((x, v) ∷ weights))) whole
      (
        λ m. elim m [
          | inl q ↦ (v, inl (ap (λ (y : ℕ). let p : ℕ × ℤ = (y, v) in p) q))
          | inr q ↦ let (w, n) = ih.0 q in (w, inr n)
        ],
        λ (w, m). elim m [ inl q ↦ inl (ap (λ (y : ℕ × ℤ). y.0) q) | inr q ↦ inr (ih.1 (w, q)) ],
      )

unit_leaves-Ascends :
    (weights : List (ℕ × ℤ)) (leaves : List ℕ)
    → IsAscending weights
    → unit_leaves weights ≡ some leaves
    → Ascends leaves
unit_leaves-Ascends [] leaves a h = subst Ascends (some-injective [] leaves h) tt
unit_leaves-Ascends ((x, v) ∷ weights) leaves a h =
    let (others, found, whole) = unit_cons x v weights leaves h in
    subst Ascends whole (
      λ y m. (let (w, n) = (In-unit_leaves weights others y found).0 m in a.0 (y, w) n),
      unit_leaves-Ascends weights others a.1 found,
    )

module _ {Q : Type 0} (of_model : ModelError → Q) where
  failed-ok : {A : Type 0} (m : Result Failure A) (a : A) → failed of_model m ≡ ok a → m ≡ ok a
  failed-ok (ok b) a h = ap (λ x. ok x) (ok-injective b a h)
  failed-ok (err (rejected e)) a h = cc
  failed-ok (err panic) a h = cc

  ok_or-some :
      (o : Option (List ℕ)) (leaves : List ℕ)
      → ◌≡◌ {A = Result (SpreadError Q) (List ℕ)} (ok_or o weighted_consolidation) (ok leaves)
      → o ≡ some leaves
  ok_or-some none leaves h = cc
  ok_or-some (some l) leaves h = ap (λ x. some x) (ok-injective l leaves h)

  -- one dimension: what its list of leaves is
  one_dimension :
      (d : Dimension) (index leaf : ℕ) (weights : List (ℕ × ℤ)) (leaves : List ℕ)
      → leaf_weights d index ≡ ok weights
      → unit_leaves weights ≡ some leaves
      → In leaf leaves ↔ IsLeafBelow d index leaf
  one_dimension d index leaf weights leaves found plain =
      let same = In-unit_leaves weights leaves leaf plain in
      (
        λ m. (let (w, n) = same.0 m in (weights, w, found, n)),
        λ (ws, w, found', n). same.1 (
          w,
          subst (λ l. In {A = ℕ × ℤ} (leaf, w) l) (ok-injective ws weights (sym found' ∙ found)) n,
        ),
      )

  -- What the lists of leaves say: the choices from them are the leaf coordinates.
  abbrev IsListed : List Dimension → List ℕ → Option (List (List ℕ)) → Type 0
  IsListed ds target none = (c : List ℕ) → ¬ IsLeafCoord ds target c
  IsListed ds target (some per_dim) =
      All Ascends per_dim × ((c : List ℕ) → IsChoice per_dim c ↔ IsLeafCoord ds target c)

  IsListed-cons :
      (d : Dimension) (ds : List Dimension) (index : ℕ) (target : List ℕ) (weights : List (ℕ × ℤ))
      (leaves : List ℕ) (rest : Option (List (List ℕ)))
      → leaf_weights d index ≡ ok weights
      → unit_leaves weights ≡ some leaves
      → IsListed ds target rest
      → IsListed
          (d ∷ ds)
          (index ∷ target)
          (elim rest [ none ↦ none | some per_dim ↦ some (leaves ∷ per_dim) ])
  IsListed-cons d ds index target weights leaves none found plain h = nothing
    where
      nothing : (c : List ℕ) → ¬ IsLeafCoord (d ∷ ds) (index ∷ target) c
      nothing [] k = k
      nothing (x ∷ c) k = h c k.1
  IsListed-cons d ds index target weights leaves (some per_dim) found plain h = (
    (
      unit_leaves-Ascends weights leaves (leaf_weights-IsAscending d index weights found).0 plain,
      h.0,
    ),
    λ c. choice c,
  )
    where
      choice :
          (c : List ℕ) → IsChoice (leaves ∷ per_dim) c ↔ IsLeafCoord (d ∷ ds) (index ∷ target) c
      choice [] = (λ k. k, λ k. k)
      choice (x ∷ c) =
          let one = one_dimension d index x weights leaves found plain in
          (λ k. (one.0 k.0, (h.1 c).0 k.1), λ k. (one.1 k.0, (h.1 c).1 k.1))

  IsListed-step :
      (d : Dimension) (ds : List Dimension) (index : ℕ) (target : List ℕ) (weights : List (ℕ × ℤ))
      (leaves : List ℕ) (m : Result (SpreadError Q) (Option (List (List ℕ))))
      (found : Option (List (List ℕ)))
      → leaf_weights d index ≡ ok weights
      → unit_leaves weights ≡ some leaves
      → ((rest : Option (List (List ℕ))) → m ≡ ok rest → IsListed ds target rest)
      → ◌≡◌ {A = Result (SpreadError Q) (Option (List (List ℕ)))}
          (elim leaves [
            | [] ↦ ok none
            | first ∷ others ↦ m >>= λ rest.
                ok (elim rest [ none ↦ none | some per_dim ↦ some ((first ∷ others) ∷ per_dim) ])
          ])
          (ok found)
      → IsListed (d ∷ ds) (index ∷ target) found
  IsListed-step d ds index target weights [] m found w plain ih h =
      subst (IsListed (d ∷ ds) (index ∷ target)) (ok-injective none found h) nothing
    where
      nothing : (c : List ℕ) → ¬ IsLeafCoord (d ∷ ds) (index ∷ target) c
      nothing [] k = k
      nothing (x ∷ c) k = (one_dimension d index x weights [] w plain).1 k.0
  IsListed-step d ds index target weights (first ∷ others) m found w plain ih h =
      let (rest, is_rest, same) = bind-eq-ok m _ h in
      subst (IsListed (d ∷ ds) (index ∷ target)) (ok-injective _ found same)
        (IsListed-cons d ds index target weights (first ∷ others) rest w plain (ih rest is_rest))

  plain_leaves-IsListed :
      (ds : List Dimension) (target : List ℕ) (found : Option (List (List ℕ)))
      → length target ≡ length ds
      → plain_leaves of_model ds target ≡ ok found
      → IsListed ds target found
  unfolding plain_leaves
  plain_leaves-IsListed [] [] found l h =
      subst (IsListed [] []) (ok-injective (some []) found h) (tt, none_left)
    where
      none_left : (c : List ℕ) → IsChoice [] c ↔ IsLeafCoord [] [] c
      none_left [] = (λ k. k, λ k. k)
      none_left (x ∷ c) = (λ k. k, λ k. k)
  plain_leaves-IsListed [] (i ∷ target) found l h = absurd (omega (arith, l))
  plain_leaves-IsListed (d ∷ ds) [] found l h = absurd (omega (arith, l))
  plain_leaves-IsListed (d ∷ ds) (i ∷ target) found l h =
      let (weights, w, h1) = bind-eq-ok (failed of_model (leaf_weights d i)) _ h in
      let (leaves, plain, h2) =
        bind-eq-ok (ok_or (unit_leaves weights) weighted_consolidation) _ h1 in
      IsListed-step d ds i target weights leaves (plain_leaves of_model ds target) found
        (failed-ok (leaf_weights d i) weights w) (ok_or-some (unit_leaves weights) leaves plain)
        (λ rest e. plain_leaves-IsListed ds target rest (omega (arith, l)) e) h2

-- Coordinates that ascend, and are the leaf coordinates below a target that are not excluded.
abbrev pub AreTargets : Cube → List ℕ → (List ℕ → Bool) → List (List ℕ) → Type 0
AreTargets cube target exclude cs =
    AreAscending cs
    × ((c : List ℕ) → In c cs ↔ (IsLeafCoord cube.dimensions target c × (exclude c ≡ false)))

module _ {Q : Type 0} (of_model : ModelError → Q) (read_leaf : List ℕ → Result Q Fixed)
    (exclude : List ℕ → Bool) where
  ranked :
      (cube : Cube) (target : List ℕ) (value : Fixed) (method : SpreadMethod)
      (writes : List (List ℕ × Fixed))
      → spread_leaves of_model read_leaf exclude cube target value method ≡ ok writes
      → length target ≡ length cube.dimensions
  unfolding spread_leaves
  ranked cube target value method writes h = (==_iff (length target) (rank cube)).0 (
      (guard-eq-ok (length target == rank cube)
        (read (of_model (rank_mismatch (rank cube) (length target)))) _ h).0)

  targets_by :
      (cube : Cube) (target : List ℕ) (writes : List (List ℕ × Fixed))
      → length target ≡ length cube.dimensions
      → ((plain_leaves of_model cube.dimensions target ≡ ok none) × (writes ≡ []))
        ⊎ ((per_dim : List (List ℕ)) × (plain_leaves of_model cube.dimensions target
              ≡ ok (some per_dim))
            × (targets writes ≡ retain exclude (product per_dim)))
      → AreTargets cube target exclude (targets writes)
  targets_by cube target writes l (inl (e, w)) =
      let no = plain_leaves-IsListed of_model cube.dimensions target none l e in
      subst (λ ws. AreTargets cube target exclude (targets ws)) (sym w)
        (tt, λ c. (λ m. absurd m, λ k. no c k.0))
  targets_by cube target writes l (inr (per_dim, e, w)) =
      let listed = plain_leaves-IsListed of_model cube.dimensions target (some per_dim) l e in
      subst (AreTargets cube target exclude) (sym w) (
        retain-AreAscending exclude (product per_dim) (product-AreAscending per_dim listed.0),
        λ c. (
          λ m.
              (let k = (In-retain exclude (product per_dim) c).0 m in
                ((listed.1 c).0 ((In-product per_dim c).0 k.0), k.1)),
          λ k.
              (In-retain exclude (product per_dim) c).1
                ((In-product per_dim c).1 ((listed.1 c).1 k.0), k.1),
        ),
      )

  -- If a spread succeeds, by any method, then the coordinates that it writes to are those each of whose
  -- components is a leaf in the expansion of that of the target, and that are not excluded: each of them,
  -- no other, and in ascending order, so that none is written twice.
  pub targets-spread_leaves :
      (cube : Cube) (target : List ℕ) (value : Fixed) (method : SpreadMethod)
      (writes : List (List ℕ × Fixed))
      → spread_leaves of_model read_leaf exclude cube target value method ≡ ok writes
      → AreTargets cube target exclude (targets writes)
  targets-spread_leaves cube target value method writes h =
      targets_by cube target writes (ranked cube target value method writes h)
        (targets-product of_model read_leaf exclude cube target value method writes h)
