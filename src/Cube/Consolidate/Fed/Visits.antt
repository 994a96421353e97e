-- ===== src/Cube/Consolidate/Fed/Visits.antt =====
-- The loop over the stored and the fed coordinates counts each contributing one once
-- (`consolidate_fed` of crates/epiphany-core/src/cube.rs).
use epiphany.Base.{
  ℕ, ◌%◌, ◌^◌, ◌≡◌, refl, ap, sym, ◌∙◌, ◌⊎◌, inl, inr, Bool, true, false, Option, none, some, List,
  [], ◌∷◌, length, arith, if◌then◌else◌, Bool-cases, Option-cases, All,
}
use epiphany.Base.Assoc.{lookup}
use epiphany.Base.Assoc.Unique.{IsUnique}
use epiphany.Base.Eq.{list_eq, nat_eq, list_beq, list_beq_iff}
use epiphany.Base.Int.{ℤ}
use epiphany.Base.Result.{Result, ok, ◌>>=◌}
use epiphany.Model.{Failure}
use epiphany.Fixed.{Fixed}
use epiphany.Cube.Consolidate.{
  cell_weight, cell_term, term, wrapping_add, wrapping_mul, from_i64, converted,
}
use epiphany.Cube.Consolidate.Exchange.{sparse_total}
use epiphany.Cube.Consolidate.Fed.{fed_weight, is_seen, Visited, count_some, visit}

nested :
    {A : Type 0} (b c : Bool) (x y : A)
    → (if b then x else (if c then x else y)) ≡ (if (if b then true else c) then x else y)
nested true c x y = refl
nested false c x y = refl

-- the values of the coordinates that were counted
abbrev pub tabulate : (List ℕ → Fixed) → List (List ℕ) → List (List ℕ × Fixed)
tabulate V [] = []
tabulate V (coord ∷ seen) = (coord, V coord) ∷ tabulate V seen

same_value :
    (b : Bool) (V : List ℕ → Fixed) (c coord : List ℕ) (o o' : Option Fixed)
    → (b ≡ true → c ≡ coord)
    → o ≡ o'
    → (if b then some (V c) else o) ≡ (if b then some (V coord) else o')
same_value true V c coord o o' h e = ap (λ k. some (V k)) (h refl)
same_value false V c coord o o' h e = e

pub lookup-tabulate :
    (V : List ℕ → Fixed) (seen : List (List ℕ)) (coord : List ℕ)
    → lookup coord (tabulate V seen) ≡ (if is_seen seen coord then some (V coord) else none)
unfolding lookup
lookup-tabulate V [] coord = refl
lookup-tabulate V (c ∷ seen) coord =
    same_value (list_beq c coord) V c coord (lookup coord (tabulate V seen)) _
      ((list_beq_iff c coord).0) (lookup-tabulate V seen coord)
    ∙ nested (list_beq c coord) (is_seen seen coord) (some (V coord)) none

fed_weight-cell_weight :
    (per_dim : List (List (ℕ × ℤ))) (coord : List ℕ) (weight : ℕ)
    → length coord ≡ length per_dim
    → fed_weight per_dim coord weight ≡ ok (cell_weight per_dim coord weight)
unfolding fed_weight cell_weight
fed_weight-cell_weight [] coord weight l = refl
fed_weight-cell_weight (weights ∷ per_dim) [] weight l = absurd (omega (arith, l))
fed_weight-cell_weight (weights ∷ per_dim) (index ∷ coord) weight l =
    elim (Option-cases (lookup index weights)) [
      | inl e ↦ rw (fed_weight, cell_weight, e) refl
      | inr (w, e) ↦
          rw (fed_weight, cell_weight, e)
            (fed_weight-cell_weight per_dim coord (wrapping_mul weight (from_i64 w))
              (omega (arith, l)))
    ]

module _ (per_dim : List (List (ℕ × ℤ))) (V : List ℕ → Fixed) where
  -- the coordinate has a weight
  abbrev pub Contributes : List ℕ → Type 0
  Contributes coord = (weight : ℕ) × (cell_weight per_dim coord 1 ≡ some weight)

  -- The sum is that of the coordinates counted, each of them once.
  abbrev pub IsSummed : Visited → Type 0
  IsSummed state =
      (state.1 ≡ sparse_total per_dim (tabulate V state.0) % 2 ^ 128)
      × IsUnique (tabulate V state.0)
      × All (λ (cell : List ℕ × Fixed). length cell.0 ≡ length per_dim) (tabulate V state.0)

  -- `next` has counted what `state` has, and the coordinates that `Also` holds of.
  abbrev pub Covers : (List ℕ → Type 0) → Visited → Visited → Type 0
  Covers Also state next =
      (coord : List ℕ)
      → Contributes coord
      → (is_seen state.0 coord ≡ true) ⊎ Also coord
      → is_seen next.0 coord ≡ true

  still_seen : (b s : Bool) → s ≡ true → (if b then true else s) ≡ true
  still_seen true s h = refl
  still_seen false s h = h

  -- the coordinate, when it is to be counted
  counted : (coord : List ℕ) (weight : ℕ) (seen : List (List ℕ)) (acc : ℕ) → Visited
  counted coord weight seen acc = (coord ∷ seen, wrapping_add acc (term weight (V coord)))

  counted-IsSummed :
      (coord : List ℕ) (weight : ℕ) (seen : List (List ℕ)) (acc : ℕ)
      → length coord ≡ length per_dim
      → cell_weight per_dim coord 1 ≡ some weight
      → is_seen seen coord ≡ false
      → IsSummed (seen, acc)
      → IsSummed (counted coord weight seen acc)
  unfolding counted
  counted-IsSummed coord weight seen acc l n t h = (
    omega (arith, h.0, ap (λ o. cell_term o (V coord)) n),
    (lookup-tabulate V seen coord ∙ ap (λ (b : Bool). if b then some (V coord) else none) t, h.1),
    (l, h.2),
  )

  counted-Covers :
      (coord : List ℕ) (weight : ℕ) (seen : List (List ℕ)) (acc : ℕ)
      → Covers (λ c. list_beq coord c ≡ true) (seen, acc) (counted coord weight seen acc)
  unfolding counted
  counted-Covers coord weight seen acc c w s = elim s [
    | inl q ↦ still_seen (list_beq coord c) (is_seen seen c) q
    | inr q ↦ ap (λ (b : Bool). if b then true else is_seen seen c) q
  ]

  -- one coordinate
  step :
      (coord : List ℕ) (seen : List (List ℕ)) (acc : ℕ)
      → length coord ≡ length per_dim
      → IsSummed (seen, acc)
      → (next : Visited) × (count_some
            (λ (e : Failure). e)
            (λ c. ok (V c))
            coord
            (cell_weight per_dim coord 1)
            (seen, acc)
          ≡ ok next)
        × IsSummed next
        × Covers (λ c. list_beq coord c ≡ true) (seen, acc) next
  unfolding counted
  step coord seen acc l h =
      let same = λ (c : List ℕ) (q : list_beq coord c ≡ true). (list_beq_iff coord c).0 q in
      elim (Option-cases (cell_weight per_dim coord 1)) [
        | inl n ↦ rw n (
          (seen, acc),
          refl,
          h,
          λ c w s. elim s [
            | inl q ↦ q
            | inr q ↦
                absurd (let e = ap (λ k. cell_weight per_dim k 1) (same c q) in let v = w.1 in cc)
          ],
        )
        | inr (weight, n) ↦ elim (Bool-cases (is_seen seen coord)) [
          | inl t ↦
              rw (n, t)
                (
                  (seen, acc),
                  refl,
                  h,
                  λ c w s. elim s [ inl q ↦ q | inr q ↦ ap (is_seen seen) (sym (same c q)) ∙ t ],
                )
          | inr t ↦
              rw (n, t)
                (
                  counted coord weight seen acc,
                  refl,
                  counted-IsSummed coord weight seen acc l n t h,
                  counted-Covers coord weight seen acc,
                )
        ]
      ]

  -- The loop counts each contributing coordinate once.
  pub visit-IsSummed :
      (coords : List (List ℕ)) (state : Visited)
      → All (λ (coord : List ℕ). length coord ≡ length per_dim) coords
      → IsSummed state
      → (next : Visited) × (visit (λ (e : Failure). e) (λ c. ok (V c)) per_dim coords state
          ≡ ok next)
        × IsSummed next
        × Covers (λ c. is_seen coords c ≡ true) state next
  unfolding visit
  visit-IsSummed [] state l h = (state, refl, h, λ c w s. elim s [ inl q ↦ q | inr q ↦ absurd cc ])
  visit-IsSummed (coord ∷ coords) state l h =
      let (next, ran, summed, covers) = step coord state.0 state.1 l.0 h in
      let (last, rest, whole, all) = visit-IsSummed coords next l.1 summed in
      (
        last,
        ap
              (λ m. converted (λ (e : Failure). e) m >>= λ weight.
                count_some (λ (e : Failure). e) (λ c. ok (V c)) coord weight state >>= λ s.
                visit (λ (e : Failure). e) (λ c. ok (V c)) per_dim coords s)
              (fed_weight-cell_weight per_dim coord 1 l.0)
            ∙ ap
                (λ (m : Result Failure Visited).
                  m >>= λ s. visit (λ (e : Failure). e) (λ c. ok (V c)) per_dim coords s)
                ran
            ∙ rest,
        whole,
        λ c w s. elim (Bool-cases (list_beq coord c)) [
          | inl q ↦ all c w (inl (covers c w (inr q)))
          | inr q ↦ elim s [
            | inl r ↦ all c w (inl (covers c w (inl r)))
            | inr r ↦ all c w (inr (rw q at r))
          ]
        ],
      )
