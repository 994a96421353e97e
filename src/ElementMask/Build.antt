-- ===== src/ElementMask/Build.antt =====
-- The mask that is built denies exactly the listed indices that are in range.
use mathlib.Core.Option.{some-injective}
use epiphany.Base.{
  ℕ, zero, suc, ◌<◌, ◌≡◌, ◌≢◌, refl, ap, sym, subst, ◌∙◌, Bool, true, false, some, List, [], ◌∷◌,
  get_elem?, set, replicate, length, length-set, length-replicate, get_elem?-set_self,
  get_elem?-set_ne, lt-get_elem?, ◌==◌, ==_iff, Bool-cases, inl, inr, ◌⊎◌, In, arith, ◌↔◌,
}
use epiphany.ElementMask.{mark, bits_of, from_denied, bit_at, index_denied}

set-true :
    (bits : List Bool) (x i : ℕ)
    → i < length bits
    → (get_elem? (set bits x true) i ≡ some true) ↔ ((i ≡ x) ⊎ (get_elem? bits i ≡ some true))
set-true bits x i fits = elim (Bool-cases (x == i)) [
  | inl e ↦
      let same = (==_iff x i).0 e in
      (
        λ q. inl (sym same),
        λ q.
            subst (λ j. get_elem? (set bits x true) j ≡ some true) same
              (get_elem?-set_self bits x true (subst (λ j. j < length bits) (sym same) fits)),
      )
  | inr e ↦
      let ne : x ≢ i = λ same. ground (arith, same, e) in
      (
        λ q. inr (sym (get_elem?-set_ne bits true ne) ∙ q),
        λ q. elim q [
          | inl same ↦ absurd (ne (sym same))
          | inr old ↦ get_elem?-set_ne bits true ne ∙ old
        ],
      )
]

mark-true :
    (bits : List Bool) (list : List ℕ) (i : ℕ)
    → i < length bits
    → (get_elem? (mark bits list) i ≡ some true) ↔ (In i list ⊎ (get_elem? bits i ≡ some true))
unfolding mark
mark-true bits [] i fits = (λ q. inr q, λ q. elim q [ inl z ↦ absurd z | inr q ↦ q ])
mark-true bits (x ∷ list) i fits =
    let ih = mark-true (set bits x true) list i (omega (arith, length-set bits x true)) in
    let one = set-true bits x i fits in
    (
      λ q. elim (ih.0 q) [
        | inl m ↦ inl (inr m)
        | inr r ↦ elim (one.0 r) [ inl same ↦ inl (inl same) | inr old ↦ inr old ]
      ],
      λ q. elim q [
        | inl m ↦ elim m [ inl same ↦ ih.1 (inr (one.1 (inl same))) | inr m ↦ ih.1 (inl m) ]
        | inr old ↦ ih.1 (inr (one.1 (inr old)))
      ],
    )

length-mark : (bits : List Bool) (list : List ℕ) → length (mark bits list) ≡ length bits
unfolding mark
length-mark bits [] = refl
length-mark bits (x ∷ list) = length-mark (set bits x true) list ∙ length-set bits x true

not-true-replicate : (n i : ℕ) → get_elem? (replicate n false) i ≢ some true
not-true-replicate zero i e = absurd (cc)
not-true-replicate (suc n) zero e = absurd (cc)
not-true-replicate (suc n) (suc i) e = not-true-replicate n i e

-- a row of the mask
row-true :
    (count i : ℕ) (list : List ℕ)
    → (get_elem? (mark (replicate count false) list) i ≡ some true) ↔ ((i < count) × In i list)
row-true count i list = (
  λ q.
      let fits : i < count = omega (
        arith,
        lt-get_elem? (mark (replicate count false) list) i true q,
        length-mark (replicate count false) list,
        length-replicate count false,
      ) in
      (
        fits,
        elim ((mark-true (replicate count false) list i
              (omega (arith, fits, length-replicate count false))).0
            q) [ inl m ↦ m | inr r ↦ absurd (not-true-replicate count i r) ],
      ),
  λ (fits, m).
      (mark-true (replicate count false) list i
          (omega (arith, fits, length-replicate count false))).1
        (inl m),
)

bit_at-true :
    (bits : List Bool) (i : ℕ) → (bit_at (some bits) i ≡ true) ↔ (get_elem? bits i ≡ some true)
bit_at-true [] i = (λ q. cc, λ q. cc)
bit_at-true (b ∷ bits) zero = (λ q. ap some q, λ q. some-injective b true q)
bit_at-true (b ∷ bits) (suc i) = bit_at-true bits i

-- The index is listed for the dimension and in its range.
abbrev pub IsListed : List ℕ → List (List ℕ) → ℕ → ℕ → Type 0
IsListed counts lists dim index =
    (count : ℕ) × (list : List ℕ) × (get_elem? counts dim ≡ some count)
    × (get_elem? lists dim ≡ some list)
    × (index < count)
    × In index list

bits_of-exact :
    (counts : List ℕ) (lists : List (List ℕ)) (dim index : ℕ)
    → (bit_at (get_elem? (bits_of counts lists) dim) index ≡ true) ↔ IsListed counts lists dim index
unfolding bits_of
bits_of-exact [] lists dim index = (λ q. cc, λ (c, l, is_c, is_l, lt, m). cc)
bits_of-exact (count ∷ counts) [] zero index = (
  λ q. absurd (not-true-replicate count index ((bit_at-true (replicate count false) index).0 q)),
  λ (c, l, is_c, is_l, lt, m). cc,
)
bits_of-exact (count ∷ counts) [] (suc dim) index = (
  λ q. let (c, l, is_c, is_l, lt, m) = (bits_of-exact counts [] dim index).0 q in absurd (cc),
  λ (c, l, is_c, is_l, lt, m). cc,
)
bits_of-exact (count ∷ counts) (list ∷ lists) zero index =
    let bit = bit_at-true (mark (replicate count false) list) index in
    (
      λ q.
          let (lt, m) = (row-true count index list).0 (bit.0 q) in (count, list, refl, refl, lt, m),
      λ (c, l, is_c, is_l, lt, m). bit.1 (
          (row-true count index list).1 (
            subst (λ n. index < n) (sym (some-injective count c is_c)) lt,
            subst (In index) (sym (some-injective list l is_l)) m,
          )),
    )
bits_of-exact (count ∷ counts) (list ∷ lists) (suc dim) index = bits_of-exact counts lists dim index

-- The mask that is built of lists denies an index at a dimension exactly if the dimension's list
-- holds the index and the index is below the dimension's element count.
pub from_denied-exact :
    (counts : List ℕ) (lists : List (List ℕ)) (dim index : ℕ)
    → (index_denied (from_denied counts lists) dim index ≡ true) ↔ IsListed counts lists dim index
unfolding index_denied from_denied
from_denied-exact counts lists dim index = bits_of-exact counts lists dim index
