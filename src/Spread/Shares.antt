-- ===== src/Spread/Shares.antt =====
-- The shares of the proportional split, and what they leave over.
use epiphany.Base.{
  ℕ, ◌+◌, ◌*◌, ◌≤◌, ◌<◌, ◌≡◌, ap, arith, List, [], ◌∷◌, length, inl, inr, some, true, Option-cases,
}
use epiphany.Base.Int.{ℤ, pos, pos_part, neg_part, ◌+ℤ◌, ◌-ℤ◌, ◌*ℤ◌, -ℤ_parts, int_laws, abs, sum_ℤ}
use epiphany.Base.Int.Ring.{*ℤ_parts, abs-*ℤ, abs-+ℤ, *ℤ-+ℤ, +ℤ-*ℤ}
use epiphany.Fixed.{in_i64}
use epiphany.Spread.{tdiv, shares}
use epiphany.Spread.Division.{rem, abs-rem-lt}

-- What a successful run of the shares has computed.
pub shares-cons :
    (t s w : ℤ) (ws out : List ℤ)
    → shares t s (w ∷ ws) ≡ some out
    → (rest : List ℤ) × (shares t s ws ≡ some rest)
      × (out ≡ tdiv (t *ℤ w) s ∷ rest)
      × (in_i64 (tdiv (t *ℤ w) s) ≡ true)
unfolding shares
shares-cons t s w ws out h = elim (Option-cases (shares t s ws)) [
  | inl e ↦ absurd (ground arith)
  | inr (rest, e) ↦ (rest, e, ground arith, ground arith)
]

pub shares-nil : (t s : ℤ) (out : List ℤ) → shares t s [] ≡ some out → out ≡ []
unfolding shares
shares-nil t s out h = ground arith

error_none : (t s : ℤ) → t *ℤ pos 0 -ℤ pos 0 *ℤ s ≡ pos 0
error_none t s = omega (int_laws, *ℤ_parts t (pos 0), *ℤ_parts (pos 0) s)

error_step :
    (t w ws q qs s : ℤ)
    → t *ℤ (w +ℤ ws) -ℤ (q +ℤ qs) *ℤ s ≡ (t *ℤ w -ℤ q *ℤ s) +ℤ (t *ℤ ws -ℤ qs *ℤ s)
error_step t w ws q qs s = rw (*ℤ-+ℤ, +ℤ-*ℤ) (omega int_laws)

-- The shares, times the sum of the weights, miss the total by less than a sum for each leaf.
pub shares_error :
    (t s : ℤ) (ws out : List ℤ)
    → 0 < abs s
    → shares t s ws ≡ some out
    → (length out ≡ length ws)
      × (abs (t *ℤ sum_ℤ ws -ℤ sum_ℤ out *ℤ s) + length ws ≤ length ws * abs s)
unfolding rem
shares_error t s [] out p h = rw (shares-nil t s out h, error_none t s) (omega arith)
shares_error t s (w ∷ ws) out p h =
    let (rest, e, out_is, fits) = shares-cons t s w ws out h in
    let (len, bound) = shares_error t s ws rest p e in
    rw (out_is, error_step t w (sum_ℤ ws) (tdiv (t *ℤ w) s) (sum_ℤ rest) s)
      (omega (
        arith,
        len,
        bound,
        abs-+ℤ (rem (t *ℤ w) s) (t *ℤ sum_ℤ ws -ℤ sum_ℤ rest *ℤ s),
        abs-rem-lt (t *ℤ w) s p,
      ))

-ℤ-*ℤ : (a b c : ℤ) → a *ℤ c -ℤ b *ℤ c ≡ (a -ℤ b) *ℤ c
-ℤ-*ℤ a b c = omega (
  int_laws,
  *ℤ_parts (a -ℤ b) c,
  *ℤ_parts a c,
  *ℤ_parts b c,
  ap (λ (t : ℕ). t * pos_part c) (-ℤ_parts a b),
  ap (λ (t : ℕ). t * neg_part c) (-ℤ_parts a b),
)

lt_of_products : (a n s : ℕ) → a * s + n ≤ n * s → 0 < n → a < n
lt_of_products a n s h p = grind arith

-- The leftover of the shares is smaller than the number of leaves.
pub leftover_small :
    (t : ℤ) (ws out : List ℤ)
    → 0 < abs (sum_ℤ ws)
    → 0 < length ws
    → shares t (sum_ℤ ws) ws ≡ some out
    → abs (t -ℤ sum_ℤ out) < length ws
leftover_small t ws out p some_leaf h =
    let (len, bound) = shares_error t (sum_ℤ ws) ws out p h in
    let exact = rw (-ℤ-*ℤ t (sum_ℤ out) (sum_ℤ ws), abs-*ℤ) at bound in
    lt_of_products (abs (t -ℤ sum_ℤ out)) (length ws) (abs (sum_ℤ ws)) exact some_leaf
