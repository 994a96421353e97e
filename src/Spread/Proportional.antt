-- ===== src/Spread/Proportional.antt =====
-- The proportional split: `distribute_proportional`.
use native.Mathlib.Nat.{div-le_of_le-mul}
use epiphany.Base.{
  ℕ, zero, suc, ◌+◌, ◌*◌, ◌/◌, ◌≤◌, ◌<◌, ◌≡◌, ◌∙◌, arith, List, [], ◌∷◌, length, All, inl, inr,
  some, false, Option-cases, Bool-cases,
}
use epiphany.Base.Int.{ℤ, pos, negsuc, ◌≤ℤ◌, pos_part, neg_part, ◌+ℤ◌, ◌-ℤ◌, int_laws, abs, sum_ℤ}
use epiphany.Base.Int.Ring.{abs-*ℤ, abs-parts}
use epiphany.Fixed.{i64_max, IsI64}
use epiphany.Spread.{
  wrap_i64, step_of, allocate_remainder, shares, is_zero, distribute_proportional,
}
use epiphany.Spread.Division.{abs-tdiv}
use epiphany.Spread.Allocate.{wrap_i64-IsI64, sum-allocate_remainder}
use epiphany.Spread.Equal.{sum-distribute_equal}
use epiphany.Spread.Shares.{shares-nil, shares-cons, shares_error, leftover_small}

-- The share and its neighbours are `i64`s.
abbrev pub IsInner : ℤ → Type 0
IsInner q = (pos_part q < i64_max) × (neg_part q ≤ i64_max)

step_fits : (r x : ℤ) → IsInner x → IsI64 (x +ℤ step_of r)
unfolding step_of ◌+ℤ◌
step_fits (pos n) x h = ground arith
step_fits (negsuc n) x h = ground arith

inner_fits : (r : ℤ) (out : List ℤ) → All IsInner out → All (λ x. IsI64 (x +ℤ step_of r)) out
inner_fits r [] h = tt
inner_fits r (x ∷ out) (hx, h) = (step_fits r x hx, inner_fits r out h)

is_zero-abs : (s : ℤ) → is_zero s ≡ false → 0 < abs s
unfolding is_zero
is_zero-abs (pos zero) h = cc
is_zero-abs (pos (suc n)) h = omega arith
is_zero-abs (negsuc n) h = omega arith

small-IsI64 : (z : ℤ) → abs z ≤ i64_max → IsI64 z
small-IsI64 (pos n) h = omega arith
small-IsI64 (negsuc n) h = omega arith

exact_of_shares :
    (t : ℤ) (ws out : List ℤ)
    → 0 < abs (sum_ℤ ws)
    → 0 < length ws
    → length ws ≤ i64_max
    → shares t (sum_ℤ ws) ws ≡ some out
    → All IsInner out
    → sum_ℤ (allocate_remainder out (wrap_i64 (t -ℤ sum_ℤ out))) ≡ t
exact_of_shares t ws out p some_leaf few h inner =
    let small = leftover_small t ws out p some_leaf h in
    let len = (shares_error t (sum_ℤ ws) ws out p h).0 in
    rw (wrap_i64-IsI64 (t -ℤ sum_ℤ out) (small-IsI64 _ (omega arith))) (
      sum-allocate_remainder out (t -ℤ sum_ℤ out) (omega arith) (λ _. inner_fits _ out inner)
      ∙ omega int_laws)

-- The leaves of a proportional split sum to the total, also where it falls back to the even split,
-- unless a share is the least or the largest `i64`.
pub sum-distribute_proportional :
    (t : ℤ) (ws : List ℤ)
    → IsI64 t
    → 0 < length ws
    → length ws ≤ i64_max
    → ((out : List ℤ) → shares t (sum_ℤ ws) ws ≡ some out → All IsInner out)
    → sum_ℤ (distribute_proportional t ws) ≡ t
unfolding distribute_proportional
sum-distribute_proportional t ws h some_leaf few inner = elim (Bool-cases (is_zero (sum_ℤ ws))) [
  | inl e ↦ rw e (sum-distribute_equal t (length ws) h some_leaf)
  | inr e ↦ rw e (elim (Option-cases (shares t (sum_ℤ ws) ws)) [
    | inl none_fits ↦ rw none_fits (sum-distribute_equal t (length ws) h some_leaf)
    | inr (out, fits) ↦
        rw fits
          (exact_of_shares t ws out (is_zero-abs (sum_ℤ ws) e) some_leaf few fits (inner out fits))
  ])
]

-- Each weight is at most `k` in magnitude.
abbrev AtMost : ℕ → List ℤ → Type 0
AtMost k ws = All (λ w. abs w ≤ k) ws

share_le : (a w s : ℕ) → w ≤ s → a * w / s ≤ a
share_le a w s h = div-le_of_le-mul s (grind arith)

shares-AtMost :
    (t s : ℤ) (ws out : List ℤ) → AtMost (abs s) ws → shares t s ws ≡ some out → AtMost (abs t) out
shares-AtMost t s [] out small h = rw (shares-nil t s out h) tt
shares-AtMost t s (w ∷ ws) out small h =
    let (rest, e, out_is, fits) = shares-cons t s w ws out h in
    rw out_is (
      rw (abs-tdiv, abs-*ℤ) (share_le (abs t) (abs w) (abs s) small.0),
      shares-AtMost t s ws rest small.1 e,
    )

IsInner-of_AtMost : (k : ℕ) (out : List ℤ) → k < i64_max → AtMost k out → All IsInner out
IsInner-of_AtMost k [] h small = tt
IsInner-of_AtMost k (x ∷ out) h small =
    (inner_of_abs k x h small.0, IsInner-of_AtMost k out h small.1)
  where
    inner_of_abs : (k : ℕ) (x : ℤ) → k < i64_max → abs x ≤ k → IsInner x
    inner_of_abs k x h small = omega (arith, abs-parts x)

abbrev pub AreNonneg : List ℤ → Type 0
AreNonneg ws = All (λ w. pos 0 ≤ℤ w) ws

nonneg-sum : (ws : List ℤ) → AreNonneg ws → pos 0 ≤ℤ sum_ℤ ws
nonneg-sum [] h = omega arith
nonneg-sum (w ∷ ws) (hw, h) = +ℤ_nonneg w (sum_ℤ ws) hw (nonneg-sum ws h)
  where
    +ℤ_nonneg : (a b : ℤ) → pos 0 ≤ℤ a → pos 0 ≤ℤ b → pos 0 ≤ℤ a +ℤ b
    +ℤ_nonneg a b h k = omega int_laws

abs-+ℤ_nonneg : (a b : ℤ) → pos 0 ≤ℤ a → pos 0 ≤ℤ b → abs (a +ℤ b) ≡ abs a + abs b
unfolding ◌+ℤ◌
abs-+ℤ_nonneg a b h k = ground arith

nonneg-AtMost : (k : ℕ) (ws : List ℤ) → AreNonneg ws → abs (sum_ℤ ws) ≤ k → AtMost k ws
nonneg-AtMost k [] h small = tt
nonneg-AtMost k (w ∷ ws) (hw, h) small =
    let split = abs-+ℤ_nonneg w (sum_ℤ ws) hw (nonneg-sum ws h) in
    (omega arith, nonneg-AtMost k ws h (omega arith))

-- With weights that are not negative no share can reach an end of the range: the leaves sum to the
-- total.
pub sum-distribute_proportional_nonneg :
    (t : ℤ) (ws : List ℤ)
    → abs t < i64_max
    → 0 < length ws
    → length ws ≤ i64_max
    → AreNonneg ws
    → sum_ℤ (distribute_proportional t ws) ≡ t
sum-distribute_proportional_nonneg t ws small some_leaf few nonneg =
    sum-distribute_proportional t ws (small-IsI64 t (omega arith)) some_leaf few λ out h.
      IsInner-of_AtMost (abs t) out small (
        shares-AtMost t (sum_ℤ ws) ws out (nonneg-AtMost (abs (sum_ℤ ws)) ws nonneg (omega arith))
          h)
