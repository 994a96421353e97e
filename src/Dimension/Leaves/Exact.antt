-- ===== src/Dimension/Leaves/Exact.antt =====
-- What `leaf_weights` returns: the numeric leaves below an element, each once, in order.
use epiphany.Base.{
  ℕ, zero, ◌*◌, suc, ◌+◌, ◌≤◌, ◌<◌, ◌≡◌, refl, ap, sym, subst, ◌∙◌, false, List, [], ◌∷◌, length,
  inl, inr, arith, In, get_elem?-lt, ◌↔◌,
}
use epiphany.Base.Int.Ring.{abs-*ℤ}
use epiphany.Base.Int.{abs, ℤ, pos, negsuc, ◌*ℤ◌}
use epiphany.Base.Result.{ok}
use epiphany.Fixed.{is_zero_i64}
use epiphany.Dimension.{Dimension, Edge}
use epiphany.Dimension.Hierarchy.{edges_of, count_edges}
use epiphany.Dimension.Hierarchy.Graph.{Descends, here, down}
use epiphany.Dimension.Hierarchy.WellFormed.{IsHierarchy, element-eq}
use epiphany.Dimension.Leaves.{clamp_i64, saturating_mul, leaf_weights, finish}
use epiphany.Dimension.Leaves.Queue.{unvisited, Queued}
use epiphany.Dimension.Leaves.Sort.{IsAscending, In-finish, finish-IsAscending}
use epiphany.Dimension.Leaves.Walk.{Visited, IsNumeric, IsWalk}
use epiphany.Dimension.Leaves.Run.{weights_loop-Ends}

unvisited-none : (i : ℕ) (g : List (List Edge)) → unvisited i g [] ≡ count_edges g
unvisited-none i [] = refl
unvisited-none i (es ∷ g) = omega (arith, unvisited-none (i + 1) g)

module _ (d : Dimension) (h : IsHierarchy d) (root : ℕ) (W : ℤ → Type 0) (one : W (pos 1))
    (grow : (n : ℕ) (e : Edge) (w : ℤ)
      → In e (edges_of d.children n)
      → W w
      → W (saturating_mul w e.weight)) where
  start : root < length d.elements → IsWalk d root W ((root, pos 1) ∷ []) [] []
  start fits = record {
    queued = λ x m. elim m [
      | inl q ↦ (
        subst (Descends d.children root) (sym (ap (λ (y : ℕ × ℤ). y.0) q)) here,
        subst (λ z. z < length d.elements) (sym (ap (λ (y : ℕ × ℤ). y.0) q)) fits,
        subst W (sym (ap (λ (y : ℕ × ℤ). y.1) q)) one,
      )
      | inr z ↦ absurd z
    ];
    started = inr (pos 1, inl refl);
    done = λ n v. absurd (cc);
    sound = λ n w m. absurd m;
    complete = λ n v. absurd (cc);
    once = tt;
  }

  -- With an empty queue all that stands below the start is visited.
  Visited-of_Descends :
      (visited : List ℕ) (acc : List (ℕ × ℤ))
      → IsWalk d root W [] visited acc
      → {n : ℕ} → Descends d.children root n
      → Visited visited n
  Visited-of_Descends visited acc s here = elim s.started [ inl v ↦ v | inr q ↦ absurd q.1 ]
  Visited-of_Descends visited acc s (down {b = b} {c = c} p k) =
      elim (s.done b (Visited-of_Descends visited acc s p) c k) [ inl v ↦ v | inr q ↦ absurd q.1 ]

  -- The result: the leaves ascend, each stands below the start, and those whose recorded weight is
  -- not zero are all there.
  abbrev pub IsExpansion : List (ℕ × ℤ) → Type 0
  IsExpansion out =
      IsAscending out
      × ((n : ℕ) (w : ℤ)
          → In (n, w) out
          → Descends d.children root n × IsNumeric d n × W w × (is_zero_i64 w ≡ false))
      × ((n : ℕ)
          → Descends d.children root n
          → IsNumeric d n
          → (w : ℤ) × W w × (is_zero_i64 w ≡ false → In (n, w) out))

  finish-IsExpansion :
      (visited : List ℕ) (acc : List (ℕ × ℤ))
      → IsWalk d root W [] visited acc
      → IsExpansion (finish acc)
  finish-IsExpansion visited acc s = (
    finish-IsAscending acc s.once,
    λ n w m.
        let (k, nz) = (In-finish acc (n, w)).0 m in
        let (p, q, r, v) = s.sound n w k in (p, q, r, nz),
    λ n p num.
        let (w, m) = s.complete n (Visited-of_Descends visited acc s p) num in
        (w, (s.sound n w m).2, λ nz. (In-finish acc (n, w)).1 (m, nz)),
  )

  pub leaf_weights-IsExpansion :
      root < length d.elements
      → (out : List (ℕ × ℤ)) × (leaf_weights d root ≡ ok out) × IsExpansion out
  unfolding leaf_weights
  leaf_weights-IsExpansion fits =
      let (e, is_e) = get_elem?-lt d.elements root fits in
      let (acc, visited, run, s) =
        weights_loop-Ends d h root W grow (count_edges d.children + 2) ((root, pos 1) ∷ []) [] []
          (start fits) (omega (arith, unvisited-none 0 d.children)) in
      (finish acc, rw (element-eq d root e is_e, run) refl, finish-IsExpansion visited acc s)

-- Every edge has the weight 1.
abbrev pub IsPlain : Dimension → Type 0
IsPlain d = (n : ℕ) (e : Edge) → In e (edges_of d.children n) → e.weight ≡ pos 1

-- No edge has the weight 0.
abbrev pub IsWeighted : Dimension → Type 0
IsWeighted d = (n : ℕ) (e : Edge) → In e (edges_of d.children n) → is_zero_i64 e.weight ≡ false

one-saturating_mul-one : saturating_mul (pos 1) (pos 1) ≡ pos 1
unfolding saturating_mul
one-saturating_mul-one = refl

is_zero-clamp_i64 : (z : ℤ) → is_zero_i64 z ≡ false → is_zero_i64 (clamp_i64 z) ≡ false
unfolding clamp_i64 is_zero_i64
is_zero-clamp_i64 (pos n) p = ground arith
is_zero-clamp_i64 (negsuc n) p = ground arith

is_zero-abs : (z : ℤ) → is_zero_i64 z ≡ false → 1 ≤ abs z
unfolding is_zero_i64
is_zero-abs (pos n) p = ground arith
is_zero-abs (negsuc n) p = ground arith

abs-is_zero : (z : ℤ) → 1 ≤ abs z → is_zero_i64 z ≡ false
unfolding is_zero_i64
abs-is_zero (pos n) p = ground arith
abs-is_zero (negsuc n) p = refl

one_le-mul : (a b : ℕ) → 1 ≤ a → 1 ≤ b → 1 ≤ a * b
one_le-mul zero b p q = omega arith
one_le-mul (suc a) b p q = grind arith

is_zero-*ℤ :
    (a b : ℤ) → is_zero_i64 a ≡ false → is_zero_i64 b ≡ false → is_zero_i64 (a *ℤ b) ≡ false
is_zero-*ℤ a b p q = abs-is_zero (a *ℤ b) (
    subst (λ n. 1 ≤ n) (sym (abs-*ℤ a b))
      (one_le-mul (abs a) (abs b) (is_zero-abs a p) (is_zero-abs b q)))

is_zero-saturating_mul :
    (a b : ℤ)
    → is_zero_i64 a ≡ false
    → is_zero_i64 b ≡ false
    → is_zero_i64 (saturating_mul a b) ≡ false
unfolding saturating_mul
is_zero-saturating_mul a b p q = is_zero-clamp_i64 (a *ℤ b) (is_zero-*ℤ a b p q)

-- With weights of 1 an element expands to the numeric leaves that stand below it (to itself, if it
-- is one), each once with the weight 1, in ascending order.
pub leaf_weights-IsPlain :
    (d : Dimension) (root : ℕ)
    → IsHierarchy d
    → IsPlain d
    → root < length d.elements
    → (out : List (ℕ × ℤ)) × (leaf_weights d root ≡ ok out)
      × IsAscending out
      × ((n : ℕ) (w : ℤ)
          → In (n, w) out ↔ (Descends d.children root n × IsNumeric d n × (w ≡ pos 1)))
leaf_weights-IsPlain d root h plain fits =
    let (out, e, (up, sound, complete)) =
      leaf_weights-IsExpansion d h root (λ w. w ≡ pos 1) refl
        (λ n e w m q. rw (q, plain n e m) one-saturating_mul-one) fits in
    (
      out,
      e,
      up,
      λ n w. (
        λ m. let (p, num, one, nz) = sound n w m in (p, num, one),
        λ k.
            let (v, is_one, there) = complete n k.0 k.1 in
            subst (λ x. In (n, x) out) (is_one ∙ sym k.2)
              (there (rw is_one (unfold is_zero_i64 in refl))),
      ),
    )

-- With weights that are not 0 an element expands to exactly the numeric leaves that stand below
-- it, in ascending order, and no weight of the expansion is 0.
pub leaf_weights-IsWeighted :
    (d : Dimension) (root : ℕ)
    → IsHierarchy d
    → IsWeighted d
    → root < length d.elements
    → (out : List (ℕ × ℤ)) × (leaf_weights d root ≡ ok out)
      × IsAscending out
      × ((n : ℕ) → Queued out n ↔ (Descends d.children root n × IsNumeric d n))
      × ((n : ℕ) (w : ℤ) → In (n, w) out → is_zero_i64 w ≡ false)
leaf_weights-IsWeighted d root h weighted fits =
    let (out, e, (up, sound, complete)) =
      leaf_weights-IsExpansion d h root (λ w. is_zero_i64 w ≡ false) (unfold is_zero_i64 in refl)
        (λ n e w m q. is_zero-saturating_mul w e.weight q (weighted n e m)) fits in
    (
      out,
      e,
      up,
      λ n. (
        λ q. let (p, num, nz, nz') = sound n q.0 q.1 in (p, num),
        λ k. let (v, nz, there) = complete n k.0 k.1 in (v, there nz),
      ),
      λ n w m. (sound n w m).2,
    )
