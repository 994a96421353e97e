-- ===== src/Dimension/Hierarchy/Search.antt =====
-- `reaches` decides whether one element stands below another: it ends within its fuel, touches no
-- index out of range, and its answer is right both ways.
use epiphany.Base.{
  ℕ, zero, suc, ◌+◌, ◌<◌, ◌≡◌, ◌≢◌, refl, ap, sym, subst, Bool, true, false, Option, none, some,
  List, [], ◌∷◌, get_elem?, set, length, replicate, ◌⊎◌, inl, inr, ◌==◌, arith, ==_iff, Bool-cases,
  In, ◌∙◌, length-set, length-replicate, get_elem?-lt,
}
use epiphany.Dimension.{Edge, Dimension}
use epiphany.Dimension.Hierarchy.{push_children, reaches_loop, reaches, count_edges}
use epiphany.Dimension.Hierarchy.Graph.{IsChild, Descends, here, down}
use epiphany.Dimension.Hierarchy.Marks.{
  InRange, Marked, unseen, length-push_children, unseen-set, In-push_children, push_children-keeps,
  push_children-has, Marked-set_self, Marked-set, Marked-of_set, edges_of-eq,
}

module _ (g : List (List Edge)) (to from : ℕ) where
  -- The state of the search: the marks cover the elements, the stack holds descendants of the
  -- start, and whatever is marked is not the target and has its children marked or waiting.
  record IsSearch (stack : List ℕ) (seen : List Bool) : Type 0 where
    marks : length seen ≡ length g
    below : (n : ℕ) → In n stack → Descends g from n
    in_range : (n : ℕ) → In n stack → n < length g
    started : Marked seen from ⊎ In from stack
    done :
        (n : ℕ) → Marked seen n → (n ≢ to) × ((c : ℕ) → IsChild g n c → Marked seen c ⊎ In c stack)

  -- The next state, where the top of the stack is marked already.
  IsSearch-skip :
      (node : ℕ) (stack : List ℕ) (seen : List Bool)
      → Marked seen node
      → IsSearch (node ∷ stack) seen
      → IsSearch stack seen
  IsSearch-skip node stack seen m s = record {
    marks = s.marks;
    below = λ n h. s.below n (inr h);
    in_range = λ n h. s.in_range n (inr h);
    started = settle from s.started;
    done = λ n h. ((s.done n h).0, λ c k. settle c ((s.done n h).1 c k));
  }
    where
      settle : (n : ℕ) → Marked seen n ⊎ In n (node ∷ stack) → Marked seen n ⊎ In n stack
      settle n (inl h) = inl h
      settle n (inr (inl q)) = inl (subst (Marked seen) (sym q) m)
      settle n (inr (inr h)) = inr h

  -- The next state, where the top of the stack is marked now and its children are pushed.
  IsSearch-visit :
      (node : ℕ) (stack : List ℕ) (seen : List Bool) (es : List Edge)
      → InRange g
      → get_elem? g node ≡ some es
      → node ≢ to
      → IsSearch (node ∷ stack) seen
      → IsSearch (push_children es stack) (set seen node true)
  IsSearch-visit node stack seen es wf is_es ne s = record {
    marks = length-set seen node true ∙ s.marks;
    below =
        In-push_children (Descends g from) es stack
          (λ e m. down (s.below node (inl refl)) (edge e m)) (λ n h. s.below n (inr h));
    in_range =
        In-push_children (λ n. n < length g) es stack (λ e m. wf node e.child (edge e m))
          (λ n h. s.in_range n (inr h));
    started = settle from s.started;
    done = λ n h. elim (Bool-cases (node == n)) [
      | inl e ↦
          let q = (==_iff node n).0 e in
          (λ z. ne (q ∙ z), λ c k. inr (pushed c (subst (λ x. IsChild g x c) (sym q) k)))
      | inr e ↦
          let old = s.done n (Marked-of_set seen node n (λ q. ground arith) h) in
          (old.0, λ c k. settle c (old.1 c k))
    ];
  }
    where
      edge : (e : Edge) → In e es → IsChild g node e.child
      edge e m = (e, subst (In e) (sym (edges_of-eq g node es is_es)) m, refl)

      node_fits : node < length seen
      node_fits = rw s.marks (s.in_range node (inl refl))

      settle :
          (n : ℕ)
          → Marked seen n ⊎ In n (node ∷ stack)
          → Marked (set seen node true) n ⊎ In n (push_children es stack)
      settle n (inl m) = inl (Marked-set seen node n node_fits m)
      settle n (inr (inl q)) =
          inl (subst (Marked (set seen node true)) (sym q) (Marked-set_self seen node node_fits))
      settle n (inr (inr m)) = inr (push_children-keeps es stack n m)

      pushed : (c : ℕ) → IsChild g node c → In c (push_children es stack)
      pushed c (e, m, q) =
          subst (λ x. In x (push_children es stack)) q
            (push_children-has es stack e (subst (In e) (edges_of-eq g node es is_es) m))

  -- An answer that is right: yes with a way down, no with a proof that there is none.
  abbrev pub IsRight : Option Bool → Type 0
  IsRight none = ⊥
  IsRight (some true) = Descends g from to
  IsRight (some false) = ¬ Descends g from to

  -- With an empty stack the marked elements are closed under children and miss the target.
  Marked-of_Descends :
      (seen : List Bool) → IsSearch [] seen → {n : ℕ} → Descends g from n → Marked seen n
  Marked-of_Descends seen s here = elim s.started [ inl m ↦ m | inr h ↦ absurd h ]
  Marked-of_Descends seen s (down {b = b} {c = c} p k) =
      elim ((s.done b (Marked-of_Descends seen s p)).1 c k) [ inl m ↦ m | inr h ↦ absurd h ]

  loop-found :
      (fuel node : ℕ) (stack : List ℕ) (seen : List Bool)
      → (node == to) ≡ true
      → reaches_loop (suc fuel) g to (node ∷ stack) seen ≡ some true
  unfolding reaches_loop
  loop-found fuel node stack seen e = ground arith

  loop-skip :
      (fuel node : ℕ) (stack : List ℕ) (seen : List Bool)
      → (node == to) ≡ false
      → Marked seen node
      → reaches_loop (suc fuel) g to (node ∷ stack) seen ≡ reaches_loop fuel g to stack seen
  unfolding reaches_loop
  loop-skip fuel node stack seen e m = ground arith

  loop-visit :
      (fuel node : ℕ) (stack : List ℕ) (seen : List Bool) (es : List Edge)
      → (node == to) ≡ false
      → get_elem? seen node ≡ some false
      → get_elem? g node ≡ some es
      → reaches_loop (suc fuel) g to (node ∷ stack) seen
        ≡ reaches_loop fuel g to (push_children es stack) (set seen node true)
  unfolding reaches_loop
  loop-visit fuel node stack seen es e m is_es = ground arith

  -- With more fuel than the stack and the edges still to come, the search ends with a right answer.
  reaches_loop-IsRight :
      (fuel : ℕ) (stack : List ℕ) (seen : List Bool)
      → InRange g
      → IsSearch stack seen
      → length stack + unseen g seen < fuel
      → IsRight (reaches_loop fuel g to stack seen)
  reaches_loop-IsRight zero stack seen wf s h = absurd (omega arith)
  reaches_loop-IsRight (suc fuel) [] seen wf s h =
      unfold reaches_loop in λ p. (s.done to (Marked-of_Descends seen s p)).0 refl
  reaches_loop-IsRight (suc fuel) (node ∷ stack) seen wf s h = elim (Bool-cases (node == to)) [
    | inl e ↦
        rw (loop-found fuel node stack seen e)
          (subst (Descends g from) ((==_iff node to).0 e) (s.below node (inl refl)))
    | inr e ↦
        let fits = s.in_range node (inl refl) in
        let (mark, is_mark) = get_elem?-lt seen node (rw s.marks fits) in
        let (es, is_es) = get_elem?-lt g node fits in
        elim (Bool-cases mark) [
          | inl m ↦ rw (loop-skip fuel node stack seen e (is_mark ∙ ap some m)) (
              reaches_loop-IsRight fuel stack seen wf
                (IsSearch-skip node stack seen (is_mark ∙ ap some m) s) (omega arith))
          | inr m ↦ rw (loop-visit fuel node stack seen es e (is_mark ∙ ap some m) is_es) (
              reaches_loop-IsRight fuel (push_children es stack) (set seen node true) wf
                (IsSearch-visit node stack seen es wf is_es (λ q. ground arith) s)
                (omega (
                  arith,
                  length-push_children es stack,
                  unseen-set g seen node es is_es (is_mark ∙ ap some m),
                )))
        ]
  ]

unseen-replicate :
    (g : List (List Edge)) (n : ℕ) → length g ≡ n → unseen g (replicate n false) ≡ count_edges g
unseen-replicate [] zero h = refl
unseen-replicate [] (suc n) h = absurd (omega arith)
unseen-replicate (es ∷ g) zero h = absurd (omega arith)
unseen-replicate (es ∷ g) (suc n) h = omega (arith, unseen-replicate g n (omega arith))

replicate-unmarked : (n i : ℕ) → ¬ Marked (replicate n false) i
replicate-unmarked zero i h = cc
replicate-unmarked (suc n) zero h = cc
replicate-unmarked (suc n) (suc i) h = replicate-unmarked n i h

-- From an element of a dimension whose edges lead to elements, `reaches` answers, and its answer
-- is yes exactly if the target is the element or stands below it.
pub reaches-IsRight :
    (d : Dimension) (from to : ℕ)
    → length d.children ≡ length d.elements
    → InRange d.children
    → from < length d.elements
    → IsRight d.children to from (reaches d from to)
unfolding reaches
reaches-IsRight d from to sized wf fits =
    reaches_loop-IsRight d.children to from (count_edges d.children + 2) (from ∷ [])
      (replicate (length d.elements) false) wf
      (record {
        marks = length-replicate (length d.elements) false ∙ sym sized;
        below = λ n h. elim h [
          | inl q ↦ subst (Descends d.children from) (sym q) here
          | inr z ↦ absurd z
        ];
        in_range = λ n h. elim h [
          | inl q ↦ subst (λ x. x < length d.children) (sym q) (omega arith)
          | inr z ↦ absurd z
        ];
        started = inr (inl refl);
        done = λ n m. absurd (replicate-unmarked (length d.elements) n m);
      })
      (omega (arith, unseen-replicate d.children (length d.elements) sized))
