-- ===== src/Dimension/Leaves/Walk.antt =====
-- The walk of `leaf_weights`: it ends within its fuel and records every numeric leaf below the
-- start, with weights that the edges keep in a given set.
use mathlib.Core.Option.{some-injective}
use epiphany.Base.{
  ℕ, ◌<◌, ◌≡◌, ap, sym, subst, ◌∙◌, true, some, List, ◌∷◌, get_elem?, length, ◌⊎◌, inl, inr, arith,
  In,
}
use epiphany.Base.Int.{ℤ}
use epiphany.Base.Eq.{nat_eq}
use epiphany.Dimension.{Dimension, Element, ElementKind, leaf, string, consolidated}
use epiphany.Dimension.Hierarchy.Graph.{IsChild, Descends}
use epiphany.Dimension.Leaves.{contains}
use epiphany.Dimension.Leaves.Sort.{Distinct}
use epiphany.Dimension.Leaves.Queue.{Queued}

abbrev pub Visited : List ℕ → ℕ → Type 0
Visited visited n = contains n visited ≡ true

pub Visited-self : (visited : List ℕ) (n : ℕ) → Visited (n ∷ visited) n
Visited-self visited n = ground arith

pub Visited-cons : (visited : List ℕ) (m n : ℕ) → Visited visited n → Visited (m ∷ visited) n
Visited-cons visited m n h = ground arith

pub Visited-cases :
    (visited : List ℕ) (m n : ℕ) → Visited (m ∷ visited) n → (m ≡ n) ⊎ Visited visited n
Visited-cases visited m n h = ground arith

-- `n` is a numeric leaf of the dimension.
abbrev pub IsNumeric : Dimension → ℕ → Type 0
IsNumeric d n = (e : Element) × (get_elem? d.elements n ≡ some e) × (e.kind ≡ leaf)

pub kind_of :
    (d : Dimension) (n : ℕ) (a b : Element)
    → get_elem? d.elements n ≡ some a
    → get_elem? d.elements n ≡ some b
    → a.kind ≡ b.kind
kind_of d n a b p q = ap (λ (x : Element). x.kind) (some-injective a b (sym p ∙ q))

pub leaf-ne-consolidated : ◌≡◌ {A = ElementKind} leaf consolidated → ⊥
leaf-ne-consolidated e = cc

pub string-ne-consolidated : ◌≡◌ {A = ElementKind} string consolidated → ⊥
string-ne-consolidated e = cc

pub leaf-ne-string : ◌≡◌ {A = ElementKind} leaf string → ⊥
leaf-ne-string e = cc

module _ (d : Dimension) (root : ℕ) (W : ℤ → Type 0) where
  -- What the walk keeps true of its queue, its visited elements and its record.
  pub record IsWalk (queue : List (ℕ × ℤ)) (visited : List ℕ) (acc : List (ℕ × ℤ)) : Type 0 where
    pub queued :
        (x : ℕ × ℤ) → In x queue → Descends d.children root x.0 × (x.0 < length d.elements) × W x.1
    pub started : Visited visited root ⊎ Queued queue root
    pub done :
        (n : ℕ)
        → Visited visited n
        → (c : ℕ) → IsChild d.children n c
        → Visited visited c ⊎ Queued queue c
    pub sound :
        (n : ℕ) (w : ℤ)
        → In (n, w) acc
        → Descends d.children root n × IsNumeric d n × W w × Visited visited n
    pub complete : (n : ℕ) → Visited visited n → IsNumeric d n → Queued acc n
    pub once : Distinct acc

  settle :
      (node : ℕ) (weight : ℤ) (queue queue' : List (ℕ × ℤ)) (visited visited' : List ℕ)
      → ((m : ℕ) → Queued queue m → Queued queue' m)
      → ((m : ℕ) → Visited visited m → Visited visited' m)
      → Visited visited' node
      → (n : ℕ) → Visited visited n ⊎ Queued ((node, weight) ∷ queue) n
      → Visited visited' n ⊎ Queued queue' n
  settle node weight queue queue' visited visited' kq kv self n (inl h) = inl (kv n h)
  settle node weight queue queue' visited visited' kq kv self n (inr (w, inl q)) =
      inl (subst (Visited visited') (sym (ap (λ (y : ℕ × ℤ). y.0) q)) self)
  settle node weight queue queue' visited visited' kq kv self n (inr (w, inr h)) = inr (kq n (w, h))

  -- An element that was visited already.
  pub IsWalk-skip :
      (node : ℕ) (weight : ℤ) (queue : List (ℕ × ℤ)) (visited : List ℕ) (acc : List (ℕ × ℤ))
      → Visited visited node
      → IsWalk ((node, weight) ∷ queue) visited acc
      → IsWalk queue visited acc
  IsWalk-skip node weight queue visited acc h s = record {
    queued = λ x m. s.queued x (inr m);
    started = settle node weight queue queue visited visited (λ m k. k) (λ m k. k) h root s.started;
    done = λ n v c k.
        settle node weight queue queue visited visited (λ m k. k) (λ m k. k) h c (s.done n v c k);
    sound = s.sound;
    complete = s.complete;
    once = s.once;
  }

  -- An element that is visited now, with the queue and the record that its kind makes.
  pub IsWalk-visit :
      (node : ℕ) (weight : ℤ) (queue queue' : List (ℕ × ℤ)) (visited : List ℕ)
      (acc acc' : List (ℕ × ℤ))
      → IsWalk ((node, weight) ∷ queue) visited acc
      → ((m : ℕ) → Queued queue m → Queued queue' m)
      → ((x : ℕ × ℤ)
          → In x queue'
          → Descends d.children root x.0 × (x.0 < length d.elements) × W x.1)
      → ((c : ℕ) → IsChild d.children node c → Queued queue' c)
      → ((n : ℕ) (w : ℤ)
          → In (n, w) acc'
          → Descends d.children root n × IsNumeric d n × W w × Visited (node ∷ visited) n)
      → ((n : ℕ) → Visited (node ∷ visited) n → IsNumeric d n → Queued acc' n)
      → Distinct acc'
      → IsWalk queue' (node ∷ visited) acc'
  IsWalk-visit node weight queue queue' visited acc acc' s kq qs cs so co on = record {
    queued = qs;
    started = keep root s.started;
    done = λ n v c k. elim (Visited-cases visited node n v) [
      | inl q ↦ inr (cs c (subst (λ x. IsChild d.children x c) (sym q) k))
      | inr v' ↦ keep c (s.done n v' c k)
    ];
    sound = so;
    complete = co;
    once = on;
  }
    where
      keep :
          (n : ℕ)
          → Visited visited n ⊎ Queued ((node, weight) ∷ queue) n
          → Visited (node ∷ visited) n ⊎ Queued queue' n
      keep =
          settle node weight queue queue' visited (node ∷ visited) kq (Visited-cons visited node)
            (Visited-self visited node)
