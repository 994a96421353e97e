-- ===== src/Dimension/Leaves/Queue.antt =====
-- What the walk of `leaf_weights` pushes and records, and what is left for it to do.
use epiphany.Base.{
  ℕ, zero, suc, ◌+◌, ◌≤◌, ◌<◌, ◌≡◌, ◌≢◌, refl, ap, sym, subst, ◌∙◌, false, some, List, [], ◌∷◌,
  get_elem?, length, ◌⊎◌, inl, inr, ◌==◌, arith, ==_iff, Bool-cases, In, if◌then◌else◌,
}
use epiphany.Base.Int.{ℤ}
use epiphany.Base.Assoc.{insert, remove}
use epiphany.Base.Eq.{nat_eq}
use epiphany.Dimension.{Edge}
use epiphany.Dimension.Leaves.{contains, weighted, saturating_mul}

-- the edges of the elements that are not visited yet, from element `i` on
abbrev pub unvisited : ℕ → List (List Edge) → List ℕ → ℕ
unvisited i [] visited = 0
unvisited i (es ∷ g) visited =
    (if contains i visited then 0 else length es) + unvisited (i + 1) g visited

unvisited-before :
    (i : ℕ) (g : List (List Edge)) (visited : List ℕ) (n : ℕ)
    → n < i
    → unvisited i g (n ∷ visited) ≡ unvisited i g visited
unvisited-before i [] visited n h = refl
unvisited-before i (es ∷ g) visited n h = ground (arith, unvisited-before (i + 1) g visited n)

pub unvisited-cons_le :
    (i : ℕ) (g : List (List Edge)) (visited : List ℕ) (n : ℕ)
    → unvisited i g (n ∷ visited) ≤ unvisited i g visited
unvisited-cons_le i [] visited n = omega arith
unvisited-cons_le i (es ∷ g) visited n = ground (arith, unvisited-cons_le (i + 1) g visited n)

-- Visiting an element takes its edges off what is left.
pub unvisited-visit :
    (i : ℕ) (g : List (List Edge)) (visited : List ℕ) (k j : ℕ) (es : List Edge)
    → i + k ≡ j
    → get_elem? g k ≡ some es
    → contains j visited ≡ false
    → unvisited i g visited ≡ length es + unvisited i g (j ∷ visited)
unvisited-visit i [] visited k j es e h c = cc
unvisited-visit i (fs ∷ g) visited zero j es e h c =
    ground (arith, unvisited-before (i + 1) g visited j)
unvisited-visit i (fs ∷ g) visited (suc k) j es e h c =
    ground (arith, unvisited-visit (i + 1) g visited k j es (omega arith) h c)

pub length-weighted : (w : ℤ) (es : List Edge) → length (weighted w es) ≡ length es
length-weighted w [] = refl
length-weighted w (e ∷ es) = ap suc (length-weighted w es)

-- `n` waits in the queue, with some weight.
abbrev pub Queued : List (ℕ × ℤ) → ℕ → Type 0
Queued queue n = (w : ℤ) × In (n, w) queue

pub weighted-has : (w : ℤ) (es : List Edge) (e : Edge) → In e es → Queued (weighted w es) e.child
weighted-has w [] e h = absurd h
weighted-has w (x ∷ es) e (inl q) =
    (saturating_mul w x.weight, inl (λ i. ((q i).child, saturating_mul w x.weight)))
weighted-has w (x ∷ es) e (inr m) = let (v, k) = weighted-has w es e m in (v, inr k)

-- Where the walk has weights of a kind, the next ones are of that kind.
pub In-weighted :
    (P : ℕ × ℤ → Type 0) (w : ℤ) (es : List Edge)
    → ((e : Edge) → In e es → P (e.child, saturating_mul w e.weight))
    → (x : ℕ × ℤ) → In x (weighted w es)
    → P x
In-weighted P w [] h x m = absurd m
In-weighted P w (e ∷ es) h x (inl q) = subst P (sym q) (h e (inl refl))
In-weighted P w (e ∷ es) h x (inr m) = In-weighted P w es (λ y k. h y (inr k)) x m

pub In-remove : (k : ℕ) (m : List (ℕ × ℤ)) (x : ℕ × ℤ) → In x (remove k m) → In x m
unfolding remove
In-remove k [] x h = h
In-remove k ((j, v) ∷ m) x h = elim (Bool-cases (j == k)) [
  | inl same ↦ inr (In-remove k m x (rw same at h))
  | inr other ↦ elim (let h' : In x ((j, v) ∷ remove k m) = rw other at h in h') [
    | inl q ↦ inl q
    | inr h'' ↦ inr (In-remove k m x h'')
  ]
]

In-remove_ne : (k : ℕ) (m : List (ℕ × ℤ)) (x : ℕ × ℤ) → x.0 ≢ k → In x m → In x (remove k m)
unfolding remove
In-remove_ne k [] x ne h = h
In-remove_ne k ((j, v) ∷ m) x ne h = elim (Bool-cases (j == k)) [
  | inl same ↦ rw same (elim h [
    | inl q ↦ absurd (ne (ap (λ (y : ℕ × ℤ). y.0) q ∙ (==_iff j k).0 same))
    | inr h' ↦ In-remove_ne k m x ne h'
  ])
  | inr other ↦ rw other (elim h [ inl q ↦ inl q | inr h' ↦ inr (In-remove_ne k m x ne h') ])
]

-- A record of one leaf replaces no other leaf's.
pub In-insert :
    (k n : ℕ) (v w : ℤ) (m : List (ℕ × ℤ))
    → In (n, w) (insert k v m)
    → ((n ≡ k) × (w ≡ v)) ⊎ In (n, w) m
unfolding insert
In-insert k n v w m (inl q) = inl (ap (λ (y : ℕ × ℤ). y.0) q, ap (λ (y : ℕ × ℤ). y.1) q)
In-insert k n v w m (inr h) = inr (In-remove k m (n, w) h)

pub In-insert_self : (k : ℕ) (v : ℤ) (m : List (ℕ × ℤ)) → In (k, v) (insert k v m)
unfolding insert
In-insert_self k v m = inl refl

pub In-insert_ne :
    (k n : ℕ) (v w : ℤ) (m : List (ℕ × ℤ)) → n ≢ k → In (n, w) m → In (n, w) (insert k v m)
unfolding insert
In-insert_ne k n v w m ne h = inr (In-remove_ne k m (n, w) ne h)
