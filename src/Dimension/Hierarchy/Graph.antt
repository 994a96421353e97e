-- ===== src/Dimension/Hierarchy/Graph.antt =====
-- The hierarchy as a graph: children, descendants, and what one more edge changes.
use epiphany.Base.{
  ℕ, zero, suc, ◌≡◌, refl, ap, sym, List, [], ◌∷◌, map, ◌⊎◌, inl, inr, ◌==◌, arith, ==_iff,
  Bool-cases, In, In-append, In-append_left, In-append_right, length, ◌<◌, ◌↔◌, set, subst, ◌∙◌,
  ◌≢◌,
}
use epiphany.Dimension.{Edge}
use epiphany.Dimension.Hierarchy.{edges_of, push_edge, drop_edges_to}

-- `c` is a child of `n`, over an edge of any weight.
abbrev pub IsChild : List (List Edge) → ℕ → ℕ → Type 0
IsChild g n c = (e : Edge) × In e (edges_of g n) × (e.child ≡ c)

-- `b` is `a` or stands below it.
pub data Descends (g : List (List Edge)) (a : ℕ) : ℕ → Type 0 where
  here : Descends g a a
  down : {b c : ℕ} → Descends g a b → IsChild g b c → Descends g a c

pub trans : {g : List (List Edge)} {a b c : ℕ} → Descends g a b → Descends g b c → Descends g a c
trans p here = p
trans p (down q h) = down (trans p q) h

-- No element stands below one of its children.
abbrev pub IsAcyclic : List (List Edge) → Type 0
IsAcyclic g = (n c : ℕ) → IsChild g n c → ¬ Descends g c n

-- A graph with fewer edges.
abbrev pub Sub : List (List Edge) → List (List Edge) → Type 0
Sub g h = (n c : ℕ) → IsChild g n c → IsChild h n c

pub Descends-mono : {g h : List (List Edge)} {a b : ℕ} → Sub g h → Descends g a b → Descends h a b
Descends-mono s here = here
Descends-mono s (down {b = b} {c = c} p e) = down (Descends-mono s p) (s b c e)

pub IsAcyclic-Sub : {g h : List (List Edge)} → Sub g h → IsAcyclic h → IsAcyclic g
IsAcyclic-Sub s ok n c e p = ok n c (s n c e) (Descends-mono s p)

-- The children after one more edge: those before it, and the new one.
pub IsChild-push_edge :
    (g : List (List Edge)) (p : ℕ) (e : Edge) (n c : ℕ)
    → IsChild (push_edge g p e) n c
    → IsChild g n c ⊎ ((n ≡ p) × (c ≡ e.child))
IsChild-push_edge [] p e n c h = inl h
IsChild-push_edge (es ∷ g) zero e zero c (x, m, q) = elim (In-append x es (e ∷ []) m) [
  | inl old ↦ inl (x, old, q)
  | inr (inl new) ↦ inr (refl, sym q ∙ ap (λ (y : Edge). y.child) new)
  | inr (inr nowhere) ↦ elim nowhere [ ]
]
IsChild-push_edge (es ∷ g) zero e (suc n) c h = inl h
IsChild-push_edge (es ∷ g) (suc p) e zero c h = inl h
IsChild-push_edge (es ∷ g) (suc p) e (suc n) c h = elim (IsChild-push_edge g p e n c h) [
  | inl old ↦ inl old
  | inr (a, b) ↦ inr (ap suc a, b)
]

-- A way down in the larger graph is one in the smaller, or it uses the new edge.
Descends-push_edge :
    (g : List (List Edge)) (p : ℕ) (e : Edge) {a b : ℕ}
    → Descends (push_edge g p e) a b
    → Descends g a b ⊎ (Descends g a p × Descends g e.child b)
Descends-push_edge g p e here = inl here
Descends-push_edge g p e (down {b = b} {c = c} q h) = elim (IsChild-push_edge g p e b c h) [
  | inl old ↦ elim (Descends-push_edge g p e q) [
    | inl w ↦ inl (down w old)
    | inr (w, v) ↦ inr (w, down v old)
  ]
  | inr (is_p, is_child) ↦ elim (Descends-push_edge g p e q) [
    | inl w ↦ inr (subst (Descends g _) is_p w, subst (Descends g e.child) (sym is_child) here)
    | inr (w, v) ↦ inr (w, subst (Descends g e.child) (sym is_child) here)
  ]
]

-- One more edge keeps the graph acyclic if its parent does not stand below its child.
pub IsAcyclic-push_edge :
    (g : List (List Edge)) (p : ℕ) (e : Edge)
    → IsAcyclic g
    → ¬ Descends g e.child p
    → IsAcyclic (push_edge g p e)
IsAcyclic-push_edge g p e ok free n c h q = elim (IsChild-push_edge g p e n c h) [
  | inl old ↦ elim (Descends-push_edge g p e q) [
    | inl w ↦ ok n c old w
    | inr (w, v) ↦ free (trans (down v old) w)
  ]
  | inr (is_p, is_child) ↦ elim (Descends-push_edge g p e q) [
    | inl w ↦ free (subst (λ x. Descends g x p) is_child (subst (Descends g c) is_p w))
    | inr (w, v) ↦ free (subst (λ x. Descends g x p) is_child w)
  ]
]

-- What is left after edges to one child are dropped.
pub In-drop_edges_to :
    (child : ℕ) (es : List Edge) (x : Edge)
    → In x (drop_edges_to child es)
    → In x es × (x.child ≢ child)
unfolding drop_edges_to
In-drop_edges_to child [] x h = elim h [ ]
In-drop_edges_to child (e ∷ es) x h = elim (Bool-cases (e.child == child)) [
  | inl same ↦ let (m, ne) = In-drop_edges_to child es x (rw same at h) in (inr m, ne)
  | inr other ↦ elim (let k : In x (e ∷ drop_edges_to child es) = rw other at h in k) [
    | inl q ↦ (inl q, λ z. ground arith)
    | inr m ↦ let (m', ne) = In-drop_edges_to child es x m in (inr m', ne)
  ]
]

pub Sub-map_drop : (child : ℕ) (g : List (List Edge)) → Sub (map (drop_edges_to child) g) g
Sub-map_drop child [] n c (x, m, q) = elim m [ ]
Sub-map_drop child (es ∷ g) zero c (x, m, q) = (x, (In-drop_edges_to child es x m).0, q)
Sub-map_drop child (es ∷ g) (suc n) c h = Sub-map_drop child g n c h

pub Sub-set_drop :
    (child p : ℕ) (g : List (List Edge)) → Sub (set g p (drop_edges_to child (edges_of g p))) g
Sub-set_drop child p [] n c (x, m, q) = elim m [ ]
Sub-set_drop child zero (es ∷ g) zero c (x, m, q) = (x, (In-drop_edges_to child es x m).0, q)
Sub-set_drop child zero (es ∷ g) (suc n) c h = h
Sub-set_drop child (suc p) (es ∷ g) zero c h = h
Sub-set_drop child (suc p) (es ∷ g) (suc n) c h = Sub-set_drop child p g n c h

-- Edges to other children stay.
pub In-drop_edges_to_ne :
    (child : ℕ) (es : List Edge) (x : Edge)
    → x.child ≢ child
    → In x es
    → In x (drop_edges_to child es)
unfolding drop_edges_to
In-drop_edges_to_ne child [] x ne h = h
In-drop_edges_to_ne child (e ∷ es) x ne h = elim (Bool-cases (e.child == child)) [
  | inl same ↦ rw same (elim h [
    | inl q ↦ absurd (ne (ap (λ (y : Edge). y.child) q ∙ (==_iff e.child child).0 same))
    | inr m ↦ In-drop_edges_to_ne child es x ne m
  ])
  | inr other ↦
      rw other (elim h [ inl q ↦ inl q | inr m ↦ inr (In-drop_edges_to_ne child es x ne m) ])
]

-- With all edges to one child dropped, the others are what they were.
pub IsChild-map_drop :
    (child : ℕ) (g : List (List Edge)) (n c : ℕ)
    → IsChild (map (drop_edges_to child) g) n c ↔ (IsChild g n c × (c ≢ child))
IsChild-map_drop child [] n c = (λ k. absurd k.1, λ k. absurd k.0.1)
IsChild-map_drop child (es ∷ g) zero c = (
  λ k. let (m, ne) = In-drop_edges_to child es k.0 k.1 in ((k.0, m, k.2), λ q. ne (k.2 ∙ q)),
  λ k. let (x, m, q) = k.0 in (x, In-drop_edges_to_ne child es x (λ z. k.1 (sym q ∙ z)) m, q),
)
IsChild-map_drop child (es ∷ g) (suc n) c = IsChild-map_drop child g n c

pub push_edge-keeps :
    (g : List (List Edge)) (p : ℕ) (e : Edge) (n c : ℕ)
    → IsChild g n c
    → IsChild (push_edge g p e) n c
push_edge-keeps [] p e n c h = h
push_edge-keeps (es ∷ g) zero e zero c (x, m, q) = (x, In-append_left x es (e ∷ []) m, q)
push_edge-keeps (es ∷ g) zero e (suc n) c h = h
push_edge-keeps (es ∷ g) (suc p) e zero c h = h
push_edge-keeps (es ∷ g) (suc p) e (suc n) c h = push_edge-keeps g p e n c h

pub push_edge-has :
    (g : List (List Edge)) (p : ℕ) (e : Edge) → p < length g → IsChild (push_edge g p e) p e.child
push_edge-has [] p e h = absurd (omega arith)
push_edge-has (es ∷ g) zero e h = (e, In-append_right e es (e ∷ []) (inl refl), refl)
push_edge-has (es ∷ g) (suc p) e h = push_edge-has g p e (omega arith)
