-- ===== src/Dimension/Hierarchy/Marks.antt =====
-- The marks and the stack of the search `reaches`.
use epiphany.Base.{
  ℕ, zero, suc, ◌+◌, ◌<◌, ◌≡◌, ◌≢◌, refl, ap, sym, subst, Bool, true, false, some, List, [], ◌∷◌,
  get_elem?, set, length, inl, inr, ◌==◌, arith, ==_iff, Bool-cases, In, ◌∙◌, get_elem?-set_self,
  get_elem?-set_ne,
}
use epiphany.Dimension.{Edge}
use epiphany.Dimension.Hierarchy.{edges_of, push_children}
use epiphany.Dimension.Hierarchy.Graph.{IsChild}

-- Edges lead to elements.
abbrev pub InRange : List (List Edge) → Type 0
InRange g = (n c : ℕ) → IsChild g n c → c < length g

abbrev pub Marked : List Bool → ℕ → Type 0
Marked seen n = get_elem? seen n ≡ some true

-- the edges of the elements that are not marked yet
abbrev pub unseen : List (List Edge) → List Bool → ℕ
unseen [] seen = 0
unseen (es ∷ g) [] = 0
unseen (es ∷ g) (true ∷ seen) = unseen g seen
unseen (es ∷ g) (false ∷ seen) = length es + unseen g seen

pub length-push_children :
    (es : List Edge) (stack : List ℕ) → length (push_children es stack) ≡ length es + length stack
length-push_children [] stack = omega arith
length-push_children (e ∷ es) stack = omega (arith, length-push_children es (e.child ∷ stack))

pub unseen-set :
    (g : List (List Edge)) (seen : List Bool) (n : ℕ) (es : List Edge)
    → get_elem? g n ≡ some es
    → get_elem? seen n ≡ some false
    → unseen g seen ≡ length es + unseen g (set seen n true)
unseen-set [] seen n es h k = cc
unseen-set (fs ∷ g) [] n es h k = cc
unseen-set (fs ∷ g) (true ∷ seen) zero es h k = cc
unseen-set (fs ∷ g) (false ∷ seen) zero es h k = ground arith
unseen-set (fs ∷ g) (true ∷ seen) (suc n) es h k = unseen-set g seen n es h k
unseen-set (fs ∷ g) (false ∷ seen) (suc n) es h k = omega (arith, unseen-set g seen n es h k)

-- What holds of the children of the edges and of the stack holds of all that is pushed.
pub In-push_children :
    (P : ℕ → Type 0) (es : List Edge) (stack : List ℕ)
    → ((e : Edge) → In e es → P e.child)
    → ((n : ℕ) → In n stack → P n)
    → (n : ℕ) → In n (push_children es stack)
    → P n
In-push_children P [] stack he hs n h = hs n h
In-push_children P (e ∷ es) stack he hs n h =
    In-push_children P es (e.child ∷ stack) (λ x m. he x (inr m)) (on_top hs (he e (inl refl))) n h
  where
    on_top : ((n : ℕ) → In n stack → P n) → P e.child → (n : ℕ) → In n (e.child ∷ stack) → P n
    on_top hs p n (inl q) = subst P (sym q) p
    on_top hs p n (inr m) = hs n m

pub push_children-keeps :
    (es : List Edge) (stack : List ℕ) (n : ℕ) → In n stack → In n (push_children es stack)
push_children-keeps [] stack n h = h
push_children-keeps (e ∷ es) stack n h = push_children-keeps es (e.child ∷ stack) n (inr h)

pub push_children-has :
    (es : List Edge) (stack : List ℕ) (e : Edge) → In e es → In e.child (push_children es stack)
push_children-has [] stack e h = elim h [ ]
push_children-has (x ∷ es) stack e (inl q) =
    push_children-keeps es (x.child ∷ stack) e.child (inl (ap (λ (y : Edge). y.child) q))
push_children-has (x ∷ es) stack e (inr m) = push_children-has es (x.child ∷ stack) e m

pub Marked-set_self : (seen : List Bool) (n : ℕ) → n < length seen → Marked (set seen n true) n
Marked-set_self seen n h = get_elem?-set_self seen n true h

pub Marked-set :
    (seen : List Bool) (m n : ℕ) → m < length seen → Marked seen n → Marked (set seen m true) n
Marked-set seen m n h k = elim (Bool-cases (m == n)) [
  | inl e ↦ subst (Marked (set seen m true)) ((==_iff m n).0 e) (Marked-set_self seen m h)
  | inr e ↦ get_elem?-set_ne seen true (λ q. ground arith) ∙ k
]

pub Marked-of_set :
    (seen : List Bool) (m n : ℕ) → m ≢ n → Marked (set seen m true) n → Marked seen n
Marked-of_set seen m n ne k = sym (get_elem?-set_ne seen true ne) ∙ k

pub edges_of-eq :
    (g : List (List Edge)) (n : ℕ) (es : List Edge) → get_elem? g n ≡ some es → edges_of g n ≡ es
edges_of-eq g n es h = rw (h, edges_of)
