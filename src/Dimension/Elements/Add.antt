-- ===== src/Dimension/Elements/Add.antt =====
-- Adding an element: the names and the hierarchy stay well formed.
use mathlib.Core.Option.{some-injective}
use epiphany.Base.{
  ℕ, zero, suc, ◌<◌, ◌≡◌, refl, ap, sym, subst, ◌∙◌, true, false, none, some, List, [], ◌∷◌, ◌++◌,
  get_elem?, get_elem?-push, length, ◌⊎◌, inl, inr, arith, In, ◌↔◌, Option-cases, length-append,
  ◌^◌, Bool-cases, if◌then◌else◌,
}
use epiphany.Base.Eq.{nat_eq, list_eq, ◌=?◌, list_beq_iff}
use epiphany.Base.Assoc.{lookup, lookup-insert}
use epiphany.Text.{Text}
use epiphany.Dimension.{Dimension, Element, ElementKind, Edge, index_of, as_u32, new}
use epiphany.Dimension.Hierarchy.{edges_of}
use epiphany.Dimension.Hierarchy.Graph.{IsChild, Sub, IsAcyclic-Sub}
use epiphany.Dimension.Hierarchy.WellFormed.{IsHierarchy}
use epiphany.Dimension.Elements.{add_element, push_element}

-- An element's name, and the index of a name, are the two directions of one correspondence.
abbrev pub IsNamed : Dimension → Type 0
IsNamed d =
    (n : Text) (i : ℕ)
    → (index_of d n ≡ some i) ↔ ((e : Element) × (get_elem? d.elements i ≡ some e) × (e.name ≡ n))

edges_of-push_empty : (g : List (List Edge)) (n : ℕ) → edges_of (g ++ [] ∷ []) n ≡ edges_of g n
edges_of-push_empty [] zero = refl
edges_of-push_empty [] (suc n) = refl
edges_of-push_empty (es ∷ g) zero = refl
edges_of-push_empty (es ∷ g) (suc n) = edges_of-push_empty g n

Sub-push_empty : (g : List (List Edge)) → Sub (g ++ [] ∷ []) g
Sub-push_empty g n c h = (h.0, subst (In h.0) (edges_of-push_empty g n) h.1, h.2)

IsChild-lt : (g : List (List Edge)) (n c : ℕ) → IsChild g n c → n < length g
IsChild-lt [] n c h = absurd h.1
IsChild-lt (es ∷ g) zero c h = omega arith
IsChild-lt (es ∷ g) (suc n) c h = omega (arith, IsChild-lt g n c h)

pub new-IsHierarchy : (name : Text) → IsHierarchy (new name)
new-IsHierarchy name = record {
  sized = refl;
  ranged = λ n c h. absurd h.1;
  acyclic = λ n c h p. absurd h.1;
  parents = λ n c h e q. absurd h.1;
}

pub new-IsNamed : (name : Text) → IsNamed (new name)
unfolding lookup
new-IsNamed name n i = (λ h. cc, λ h. cc)

push_element-IsHierarchy :
    (d : Dimension) (name : Text) (kind : ElementKind)
    → IsHierarchy d
    → IsHierarchy (push_element d name kind)
unfolding push_element
push_element-IsHierarchy d name kind h =
    let x : Element = record { name = name; kind = kind; pinned_to_top = false } in
    record {
      sized =
          omega
            (arith, h.sized, length-append d.children ([] ∷ []), length-append d.elements (x ∷ []));
      ranged = λ n c k. omega (
        arith,
        length-append d.children ([] ∷ []),
        h.ranged n c (Sub-push_empty d.children n c k),
      );
      acyclic = IsAcyclic-Sub (Sub-push_empty d.children) h.acyclic;
      parents = λ n c k e q. elim ((get_elem?-push d.elements x e n).0 q) [
        | inl old ↦ h.parents n c (Sub-push_empty d.children n c k) e old
        | inr (last, same) ↦ absurd (
            omega
              (arith, last, h.sized, IsChild-lt d.children n c (Sub-push_empty d.children n c k)))
      ];
    }

-- Adding an element, new or not, keeps the hierarchy well formed.
pub add_element-IsHierarchy :
    (d : Dimension) (name : Text) (kind : ElementKind)
    → IsHierarchy d
    → IsHierarchy (add_element d name kind).0
unfolding add_element
add_element-IsHierarchy d name kind h = elim (Option-cases (index_of d name)) [
  | inl e ↦ rw (e, add_element) (push_element-IsHierarchy d name kind h)
  | inr (i, e) ↦ rw (e, add_element) h
]

index_of-push_element :
    (d : Dimension) (name n : Text) (kind : ElementKind)
    → index_of (push_element d name kind) n
      ≡ (if name =? n then some (as_u32 (length d.elements)) else index_of d n)
unfolding push_element
index_of-push_element d name n kind =
    lookup-insert name n (as_u32 (length d.elements)) d.index_by_name

get_elem?-push_element :
    (d : Dimension) (name : Text) (kind : ElementKind) (e : Element) (i : ℕ)
    → (get_elem? (push_element d name kind).elements i ≡ some e) ↔ (
        (get_elem? d.elements i ≡ some e)
        ⊎ ((i ≡ length d.elements)
            × (record { name = name; kind = kind; pinned_to_top = false } ≡ e)))
unfolding push_element
get_elem?-push_element d name kind e i =
    get_elem?-push d.elements (record { name = name; kind = kind; pinned_to_top = false }) e i

index_of-push_ne :
    (d : Dimension) (name n : Text) (kind : ElementKind)
    → (name =? n) ≡ false
    → index_of (push_element d name kind) n ≡ index_of d n
index_of-push_ne d name n kind e = rw (index_of-push_element d name n kind, e) refl

index_of-push_self :
    (d : Dimension) (name n : Text) (kind : ElementKind)
    → length d.elements < 2 ^ 32
    → (name =? n) ≡ true
    → index_of (push_element d name kind) n ≡ some (length d.elements)
index_of-push_self d name n kind fits e =
    rw (index_of-push_element d name n kind, e) (ap some (omega (arith, fits)))

push_element-IsNamed :
    (d : Dimension) (name : Text) (kind : ElementKind)
    → length d.elements < 2 ^ 32
    → IsNamed d
    → index_of d name ≡ none
    → IsNamed (push_element d name kind)
push_element-IsNamed d name kind fits h fresh n i =
    let rows = get_elem?-push_element d name kind in
    (
      λ q. elim (Bool-cases (name =? n)) [
        | inr e ↦
            let (x, is_x, named) = (h n i).0 (sym (index_of-push_ne d name n kind e) ∙ q) in
            (x, (rows x i).1 (inl is_x), named)
        | inl e ↦
            let x : Element = record { name = name; kind = kind; pinned_to_top = false } in
            let last =
              some-injective i (length d.elements)
                (sym q ∙ index_of-push_self d name n kind fits e) in
            (x, (rows x i).1 (inr (last, refl)), (list_beq_iff name n).0 e)
      ],
      λ (x, is_x, named). elim ((rows x i).0 is_x) [
        | inl old ↦ elim (Bool-cases (name =? n)) [
          | inr e ↦ index_of-push_ne d name n kind e ∙ (h n i).1 (x, old, named)
          | inl e ↦
              let found : index_of d name ≡ some i =
                (h name i).1 (x, old, named ∙ sym ((list_beq_iff name n).0 e)) in
              absurd (cc)
        ]
        | inr (last, same) ↦
            index_of-push_self d name n kind fits
              ((list_beq_iff name n).1 (ap (λ (y : Element). y.name) same ∙ named))
            ∙ ap some (sym last)
      ],
    )

add_element_new :
    (d : Dimension) (name : Text) (kind : ElementKind)
    → index_of d name ≡ none
    → add_element d name kind ≡ (push_element d name kind, as_u32 (length d.elements))
unfolding add_element
add_element_new d name kind e = rw (e, add_element) refl

add_element_old :
    (d : Dimension) (name : Text) (kind : ElementKind) (i : ℕ)
    → index_of d name ≡ some i
    → add_element d name kind ≡ (d, i)
unfolding add_element
add_element_old d name kind i e = rw (e, add_element) refl

-- Adding an element keeps names and indices one correspondence, while indices fit 32 bits.
pub add_element-IsNamed :
    (d : Dimension) (name : Text) (kind : ElementKind)
    → length d.elements < 2 ^ 32
    → IsNamed d
    → IsNamed (add_element d name kind).0
add_element-IsNamed d name kind fits h = elim (Option-cases (index_of d name)) [
  | inl e ↦ rw (add_element_new d name kind e) (push_element-IsNamed d name kind fits h e)
  | inr (i, e) ↦ rw (add_element_old d name kind i e) h
]

-- What `add_element` returns, from the dimension before, for a name and a kind: the index of the name,
-- at which an element of the name stands; either the name was there and nothing changes, or one element
-- of the name and the kind is new at the end; and adding the name again changes nothing.
abbrev pub IsAdded : Dimension → Text → ElementKind → Dimension × ℕ → Type 0
IsAdded d name kind (d', i) =
    (index_of d' name ≡ some i)
    × ((e : Element) × (get_elem? d'.elements i ≡ some e) × (e.name ≡ name))
    × (((index_of d name ≡ some i) × (d' ≡ d))
        ⊎ ((index_of d name ≡ none)
            × (i ≡ length d.elements)
            × (d'.elements
                ≡ d.elements ++ record { name = name; kind = kind; pinned_to_top = false } ∷ [])))
    × IsNamed d'
    × ((other : ElementKind) → add_element d' name other ≡ (d', i))

elements-push_element :
    (d : Dimension) (name : Text) (kind : ElementKind)
    → (push_element d name kind).elements
      ≡ d.elements ++ record { name = name; kind = kind; pinned_to_top = false } ∷ []
unfolding push_element
elements-push_element d name kind = refl

-- In a dimension of fewer than 2^32 elements whose names and indices are one correspondence, after an
-- element is added its name has the index that was returned, and an element of the name stands there.
-- If the name was there, nothing changes; otherwise one element of the name and the kind, not pinned, is
-- new behind the others. Names and indices are one correspondence again, and adding the name once more,
-- with any kind, changes nothing and returns the same index.
pub add_element-IsAdded :
    (d : Dimension) (name : Text) (kind : ElementKind)
    → length d.elements < 2 ^ 32
    → IsNamed d
    → IsAdded d name kind (add_element d name kind)
add_element-IsAdded d name kind fits h = elim (Option-cases (index_of d name)) [
  | inl e ↦
      let d' = push_element d name kind in
      let place : as_u32 (length d.elements) ≡ length d.elements = omega (arith, fits) in
      let found : index_of d' name ≡ some (as_u32 (length d.elements)) =
        rw (index_of-push_element d name name kind, (list_beq_iff name name).1 refl) refl in
      let named = push_element-IsNamed d name kind fits h e in
      rw (add_element_new d name kind e) (
        found,
        (named name (as_u32 (length d.elements))).0 found,
        inr (e, place, elements-push_element d name kind),
        named,
        λ k. add_element_old d' name k (as_u32 (length d.elements)) found,
      )
  | inr (i, e) ↦
      rw (add_element_old d name kind i e)
        (e, (h name i).0 e, inl (e, refl), h, λ k. add_element_old d name k i e)
]
