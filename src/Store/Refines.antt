-- ===== src/Store/Refines.antt =====
-- Whatever its keys, the store is a map from coordinates to values.
use epiphany.Base.{
  ℕ, ◌≡◌, refl, ap, sym, subst, ◌∙◌, Bool, true, false, none, some, List, ◌==◌, ==_iff,
  if◌then◌else◌, arith, Bool-cases, inl, inr,
}
use epiphany.Base.Eq.{nat_eq, list_eq, list_beq, list_beq_iff}
use epiphany.Base.Assoc.{lookup, lookup-insert, lookup-remove}
use epiphany.Layout.{Layout, layout_of, pack}
use epiphany.Layout.RoundTrip.{Fits, pack-injective}
use epiphany.Store.{CellStore, narrow, wide, new, get, put, clear}

pub keys_agree :
    (lens a b : List ℕ)
    → (layout_of lens).narrow ≡ true
    → Fits lens a
    → Fits lens b
    → (pack (layout_of lens) a == pack (layout_of lens) b) ≡ list_beq a b
keys_agree lens a b packed fa fb =
    let one = pack-injective lens a b fa fb packed in
    let two : a ≡ b → pack (layout_of lens) a ≡ pack (layout_of lens) b =
      λ e. ap (pack (layout_of lens)) e in
    grind (
      arith,
      one,
      two,
      ==_iff (pack (layout_of lens) a) (pack (layout_of lens) b),
      list_beq_iff a b,
    )

module _ {V : Type 0} (lens : List ℕ) where
  -- A store with packed keys belongs to a layout of at most 64 bits.
  abbrev pub IsFor : CellStore V → Type 0
  IsFor (narrow m) = (layout_of lens).narrow ≡ true
  IsFor (wide m) = Unit

  pub put-IsFor :
      (s : CellStore V) (coord : List ℕ) (v : V) → IsFor s → IsFor (put s (layout_of lens) coord v)
  unfolding put
  put-IsFor (narrow m) coord v h = h
  put-IsFor (wide m) coord v h = h

  pub clear-IsFor :
      (s : CellStore V) (coord : List ℕ) → IsFor s → IsFor (clear s (layout_of lens) coord)
  unfolding clear
  clear-IsFor (narrow m) coord h = h
  clear-IsFor (wide m) coord h = h

  -- A write is seen at its own coordinate and at no other one.
  pub get-put :
      (s : CellStore V) (a b : List ℕ) (v : V)
      → IsFor s
      → Fits lens a
      → Fits lens b
      → get (put s (layout_of lens) a v) (layout_of lens) b
        ≡ (if list_beq a b then some v else get s (layout_of lens) b)
  unfolding get put
  get-put (narrow m) a b v h fa fb =
      lookup-insert (pack (layout_of lens) a) (pack (layout_of lens) b) v m
      ∙ ap (λ (t : Bool). if t then some v else lookup (pack (layout_of lens) b) m)
          (keys_agree lens a b h fa fb)
  get-put (wide m) a b v h fa fb = lookup-insert a b v m

  -- A cleared cell is empty, and no other one changes.
  pub get-clear :
      (s : CellStore V) (a b : List ℕ)
      → IsFor s
      → Fits lens a
      → Fits lens b
      → get (clear s (layout_of lens) a) (layout_of lens) b
        ≡ (if list_beq a b then none else get s (layout_of lens) b)
  unfolding get clear
  get-clear (narrow m) a b h fa fb =
      lookup-remove (pack (layout_of lens) a) (pack (layout_of lens) b) m
      ∙ ap (λ (t : Bool). if t then none else lookup (pack (layout_of lens) b) m)
          (keys_agree lens a b h fa fb)
  get-clear (wide m) a b h fa fb = lookup-remove a b m

pub new-IsFor : (V : Type 0) (lens : List ℕ) → IsFor {V = V} lens (new ((layout_of lens).narrow))
new-IsFor V lens = elim (Bool-cases ((layout_of lens).narrow)) [
  | inl e ↦ subst (λ b. IsFor {V = V} lens (new b)) (sym e) e
  | inr e ↦ subst (λ b. IsFor {V = V} lens (new b)) (sym e) tt
]

-- A new store is empty.
pub get-new :
    (V : Type 0) (b : Bool) (l : Layout) (coord : List ℕ) → get (new {V = V} b) l coord ≡ none
unfolding get lookup
get-new V true l coord = refl
get-new V false l coord = refl
