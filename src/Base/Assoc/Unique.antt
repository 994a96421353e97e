-- ===== src/Base/Assoc/Unique.antt =====
-- Maps without a key twice: `insert` makes no others, and only in them does `retain` act on lookups.
use mathlib.Core.Path.{◌≡◌, refl, ap, sym, ◌∙◌}
use mathlib.Core.Logic.{inl, inr}
use mathlib.Core.Bool.{Bool}
use mathlib.Core.Option.{Option, none, some}
use mathlib.Core.List.{List, [], ◌∷◌}
use native.Mathlib.Omega.{arith}
use epiphany.Base.Tests.{if◌then◌else◌, Bool-cases}
use epiphany.Base.Eq.{Eq, ◌=?◌, beq_refl}
use epiphany.Base.Assoc.{lookup, insert, remove, retain, lookup-remove}

abbrev pub keep_if {ℓ} : {V : Type ℓ} → (V → Bool) → Option V → Option V
keep_if p none = none
keep_if p (some v) = if p v then some v else none

module _ {ℓ κ} {K : Type ℓ} {V : Type κ} ⦃e : Eq K⦄ where
  abbrev pub IsUnique : List (K × V) → Type κ
  IsUnique [] = Unit
  IsUnique ((k, v) ∷ m) = (lookup k m ≡ none) × IsUnique m

  pub remove-IsUnique : (k : K) (m : List (K × V)) → IsUnique m → IsUnique (remove k m)
  unfolding remove
  remove-IsUnique k [] h = tt
  remove-IsUnique k ((j, v) ∷ m) h = elim (Bool-cases (j =? k)) [
    | inl q ↦ rw q (remove-IsUnique k m h.1)
    | inr q ↦ rw q (ground (arith, lookup-remove k j m, h.0), remove-IsUnique k m h.1)
  ]

  pub insert-IsUnique : (k : K) (v : V) (m : List (K × V)) → IsUnique m → IsUnique (insert k v m)
  unfolding insert
  insert-IsUnique k v m h = (ground (arith, lookup-remove k k m, beq_refl k), remove-IsUnique k m h)

  pub lookup-retain :
      (p : V → Bool) (k : K) (m : List (K × V))
      → IsUnique m
      → lookup k (retain p m) ≡ keep_if p (lookup k m)
  unfolding lookup retain
  lookup-retain p k [] h = refl
  lookup-retain p k ((j, v) ∷ m) h = elim (Bool-cases (j =? k)) [
    | inl q ↦
        let same : lookup k m ≡ none =
          ap (λ (x : K). lookup x m) (sym ((e.beq_iff j k).0 q)) ∙ h.0 in
        ground (arith, lookup-retain p k m h.1, same, q)
    | inr q ↦ ground (arith, lookup-retain p k m h.1, q)
  ]

  pub retain-IsUnique : (p : V → Bool) (m : List (K × V)) → IsUnique m → IsUnique (retain p m)
  unfolding retain
  retain-IsUnique p [] h = tt
  retain-IsUnique p ((j, v) ∷ m) h = elim (Bool-cases (p v)) [
    | inl q ↦ rw q (lookup-retain p j m h.1 ∙ ap (keep_if p) h.0, retain-IsUnique p m h.1)
    | inr q ↦ rw q (retain-IsUnique p m h.1)
  ]
