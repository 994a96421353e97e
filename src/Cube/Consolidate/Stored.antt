-- ===== src/Cube/Consolidate/Stored.antt =====
-- The cells of a store as a list of coordinates with their values
-- (`CellStore::entries` of crates/epiphany-core/src/cube.rs).
use epiphany.Base.{
  ℕ, ◌≡◌, refl, ap, sym, ◌∙◌, true, some, List, [], ◌∷◌, length, ◌==◌, if◌then◌else◌, arith, All,
  inl, inr, Bool-cases,
}
use epiphany.Base.Assoc.{lookup, insert, remove}
use epiphany.Base.Assoc.Unique.{IsUnique, insert-IsUnique, remove-IsUnique}
use epiphany.Base.Eq.{Eq, nat_eq, list_eq, list_beq, ◌=?◌}
use epiphany.Layout.{layout_of, pack, unpack}
use epiphany.Layout.RoundTrip.{Fits, unpack-pack}
use epiphany.Store.{CellStore, narrow, wide, get, put, clear, entries, unpack_keys}
use epiphany.Store.Refines.{keys_agree}

-- a packed key of a coordinate that fits
abbrev pub IsKey : List ℕ → ℕ → Type 0
IsKey lens key = (coord : List ℕ) × Fits lens coord × (key ≡ pack (layout_of lens) coord)

-- Each cell has one key, which is that of a coordinate that fits.
module _ {V : Type 0} (lens : List ℕ) where
  abbrev pub IsFilled : CellStore V → Type 0
  IsFilled (narrow m) =
      ((layout_of lens).narrow ≡ true) × IsUnique m × All (λ (cell : ℕ × V). IsKey lens cell.0) m
  IsFilled (wide m) = IsUnique m × All (λ (cell : List ℕ × V). Fits lens cell.0) m

pub Fits-length : (lens coord : List ℕ) → Fits lens coord → length coord ≡ length lens
Fits-length [] [] h = refl
Fits-length [] (i ∷ coord) h = absurd h
Fits-length (len ∷ lens) [] h = absurd h
Fits-length (len ∷ lens) (i ∷ coord) h = omega (arith, Fits-length lens coord h.2)

-- the key of a packed cell, unpacked
unpack_key :
    (lens : List ℕ) (key : ℕ)
    → (layout_of lens).narrow ≡ true
    → (k : IsKey lens key) → unpack (layout_of lens) key (length lens) ≡ k.0
unpack_key lens key packed k =
    ap (λ n. unpack (layout_of lens) n (length lens)) k.2
    ∙ ap (λ n. unpack (layout_of lens) (pack (layout_of lens) k.0) n)
        (sym (Fits-length lens k.0 k.1))
    ∙ unpack-pack lens k.0 k.1 packed

module _ {V : Type 0} (lens : List ℕ) (packed : (layout_of lens).narrow ≡ true) where
  lookup-unpack_keys :
      (m : List (ℕ × V)) (coord : List ℕ)
      → All (λ (cell : ℕ × V). IsKey lens cell.0) m
      → Fits lens coord
      → lookup coord (unpack_keys (layout_of lens) (length lens) m)
        ≡ lookup (pack (layout_of lens) coord) m
  unfolding lookup unpack_keys
  lookup-unpack_keys [] coord a f = refl
  lookup-unpack_keys ((key, value) ∷ m) coord a f =
      let k = a.0 in
      let test : list_beq (unpack (layout_of lens) key (length lens)) coord
          ≡ (key == pack (layout_of lens) coord) =
        ap (λ c. list_beq c coord) (unpack_key lens key packed k)
        ∙ sym (keys_agree lens k.0 coord packed k.1 f)
        ∙ ap (λ n. n == pack (layout_of lens) coord) (sym k.2) in
      λ i. if test i then some value else lookup-unpack_keys m coord a.1 f i

  unpack_keys-IsUnique :
      (m : List (ℕ × V))
      → All (λ (cell : ℕ × V). IsKey lens cell.0) m
      → IsUnique m
      → IsUnique (unpack_keys (layout_of lens) (length lens) m)
  unfolding unpack_keys
  unpack_keys-IsUnique [] a u = tt
  unpack_keys-IsUnique ((key, value) ∷ m) a u =
      let k = a.0 in
      (
        ap (λ c. lookup c (unpack_keys (layout_of lens) (length lens) m))
              (unpack_key lens key packed k)
            ∙ lookup-unpack_keys m k.0 a.1 k.1
            ∙ ap (λ n. lookup n m) (sym k.2)
            ∙ u.0,
        unpack_keys-IsUnique m a.1 u.1,
      )

  unpack_keys-length :
      (m : List (ℕ × V))
      → All (λ (cell : ℕ × V). IsKey lens cell.0) m
      → All
          (λ (cell : List ℕ × V). length cell.0 ≡ length lens)
          (unpack_keys (layout_of lens) (length lens) m)
  unfolding unpack_keys
  unpack_keys-length [] a = tt
  unpack_keys-length ((key, value) ∷ m) a =
      let k = a.0 in
      (
        ap length (unpack_key lens key packed k) ∙ Fits-length lens k.0 k.1,
        unpack_keys-length m a.1,
      )

-- The list has each cell once, under a coordinate of the right length, and a lookup in it is a read
-- of the store.
abbrev pub Lists : {V : Type 0} → List ℕ → CellStore V → List (List ℕ × V) → Type 0
Lists {V} lens s cells =
    IsUnique cells
    × All (λ (cell : List ℕ × V). length cell.0 ≡ length lens) cells
    × ((coord : List ℕ) → Fits lens coord → lookup coord cells ≡ get s (layout_of lens) coord)

All-length :
    {V : Type 0} (lens : List ℕ) (m : List (List ℕ × V))
    → All (λ (cell : List ℕ × V). Fits lens cell.0) m
    → All (λ (cell : List ℕ × V). length cell.0 ≡ length lens) m
All-length lens [] a = tt
All-length lens (cell ∷ m) a = (Fits-length lens cell.0 a.0, All-length lens m a.1)

pub entries-Lists :
    {V : Type 0} (lens : List ℕ) (s : CellStore V)
    → IsFilled lens s
    → Lists lens s (entries s (layout_of lens) (length lens))
unfolding entries get
entries-Lists lens (narrow m) f = (
  unpack_keys-IsUnique lens f.0 m f.2 f.1,
  unpack_keys-length lens f.0 m f.2,
  λ coord k. lookup-unpack_keys lens f.0 m coord f.2 k,
)
entries-Lists lens (wide m) f = (f.0, All-length lens m f.1, λ coord k. refl)

-- Writes keep the keys in order.
module _ {K : Type 0} {V : Type 0} (P : K → Type 0) ⦃e : Eq K⦄ where
  All-remove :
      (k : K) (m : List (K × V))
      → All (λ (cell : K × V). P cell.0) m
      → All (λ (cell : K × V). P cell.0) (remove k m)
  unfolding remove
  All-remove k [] a = tt
  All-remove k ((j, v) ∷ m) a = elim (Bool-cases (j =? k)) [
    | inl q ↦ rw q (All-remove k m a.1)
    | inr q ↦ rw q (a.0, All-remove k m a.1)
  ]

module _ {V : Type 0} (lens : List ℕ) where
  pub put-IsFilled :
      (s : CellStore V) (coord : List ℕ) (value : V)
      → Fits lens coord
      → IsFilled lens s
      → IsFilled lens (put s (layout_of lens) coord value)
  unfolding put insert
  put-IsFilled (narrow m) coord value k f =
      let key = pack (layout_of lens) coord in
      (
        f.0,
        unfold insert in insert-IsUnique key value m f.1,
        ((coord, k, refl), All-remove (IsKey lens) key m f.2),
      )
  put-IsFilled (wide m) coord value k f =
      (unfold insert in insert-IsUnique coord value m f.0, (k, All-remove (Fits lens) coord m f.1))

  pub clear-IsFilled :
      (s : CellStore V) (coord : List ℕ)
      → IsFilled lens s
      → IsFilled lens (clear s (layout_of lens) coord)
  unfolding clear
  clear-IsFilled (narrow m) coord f =
      let key = pack (layout_of lens) coord in
      (f.0, remove-IsUnique key m f.1, All-remove (IsKey lens) key m f.2)
  clear-IsFilled (wide m) coord f =
      (remove-IsUnique coord m f.0, All-remove (Fits lens) coord m f.1)
