-- ===== src/Layout/RoundTrip.antt =====
-- Packing and unpacking: in a narrow layout a coordinate whose components are below the element
-- counts is got back from its key, so two such coordinates have one key only if they are equal.
use native.Mathlib.Nat.{add-mul-div_right, div-eq_of_lt, one-le-pow, pow-le-pow_right}
use Prim.Native.Nat.{bit_or}
use epiphany.Base.{
  ℕ, suc, ◌+◌, ◌-◌, ◌*◌, ◌/◌, ◌^◌, ◌≤◌, ◌<◌, ◌≡◌, refl, ap, sym, ◌∙◌, subst, true, List, [], ◌∷◌,
  arith, length,
}
use epiphany.Base.Bits.{bit_or_shifted, bit_and_mask, pow_add, mul_le_mul}
use epiphany.Layout.{
  bits_for, layout_of, offsets_from, masks_of, end_from, saturating_add, pack, pack_from, shifted,
  field, unpack, unpack_from,
}
use epiphany.Layout.Width.{bits_for_le, bits_for_fits}

-- A component for each dimension, below its element count.
abbrev pub Fits : List ℕ → List ℕ → Type 0
Fits [] [] = Unit
Fits (len ∷ lens) (i ∷ coord) = (len < 2 ^ 32) × (i < len) × Fits lens coord
Fits _ _ = ⊥

Fits-length : (lens a b : List ℕ) → Fits lens a → Fits lens b → length a ≡ length b
Fits-length [] [] [] fa fb = refl
Fits-length [] [] (i ∷ b) fa fb = absurd fb
Fits-length [] (i ∷ a) b fa fb = absurd fa
Fits-length (len ∷ lens) [] b fa fb = absurd fa
Fits-length (len ∷ lens) (i ∷ a) [] fa fb = absurd fb
Fits-length (len ∷ lens) (i ∷ a) (j ∷ b) fa fb = ap suc (Fits-length lens a b fa.2 fb.2)

-- The key as a number in mixed radix.
abbrev number : List ℕ → List ℕ → ℕ
number [] coord = 0
number (len ∷ lens) [] = 0
number (len ∷ lens) (i ∷ coord) = i + number lens coord * 2 ^ bits_for len

end_from_ge :
    (offset : ℕ) (lens : List ℕ) → end_from offset lens ≤ 64 → offset ≤ end_from offset lens
unfolding end_from
end_from_ge offset [] h = omega arith
end_from_ge offset (len ∷ lens) h =
    omega (arith, bits_for_le len, end_from_ge (saturating_add offset (bits_for len)) lens h)

-- One field of a layout that ends within 64 bits is added as it is.
next_offset :
    (offset len : ℕ) (lens : List ℕ)
    → end_from offset (len ∷ lens) ≤ 64
    → (saturating_add offset (bits_for len) ≡ offset + bits_for len) × (offset + bits_for len ≤ 64)
unfolding end_from
next_offset offset len lens h =
    let past = end_from_ge (saturating_add offset (bits_for len)) lens h in
    (omega (arith, past, bits_for_le len), omega (arith, past, bits_for_le len))

-- what one component adds
abbrev added : ℕ → ℕ → ℕ → ℕ
added key offset i = key + i * 2 ^ offset

added_below :
    (key offset i w : ℕ) → key < 2 ^ offset → i < 2 ^ w → added key offset i < 2 ^ (offset + w)
added_below key offset i w low lt =
    omega (arith, pow_add offset w, mul_le_mul (suc i) (2 ^ w) (2 ^ offset) lt)

shifted_exact : (offset i w : ℕ) → i < 2 ^ w → offset + w ≤ 64 → shifted i offset ≡ i * 2 ^ offset
shifted_exact offset i w lt room = omega (
  arith,
  added_below 0 offset i w (one-le-pow offset 2 (omega arith)) lt,
  pow-le-pow_right {n = 2} (omega arith) room,
)

or_added :
    (key offset i w : ℕ)
    → key < 2 ^ offset
    → i < 2 ^ w
    → offset + w ≤ 64
    → bit_or key (shifted i offset) ≡ added key offset i
or_added key offset i w low lt room =
    rw (shifted_exact offset i w lt room) (bit_or_shifted key offset i low)

pack_from-number :
    (lens coord : List ℕ) (offset key : ℕ)
    → Fits lens coord
    → key < 2 ^ offset
    → end_from offset lens ≤ 64
    → pack_from key (offsets_from offset lens) coord ≡ key + number lens coord * 2 ^ offset
unfolding pack_from offsets_from
pack_from-number [] [] offset key fits low room = omega arith
pack_from-number [] (i ∷ coord) offset key fits low room = absurd fits
pack_from-number (len ∷ lens) [] offset key fits low room = absurd fits
pack_from-number (len ∷ lens) (i ∷ coord) offset key (small, lt, fits) low room =
    let w = bits_for len in
    let (next, le) = next_offset offset len lens room in
    let below = bits_for_fits len i small lt in
    let ih =
      pack_from-number lens coord (offset + w) (added key offset i) fits
        (added_below key offset i w low below)
        (subst (λ o. end_from o lens ≤ 64) next (unfold end_from in room)) in
    rw (next, or_added key offset i w low below le, ih)
      (omega (arith, ap (λ (t : ℕ). number lens coord * t) (pow_add offset w)))

-- What is above an offset, of a key that is low there.
above : (low offset n : ℕ) → low < 2 ^ offset → (low + n * 2 ^ offset) / 2 ^ offset ≡ n
above low offset n lt =
    omega (arith, add-mul-div_right low n (one-le-pow offset 2 (omega arith)), div-eq_of_lt lt)

-- Reading a field off a key.
field_exact :
    (low offset w i n : ℕ)
    → low < 2 ^ offset
    → i < 2 ^ w
    → i < 2 ^ 32
    → field (low + (i + n * 2 ^ w) * 2 ^ offset) offset (2 ^ w - 1) ≡ i
field_exact low offset w i n lt below small =
    let swap : i + n * 2 ^ w ≡ n * 2 ^ w + i = omega arith in
    rw (above low offset (i + n * 2 ^ w) lt, swap, bit_and_mask w n i below) (omega arith)

unpack_from-number :
    (lens coord : List ℕ) (offset low key : ℕ)
    → Fits lens coord
    → low < 2 ^ offset
    → end_from offset lens ≤ 64
    → key ≡ low + number lens coord * 2 ^ offset
    → unpack_from key (offsets_from offset lens) (masks_of lens) (length coord) ≡ coord
unfolding unpack_from offsets_from masks_of
unpack_from-number [] [] offset low key fits lt room is_key = refl
unpack_from-number [] (i ∷ coord) offset low key fits lt room is_key = absurd fits
unpack_from-number (len ∷ lens) [] offset low key fits lt room is_key = absurd fits
unpack_from-number (len ∷ lens) (i ∷ coord) offset low key (small, inside, fits) lt room is_key =
    let w = bits_for len in
    let (next, le) = next_offset offset len lens room in
    let below = bits_for_fits len i small inside in
    let rest : unpack_from key (offsets_from (offset + w) lens) (masks_of lens) (length coord)
        ≡ coord =
      unpack_from-number lens coord (offset + w) (added low offset i) key fits
        (added_below low offset i w lt below)
        (subst (λ o. end_from o lens ≤ 64) next (unfold end_from in room))
        (omega (arith, is_key, ap (λ (t : ℕ). number lens coord * t) (pow_add offset w))) in
    let first : field key offset (2 ^ w - 1) ≡ i =
      rw is_key (field_exact low offset w i (number lens coord) lt below (omega arith)) in
    rw (next, first, rest) refl

-- In a narrow layout the key of a coordinate that fits unpacks to the coordinate.
pub unpack-pack :
    (lens coord : List ℕ)
    → Fits lens coord
    → (layout_of lens).narrow ≡ true
    → unpack (layout_of lens) (pack (layout_of lens) coord) (length coord) ≡ coord
unfolding layout_of pack unpack
unpack-pack lens coord fits narrow =
    let room : end_from 0 lens ≤ 64 = ground arith in
    unpack_from-number lens coord 0 0 _ fits (omega arith) room
      (pack_from-number lens coord 0 0 fits (omega arith) room)

-- In a narrow layout two coordinates that fit have the same key only if they are equal.
pub pack-injective :
    (lens a b : List ℕ)
    → Fits lens a
    → Fits lens b
    → (layout_of lens).narrow ≡ true
    → pack (layout_of lens) a ≡ pack (layout_of lens) b
    → a ≡ b
pack-injective lens a b fa fb narrow same =
    sym (unpack-pack lens a fa narrow)
    ∙ ap (λ (k : ℕ). unpack (layout_of lens) k (length a)) same
    ∙ ap (λ (n : ℕ). unpack (layout_of lens) (pack (layout_of lens) b) n)
        (Fits-length lens a b fa fb)
    ∙ unpack-pack lens b fb narrow
