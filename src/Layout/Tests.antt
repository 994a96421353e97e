-- ===== src/Layout/Tests.antt =====
-- A layout of three dimensions with 5, 1 and 300 elements (3, 1 and 9 bits).
use epiphany.Base.{ℕ, ◌≡◌, refl, List, [], ◌∷◌, arith, true}
use epiphany.Layout.{
  layout_of, offsets_from, masks_of, end_from, bits_for, leading_zeros, bit_count, pack, pack_from,
  unpack,
}
use epiphany.Layout.RoundTrip.{unpack-pack, pack-injective, Fits}

abbrev counts : List ℕ
counts = 5 ∷ 1 ∷ 300 ∷ []

layout :
    layout_of counts ≡ record { offsets = 0 ∷ 3 ∷ 4 ∷ []; masks = 7 ∷ 1 ∷ 511 ∷ []; narrow = true }
unfolding layout_of offsets_from masks_of end_from bits_for leading_zeros bit_count
layout = refl

packed : pack (layout_of counts) (4 ∷ 0 ∷ 299 ∷ []) ≡ 4788
unfolding pack pack_from layout_of offsets_from masks_of end_from bits_for leading_zeros bit_count
packed = refl

counts-Fits : Fits counts (4 ∷ 0 ∷ 299 ∷ [])
counts-Fits = (omega arith, omega arith, (omega arith, omega arith, (omega arith, omega arith, tt)))

narrow : (layout_of counts).narrow ≡ true
unfolding layout_of offsets_from masks_of end_from bits_for leading_zeros bit_count
narrow = refl

unpack-pack_example :
    unpack (layout_of counts) (pack (layout_of counts) (4 ∷ 0 ∷ 299 ∷ [])) 3 ≡ 4 ∷ 0 ∷ 299 ∷ []
unpack-pack_example = unpack-pack counts (4 ∷ 0 ∷ 299 ∷ []) counts-Fits narrow

abbrev last : List ℕ
last = 4 ∷ 0 ∷ 299 ∷ []

pack-injective_example : last ≡ last
pack-injective_example =
    pack-injective counts (4 ∷ 0 ∷ 299 ∷ []) (4 ∷ 0 ∷ 299 ∷ []) counts-Fits counts-Fits narrow refl
