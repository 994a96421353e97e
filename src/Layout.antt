-- ===== src/Layout.antt =====
-- The packing of a coordinate into one 64-bit key: `bits_for` and `Layout` of
-- crates/epiphany-core/src/cube.rs. A dimension enters by its element count.
pub mod RoundTrip
pub mod Width
mod Tests
use Prim.Native.Nat.{bit_and, bit_or}
use epiphany.Base.{
  ℕ, zero, suc, ◌+◌, ◌-◌, ◌*◌, ◌/◌, ◌%◌, ◌^◌, min, Bool, List, [], ◌∷◌, leb, ◌==◌, if◌then◌else◌,
  get_or,
}

-- the bits that the digits of a number take up, lowest first, up to `fuel` of them
unfoldable pub bit_count : ℕ → ℕ → ℕ
bit_count zero n = 0
bit_count (suc fuel) zero = 0
bit_count (suc fuel) (suc n) = suc (bit_count fuel (suc n / 2))

-- u32::leading_zeros
unfoldable pub leading_zeros : ℕ → ℕ
unfolding bit_count
leading_zeros n = 32 - bit_count 32 n

-- `len - 1` is taken only of a `len` above 1.
unfoldable pub bits_for : ℕ → ℕ
unfolding leading_zeros
bits_for len = if leb len 1 then 1 else 32 - leading_zeros (len - 1)

pub record Layout : Type 0 where
  pub offsets : List ℕ
  pub masks : List ℕ
  pub narrow : Bool

-- u32::saturating_add
abbrev pub saturating_add : ℕ → ℕ → ℕ
saturating_add a b = min (a + b) (2 ^ 32 - 1)

-- The loop of `Layout::new`, from an offset on: the offsets, and the masks.
unfoldable pub offsets_from : ℕ → List ℕ → List ℕ
unfolding bits_for
offsets_from offset [] = []
offsets_from offset (len ∷ lens) = offset ∷ offsets_from (saturating_add offset (bits_for len)) lens

unfoldable pub masks_of : List ℕ → List ℕ
unfolding bits_for
masks_of [] = []
masks_of (len ∷ lens) = (2 ^ bits_for len - 1) ∷ masks_of lens

-- the offset behind the last dimension
unfoldable pub end_from : ℕ → List ℕ → ℕ
unfolding bits_for
end_from offset [] = offset
end_from offset (len ∷ lens) = end_from (saturating_add offset (bits_for len)) lens

-- Layout::new
unfoldable pub layout_of : List ℕ → Layout
unfolding offsets_from masks_of end_from
layout_of lens = record {
  offsets = offsets_from 0 lens;
  masks = masks_of lens;
  narrow = leb (end_from 0 lens) 64;
}

-- u64::from(idx) << offset
abbrev pub shifted : ℕ → ℕ → ℕ
shifted idx offset = idx * 2 ^ offset % 2 ^ 64

-- The loop of `pack`. A component behind the last dimension would be a panic in the code; here it is
-- left out. Every caller has compared the lengths before.
pub pack_from : ℕ → List ℕ → List ℕ → ℕ
pack_from key [] coord = key
pack_from key (offset ∷ offsets) [] = key
pack_from key (offset ∷ offsets) (idx ∷ coord) =
    pack_from (bit_or key (shifted idx offset)) offsets coord

-- Layout::pack
unfoldable pub pack : Layout → List ℕ → ℕ
unfolding pack_from
pack l coord = pack_from 0 l.offsets coord

-- ((key >> offset) & mask) as u32
abbrev pub field : ℕ → ℕ → ℕ → ℕ
field key offset mask = bit_and (key / 2 ^ offset) mask % 2 ^ 32

-- Layout::component
unfoldable pub component : Layout → ℕ → ℕ → ℕ
component l key d = field key (get_or l.offsets d 0) (get_or l.masks d 0)

-- Layout::unpack: the components 0 to rank - 1
pub unpack_from : ℕ → List ℕ → List ℕ → ℕ → List ℕ
unpack_from key (offset ∷ offsets) (mask ∷ masks) (suc rank) =
    field key offset mask ∷ unpack_from key offsets masks rank
unpack_from key _ _ _ = []

unfoldable pub unpack : Layout → ℕ → ℕ → List ℕ
unfolding unpack_from
unpack l key rank = unpack_from key l.offsets l.masks rank
