-- ===== src/Bytes.antt =====
-- Byte strings: the little-endian encodings and the slices that the durability layer uses
-- (crates/epiphany-persist/src/wal.rs).
pub mod Utf8
pub mod Utf8Decoded
pub mod Slices
use native.Mathlib.Nat.{pow-suc, one-le-pow}
use epiphany.Base.{
  ℕ, zero, suc, ◌+◌, ◌-◌, ◌*◌, ◌/◌, ◌%◌, ◌^◌, ◌<◌, ◌≤◌, ◌≡◌, refl, List, [], ◌∷◌, ◌++◌, length,
  arith, ltb, if◌then◌else◌, All, ap,
}
use epiphany.Base.Int.{ℤ, pos, negsuc}
use epiphany.Fixed.{IsI64}

abbrev pub Bytes : Type 0
Bytes = List ℕ

-- `to_le_bytes` of an unsigned integer of so many bytes; what does not fit is cut, as `as` cuts it
unfoldable pub to_le : ℕ → ℕ → Bytes
to_le zero v = []
to_le (suc n) v = (v % 256) ∷ to_le n (v / 256)

-- `from_le_bytes`
unfoldable pub from_le : Bytes → ℕ
from_le [] = 0
from_le (b ∷ bytes) = b + 256 * from_le bytes

-- `as u64` of an `i64`: two's complement
abbrev pub to_bits : ℤ → ℕ
to_bits (pos n) = n
to_bits (negsuc n) = 2 ^ 64 - 1 - n

abbrev pub from_bits : ℕ → ℤ
from_bits n = if ltb n (2 ^ 63) then pos n else negsuc (2 ^ 64 - 1 - n)

pub length-to_le : (n v : ℕ) → length (to_le n v) ≡ n
unfolding to_le
length-to_le zero v = refl
length-to_le (suc n) v = ap suc (length-to_le n (v / 256))

pub from_le-to_le : (n v : ℕ) → v < 256 ^ n → from_le (to_le n v) ≡ v
unfolding to_le from_le
from_le-to_le zero v h = omega arith
from_le-to_le (suc n) v h =
    omega (arith, from_le-to_le n (v / 256) (omega (arith, pow-suc 256 n)), pow-suc 256 n)

pub from_bits-to_bits : (z : ℤ) → IsI64 z → from_bits (to_bits z) ≡ z
from_bits-to_bits (pos n) h = ground arith
from_bits-to_bits (negsuc n) h = ground arith

pub to_bits-lt : (z : ℤ) → IsI64 z → to_bits z < 256 ^ 8
to_bits-lt (pos n) h = omega arith
to_bits-lt (negsuc n) h = omega arith
