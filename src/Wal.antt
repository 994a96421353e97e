-- ===== src/Wal.antt =====
-- The write-ahead log: its records, their bytes, and the scan of a log file
-- (crates/epiphany-persist/src/wal.rs).
pub mod Crc
pub mod Codec
pub mod Payloads
pub mod Scan
pub mod Rounds
pub mod Ends
pub mod Frames
pub mod Recovery
pub mod Resume
pub mod Batches
pub mod Torn
pub mod Corrupt
pub mod Whole
mod Tests
use epiphany.Base.{
  ℕ, zero, suc, ◌+◌, ◌%◌, ◌^◌, Bool, true, false, not, Option, none, some, List, [], ◌∷◌, ◌++◌,
  length, ◌==◌, if◌then◌else◌, take, drop, get_elem?, leb,
}
use epiphany.Base.Maybe.{◌>>=◌}
use epiphany.Text.{Text}
use epiphany.Fixed.{Fixed}
use epiphany.Bytes.{Bytes, to_le, from_le, to_bits, from_bits}
use epiphany.Bytes.Slices.{get_range}
use epiphany.Bytes.Utf8.{as_bytes, from_utf8}
use epiphany.Wal.Crc.{crc32}

pub data Record : Type 0 where
  set_leaf : (coord : List ℕ) (value : Fixed) → Record
  set_string : (coord : List ℕ) (value : Text) → Record
  batch_begin : (count : ℕ) → Record
  batch_end : Record
  set_pin : (dimension element : Text) (pinned : Bool) → Record

abbrev pub wal_magic : Bytes
wal_magic = b'E' ∷ b'P' ∷ b'I' ∷ b'W' ∷ b'A' ∷ b'L' ∷ []

abbrev pub wal_version : ℕ
wal_version = 1

abbrev pub wal_header_len : ℕ
wal_header_len = 8

abbrev pub op_set_leaf : ℕ
op_set_leaf = 1

abbrev pub op_set_string : ℕ
op_set_string = 2

abbrev pub op_batch_begin : ℕ
op_batch_begin = 3

abbrev pub op_batch_end : ℕ
op_batch_end = 4

abbrev pub op_set_pin : ℕ
op_set_pin = 5

unfoldable pub header : Bytes
header = wal_magic ++ to_le 2 wal_version

-- the loop of `write_coord`
unfoldable pub write_indices : List ℕ → Bytes
write_indices [] = []
write_indices (index ∷ coord) = to_le 4 index ++ write_indices coord

-- The rank is cut to 16 bits.
unfoldable pub write_coord : List ℕ → Bytes
write_coord coord = to_le 2 (length coord % 2 ^ 16) ++ write_indices coord

-- The length is cut to 32 bits.
pub write_str : Text → Bytes
write_str s = let bytes = as_bytes s in to_le 4 (length bytes % 2 ^ 32) ++ bytes

-- the payload that `encode` builds
unfoldable pub payload : Record → Bytes
payload (set_leaf coord value) = op_set_leaf ∷ (write_coord coord ++ to_le 8 (to_bits value.scaled))
payload (set_string coord value) = op_set_string ∷ (write_coord coord ++ write_str value)
payload (batch_begin count) = op_batch_begin ∷ to_le 4 count
payload batch_end = op_batch_end ∷ []
payload (set_pin dimension element pinned) =
    op_set_pin ∷ (write_str dimension ++ (write_str element ++ ((if pinned then 1 else 0) ∷ [])))

-- a payload in its frame; the length is cut to 32 bits
unfoldable pub frame : Bytes → Bytes
frame body = to_le 4 (length body % 2 ^ 32) ++ (body ++ to_le 4 (crc32 body))

unfoldable pub encode : Record → Bytes
encode record_ = frame (payload record_)

pub read_str : Bytes → Option (Text × ℕ)
read_str rest = do
  prefix ← get_range rest 0 4
  let len = from_le prefix
  bytes ← get_range rest 4 (4 + len)
  s ← from_utf8 bytes
  some (s, 4 + len)

-- the loop of `read_coord`: so many indices from a position on
pub read_indices : Bytes → ℕ → ℕ → Option (List ℕ × ℕ)
read_indices rest pos zero = some ([], pos)
read_indices rest pos (suc n) = do
  word ← get_range rest pos (pos + 4)
  more ← read_indices rest (pos + 4) n
  some (from_le word ∷ more.0, more.1)

pub read_coord : Bytes → Option (List ℕ × ℕ)
read_coord rest = do prefix ← get_range rest 0 2; read_indices rest 2 (from_le prefix)

-- slice::get of a range without an end
abbrev pub get_from : Bytes → ℕ → Option Bytes
get_from xs from = if leb from (length xs) then some (drop from xs) else none

pub decode_leaf : Bytes → Option Record
decode_leaf rest = do
  read ← read_coord rest
  scaled ← get_range rest read.1 (read.1 + 8)
  some (set_leaf read.0 (record { scaled = from_bits (from_le scaled) }))

pub decode_string : Bytes → Option Record
decode_string rest = do
  read ← read_coord rest
  prefix ← get_range rest read.1 (read.1 + 4)
  let pos = read.1 + 4
  bytes ← get_range rest pos (pos + from_le prefix)
  value ← from_utf8 bytes
  some (set_string read.0 value)

pub decode_batch_begin : Bytes → Option Record
decode_batch_begin rest = do count ← get_range rest 0 4; some (batch_begin (from_le count))

pub decode_pin : Bytes → Option Record
decode_pin rest = do
  dimension ← read_str rest
  tail ← get_from rest dimension.1
  element ← read_str tail
  flag ← get_elem? rest (dimension.1 + element.1)
  some (set_pin dimension.0 element.0 (not (flag == 0)))

pub decode : Bytes → Option Record
decode [] = none
decode (op ∷ rest) =
    if op == op_set_leaf
    then decode_leaf rest
    else (if op == op_set_string
        then decode_string rest
        else (if op == op_batch_begin
            then decode_batch_begin rest
            else (if op == op_batch_end
                then some batch_end
                else (if op == op_set_pin then decode_pin rest else none))))
