-- ===== src/Wal/Tests.antt =====
-- Runs of the log, and the theorems at concrete files.
use epiphany.Base.{
  ℕ, ◌+◌, ◌<◌, ◌≡◌, refl, Bool, true, some, [], ◌∷◌, ◌++◌, length, take, drop, arith, ◌≢◌, ◌↔◌,
}
use epiphany.Base.Int.{negsuc}
use epiphany.Base.Result.{ok, err}
use epiphany.Bytes.{Bytes, to_le, from_le}
use epiphany.Bytes.Utf8.{as_bytes, char_bytes}
use epiphany.Wal.{
  Record, set_leaf, set_string, header, encode, frame, payload, write_coord, write_indices,
  write_str, decode, decode_leaf, decode_batch_begin, read_coord, read_indices,
}
use epiphany.Wal.Crc.{crc32, crc_loop, crc32_table, crc_rows, crc_bits}
use epiphany.Wal.Scan.{
  replay, Replay, bad_header, has_header, loop, scan, round, read_frame, check_payload, absorb,
  begun, any_intact, has_intact_frame_after,
}
use epiphany.Wal.Ends.{Ends, loop-Ends}
use epiphany.Wal.Batches.{encode_all, batch_bytes, IsCell}
use epiphany.Wal.Torn.{Entry, IsEntry, single, batch, entry_bytes, replay-append, replay-torn}
use epiphany.Wal.Whole.{whole, log_bytes, log_records, replay-log_bytes}
use epiphany.Wal.Corrupt.{replay-header, replay-corrupt, IsIntactAt}
use epiphany.Wal.Payloads.{decode-payload}

check_value : crc32 (b'1' ∷ b'2' ∷ b'3' ∷ b'4' ∷ b'5' ∷ b'6' ∷ b'7' ∷ b'8' ∷ b'9' ∷ []) ≡ 0xCBF43926
unfolding crc32 crc_loop crc32_table crc_rows crc_bits
check_value = refl

abbrev minus_five : Record
minus_five = set_leaf (0 ∷ 2 ∷ []) (record { scaled = negsuc 4 })

abbrev accented : Record
accented = set_string (1 ∷ 300 ∷ []) (b'a' ∷ 0xe9 ∷ 0x20ac ∷ [])

leaf_bytes :
    payload minus_five
    ≡ 1 ∷ 2 ∷ 0 ∷ 0 ∷ 0 ∷ 0 ∷ 0 ∷ 2 ∷ 0 ∷ 0 ∷ 0 ∷ 251 ∷ 255 ∷ 255 ∷ 255 ∷ 255 ∷ 255 ∷ 255 ∷ 255 ∷ []
unfolding payload write_coord write_indices to_le
leaf_bytes = refl

decode-payload_example : decode (payload accented) ≡ some accented
unfolding as_bytes char_bytes
decode-payload_example =
    decode-payload accented
      ((omega arith, (omega arith, (omega arith, tt))), ((refl, (refl, (refl, tt))), omega arith))

abbrev start : Bytes
start = header ++ encode minus_five

started : replay start ≡ ok (whole (minus_five ∷ []) 35)
unfolding replay has_header header loop scan round read_frame check_payload absorb to_le from_le
    encode frame payload write_coord write_indices crc32 crc_loop crc32_table crc_rows crc_bits
    decode decode_leaf read_coord read_indices
started = refl

-- a batch behind the record, torn inside its end marker
abbrev pair : Entry
pair = batch (minus_five ∷ accented ∷ [])

minus_five-IsCell : IsCell minus_five
unfolding payload write_coord write_indices to_le
minus_five-IsCell = (
  (((omega arith, (omega arith, (omega arith, tt))), (omega arith, omega arith)), omega arith),
  refl,
)

accented-IsCell : IsCell accented
unfolding payload write_coord write_indices write_str to_le as_bytes char_bytes
accented-IsCell = (
  (
    ((omega arith, (omega arith, (omega arith, tt))), ((refl, (refl, (refl, tt))), omega arith)),
    omega arith,
  ),
  refl,
)

abbrev pair-IsEntry : IsEntry pair
pair-IsEntry = (minus_five-IsCell, (accented-IsCell, tt))

replay-append_example :
    replay (take 35 start ++ entry_bytes pair)
    ≡ ok (whole (minus_five ∷ minus_five ∷ accented ∷ []) (35 + length (entry_bytes pair)))
replay-append_example = replay-append start (whole (minus_five ∷ []) 35) pair pair-IsEntry started

length-pair : length (entry_bytes pair) ≡ 78
unfolding batch_bytes encode_all to_le encode frame payload write_coord write_indices write_str
    as_bytes char_bytes
length-pair = refl

replay-torn_example :
    (flag : Bool) × (replay (take 35 start ++ take 75 (entry_bytes pair))
      ≡ ok (record { records = minus_five ∷ []; good_len = 35; corrupt_with_valid_tail = flag }))
replay-torn_example =
    replay-torn start (whole (minus_five ∷ []) 35) pair 75 pair-IsEntry started
      (omega (arith, length-pair))

replay-log_bytes_example :
    replay (header ++ log_bytes (pair ∷ single accented ∷ []))
    ≡ ok (
        whole
          (log_records (pair ∷ single accented ∷ []))
          (8 + length (log_bytes (pair ∷ single accented ∷ []))))
replay-log_bytes_example =
    replay-log_bytes (pair ∷ single accented ∷ []) (pair-IsEntry, (accented-IsCell, tt))

-- the record with a flipped bit in its payload, and an intact record behind it
abbrev flipped : Bytes
flipped = header ++ (19 ∷ 0 ∷ 0 ∷ 0 ∷ 0 ∷ encode minus_five)

abbrev seen : Replay
seen = record { records = []; good_len = 8; corrupt_with_valid_tail = true }

replay-flipped : replay flipped ≡ ok seen
unfolding replay has_header header loop scan round read_frame check_payload absorb to_le from_le
    encode frame payload write_coord write_indices crc32 crc_loop crc32_table crc_rows crc_bits
    decode decode_leaf read_coord read_indices has_intact_frame_after any_intact
replay-flipped = refl

replay-corrupt_example : (seen.corrupt_with_valid_tail ≡ true) ↔ (
    (break_pos i : ℕ) × ((loop (drop 8 flipped) 8 begun).1 ≡ some break_pos)
    × (break_pos < i)
    × IsIntactAt flipped i)
replay-corrupt_example = replay-corrupt flipped seen replay-flipped

replay-header_example : (replay (b'E' ∷ []) ≡ err bad_header) ↔ (take 8 (b'E' ∷ []) ≢ header)
replay-header_example = replay-header (b'E' ∷ [])

loop-Ends_example : Ends flipped 8 begun (loop flipped 8 begun)
loop-Ends_example = loop-Ends flipped 8 begun

-- A torn record whose text holds the bytes of a frame: the scan takes it for corruption in the
-- middle of the log.
abbrev framed_text : Record
framed_text = set_string [] (5 ∷ 0 ∷ 0 ∷ 0 ∷ 3 ∷ 0x22 ∷ 0 ∷ 0 ∷ 0 ∷ b'x' ∷ 0xae4b ∷ [])

torn_framed_text :
    replay (header ++ take 26 (encode framed_text))
    ≡ ok (record { records = []; good_len = 8; corrupt_with_valid_tail = true })
unfolding replay has_header header loop scan round read_frame check_payload absorb to_le from_le
    encode frame payload write_coord write_indices write_str as_bytes char_bytes crc32 crc_loop
    crc32_table crc_rows crc_bits decode decode_batch_begin has_intact_frame_after any_intact
torn_framed_text = refl
