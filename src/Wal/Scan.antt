-- ===== src/Wal/Scan.antt =====
-- The scan of a log file (`replay` and `has_intact_frame_after` of
-- crates/epiphany-persist/src/wal.rs). The code keeps a position in the file; here the bytes from
-- that position on go along with it.
use epiphany.Base.{
  ℕ, zero, suc, ◌+◌, Bool, true, false, not, ◌||◌, ◌&&◌, Option, none, some, List, [], ◌∷◌, ◌++◌,
  length, take, drop, ltb, ◌==◌, if◌then◌else◌,
}
use epiphany.Base.Eq.{list_beq}
use epiphany.Base.Result.{Result, ok, err}
use epiphany.Bytes.{Bytes, from_le}
use epiphany.Wal.{
  Record, set_leaf, set_string, batch_begin, batch_end, set_pin, decode, wal_magic, wal_version,
  wal_header_len,
}
use epiphany.Wal.Crc.{crc32}

-- What stands at a position: the end of the loop, a torn or corrupt frame, or an intact frame with
-- its record and size.
pub data Seen : Type 0 where
  past_end : Seen
  broken : Seen
  intact : Record → ℕ → Seen

abbrev pub decoded : Option Record → ℕ → Seen
decoded none size = broken
decoded (some r) size = intact r size

-- the tests of the loop body on a payload and the checksum behind it
unfoldable pub check_payload : Bytes → ℕ → ℕ → Seen
check_payload payload crc size =
    if crc32 payload == crc then decoded (decode payload) size else broken

unfoldable pub read_frame : Bytes → Seen
read_frame rest =
    let len = from_le (take 4 rest) in
    let frame_end = 4 + len + 4 in
    if ltb (length rest) 4
    then past_end
    else (if ltb (length rest) frame_end
        then broken
        else check_payload (take len (drop 4 rest)) (from_le (take 4 (drop (4 + len) rest)))
            frame_end)

-- the variables of the loop
pub record Progress : Type 0 where
  pub records : List Record
  pub batch : Option (List Record)
  pub good : ℕ

abbrev pub close_batch : Progress → Option (List Record) → ℕ → Option Progress
close_batch s none frame_end = none
close_batch s (some buffered) frame_end =
    some (record { records = s.records ++ buffered; batch = none; good = frame_end })

abbrev pub push_cell : Progress → Option (List Record) → Record → ℕ → Progress
push_cell s none cell frame_end = record {
  records = s.records ++ cell ∷ [];
  batch = none;
  good = frame_end;
}
push_cell s (some buffered) cell frame_end = record s { batch = some (buffered ++ cell ∷ []) }

-- `match record` of the loop; `none` is an end marker with no begin
unfoldable pub absorb : Progress → Record → ℕ → Option Progress
absorb s (batch_begin count) frame_end = some (record s { batch = some [] })
absorb s batch_end frame_end = close_batch s s.batch frame_end
absorb s (set_leaf coord value) frame_end =
    some (push_cell s s.batch (set_leaf coord value) frame_end)
absorb s (set_string coord value) frame_end =
    some (push_cell s s.batch (set_string coord value) frame_end)
absorb s (set_pin dimension element pinned) frame_end =
    some (push_cell s s.batch (set_pin dimension element pinned) frame_end)

abbrev pub Next : Type 0
Next = Bytes → ℕ → Progress → Progress × Option ℕ

-- the end of a round, after an intact frame
abbrev pub advance : Next → Bytes → ℕ → Progress → ℕ → Option Progress → Progress × Option ℕ
advance next rest pos s size none = (s, some pos)
advance next rest pos s size (some t) = next (drop size rest) (pos + size) t

abbrev pub act : Next → Bytes → ℕ → Progress → Seen → Progress × Option ℕ
act next rest pos s past_end = (s, none)
act next rest pos s broken = (s, some pos)
act next rest pos s (intact r size) = advance next rest pos s size (absorb s r (pos + size))

-- one round of the loop of `replay`, with the position where it broke off
unfoldable pub round : Next → Bytes → ℕ → Progress → Progress × Option ℕ
round next rest pos s = act next rest pos s (read_frame rest)

-- the loop of `replay`; a round takes eight bytes at least
unfoldable pub scan : ℕ → Bytes → ℕ → Progress → Progress × Option ℕ
scan zero rest pos s = (s, none)
scan (suc fuel) rest pos s = round (scan fuel) rest pos s

-- as many rounds as there are bytes
unfoldable pub loop : Bytes → ℕ → Progress → Progress × Option ℕ
loop rest pos s = scan (length rest) rest pos s

abbrev pub is_intact : Seen → Bool
is_intact past_end = false
is_intact broken = false
is_intact (intact r size) = true

-- the loop of `has_intact_frame_after`, on the bytes from its position on
unfoldable pub any_intact : Bytes → Bool
any_intact [] = false
any_intact (b ∷ rest) = is_intact (read_frame (b ∷ rest)) || any_intact rest

unfoldable pub has_intact_frame_after : Bytes → ℕ → Bool
unfolding any_intact
has_intact_frame_after bytes break_pos = any_intact (drop (break_pos + 1) bytes)

pub data WalError : Type 0 where
  bad_header : WalError

pub record Replay : Type 0 where
  pub records : List Record
  pub good_len : ℕ
  pub corrupt_with_valid_tail : Bool

abbrev pub corrupt : Bytes → Option ℕ → Bool
corrupt bytes none = false
corrupt bytes (some break_pos) = has_intact_frame_after bytes break_pos

abbrev pub begun : Progress
begun = record { records = []; batch = none; good = wal_header_len }

unfoldable pub has_header : Bytes → Bool
has_header bytes =
    not (ltb (length bytes) wal_header_len)
    && (list_beq (take 6 bytes) wal_magic && (from_le (take 2 (drop 6 bytes)) == wal_version))

-- the end of `replay`
abbrev pub finish : Bytes → Progress × Option ℕ → Replay
finish bytes out = record {
  records = out.0.records;
  good_len = out.0.good;
  corrupt_with_valid_tail = corrupt bytes out.1;
}

unfoldable pub replay : Bytes → Result WalError Replay
replay bytes =
    if has_header bytes
    then ok (finish bytes (loop (drop wal_header_len bytes) wal_header_len begun))
    else err bad_header
