-- ===== src/Wal/Whole.antt =====
-- The log that a sequence of appends writes behind the header, scanned from its start
-- (crates/epiphany-persist/src/wal.rs).
use mathlib.Core.List.{append_assoc, append-nil}
use epiphany.Base.{
  ℕ, ◌+◌, ◌≡◌, refl, ap, sym, ◌∙◌, false, List, [], ◌∷◌, ◌++◌, length, drop, arith, length-append,
  All,
}
use epiphany.Base.Result.{ok}
use epiphany.Bytes.{Bytes, to_le}
use epiphany.Bytes.Slices.{take_all}
use epiphany.Wal.{Record, header}
use epiphany.Wal.Scan.{replay, Replay, loop, begun, finish}
use epiphany.Wal.Corrupt.{header-has_header}
use epiphany.Wal.Resume.{replay-finish}
use epiphany.Wal.Torn.{Entry, IsEntry, entry_bytes, entry_records, replay-append, loop-nil}

-- the bytes of the appends, and the records that they commit
pub log_bytes : List Entry → Bytes
log_bytes [] = []
log_bytes (e ∷ es) = entry_bytes e ++ log_bytes es

pub log_records : List Entry → List Record
log_records [] = []
log_records (e ∷ es) = entry_records e ++ log_records es

abbrev pub whole : List Record → ℕ → Replay
whole records good_len = record {
  records = records;
  good_len = good_len;
  corrupt_with_valid_tail = false;
}

pub length-header : length header ≡ 8
unfolding header to_le
length-header = refl

header_rest : drop 8 header ≡ []
unfolding header to_le
header_rest = refl

pub replay-start : replay header ≡ ok (whole [] 8)
replay-start =
    let empty = take_all 8 header (omega (arith, length-header)) in
    replay-finish header (header-has_header header empty)
    ∙ ap (λ bs. ok (finish header (loop bs 8 begun))) header_rest
    ∙ ap (λ x. ok (finish header x)) (loop-nil 8 begun)

-- a log that is read whole, and more appends
extended :
    (es : List Entry) (file : Bytes) (records : List Record)
    → All IsEntry es
    → replay file ≡ ok (whole records (length file))
    → replay (file ++ log_bytes es)
      ≡ ok (whole (records ++ log_records es) (length (file ++ log_bytes es)))
unfolding log_bytes log_records
extended [] file records h e = ap replay (append-nil file) ∙ e ∙ λ i.
    ok (whole (sym (append-nil records) i) (length (sym (append-nil file) i)))
extended (x ∷ es) file records h e =
    let read = replay-append file (whole records (length file)) x h.0 e in
    let kept = take_all (length file) file (omega arith) in
    let more = file ++ entry_bytes x in
    let next = extended es more (records ++ entry_records x) h.1 (
      ap (λ bs. replay (bs ++ entry_bytes x)) (sym kept)
      ∙ read
      ∙ ap (λ n. ok (whole (records ++ entry_records x) n))
          (sym (length-append file (entry_bytes x)))) in
    let bytes = append_assoc file (entry_bytes x) (log_bytes es) in
    ap replay (sym bytes) ∙ next ∙ λ i.
    ok (whole (append_assoc records (entry_records x) (log_records es) i) (length (bytes i)))

-- The log of any sequence of appends, records and batches, is read back whole: its records in
-- order, to its last byte, with no corruption reported.
pub replay-log_bytes :
    (es : List Entry)
    → All IsEntry es
    → replay (header ++ log_bytes es) ≡ ok (whole (log_records es) (8 + length (log_bytes es)))
replay-log_bytes es h =
    extended es header [] h (replay-start ∙ ap (λ n. ok (whole [] n)) (sym length-header))
    ∙ ap (λ n. ok (whole (log_records es) n))
        (length-append header (log_bytes es) ∙ ap (λ n. n + length (log_bytes es)) length-header)
