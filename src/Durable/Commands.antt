-- ===== src/Durable/Commands.antt =====
-- The writes of the durable store, and its opening (`set_leaf`, `set_string`, `set_batch`, `set_pin`
-- and `open` of crates/epiphany-persist/src/store.rs).
use epiphany.Base.{ℕ, Bool, true, false, some, List, [], ◌∷◌, map, length, take, ltb, if◌then◌else◌}
use epiphany.Base.Result.{Result, ok, err, ◌>>=◌}
use epiphany.Text.{Text}
use epiphany.Model.{ModelError}
use epiphany.Fixed.{Fixed}
use epiphany.Cube.{Cube, BatchWrite, leaf_write, string_write, validate_batch}
use epiphany.Cube as C
use epiphany.Cube.Pins.{pin_element}
use epiphany.Bytes.{Bytes}
use epiphany.Wal.{Record, header, wal_header_len, encode, set_pin, batch_begin, batch_end}
use epiphany.Wal as W
use epiphany.Wal.Batches.{batch_bytes}
use epiphany.Wal.Scan.{replay, Replay}
use epiphany.Durable.Snapshot.{load_snapshot}
use epiphany.Durable.{
  CellWrite, leaf, str, PersistError, model, corrupt, batch_rejected, poisoned_store, panicked,
  Disk, Store, Append, Checkpoint, append_wal, maybe_auto_checkpoint, default_threshold,
}

abbrev pub Answer : Type 0
Answer = Store × Result PersistError (Unit {0})

-- `?` on an answer
abbrev pub and_then : Answer → (Store → Answer) → Answer
and_then (s, ok done) k = k s
and_then (s, err e) k = (s, err e)

-- the end of a write: append it, and fold the log when it has grown
unfoldable pub log_write : Append → Checkpoint → Store → Bytes → Answer
log_write how fold s framed = and_then (append_wal how s framed) (maybe_auto_checkpoint fold)

-- a write that the model checks and makes before it is logged
abbrev pub made : Append → Checkpoint → Store → Record → Result ModelError Cube → Answer
made how fold s r (ok cube) = log_write how fold (record s { cube = cube }) (encode r)
made how fold s r (err e) = (s, err (model e))

-- Store::set_leaf
unfoldable pub set_leaf : Append → Checkpoint → Store → List ℕ → Fixed → Answer
set_leaf how fold s coord value =
    if s.poisoned
    then (s, err poisoned_store)
    else made how fold s (W.set_leaf coord value) (C.set_leaf s.cube coord value)

-- Store::set_string
unfoldable pub set_string : Append → Checkpoint → Store → List ℕ → Text → Answer
set_string how fold s coord value =
    if s.poisoned
    then (s, err poisoned_store)
    else made how fold s (W.set_string coord value) (C.set_string s.cube coord value)

-- Store::set_pin
unfoldable pub set_member_pin : Append → Checkpoint → Store → Text → Text → Bool → Answer
set_member_pin how fold s dimension element pinned =
    if s.poisoned
    then (s, err poisoned_store)
    else made how fold s (set_pin dimension element pinned)
        (pin_element s.cube dimension element pinned)

abbrev pub batch_write : CellWrite → BatchWrite
batch_write (leaf coord value) = leaf_write coord value
batch_write (str coord value) = string_write coord value

-- batch_writes
abbrev pub batch_writes : List CellWrite → List BatchWrite
batch_writes writes = map batch_write writes

abbrev pub write_record : CellWrite → Record
write_record (leaf coord value) = W.set_leaf coord value
write_record (str coord value) = W.set_string coord value

abbrev pub apply_write : Cube → CellWrite → Result ModelError Cube
apply_write cube (leaf coord value) = C.set_leaf cube coord value
apply_write cube (str coord value) = C.set_string cube coord value

-- apply_writes
unfoldable pub apply_writes : Cube → List CellWrite → Result ModelError Cube
apply_writes cube [] = ok cube
apply_writes cube (write ∷ writes) = do next ← apply_write cube write; apply_writes next writes

-- `apply_writes(..).expect(..)` and the fold
abbrev pub adopt : Checkpoint → Store → Result ModelError Cube → Answer
adopt fold s (ok cube) = maybe_auto_checkpoint fold (record s { cube = cube })
adopt fold s (err e) = (s, err panicked)

-- `set_batch` behind the validation
abbrev pub log_batch :
    Append → Checkpoint → Store → List CellWrite → Result (ℕ × ModelError) (Unit {0}) → Answer
log_batch how fold s writes (ok done) =
    and_then (append_wal how s (batch_bytes (map write_record writes)))
      (λ t. adopt fold t (apply_writes t.cube writes))
log_batch how fold s writes (err (index, e)) = (s, err (batch_rejected index e))

-- Store::set_batch
unfoldable pub set_batch : Append → Checkpoint → Store → List CellWrite → Answer
set_batch how fold s writes =
    if s.poisoned
    then (s, err poisoned_store)
    else log_batch how fold s writes (validate_batch s.cube (batch_writes writes))

abbrev pub apply_record : Cube → Record → Result ModelError Cube
apply_record cube (W.set_leaf coord value) = C.set_leaf cube coord value
apply_record cube (W.set_string coord value) = C.set_string cube coord value
apply_record cube (batch_begin count) = ok cube
apply_record cube batch_end = ok cube
apply_record cube (set_pin dimension element pinned) = pin_element cube dimension element pinned

-- the loop of `open`
unfoldable pub apply_records : Cube → List Record → Result ModelError Cube
apply_records cube [] = ok cube
apply_records cube (r ∷ rs) = do next ← apply_record cube r; apply_records next rs

abbrev pub opened : Disk → Cube → ℕ → Store
opened disk cube good_len = record {
  disk = disk;
  cube = cube;
  sync_on_write = true;
  good_len = good_len;
  poisoned = false;
  wal_checkpoint_threshold = default_threshold;
}

abbrev pub replayed : Disk → Replay → Result ModelError Cube → Disk × Result PersistError Store
replayed disk r (err e) = (disk, err (model e))
replayed disk r (ok cube) =
    let cut = record disk { wal = take r.good_len disk.wal } in
    (cut, ok (opened cut cube r.good_len))

abbrev pub scanned : {E : Type 0} → Disk → Cube → Result E Replay → Disk × Result PersistError Store
scanned disk base (err e) = (disk, err corrupt)
scanned disk base (ok r) =
    if r.corrupt_with_valid_tail
    then (record disk { wal = []; quarantine = some disk.wal }, err corrupt)
    else replayed disk r (apply_records base r.records)

-- `open` behind the load of the snapshot; a log that is not there is empty
abbrev pub loaded : Disk → Result PersistError Cube → Disk × Result PersistError Store
loaded disk (err e) = (disk, err e)
loaded disk (ok base) =
    if ltb (length disk.wal) wal_header_len
    then (
      record disk { wal = header },
      ok (opened (record disk { wal = header }) base wal_header_len),
    )
    else scanned disk base (replay disk.wal)

-- Store::open, where no call of the file system fails
unfoldable pub open_store : Disk → Disk × Result PersistError Store
open_store disk = loaded disk (load_snapshot disk.snapshot)
