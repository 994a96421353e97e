-- ===== src/Durable.antt =====
-- The durable store: a cube in memory, its snapshot and its log on disk
-- (crates/epiphany-persist/src/store.rs). What a call of the file system does is an argument of the
-- operation that makes the call.
pub mod Snapshot
pub mod Commands
pub mod Readable
pub mod Backed
pub mod Acknowledged
pub mod Crash
pub mod Failed
pub mod Refused
pub mod HeaderLost
pub mod LeastLost
mod Tests
use epiphany.Base.{
  ℕ, ◌+◌, Bool, true, false, not, ◌&&◌, Option, none, some, List, [], ◌∷◌, ◌++◌, map, length, take,
  replicate, ◌-◌, ltb, ◌==◌, if◌then◌else◌,
}
use epiphany.Base.Result.{Result, ok, err, ◌>>=◌, ◌>>◌, guard}
use epiphany.Text.{Text}
use epiphany.Model.{ModelError}
use epiphany.Fixed.{Fixed}
use epiphany.Cube.{Cube, BatchWrite, leaf_write, string_write, validate_batch}
use epiphany.Cube as C
use epiphany.Cube.Pins.{pin_element}
use epiphany.Bytes.{Bytes}
use epiphany.Wal.{Record, header, wal_header_len, encode}
use epiphany.Wal as W
use epiphany.Wal.Batches.{batch_bytes}
use epiphany.Wal.Scan.{replay, Replay}

pub data CellWrite : Type 0 where
  leaf : (coord : List ℕ) (value : Fixed) → CellWrite
  str : (coord : List ℕ) (value : Text) → CellWrite

pub data PersistError : Type 0 where
  io : PersistError
  model : ModelError → PersistError
  load : ModelError → PersistError
  save : PersistError
  corrupt : PersistError
  batch_rejected : (index : ℕ) (source : ModelError) → PersistError
  query : PersistError
  poisoned_store : PersistError
  -- the panic of an `expect`
  panicked : PersistError

-- The directory: the cube whose text the snapshot holds, the log, and a log that was put aside.
pub record Disk : Type 0 where
  pub snapshot : Cube
  pub wal : Bytes
  pub quarantine : Option Bytes

pub record Store : Type 0 where
  pub disk : Disk
  pub cube : Cube
  pub sync_on_write : Bool
  pub good_len : ℕ
  pub poisoned : Bool
  pub wal_checkpoint_threshold : ℕ

-- What happens to an append: the write fails after so many bytes, or the flush fails; and whether
-- the log can be cut back then.
pub data Append : Type 0 where
  appends : Append
  write_fails : (written : ℕ) (rolls_back : Bool) → Append
  sync_fails : (rolls_back : Bool) → Append

-- What happens to a checkpoint: whether the model has a text, and which of the calls fails. The
-- snapshot may be in place when the flush of its directory fails; the header may be written in part.
pub data Checkpoint : Type 0 where
  completes : Checkpoint
  serialize_fails : Checkpoint
  snapshot_fails : (renamed : Bool) → Checkpoint
  truncate_fails : Checkpoint
  header_fails : (written : ℕ) → Checkpoint
  header_sync_fails : Checkpoint

abbrev pub default_threshold : ℕ
default_threshold = 8388608

abbrev pub with_wal : Store → Bytes → Store
with_wal s wal = record s { disk = record s.disk { wal = wal } }

-- Store::create, where no call fails
pub create : Cube → Store
create cube = record {
  disk = record { snapshot = cube; wal = header; quarantine = none };
  cube = cube;
  sync_on_write = true;
  good_len = wal_header_len;
  poisoned = false;
  wal_checkpoint_threshold = default_threshold;
}

-- File::set_len, which extends a file with zeros
abbrev pub set_len : ℕ → Bytes → Bytes
set_len n bytes = take n bytes ++ replicate (n - length bytes) 0

-- Store::poison_wal, on a log with unknown bytes at its end
pub poison_wal : Store → Bytes → Bool → Store
poison_wal s wal rolls_back =
    record (with_wal s (if rolls_back then set_len s.good_len wal else wal)) { poisoned = true }

-- `append_wal` behind its first test
pub appended : Append → Store → Bytes → Store × Result PersistError (Unit {0})
unfolding poison_wal
appended appends s framed =
    (record (with_wal s (s.disk.wal ++ framed)) { good_len = s.good_len + length framed }, ok tt)
appended (write_fails written rolls_back) s framed =
    (poison_wal s (s.disk.wal ++ take written framed) rolls_back, err io)
appended (sync_fails rolls_back) s framed =
    if s.sync_on_write then (poison_wal s (s.disk.wal ++ framed) rolls_back, err io) else (
      record (with_wal s (s.disk.wal ++ framed)) { good_len = s.good_len + length framed },
      ok tt,
    )

-- Store::append_wal
pub append_wal : Append → Store → Bytes → Store × Result PersistError (Unit {0})
unfolding appended
append_wal how s framed = if s.poisoned then (s, err poisoned_store) else appended how s framed

-- Store::checkpoint_model of the live model
pub checkpoint_model : Checkpoint → Store → Store × Result PersistError (Unit {0})
checkpoint_model completes s = (
  record s { disk = record s.disk { snapshot = s.cube; wal = header }; good_len = wal_header_len },
  ok tt,
)
checkpoint_model serialize_fails s = (s, err save)
checkpoint_model (snapshot_fails renamed) s =
    (if renamed then record s { disk = record s.disk { snapshot = s.cube } } else s, err io)
checkpoint_model truncate_fails s =
    (record s { disk = record s.disk { snapshot = s.cube } }, err io)
checkpoint_model (header_fails written) s =
    (record s { disk = record s.disk { snapshot = s.cube; wal = take written header } }, err io)
checkpoint_model header_sync_fails s =
    (record s { disk = record s.disk { snapshot = s.cube; wal = header } }, err io)

-- Store::checkpoint
pub checkpoint : Checkpoint → Store → Store × Result PersistError (Unit {0})
unfolding checkpoint_model
checkpoint how s = if s.poisoned then (s, err poisoned_store) else checkpoint_model how s

-- Store::maybe_auto_checkpoint
pub maybe_auto_checkpoint : Checkpoint → Store → Store × Result PersistError (Unit {0})
unfolding checkpoint
maybe_auto_checkpoint how s =
    if not (s.wal_checkpoint_threshold == 0)
      && (not s.poisoned && ltb s.wal_checkpoint_threshold s.good_len)
    then checkpoint how s
    else (s, ok tt)
