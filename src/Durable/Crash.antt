-- ===== src/Durable/Crash.antt =====
-- What a store finds when it is opened again: after a write that succeeded, after one that was torn
-- by a crash, and after one that failed (crates/epiphany-persist/src/store.rs).
use mathlib.Core.List.{append-nil}
use epiphany.Base.{
  ℕ, ◌≤◌, ◌<◌, ◌≡◌, ap, sym, ◌∙◌, ◌⊎◌, inl, inr, Bool, true, false, [], ◌++◌, length, take, arith,
  some, length-append,
}
use epiphany.Base.Result.{Result, ok, err}
use epiphany.Cube.{Cube}
use epiphany.Bytes.{Bytes}
use epiphany.Bytes.Slices.{take_all, take-append_left}
use epiphany.Wal.Scan.{replay}
use epiphany.Wal.Resume.{replay-resume}
use epiphany.Wal.Torn.{Entry, IsEntry, entry_bytes, replay-torn}
use epiphany.Wal.Whole.{whole}
use epiphany.Durable.{PersistError, corrupt, Disk, Store}
use epiphany.Durable.Commands.{open_store, scanned, loaded, replayed, opened}
use epiphany.Durable.Snapshot.{load_snapshot}
use epiphany.Durable.Backed.{Backs, IsDurable}

-- the store that is read back from a disk
abbrev pub Reopens : Disk → Cube → ℕ → Type 0
Reopens disk cube good_len = open_store disk ≡ (disk, ok (opened disk cube good_len))

pub open_store-scanned :
    (disk : Disk) (base : Cube)
    → load_snapshot disk.snapshot ≡ ok base
    → 8 ≤ length disk.wal
    → open_store disk ≡ scanned disk base (replay disk.wal)
unfolding open_store
open_store-scanned disk base e h = ap (loaded disk) e ∙ (ground arith)

log_length :
    (disk : Disk) (good_len : ℕ) (cube : Cube) → Backs disk good_len cube → 8 ≤ length disk.wal
log_length disk good_len cube b =
    let kept = replay-resume disk.wal [] (whole b.records good_len) b.reads in
    omega (arith, kept.0, kept.1)

-- the disk with another log, and back
pub rewound :
    (disk : Disk) (more : Bytes) (good_len : ℕ)
    → good_len ≡ length disk.wal
    → take good_len (disk.wal ++ more) ≡ disk.wal
rewound disk more good_len h =
    ap (λ n. take n (disk.wal ++ more)) h ∙ take-append_left disk.wal more

-- a log with a tail that is discarded
opens :
    (disk : Disk) (more : Bytes) (good_len : ℕ) (cube : Cube) (b : Backs disk good_len cube)
    → let torn = record disk { wal = disk.wal ++ more } in
      replay torn.wal ≡ ok (whole b.records good_len)
      → open_store torn ≡ (disk, ok (opened disk cube good_len))
opens disk more good_len cube b read =
    let torn = record disk { wal = disk.wal ++ more } in
    let back = rewound disk more good_len b.is_whole in
    open_store-scanned torn b.base b.loads
      (omega (arith, log_length disk good_len cube b, length-append disk.wal more))
    ∙ ap (scanned torn b.base) read
    ∙ ap (replayed torn (whole b.records good_len)) b.leads
    ∙ λ i. let d = record disk { wal = back i } in (d, ok (opened d cube good_len))

-- A disk that backs a cube is opened to that cube, and is left as it is.
pub Backs-Reopens :
    (disk : Disk) (good_len : ℕ) (cube : Cube)
    → Backs disk good_len cube
    → Reopens disk cube good_len
Backs-Reopens disk good_len cube b =
    let same = append-nil disk.wal in
    ap open_store (λ i. record disk { wal = sym same i })
    ∙ opens disk [] good_len cube b (ap replay same ∙ b.reads)

-- How a log with a torn tail is opened: as if the tail had never been, or not at all; then the file
-- is put aside as it is.
abbrev pub Survives : Store → Disk → Type 0
Survives s torn =
    (open_store torn ≡ (s.disk, ok (opened s.disk s.cube s.good_len)))
    ⊎ (((open_store torn).1 ≡ err corrupt) × ((open_store torn).0.quarantine ≡ some torn.wal))

survives :
    (s : Store) (more : Bytes) (b : Backs s.disk s.good_len s.cube) (flag : Bool)
    → let torn = record s.disk { wal = s.disk.wal ++ more } in
      replay torn.wal
        ≡ ok (record { records = b.records; good_len = s.good_len; corrupt_with_valid_tail = flag })
      → Survives s torn
survives s more b false read = inl (opens s.disk more s.good_len s.cube b read)
survives s more b true read =
    let torn = record s.disk { wal = s.disk.wal ++ more } in
    let found =
      open_store-scanned torn b.base b.loads
        (omega (arith, log_length s.disk s.good_len s.cube b, length-append s.disk.wal more))
      ∙ ap (scanned torn b.base) read in
    inr (
      ap (λ (x : Disk × Result PersistError Store). x.1) found,
      ap (λ (x : Disk × Result PersistError Store). x.0.quarantine) found,
    )

-- When a crash tears the bytes that a healthy store appends, at any byte before their end, the store
-- that is opened afterwards has the cube from before the write, and the log from before the write;
-- or it refuses to open, and puts the whole log aside.
pub open_store-torn :
    (s : Store) (e : Entry) (cut : ℕ)
    → IsDurable s
    → IsEntry e
    → cut < length (entry_bytes e)
    → Survives s (record s.disk { wal = s.disk.wal ++ take cut (entry_bytes e) })
open_store-torn s e cut d he h =
    let b = d.1 in
    let torn = replay-torn s.disk.wal (whole b.records s.good_len) e cut he b.reads h in
    let kept = take_all s.good_len s.disk.wal (omega (arith, b.is_whole)) in
    survives s (take cut (entry_bytes e)) b torn.0
      (ap (λ bs. replay (bs ++ take cut (entry_bytes e))) (sym kept) ∙ torn.1)
