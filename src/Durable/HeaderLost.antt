-- ===== src/Durable/HeaderLost.antt =====
-- A checkpoint that fails between the cut of the log and its header
-- (crates/epiphany-persist/src/store.rs).
use epiphany.Base.{
  ◌^◌, ◌≤◌, ◌<◌, ◌≡◌, ◌≢◌, refl, ap, sym, ◌∙◌, ◌⊎◌, inl, inr, subst, false, [], length, take, arith,
}
use epiphany.Base.Result.{Result, ok, err, Result-cases}
use epiphany.Cube.{Cube}
use epiphany.Bytes.{Bytes, from_le, to_le}
use epiphany.Bytes.Slices.{take-take}
use epiphany.Wal.{Record, encode, payload, header}
use epiphany.Wal.Frames.{take-frame, length-frame}
use epiphany.Wal.Corrupt.{replay-header}
use epiphany.Durable.{
  PersistError, io, poisoned_store, corrupt, Disk, Store, appends, header_fails, append_wal,
  appended, checkpoint, checkpoint_model,
}
use epiphany.Durable.Commands.{Answer, open_store, scanned, loaded}
use epiphany.Durable.Snapshot.{load_snapshot}
use epiphany.Durable.Backed.{Succeeds, extended}
use epiphany.Durable.Crash.{open_store-scanned}
use epiphany.Durable.Failed.{if-false}

-- the store behind a checkpoint that could write nothing of the header
abbrev pub headless : Store → Store
headless s = record s { disk = record s.disk { snapshot = s.cube; wal = [] } }

headless-checkpoint :
    (s : Store) → s.poisoned ≡ false → (checkpoint (header_fails 0) s).0 ≡ headless s
unfolding checkpoint checkpoint_model
headless-checkpoint s p =
    ap (λ (x : Answer). x.0)
      (if-false s.poisoned (s, err poisoned_store)
        (record s { disk = record s.disk { snapshot = s.cube; wal = take 0 header } }, err io) p)

header_number : from_le (take 4 header) ≡ 1464422469
unfolding header from_le to_le
header_number = refl

-- a frame is no header
encode-header : (r : Record) → length (payload r) < 2 ^ 24 → take 8 (encode r) ≢ header
unfolding encode
encode-header r h e =
    let prefix : take 4 (encode r) ≡ take 4 header =
      sym (take-take 4 8 (encode r) (omega arith)) ∙ ap (λ (t : Bytes). take 4 t) e in
    absurd (omega (arith, ap from_le prefix, header_number, take-frame (payload r) (omega arith)))

append_headless :
    (s : Store) (framed : Bytes)
    → s.poisoned ≡ false
    → append_wal appends s framed ≡ (extended s framed, ok tt)
unfolding append_wal appended
append_headless s framed p =
    if-false s.poisoned (s, err poisoned_store) (extended s framed, ok tt) p

length-encode : (r : Record) → 8 ≤ length (encode r)
unfolding encode
length-encode r = omega (arith, length-frame (payload r))

-- Why a disk cannot be opened: the log has no header, or the snapshot cannot be loaded.
abbrev pub Unopenable : Cube → Result PersistError Store → Type 0
Unopenable cube found =
    (found ≡ err corrupt) ⊎ ((e : PersistError) × (load_snapshot cube ≡ err e) × (found ≡ err e))

-- After a checkpoint of a healthy store that failed when it had cut the log and written nothing of
-- the header, the store still takes writes: an append of any record with a payload below 2^24 bytes
-- succeeds, and the store cannot be opened afterwards: the log is corrupt, unless the snapshot of the
-- cube cannot even be loaded.
pub checkpoint-header_lost :
    (s : Store) (r : Record)
    → s.poisoned ≡ false
    → length (payload r) < 2 ^ 24
    → let answer = append_wal appends ((checkpoint (header_fails 0) s).0) (encode r) in
      Succeeds answer × Unopenable s.cube ((open_store answer.0.disk).1)
unfolding open_store
checkpoint-header_lost s r p h =
    let t = headless s in
    let same = headless-checkpoint s p in
    let grown : append_wal appends t (encode r) ≡ (extended t (encode r), ok tt) =
      append_headless t (encode r) p in
    let both = ap (λ u. append_wal appends u (encode r)) same ∙ grown in
    let disk = (extended t (encode r)).disk in
    let answer = λ (x : Disk × Result PersistError Store). x.1 in
    (
      ap (λ (x : Answer). x.1) both,
      subst (λ (x : Answer). Unopenable s.cube ((open_store x.0.disk).1)) (sym both)
          (elim (Result-cases (load_snapshot s.cube)) [
            | inl (base, e) ↦ inl (
                ap answer (
                  open_store-scanned disk base e (length-encode r)
                  ∙ ap (scanned disk base) ((replay-header (encode r)).1 (encode-header r h))))
            | inr (x, e) ↦ inr (x, e, ap (λ m. answer (loaded disk m)) e)
          ]),
    )
