-- ===== src/Durable/Backed.antt =====
-- What it means that the disk backs the cube in memory, and that appends and checkpoints keep it so
-- (crates/epiphany-persist/src/store.rs).
use epiphany.Base.{
  ℕ, ◌+◌, ◌≡◌, refl, ap, sym, ◌∙◌, subst, ◌⊎◌, inl, inr, Bool, true, false, Option, List, [], ◌∷◌,
  ◌++◌, length, arith, length-append, if◌then◌else◌, ltb, not, ◌&&◌, ◌==◌,
}
use epiphany.Base.Result.{ok, err, ◌>>=◌, bind_ext, bind_assoc}
use epiphany.Cube.{Cube}
use epiphany.Bytes.{Bytes}
use epiphany.Bytes.Slices.{take_all}
use epiphany.Wal.{Record, header}
use epiphany.Wal.Scan.{replay}
use epiphany.Wal.Torn.{Entry, IsEntry, entry_bytes, entry_records, replay-append}
use epiphany.Wal.Whole.{whole, replay-start, length-header}
use epiphany.Durable.{
  Disk, Store, Append, appends, write_fails, sync_fails, Checkpoint, completes, serialize_fails,
  snapshot_fails, truncate_fails, header_fails, header_sync_fails, append_wal, appended, checkpoint,
  checkpoint_model, maybe_auto_checkpoint, poison_wal, with_wal, io, poisoned_store,
}
use epiphany.Durable.Snapshot.{load_snapshot, load_snapshot-same, HasReadable}
use epiphany.Durable.Commands.{Answer, apply_record, apply_records}

-- The snapshot is loaded, the log is read to its end, and its records lead from the one to the cube.
pub record Backs (disk : Disk) (good_len : ℕ) (cube : Cube) : Type 0 where
  pub base : Cube
  pub loads : load_snapshot disk.snapshot ≡ ok base
  pub records : List Record
  pub reads : replay disk.wal ≡ ok (whole records good_len)
  pub is_whole : good_len ≡ length disk.wal
  pub leads : apply_records base records ≡ ok cube

-- A healthy store.
abbrev pub IsDurable : Store → Type 0
IsDurable s = (s.poisoned ≡ false) × Backs s.disk s.good_len s.cube

pub apply_records-append :
    (cube : Cube) (xs ys : List Record)
    → apply_records cube (xs ++ ys) ≡ (apply_records cube xs >>= λ next. apply_records next ys)
unfolding apply_records
apply_records-append cube [] ys = refl
apply_records-append cube (x ∷ xs) ys =
    bind_ext (apply_record cube x) (λ next. apply_records next (xs ++ ys))
      (λ next. apply_records next xs >>= λ t. apply_records t ys)
      (λ next. apply_records-append next xs ys)
    ∙ sym
        (bind_assoc (apply_record cube x) (λ next. apply_records next xs) (λ t. apply_records t ys))

-- the log with one more entry
pub Backs-append :
    (disk : Disk) (good_len : ℕ) (before after : Cube) (e : Entry)
    → Backs disk good_len before
    → IsEntry e
    → apply_records before (entry_records e) ≡ ok after
    → Backs
        (record disk { wal = disk.wal ++ entry_bytes e })
        (good_len + length (entry_bytes e))
        after
Backs-append disk good_len before after e b he h =
    let kept = take_all good_len disk.wal (omega (arith, b.is_whole)) in
    record {
      base = b.base;
      loads = b.loads;
      records = b.records ++ entry_records e;
      reads =
          ap (λ bs. replay (bs ++ entry_bytes e)) (sym kept)
          ∙ replay-append disk.wal (whole b.records good_len) e he b.reads;
      is_whole = omega (arith, b.is_whole, length-append disk.wal (entry_bytes e));
      leads =
          apply_records-append b.base b.records (entry_records e)
          ∙ ap (λ m. m >>= λ next. apply_records next (entry_records e)) b.leads
          ∙ h;
    }

-- the log that a checkpoint leaves
pub Backs-header :
    (cube : Cube) (quarantine : Option Bytes)
    → HasReadable cube
    → Backs (record { snapshot = cube; wal = header; quarantine = quarantine }) 8 cube
unfolding apply_records
Backs-header cube quarantine h = record {
  base = cube;
  loads = load_snapshot-same cube h;
  records = [];
  reads = replay-start;
  is_whole = sym length-header;
  leads = refl;
}

-- an answer that is no error
abbrev pub Succeeds : Answer → Type 0
Succeeds answer = answer.1 ≡ ok tt

-- the branch that a successful answer came from
pub if-Succeeds :
    (b : Bool) (x y : Answer)
    → Succeeds (if b then x else y)
    → ((b ≡ true) × Succeeds x × ((if b then x else y) ≡ x))
      ⊎ ((b ≡ false) × Succeeds y × ((if b then x else y) ≡ y))
if-Succeeds true x y h = inl (refl, h, refl)
if-Succeeds false x y h = inr (refl, h, refl)

io-refused : (s : Store) → ¬ Succeeds (s, err io)
io-refused s e = cc

pub poisoned-refused : (s : Store) → ¬ Succeeds (s, err poisoned_store)
poisoned-refused s e = cc

-- the store behind an append
abbrev pub extended : Store → Bytes → Store
extended s framed = record (with_wal s (s.disk.wal ++ framed)) {
  good_len = s.good_len + length framed;
}

appended-extended :
    (how : Append) (s : Store) (framed : Bytes)
    → Succeeds (appended how s framed)
    → appended how s framed ≡ (extended s framed, ok tt)
unfolding appended
appended-extended appends s framed h = refl
appended-extended (write_fails written rolls_back) s framed h = absurd (io-refused s h)
appended-extended (sync_fails rolls_back) s framed h =
    elim (if-Succeeds s.sync_on_write (poison_wal s (s.disk.wal ++ framed) rolls_back, err io)
      (extended s framed, ok tt) h) [ inl p ↦ absurd (io-refused s p.1) | inr p ↦ p.2 ]

pub append_wal-extended :
    (how : Append) (s : Store) (framed : Bytes)
    → Succeeds (append_wal how s framed)
    → (s.poisoned ≡ false) × (append_wal how s framed ≡ (extended s framed, ok tt))
unfolding append_wal
append_wal-extended how s framed h =
    elim (if-Succeeds s.poisoned (s, err poisoned_store) (appended how s framed) h) [
      | inl p ↦ absurd (poisoned-refused s p.1)
      | inr p ↦ (p.0, p.2 ∙ appended-extended how s framed p.1)
    ]

checkpoint_model-IsDurable :
    (fold : Checkpoint) (s : Store)
    → HasReadable s.cube
    → s.poisoned ≡ false
    → Succeeds (checkpoint_model fold s)
    → let t = (checkpoint_model fold s).0 in IsDurable t × (t.cube ≡ s.cube)
unfolding checkpoint_model
checkpoint_model-IsDurable completes s n p h = ((p, Backs-header s.cube s.disk.quarantine n), refl)
checkpoint_model-IsDurable serialize_fails s n p h = cc
checkpoint_model-IsDurable (snapshot_fails renamed) s n p h = cc
checkpoint_model-IsDurable truncate_fails s n p h = cc
checkpoint_model-IsDurable (header_fails written) s n p h = cc
checkpoint_model-IsDurable header_sync_fails s n p h = cc

abbrev KeepsDurable : Cube → Answer → Type 0
KeepsDurable cube answer = IsDurable answer.0 × (answer.0.cube ≡ cube)

-- A checkpoint of readable numbers that succeeds keeps the cube, and the disk backs it.
pub checkpoint-IsDurable :
    (fold : Checkpoint) (s : Store)
    → HasReadable s.cube
    → Succeeds (checkpoint fold s)
    → IsDurable ((checkpoint fold s).0) × ((checkpoint fold s).0.cube ≡ s.cube)
unfolding checkpoint
checkpoint-IsDurable fold s n h =
    elim (if-Succeeds s.poisoned (s, err poisoned_store) (checkpoint_model fold s) h) [
      | inl p ↦ absurd (poisoned-refused s p.1)
      | inr p ↦ subst (KeepsDurable s.cube) (sym p.2) (checkpoint_model-IsDurable fold s n p.0 p.1)
    ]

pub maybe_auto_checkpoint-IsDurable :
    (fold : Checkpoint) (s : Store)
    → IsDurable s
    → HasReadable s.cube
    → Succeeds (maybe_auto_checkpoint fold s)
    → let t = (maybe_auto_checkpoint fold s).0 in IsDurable t × (t.cube ≡ s.cube)
unfolding maybe_auto_checkpoint
maybe_auto_checkpoint-IsDurable fold s d n h =
    let test =
      not (s.wal_checkpoint_threshold == 0)
      && (not s.poisoned && ltb s.wal_checkpoint_threshold s.good_len) in
    elim (if-Succeeds test (checkpoint fold s) (s, ok tt) h) [
      | inl p ↦ subst (KeepsDurable s.cube) (sym p.2) (checkpoint-IsDurable fold s n p.1)
      | inr p ↦ subst (KeepsDurable s.cube) (sym p.2) (d, refl)
    ]
