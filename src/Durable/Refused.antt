-- ===== src/Durable/Refused.antt =====
-- A batch of writes never meets a panic (`set_batch` of crates/epiphany-persist/src/store.rs).
use epiphany.Base.{
  ℕ, suc, ◌≡◌, ◌≢◌, refl, ap, sym, ◌∙◌, inl, inr, Bool, not, ◌&&◌, ◌==◌, ltb, true, false, List, [],
  ◌∷◌, ◌++◌, map, if◌then◌else◌,
}
use epiphany.Base.Result.{Result, ok, err, ◌>>=◌, Result-cases, ok-injective}
use epiphany.Model.{ModelError}
use epiphany.Cube.{Cube, validate_batch, at_index}
use epiphany.Cube.Batch.{validate_batch-apply_batch, apply_batch, apply_from, verdict}
use epiphany.Cube.Batch as B
use epiphany.Bytes.{Bytes}
use epiphany.Wal.Batches.{batch_bytes}
use epiphany.Durable.{
  CellWrite, leaf, str, io, panicked, poisoned_store, Store, Append, appends, write_fails,
  sync_fails, Checkpoint, completes, serialize_fails, snapshot_fails, truncate_fails, header_fails,
  header_sync_fails, append_wal, appended, poison_wal, checkpoint, checkpoint_model,
  maybe_auto_checkpoint,
}
use epiphany.Durable.Commands.{
  Answer, and_then, set_batch, batch_write, batch_writes, apply_write, apply_writes, adopt,
  log_batch, write_record,
}
use epiphany.Durable.Backed.{Succeeds, extended, append_wal-extended}

abbrev pub Panics : Answer → Type 0
Panics answer = answer.1 ≡ err panicked

ok-retyped :
    (a b : Cube)
    → ◌≡◌ {A = Result (ℕ × ModelError) Cube} (ok a) (ok b)
    → ◌≡◌ {A = Result ModelError Cube} (ok a) (ok b)
ok-retyped a b h = ap (λ c. ok c) (ok-injective a b h)

if-Panics : (b : Bool) (x y : Answer) → ¬ Panics x → ¬ Panics y → ¬ Panics (if b then x else y)
if-Panics true x y hx hy = hx
if-Panics false x y hx hy = hy

checkpoint_model-Panics : (fold : Checkpoint) (s : Store) → ¬ Panics (checkpoint_model fold s)
unfolding checkpoint_model
checkpoint_model-Panics completes s h = cc
checkpoint_model-Panics serialize_fails s h = cc
checkpoint_model-Panics (snapshot_fails renamed) s h = cc
checkpoint_model-Panics truncate_fails s h = cc
checkpoint_model-Panics (header_fails written) s h = cc
checkpoint_model-Panics header_sync_fails s h = cc

refused-Panics : (s : Store) → ¬ Panics (s, err poisoned_store)
refused-Panics s h = cc

done-Panics : (s : Store) → ¬ Panics (s, ok tt)
done-Panics s h = cc

io-Panics : (s : Store) → ¬ Panics (s, err io)
io-Panics s h = cc

maybe_auto_checkpoint-Panics :
    (fold : Checkpoint) (s : Store) → ¬ Panics (maybe_auto_checkpoint fold s)
unfolding maybe_auto_checkpoint checkpoint
maybe_auto_checkpoint-Panics fold s =
    if-Panics
      (not (s.wal_checkpoint_threshold == 0)
        && (not s.poisoned && ltb s.wal_checkpoint_threshold s.good_len))
      (checkpoint fold s) (s, ok tt)
      (if-Panics s.poisoned (s, err poisoned_store) (checkpoint_model fold s) (refused-Panics s)
        (checkpoint_model-Panics fold s))
      (done-Panics s)

appended-Panics : (how : Append) (s : Store) (framed : Bytes) → ¬ Panics (appended how s framed)
unfolding appended
appended-Panics appends s framed h = cc
appended-Panics (write_fails written rolls_back) s framed h = cc
appended-Panics (sync_fails rolls_back) s framed h =
    if-Panics s.sync_on_write (poison_wal s (s.disk.wal ++ framed) rolls_back, err io)
      (extended s framed, ok tt) (io-Panics (poison_wal s (s.disk.wal ++ framed) rolls_back))
      (done-Panics (extended s framed)) h

append_wal-Panics : (how : Append) (s : Store) (framed : Bytes) → ¬ Panics (append_wal how s framed)
unfolding append_wal
append_wal-Panics how s framed =
    if-Panics s.poisoned (s, err poisoned_store) (appended how s framed) (refused-Panics s)
      (appended-Panics how s framed)

-- both models of one write agree
same_write :
    (cube : Cube) (write : CellWrite)
    → B.apply_write cube (batch_write write) ≡ apply_write cube write
same_write cube (leaf coord value) = refl
same_write cube (str coord value) = refl

next_write :
    (index : ℕ) (cube next after : Cube) (write : CellWrite) (writes : List CellWrite)
    → apply_write cube write ≡ ok next
    → apply_from index cube (batch_writes (write ∷ writes)) ≡ ok after
    → apply_from (suc index) next (batch_writes writes) ≡ ok after
unfolding apply_from
next_write index cube next after write writes e h =
    sym (
      ap (λ m. at_index index m >>= λ c. apply_from (suc index) c (batch_writes writes))
        (same_write cube write ∙ e))
    ∙ h

no_write :
    (index : ℕ) (cube after : Cube) (write : CellWrite) (writes : List CellWrite) (x : ModelError)
    → apply_write cube write ≡ err x
    → apply_from index cube (batch_writes (write ∷ writes)) ≢ ok after
unfolding apply_from
no_write index cube after write writes x e h =
    let failed =
      sym (
        ap (λ m. at_index index m >>= λ c. apply_from (suc index) c (batch_writes writes))
          (same_write cube write ∙ e))
      ∙ h in
    cc

apply_from-apply_writes :
    (index : ℕ) (cube after : Cube) (writes : List CellWrite)
    → apply_from index cube (batch_writes writes) ≡ ok after
    → apply_writes cube writes ≡ ok after
unfolding apply_from apply_writes
apply_from-apply_writes index cube after [] h = ok-retyped cube after h
apply_from-apply_writes index cube after (write ∷ writes) h =
    elim (Result-cases (apply_write cube write)) [
      | inl (next, e) ↦
          ap (λ m. m >>= λ c. apply_writes c writes) e
          ∙ apply_from-apply_writes (suc index) next after writes
              (next_write index cube next after write writes e h)
      | inr (x, e) ↦ absurd (no_write index cube after write writes x e h)
    ]

adopt-Panics :
    (fold : Checkpoint) (s : Store) (after : Cube) (m : Result ModelError Cube)
    → m ≡ ok after
    → ¬ Panics (adopt fold s m)
adopt-Panics fold s after (ok cube) h = maybe_auto_checkpoint-Panics fold (record s { cube = cube })
adopt-Panics fold s after (err e) h = absurd (cc)

and_then-Panics :
    (x : Answer) (k : Store → Answer)
    → ¬ Panics x
    → (Succeeds x → ¬ Panics (k x.0))
    → ¬ Panics (and_then x k)
and_then-Panics (s, ok done) k hx hk = hk refl
and_then-Panics (s, err e) k hx hk = hx

verdict-ok :
    (m : Result (ℕ × ModelError) Cube) → verdict m ≡ ok tt → (after : Cube) × (m ≡ ok after)
verdict-ok (ok after) h = (after, refl)
verdict-ok (err e) h = cc

log_batch-Panics :
    (how : Append) (fold : Checkpoint) (s : Store) (writes : List CellWrite)
    (checked : Result (ℕ × ModelError) (Unit {0}))
    → validate_batch s.cube (batch_writes writes) ≡ checked
    → ¬ Panics (log_batch how fold s writes checked)
unfolding apply_batch
log_batch-Panics how fold s writes (ok done) h =
    let framed = batch_bytes (map write_record writes) in
    let valid =
      verdict-ok (apply_batch s.cube (batch_writes writes))
        (sym (validate_batch-apply_batch s.cube (batch_writes writes)) ∙ h) in
    let made = apply_from-apply_writes 0 s.cube valid.0 writes valid.1 in
    and_then-Panics (append_wal how s framed) (λ t. adopt fold t (apply_writes t.cube writes))
      (append_wal-Panics how s framed)
      (λ grown.
        let t = (append_wal how s framed).0 in
        let same : t.cube ≡ s.cube =
          ap (λ (x : Answer). x.0.cube) ((append_wal-extended how s framed grown).1) in
        adopt-Panics fold t valid.0 (apply_writes t.cube writes)
          (ap (λ c. apply_writes c writes) same ∙ made))
log_batch-Panics how fold s writes (err (index, e)) h = λ p. cc

-- A batch that was validated is applied: set_batch never meets the panic of its `expect`, whatever
-- the file system does.
pub set_batch-Panics :
    (how : Append) (fold : Checkpoint) (s : Store) (writes : List CellWrite)
    → ¬ Panics (set_batch how fold s writes)
unfolding set_batch
set_batch-Panics how fold s writes =
    if-Panics s.poisoned (s, err poisoned_store)
      (log_batch how fold s writes (validate_batch s.cube (batch_writes writes))) (refused-Panics s)
      (log_batch-Panics how fold s writes (validate_batch s.cube (batch_writes writes)) refl)
