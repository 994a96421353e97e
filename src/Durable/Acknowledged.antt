-- ===== src/Durable/Acknowledged.antt =====
-- What a successful write promises: the cube in memory has it, and the disk backs that cube
-- (crates/epiphany-persist/src/store.rs).
use epiphany.Base.{
  ℕ, ◌≡◌, refl, ap, sym, ◌∙◌, subst, inl, inr, Bool, List, [], ◌∷◌, map, if◌then◌else◌, All,
}
use epiphany.Base.Result.{Result, ok, err, bind_ext, bind-ok}
use epiphany.Text.{Text}
use epiphany.Model.{ModelError}
use epiphany.Fixed.{Fixed}
use epiphany.Cube.{Cube, validate_batch}
use epiphany.Wal.{Record, encode, set_pin}
use epiphany.Wal as W
use epiphany.Wal.Batches.{IsCell}
use epiphany.Wal.Torn.{Entry, single, batch, IsEntry, entry_bytes, entry_records}
use epiphany.Durable.{
  CellWrite, leaf, str, poisoned_store, Store, Append, Checkpoint, append_wal,
  maybe_auto_checkpoint,
}
use epiphany.Durable.Commands.{
  Answer, and_then, log_write, made, set_leaf, set_string, set_member_pin, set_batch, batch_writes,
  write_record, apply_write, apply_writes, adopt, log_batch, apply_record, apply_records,
}
use epiphany.Durable.Snapshot.{HasReadable}
use epiphany.Durable.Readable.{WritesReadable, apply_records-HasReadable}
use epiphany.Durable.Backed.{
  Backs-append, IsDurable, Succeeds, if-Succeeds, extended, append_wal-extended,
  maybe_auto_checkpoint-IsDurable, poisoned-refused,
}

-- the writes
pub data Command : Type 0 where
  leaf_command : (coord : List ℕ) (value : Fixed) → Command
  string_command : (coord : List ℕ) (value : Text) → Command
  pin_command : (dimension element : Text) (pinned : Bool) → Command
  batch_command : (writes : List CellWrite) → Command

abbrev pub run : Append → Checkpoint → Store → Command → Answer
run how fold s (leaf_command coord value) = set_leaf how fold s coord value
run how fold s (string_command coord value) = set_string how fold s coord value
run how fold s (pin_command dimension element pinned) =
    set_member_pin how fold s dimension element pinned
run how fold s (batch_command writes) = set_batch how fold s writes

-- what a write logs
abbrev pub entry : Command → Entry
entry (leaf_command coord value) = single (W.set_leaf coord value)
entry (string_command coord value) = single (W.set_string coord value)
entry (pin_command dimension element pinned) = single (set_pin dimension element pinned)
entry (batch_command writes) = batch (map write_record writes)

-- what a write makes of the cube
abbrev pub effect : Cube → Command → Result ModelError Cube
effect cube command = apply_records cube (entry_records (entry command))

abbrev pub Acknowledged : Result ModelError Cube → Answer → Type 0
Acknowledged m answer = IsDurable answer.0 × (m ≡ ok answer.0.cube)

apply_writes-apply_records :
    (cube : Cube) (writes : List CellWrite)
    → apply_writes cube writes ≡ apply_records cube (map write_record writes)
unfolding apply_writes apply_records
apply_writes-apply_records cube [] = refl
apply_writes-apply_records cube (leaf coord value ∷ writes) =
    bind_ext (apply_write cube (leaf coord value)) (λ next. apply_writes next writes)
      (λ next. apply_records next (map write_record writes))
      (λ next. apply_writes-apply_records next writes)
apply_writes-apply_records cube (str coord value ∷ writes) =
    bind_ext (apply_write cube (str coord value)) (λ next. apply_writes next writes)
      (λ next. apply_records next (map write_record writes))
      (λ next. apply_writes-apply_records next writes)

apply_records-single :
    (cube : Cube) (r : Record) → apply_records cube (r ∷ []) ≡ apply_record cube r
unfolding apply_records
apply_records-single cube r = bind-ok (apply_record cube r)

and_then-Succeeds :
    (x : Answer) (k : Store → Answer)
    → Succeeds (and_then x k)
    → Succeeds x × (and_then x k ≡ k x.0)
and_then-Succeeds (s, ok done) k h = (refl, refl)
and_then-Succeeds (s, err e) k h = absurd (cc)

-- an entry that is logged behind the cube that has it
log_write-Acknowledged :
    (how : Append) (fold : Checkpoint) (s : Store) (after : Cube) (e : Entry)
    → IsDurable s
    → HasReadable after
    → IsEntry e
    → apply_records s.cube (entry_records e) ≡ ok after
    → Succeeds (log_write how fold (record s { cube = after }) (entry_bytes e))
    → Acknowledged (ok after) (log_write how fold (record s { cube = after }) (entry_bytes e))
unfolding log_write
log_write-Acknowledged how fold s after e d n he h done =
    let t = record s { cube = after } in
    let bytes = entry_bytes e in
    let first = and_then-Succeeds (append_wal how t bytes) (maybe_auto_checkpoint fold) done in
    let grown = append_wal-extended how t bytes first.0 in
    let same = first.1 ∙ ap (λ (x : Answer). maybe_auto_checkpoint fold x.0) grown.1 in
    let kept =
      maybe_auto_checkpoint-IsDurable fold (extended t bytes)
        (d.0, Backs-append s.disk s.good_len s.cube after e d.1 he h) n
        (subst Succeeds same done) in
    subst (Acknowledged (ok after)) (sym same) (kept.0, ap (λ c. ok c) (sym kept.1))

-- a single write, of which the model makes `m`
made-Acknowledged :
    (how : Append) (fold : Checkpoint) (s : Store) (r : Record) (m : Result ModelError Cube)
    → IsDurable s
    → ((after : Cube) → apply_records s.cube (r ∷ []) ≡ ok after → HasReadable after)
    → IsCell r
    → apply_record s.cube r ≡ m
    → Succeeds (made how fold s r m)
    → Acknowledged m (made how fold s r m)
made-Acknowledged how fold s r (ok after) d n hr h done =
    let made_by = apply_records-single s.cube r ∙ h in
    log_write-Acknowledged how fold s after (single r) d (n after made_by) hr made_by done
made-Acknowledged how fold s r (err e) d n hr h done = absurd (cc)

single-Acknowledged :
    (how : Append) (fold : Checkpoint) (s : Store) (r : Record)
    → IsDurable s
    → HasReadable s.cube
    → WritesReadable r
    → IsCell r
    → let answer =
        if s.poisoned then (s, err poisoned_store) else made how fold s r (apply_record s.cube r) in
      Succeeds answer → Acknowledged (apply_records s.cube (r ∷ [])) answer
single-Acknowledged how fold s r d n x hr done =
    let readable = λ (after : Cube) (e : apply_records s.cube (r ∷ []) ≡ ok after).
      apply_records-HasReadable s.cube after (r ∷ []) n (x, tt) e in
    let m = apply_record s.cube r in
    elim (if-Succeeds s.poisoned (s, err poisoned_store) (made how fold s r m) done) [
      | inl p ↦ absurd (poisoned-refused s p.1)
      | inr p ↦ subst (Acknowledged (apply_records s.cube (r ∷ []))) (sym p.2) (
          subst (λ n. Acknowledged n (made how fold s r m)) (sym (apply_records-single s.cube r))
            (made-Acknowledged how fold s r m d readable hr refl p.1))
    ]

adopt-Acknowledged :
    (fold : Checkpoint) (s : Store) (m : Result ModelError Cube)
    → ((after : Cube) → m ≡ ok after → IsDurable (record s { cube = after }) × HasReadable after)
    → Succeeds (adopt fold s m)
    → Acknowledged m (adopt fold s m)
adopt-Acknowledged fold s (ok after) d done =
    let kept =
      maybe_auto_checkpoint-IsDurable fold (record s { cube = after }) ((d after refl).0)
        ((d after refl).1) done in
    (kept.0, ap (λ c. ok c) (sym kept.1))
adopt-Acknowledged fold s (err e) d done = absurd (cc)

batch-Acknowledged :
    (how : Append) (fold : Checkpoint) (s : Store) (writes : List CellWrite)
    (verdict : Result (ℕ × ModelError) (Unit {0}))
    → IsDurable s
    → HasReadable s.cube
    → All WritesReadable (map write_record writes)
    → IsEntry (batch (map write_record writes))
    → Succeeds (log_batch how fold s writes verdict)
    → Acknowledged
        (apply_records s.cube (map write_record writes))
        (log_batch how fold s writes verdict)
batch-Acknowledged how fold s writes (ok checked) d n x he done =
    let e = batch (map write_record writes) in
    let adopted = λ (t : Store). adopt fold t (apply_writes t.cube writes) in
    let first = and_then-Succeeds (append_wal how s (entry_bytes e)) adopted done in
    let grown = append_wal-extended how s (entry_bytes e) first.0 in
    let t = extended s (entry_bytes e) in
    let same = first.1 ∙ ap (λ (x : Answer). adopted x.0) grown.1 in
    let records = apply_writes-apply_records s.cube writes in
    subst (Acknowledged (apply_records s.cube (map write_record writes))) (sym same) (
      subst (λ m. Acknowledged m (adopted t)) records
        (adopt-Acknowledged fold t (apply_writes s.cube writes)
          (λ after h. (
            (d.0, Backs-append s.disk s.good_len s.cube after e d.1 he (sym records ∙ h)),
            apply_records-HasReadable s.cube after (map write_record writes) n x (sym records ∙ h),
          ))
          (subst Succeeds same done)))
batch-Acknowledged how fold s writes (err (index, e)) d n x he done = absurd (cc)

-- what each write is, apart from the numbers that it leaves
run-Acknowledged :
    (how : Append) (fold : Checkpoint) (s : Store) (command : Command)
    → IsDurable s
    → HasReadable s.cube
    → All WritesReadable (entry_records (entry command))
    → IsEntry (entry command)
    → Succeeds (run how fold s command)
    → Acknowledged (effect s.cube command) (run how fold s command)
unfolding set_leaf set_string set_member_pin set_batch
run-Acknowledged how fold s (leaf_command coord value) d n x he done =
    single-Acknowledged how fold s (W.set_leaf coord value) d n x.0 he done
run-Acknowledged how fold s (string_command coord value) d n x he done =
    single-Acknowledged how fold s (W.set_string coord value) d n x.0 he done
run-Acknowledged how fold s (pin_command dimension element pinned) d n x he done =
    single-Acknowledged how fold s (set_pin dimension element pinned) d n x.0 he done
run-Acknowledged how fold s (batch_command writes) d n x he done =
    let verdict = validate_batch s.cube (batch_writes writes) in
    elim (if-Succeeds s.poisoned (s, err poisoned_store) (log_batch how fold s writes verdict)
      done) [
        | inl p ↦ absurd (poisoned-refused s p.1)
        | inr p ↦
            subst (Acknowledged (effect s.cube (batch_command writes))) (sym p.2)
              (batch-Acknowledged how fold s writes verdict d n x he p.1)
      ]

-- When a write of a healthy store succeeds (a cell, a text, a pin or a batch of writes, with or
-- without a fold of the log into the snapshot), the cube in memory is the one that the write makes
-- of the cube before, and the store is healthy: the snapshot can be loaded (its numbers are printed
-- and parsed again, its dimensions found by their names, the rest of its text is taken as it was
-- saved), and the records of the log lead from what it holds to that cube. The numbers of the cube
-- before (cells and numeric attributes) and those of the write are i64s other than the least, and the
-- dimensions of the cube have different names; the same holds of the cube after. The fields of the
-- write fit those of a log record.
pub run-IsDurable :
    (how : Append) (fold : Checkpoint) (s : Store) (command : Command)
    → IsDurable s
    → HasReadable s.cube
    → All WritesReadable (entry_records (entry command))
    → IsEntry (entry command)
    → Succeeds (run how fold s command)
    → IsDurable ((run how fold s command).0)
      × HasReadable ((run how fold s command).0.cube)
      × (effect s.cube command ≡ ok ((run how fold s command).0.cube))
run-IsDurable how fold s command d n x he done =
    let known = run-Acknowledged how fold s command d n x he done in
    (
      known.0,
      apply_records-HasReadable s.cube ((run how fold s command).0.cube)
          (entry_records (entry command)) n x known.1,
      known.1,
    )
