-- ===== src/Durable/Failed.antt =====
-- What the writes of the durable store leave behind when they fail
-- (crates/epiphany-persist/src/store.rs).
use mathlib.Core.List.{append-nil}
use epiphany.Base.{
  ℕ, ◌+◌, ◌≡◌, refl, ap, sym, ◌∙◌, subst, Bool, true, false, List, ◌++◌, map, length, take,
  replicate, ◌-◌, length-append, arith, if◌then◌else◌,
}
use epiphany.Base.Result.{Result, ok, err}
use epiphany.Model.{ModelError}
use epiphany.Cube.{Cube, validate_batch, BatchWrite}
use epiphany.Bytes.{Bytes}
use epiphany.Cube as C
use epiphany.Cube.Pins.{pin_element}
use epiphany.Wal.{Record, encode, set_pin}
use epiphany.Wal as W
use epiphany.Wal.Batches.{batch_bytes}
use epiphany.Durable.{
  CellWrite, io, poisoned_store, Disk, Store, Append, appends, write_fails, sync_fails, Checkpoint,
  append_wal, appended, poison_wal, with_wal, set_len, maybe_auto_checkpoint,
}
use epiphany.Durable.Commands.{
  Answer, and_then, log_write, made, set_leaf, set_string, set_member_pin, set_batch, batch_writes,
  apply_writes, adopt, log_batch, write_record,
}
use epiphany.Durable.Backed.{IsDurable}
use epiphany.Durable.Acknowledged.{
  Command, leaf_command, string_command, pin_command, batch_command, run,
}
use epiphany.Durable.Crash.{rewound, Reopens, Backs-Reopens}

-- an append that fails, and is cut back
abbrev pub Fails : Append → Store → Type 0
Fails appends s = ⊥
Fails (write_fails written rolls_back) s = rolls_back ≡ true
Fails (sync_fails rolls_back) s = (rolls_back ≡ true) × (s.sync_on_write ≡ true)

set_len-rewound :
    (disk : Disk) (more : Bytes) (good_len : ℕ)
    → good_len ≡ length disk.wal
    → set_len good_len (disk.wal ++ more) ≡ disk.wal
set_len-rewound disk more good_len w =
    let none_left : good_len - length (disk.wal ++ more) ≡ 0 =
      omega (arith, w, length-append disk.wal more) in
    ap (λ n. take good_len (disk.wal ++ more) ++ replicate n 0) none_left
    ∙ append-nil (take good_len (disk.wal ++ more))
    ∙ rewound disk more good_len w

poisoned_disk :
    (s : Store) (more : Bytes) (rolls_back : Bool)
    → s.good_len ≡ length s.disk.wal
    → rolls_back ≡ true
    → (poison_wal s (s.disk.wal ++ more) rolls_back).disk ≡ s.disk
unfolding poison_wal
poisoned_disk s more true w h =
    let back = set_len-rewound s.disk more s.good_len w in λ i. record s.disk { wal = back i }
poisoned_disk s more false w h = cc

abbrev IsCutBack : Disk → Answer → Type 0
IsCutBack disk answer = (answer.0.disk ≡ disk) × (answer.1 ≡ err io)

if-true : (b : Bool) (x y : Answer) → b ≡ true → (if b then x else y) ≡ x
if-true true x y h = refl
if-true false x y h = cc

pub if-false : (b : Bool) (x y : Answer) → b ≡ false → (if b then x else y) ≡ y
if-false true x y h = cc
if-false false x y h = refl

appended-Fails :
    (how : Append) (s : Store) (framed : Bytes)
    → s.good_len ≡ length s.disk.wal
    → Fails how s
    → IsCutBack s.disk (appended how s framed)
unfolding appended
appended-Fails appends s framed w f = absurd f
appended-Fails (write_fails written rolls_back) s framed w f =
    (poisoned_disk s (take written framed) rolls_back w f, refl)
appended-Fails (sync_fails rolls_back) s framed w f =
    let failed : Answer = (poison_wal s (s.disk.wal ++ framed) rolls_back, err io) in
    subst (IsCutBack s.disk)
      (sym (
        if-true s.sync_on_write failed
          (
            record (with_wal s (s.disk.wal ++ framed)) { good_len = s.good_len + length framed },
            ok tt,
          )
          f.1))
      (poisoned_disk s framed rolls_back w f.0, refl)

append_wal-Fails :
    (how : Append) (s : Store) (framed : Bytes)
    → s.poisoned ≡ false
    → s.good_len ≡ length s.disk.wal
    → Fails how s
    → IsCutBack s.disk (append_wal how s framed)
unfolding append_wal
append_wal-Fails how s framed p w f =
    subst (IsCutBack s.disk)
      (sym (if-false s.poisoned (s, err poisoned_store) (appended how s framed) p))
      (appended-Fails how s framed w f)

and_then-disk :
    (disk : Disk) (x : Answer) (k : Store → Answer)
    → IsCutBack disk x
    → (and_then x k).0.disk ≡ disk
and_then-disk disk (s, ok done) k h = absurd (cc)
and_then-disk disk (s, err e) k h = h.0

Fails-same :
    (how : Append) (s : Store) (cube : Cube) → Fails how s → Fails how (record s { cube = cube })
Fails-same appends s cube f = f
Fails-same (write_fails written rolls_back) s cube f = f
Fails-same (sync_fails rolls_back) s cube f = f

made-disk :
    (how : Append) (fold : Checkpoint) (s : Store) (r : Record) (m : Result ModelError Cube)
    → s.poisoned ≡ false
    → s.good_len ≡ length s.disk.wal
    → Fails how s
    → (made how fold s r m).0.disk ≡ s.disk
unfolding log_write
made-disk how fold s r (ok cube) p w f =
    and_then-disk s.disk (append_wal how (record s { cube = cube }) (encode r))
      (maybe_auto_checkpoint fold)
      (append_wal-Fails how (record s { cube = cube }) (encode r) p w (Fails-same how s cube f))
made-disk how fold s r (err e) p w f = refl

log_batch-disk :
    (how : Append) (fold : Checkpoint) (s : Store) (writes : List CellWrite)
    (verdict : Result (ℕ × ModelError) (Unit {0}))
    → s.poisoned ≡ false
    → s.good_len ≡ length s.disk.wal
    → Fails how s
    → (log_batch how fold s writes verdict).0.disk ≡ s.disk
log_batch-disk how fold s writes (ok checked) p w f =
    let framed = batch_bytes (map write_record writes) in
    and_then-disk s.disk (append_wal how s framed) (λ t. adopt fold t (apply_writes t.cube writes))
      (append_wal-Fails how s framed p w f)
log_batch-disk how fold s writes (err (index, e)) p w f = refl

unfailing-disk :
    (s : Store) (x : Answer)
    → s.poisoned ≡ false
    → x.0.disk ≡ s.disk
    → (if s.poisoned then (s, err poisoned_store) else x).0.disk ≡ s.disk
unfailing-disk s x p h =
    ap (λ (y : Answer). y.0.disk) (if-false s.poisoned (s, err poisoned_store) x p) ∙ h

run-disk :
    (how : Append) (fold : Checkpoint) (s : Store) (command : Command)
    → s.poisoned ≡ false
    → s.good_len ≡ length s.disk.wal
    → Fails how s
    → (run how fold s command).0.disk ≡ s.disk
unfolding set_leaf set_string set_member_pin set_batch
run-disk how fold s (leaf_command coord value) p w f =
    let m = C.set_leaf s.cube coord value in
    unfailing-disk s (made how fold s (W.set_leaf coord value) m) p
      (made-disk how fold s (W.set_leaf coord value) m p w f)
run-disk how fold s (string_command coord value) p w f =
    let m = C.set_string s.cube coord value in
    unfailing-disk s (made how fold s (W.set_string coord value) m) p
      (made-disk how fold s (W.set_string coord value) m p w f)
run-disk how fold s (pin_command dimension element pinned) p w f =
    let m = pin_element s.cube dimension element pinned in
    unfailing-disk s (made how fold s (set_pin dimension element pinned) m) p
      (made-disk how fold s (set_pin dimension element pinned) m p w f)
run-disk how fold s (batch_command writes) p w f =
    let verdict = validate_batch s.cube (batch_writes writes) in
    unfailing-disk s (log_batch how fold s writes verdict) p
      (log_batch-disk how fold s writes verdict p w f)

-- When the append of a write to a healthy store fails (the file system wrote a part of it, or did
-- not flush it) and is cut back, or the model refuses the write before, the store that is opened
-- from the disk afterwards has the cube from before the write.
pub run-Fails :
    (how : Append) (fold : Checkpoint) (s : Store) (command : Command)
    → IsDurable s
    → Fails how s
    → Reopens ((run how fold s command).0.disk) s.cube s.good_len
run-Fails how fold s command d f =
    subst (λ disk. Reopens disk s.cube s.good_len)
      (sym (run-disk how fold s command d.0 (d.1.is_whole) f))
      (Backs-Reopens s.disk s.good_len s.cube d.1)
