-- ===== src/Durable/Tests.antt =====
-- Runs of the durable store, and the theorems at a small one.
use epiphany.Base.{false, inl, ◌^◌, ◌<◌, ◌≡◌, refl, true, none, [], ◌∷◌, ◌++◌, length, take, arith}
use epiphany.Base.Result.{ok, err}
use epiphany.Bytes.{to_le}
use epiphany.Fixed.{is_zero, is_zero_i64}
use epiphany.Store.{narrow}
use epiphany.Layout.{layout_of}
use epiphany.Dimension.{element}
use epiphany.Cube.{
  Cube, check_coord, check_elements, check_leaf_write, check_numeric, validate_batch, validate_from,
}
use epiphany.Cube as C
use epiphany.Cube.Sample.{start, five}
use epiphany.Wal.{payload, write_coord, write_indices, encode, frame, header}
use epiphany.Wal as W
use epiphany.Wal.Batches.{IsCell}
use epiphany.Wal.Torn.{single}
use epiphany.Durable.{
  PersistError, Store, create, appends, write_fails, completes, append_wal, appended,
  maybe_auto_checkpoint, checkpoint, leaf, header_fails,
}
use epiphany.Durable.Commands.{set_leaf, set_batch, log_write, open_store}
use epiphany.Durable.Backed.{IsDurable, Backs-header, Succeeds}
use epiphany.Durable.Acknowledged.{Command, leaf_command, run, effect, run-IsDurable}
use epiphany.Durable.Crash.{Survives, Reopens, open_store-torn}
use epiphany.Durable.Failed.{run-Fails}
use epiphany.Durable.Refused.{Panics, set_batch-Panics}
use epiphany.Durable.HeaderLost.{checkpoint-header_lost, Unopenable}
use epiphany.Durable.LeastLost.{checkpoint-least_lost, least}
use epiphany.Durable.Snapshot.{HasReadable, IsReadable}
use epiphany.Base.{◌≢◌}
use epiphany.Base.Eq.{list_beq_iff}

abbrev store : Store
store = create start

names-differ : false ≢ true
names-differ e = cc

start-HasReadable : HasReadable start
unfolding C.fresh layout_of
start-HasReadable = (
  ((tt, (tt, tt)), (((tt, (tt, tt)), tt))),
  tt,
  ((λ e. names-differ ((list_beq_iff _ _).1 e), tt), (tt, tt)),
)

store-IsDurable : IsDurable store
unfolding create
store-IsDurable = (refl, Backs-header start none start-HasReadable)

abbrev write : W.Record
write = W.set_leaf (0 ∷ 0 ∷ []) five

abbrev command : Command
command = leaf_command (0 ∷ 0 ∷ []) five

write-IsCell : IsCell write
unfolding payload write_coord write_indices to_le
write-IsCell = (
  (((omega arith, (omega arith, (omega arith, tt))), (omega arith, omega arith)), omega arith),
  refl,
)

written : Succeeds (run appends completes store command)
unfolding set_leaf log_write append_wal appended maybe_auto_checkpoint create C.set_leaf
    check_leaf_write check_coord check_elements check_numeric element is_zero is_zero_i64 encode
    frame payload write_coord write_indices to_le C.fresh
written = refl

five-IsReadable : IsReadable five
five-IsReadable = ((omega arith, omega arith), λ e. cc)

run-IsDurable_example :
    IsDurable ((run appends completes store command).0)
    × HasReadable ((run appends completes store command).0.cube)
    × (effect start command ≡ ok ((run appends completes store command).0.cube))
unfolding C.fresh create
run-IsDurable_example =
    run-IsDurable appends completes store command store-IsDurable start-HasReadable
      (five-IsReadable, tt) write-IsCell written

length-write : length (encode write) ≡ 27
unfolding encode frame payload write_coord write_indices to_le
length-write = refl

open_store-torn_example :
    Survives store (record store.disk { wal = store.disk.wal ++ take 20 (encode write) })
open_store-torn_example =
    open_store-torn store (single write) 20 store-IsDurable write-IsCell
      (omega (arith, length-write))

run-Fails_example : Reopens ((run (write_fails 3 true) completes store command).0.disk) start 8
unfolding C.fresh create
run-Fails_example = run-Fails (write_fails 3 true) completes store command store-IsDurable refl

set_batch-Panics_example :
    ¬ Panics (set_batch appends completes store (leaf (0 ∷ 0 ∷ []) five ∷ []))
set_batch-Panics_example = set_batch-Panics appends completes store (leaf (0 ∷ 0 ∷ []) five ∷ [])

write_short : length (payload write) < 2 ^ 24
unfolding payload write_coord write_indices to_le
write_short = omega arith

checkpoint-header_lost_example :
    let answer = append_wal appends ((checkpoint (header_fails 0) store).0) (encode write) in
    Succeeds answer × Unopenable start ((open_store answer.0.disk).1)
unfolding create
checkpoint-header_lost_example = checkpoint-header_lost store write refl write_short

-- the store of a cube in which one cell holds the least number
abbrev least_store : Store
least_store = create (record start { cells = narrow ((0, least) ∷ []) })

checkpoint-least_lost_example :
    let answer = checkpoint completes least_store in
    Succeeds answer × ((e : PersistError) × ((open_store answer.0.disk).1 ≡ err e))
unfolding create
checkpoint-least_lost_example = checkpoint-least_lost least_store refl (0, inl refl)
