-- ===== src/Wal/Torn.antt =====
-- What the store appends to the log as one unit, a record or a whole batch: a scan takes it in
-- whole, and takes nothing of it when a crash tore it (crates/epiphany-persist/src/wal.rs).
use mathlib.Core.List.{append_assoc, append-nil}
use epiphany.Base.{
  ℕ, ◌+◌, ◌-◌, ◌%◌, ◌^◌, ◌<◌, ◌≡◌, refl, ap, sym, ◌∙◌, subst, inl, inr, Bool, false, Option, none,
  some, List, [], ◌∷◌, ◌++◌, length, take, arith, length-append, All, ltb, Bool-cases, tests,
}
use epiphany.Base.Result.{ok}
use epiphany.Bytes.{Bytes}
use epiphany.Bytes.Slices.{take-append_le, take-append_ge}
use epiphany.Wal.{Record, batch_begin, batch_end, encode}
use epiphany.Wal.Scan.{Progress, absorb, loop, replay, Replay, finish, corrupt}
use epiphany.Wal.Rounds.{read_frame-nil, loop-round, round-past_end}
use epiphany.Wal.Recovery.{Committed}
use epiphany.Wal.Resume.{resumption, replay-resume}
use epiphany.Wal.Batches.{
  IsCell, encode_all, batch_bytes, absorb-cell, loop-encode, loop-torn, batched, loop-encode_all,
  torn-encode_all, batch_end-IsLogged, batch_begin-IsLogged, not-lt,
}

-- what the store appends at once
pub data Entry : Type 0 where
  single : Record → Entry
  batch : List Record → Entry

abbrev pub entry_bytes : Entry → Bytes
entry_bytes (single r) = encode r
entry_bytes (batch rs) = batch_bytes rs

abbrev pub entry_records : Entry → List Record
entry_records (single r) = r ∷ []
entry_records (batch rs) = rs

abbrev pub IsEntry : Entry → Type 0
IsEntry (single r) = IsCell r
IsEntry (batch rs) = All IsCell rs

abbrev pub idle : List Record → ℕ → Progress
idle records good = record { records = records; batch = none; good = good }

absorb-begin :
    (records : List Record) (good count frame_end : ℕ)
    → absorb (idle records good) (batch_begin count) frame_end ≡ some (batched records [] good)
unfolding absorb
absorb-begin records good count frame_end = refl

absorb-end :
    (records rs : List Record) (good frame_end : ℕ)
    → absorb (batched records rs good) batch_end frame_end ≡ some (idle (records ++ rs) frame_end)
unfolding absorb
absorb-end records rs good frame_end = refl

loop-entry :
    (e : Entry) (more : Bytes) (pos : ℕ) (records : List Record) (good : ℕ)
    → IsEntry e
    → loop (entry_bytes e ++ more) pos (idle records good)
      ≡ loop more
          (pos + length (entry_bytes e))
          (idle (records ++ entry_records e) (pos + length (entry_bytes e)))
unfolding batch_bytes
loop-entry (single r) more pos records good h =
    loop-encode r more pos (idle records good) (idle (records ++ r ∷ []) (pos + length (encode r)))
      h.0 (absorb-cell (idle records good) r (pos + length (encode r)) h.1)
loop-entry (batch rs) more pos records good h =
    let start = encode (batch_begin (length rs % 2 ^ 32)) in
    let body = encode_all rs ++ encode batch_end in
    let opened = pos + length start in
    let inside = opened + length (encode_all rs) in
    ap (λ bs. loop bs pos (idle records good))
      (append_assoc start body more
        ∙ ap (λ bs. start ++ bs) (append_assoc (encode_all rs) (encode batch_end) more))
    ∙ loop-encode (batch_begin (length rs % 2 ^ 32)) (encode_all rs ++ (encode batch_end ++ more))
        pos (idle records good) (batched records [] good) (batch_begin-IsLogged (length rs))
        (absorb-begin records good (length rs % 2 ^ 32) opened)
    ∙ loop-encode_all rs (encode batch_end ++ more) opened records [] good h
    ∙ loop-encode batch_end more inside (batched records rs good)
        (idle (records ++ rs) (inside + length (encode batch_end))) batch_end-IsLogged
        (absorb-end records rs good (inside + length (encode batch_end)))
    ∙ ap (λ n. loop more n (idle (records ++ rs) n)) {x = inside + length (encode batch_end)}
        (omega (arith, length-append start body, length-append (encode_all rs) (encode batch_end)))

torn-entry :
    (e : Entry) (cut pos : ℕ) (records : List Record) (good : ℕ)
    → IsEntry e
    → cut < length (entry_bytes e)
    → Committed (idle records good) ((loop (take cut (entry_bytes e)) pos (idle records good)).0)
unfolding batch_bytes
torn-entry (single r) cut pos records good h c = loop-torn r cut pos (idle records good) h.0 c
torn-entry (batch rs) cut pos records good h c =
    let start = encode (batch_begin (length rs % 2 ^ 32)) in
    let body = encode_all rs ++ encode batch_end in
    let s = idle records good in
    elim (Bool-cases (ltb cut (length start))) [
      | inl e ↦
          subst (λ bs. Committed s ((loop bs pos s).0))
            (sym (take-append_le cut start body (omega (tests, e))))
            (loop-torn (batch_begin (length rs % 2 ^ 32)) cut pos s
              (batch_begin-IsLogged (length rs)) (omega (tests, e)))
      | inr e ↦
          let split = take-append_ge cut start body (not-lt cut (length start) e) in
          let opened =
            loop-encode (batch_begin (length rs % 2 ^ 32)) (take (cut - length start) body) pos s
              (batched records [] good) (batch_begin-IsLogged (length rs))
              (absorb-begin records good (length rs % 2 ^ 32) (pos + length start)) in
          subst (λ (x : Progress × Option ℕ). Committed s x.0)
            (sym (ap (λ bs. loop bs pos s) split ∙ opened))
            (torn-encode_all rs (cut - length start) (pos + length start) records [] good h
              (omega (arith, c, not-lt cut (length start) e, length-append start body)))
    ]

pub loop-nil : (pos : ℕ) (s : Progress) → loop [] pos s ≡ (s, none)
loop-nil pos s = loop-round [] pos s ∙ round-past_end loop [] pos s read_frame-nil

-- When a scan of a file succeeds, a scan of the file cut to `good_len` yields the same records and
-- the same length, and reports no corruption.
pub replay-take :
    (bytes : Bytes) (result : Replay)
    → replay bytes ≡ ok result
    → replay (take result.good_len bytes)
      ≡ ok (record {
        records = result.records;
        good_len = result.good_len;
        corrupt_with_valid_tail = false;
      })
replay-take bytes result h =
    let kept = replay-resume bytes [] result h in
    let cut = take result.good_len bytes in
    ap replay (sym (append-nil cut))
    ∙ kept.2
    ∙ ap (λ x. ok (finish (cut ++ []) x)) (loop-nil result.good_len (resumption result))

-- A record or a batch that is appended where a scan of the file ended is read back whole behind the
-- records that were there.
pub replay-append :
    (bytes : Bytes) (result : Replay) (e : Entry)
    → IsEntry e
    → replay bytes ≡ ok result
    → replay (take result.good_len bytes ++ entry_bytes e)
      ≡ ok (record {
        records = result.records ++ entry_records e;
        good_len = result.good_len + length (entry_bytes e);
        corrupt_with_valid_tail = false;
      })
replay-append bytes result e he h =
    let kept = replay-resume bytes (entry_bytes e) result h in
    let whole = take result.good_len bytes ++ entry_bytes e in
    let after = result.good_len + length (entry_bytes e) in
    let read =
      ap (λ bs. loop bs result.good_len (resumption result)) (sym (append-nil (entry_bytes e)))
      ∙ loop-entry e [] result.good_len result.records result.good_len he
      ∙ loop-nil after (idle (result.records ++ entry_records e) after) in
    kept.2 ∙ ap (λ x. ok (finish whole x)) read

-- When a crash tears the record or the batch that is being appended, at any byte before its end, a
-- scan yields the records that were there, and none of the batch, and the length before it.
pub replay-torn :
    (bytes : Bytes) (result : Replay) (e : Entry) (cut : ℕ)
    → IsEntry e
    → replay bytes ≡ ok result
    → cut < length (entry_bytes e)
    → (flag : Bool) × (replay (take result.good_len bytes ++ take cut (entry_bytes e))
        ≡ ok (record {
          records = result.records;
          good_len = result.good_len;
          corrupt_with_valid_tail = flag;
        }))
replay-torn bytes result e cut he h c =
    let torn = take cut (entry_bytes e) in
    let whole = take result.good_len bytes ++ torn in
    let out = loop torn result.good_len (resumption result) in
    let kept = replay-resume bytes torn result h in
    let same = torn-entry e cut result.good_len result.records result.good_len he c in
    (
      corrupt whole out.1,
      kept.2 ∙ λ i. ok (record {
        records = same.1 i;
        good_len = same.0 i;
        corrupt_with_valid_tail = corrupt whole out.1;
      }),
    )
