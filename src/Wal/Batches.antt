-- ===== src/Wal/Batches.antt =====
-- The scan of the records of a batch, and of a batch that was torn
-- (crates/epiphany-persist/src/wal.rs, and `set_batch` of crates/epiphany-persist/src/store.rs).
use mathlib.Core.List.{append_assoc, append-nil}
use epiphany.Base.{
  ℕ, ◌+◌, ◌-◌, ◌%◌, ◌^◌, ◌≤◌, ◌<◌, ◌≡◌, refl, ap, sym, ◌∙◌, subst, inl, inr, Bool, true, false,
  Option, none, some, List, [], ◌∷◌, ◌++◌, length, take, arith, length-append, All, ltb, Bool-cases,
  tests,
}
use epiphany.Bytes.{Bytes, length-to_le}
use epiphany.Bytes.Slices.{take-append_le, take-append_ge}
use epiphany.Wal.{Record, set_leaf, set_string, batch_begin, batch_end, set_pin, encode, payload}
use epiphany.Wal.Scan.{Progress, absorb, push_cell, loop}
use epiphany.Wal.Rounds.{loop-round, round-past_end, round-broken}
use epiphany.Wal.Frames.{IsLogged, read_frame-encode, read_frame-torn}
use epiphany.Wal.Recovery.{Committed, loop-intact, stays}

-- a record other than the markers of a batch
abbrev pub is_cell : Record → Bool
is_cell (set_leaf coord value) = true
is_cell (set_string coord value) = true
is_cell (batch_begin count) = false
is_cell batch_end = false
is_cell (set_pin dimension element pinned) = true

abbrev pub IsCell : Record → Type 0
IsCell r = IsLogged r × (is_cell r ≡ true)

-- the loop of `set_batch` of the store
unfoldable pub encode_all : List Record → Bytes
encode_all [] = []
encode_all (r ∷ rs) = encode r ++ encode_all rs

-- the bytes that `set_batch` of the store appends
unfoldable pub batch_bytes : List Record → Bytes
batch_bytes rs = encode (batch_begin (length rs % 2 ^ 32)) ++ (encode_all rs ++ encode batch_end)

pub absorb-cell :
    (s : Progress) (r : Record) (frame_end : ℕ)
    → is_cell r ≡ true
    → absorb s r frame_end ≡ some (push_cell s s.batch r frame_end)
unfolding absorb
absorb-cell s (set_leaf coord value) frame_end h = refl
absorb-cell s (set_string coord value) frame_end h = refl
absorb-cell s (batch_begin count) frame_end h = cc
absorb-cell s batch_end frame_end h = cc
absorb-cell s (set_pin dimension element pinned) frame_end h = refl

-- a whole record at the front
pub loop-encode :
    (r : Record) (more : Bytes) (pos : ℕ) (s t : Progress)
    → IsLogged r
    → absorb s r (pos + length (encode r)) ≡ some t
    → loop (encode r ++ more) pos s ≡ loop more (pos + length (encode r)) t
loop-encode r more pos s t h a =
    loop-intact (encode r) more pos s t r (length (encode r)) (read_frame-encode r h) a refl

-- a torn record
pub loop-torn :
    (r : Record) (cut pos : ℕ) (s : Progress)
    → IsLogged r
    → cut < length (encode r)
    → Committed s ((loop (take cut (encode r)) pos s).0)
unfolding encode
loop-torn r cut pos s h c =
    let torn = take cut (encode r) in
    elim (read_frame-torn (payload r) cut h.1 c) [
      | inl e ↦
          stays s none (loop torn pos s) (loop-round torn pos s ∙ round-past_end loop torn pos s e)
      | inr e ↦
          stays s (some pos) (loop torn pos s)
            (loop-round torn pos s ∙ round-broken loop torn pos s e)
    ]

abbrev pub batched : List Record → List Record → ℕ → Progress
batched records buffered good = record { records = records; batch = some buffered; good = good }

pub loop-encode_all :
    (rs : List Record) (more : Bytes) (pos : ℕ) (records buffered : List Record) (good : ℕ)
    → All IsCell rs
    → loop (encode_all rs ++ more) pos (batched records buffered good)
      ≡ loop more (pos + length (encode_all rs)) (batched records (buffered ++ rs) good)
unfolding encode_all
loop-encode_all [] more pos records buffered good h =
    ap (λ n. loop more n (batched records buffered good)) {x = pos} (omega arith)
    ∙ ap (λ b. loop more (pos + 0) (batched records b good)) (sym (append-nil buffered))
loop-encode_all (r ∷ rs) more pos records buffered good h =
    let size = length (encode r) in
    ap (λ bs. loop bs pos (batched records buffered good))
      (append_assoc (encode r) (encode_all rs) more)
    ∙ loop-encode r (encode_all rs ++ more) pos (batched records buffered good)
        (batched records (buffered ++ r ∷ []) good) h.0.0
        (absorb-cell (batched records buffered good) r (pos + size) h.0.1)
    ∙ loop-encode_all rs more (pos + size) records (buffered ++ r ∷ []) good h.1
    ∙ ap (λ n. loop more n (batched records ((buffered ++ r ∷ []) ++ rs) good))
        {x = pos + size + length (encode_all rs)}
        (omega (arith, length-append (encode r) (encode_all rs)))
    ∙ ap (λ b. loop more (pos + length (encode r ++ encode_all rs)) (batched records b good))
        (append_assoc buffered (r ∷ []) rs)

pub batch_end-IsLogged : IsLogged batch_end
unfolding payload
batch_end-IsLogged = (tt, omega arith)

pub batch_begin-IsLogged : (n : ℕ) → IsLogged (batch_begin (n % 2 ^ 32))
unfolding payload
batch_begin-IsLogged n = (omega arith, omega (arith, length-to_le 4 (n % 2 ^ 32)))

pub not-lt : (a b : ℕ) → ltb a b ≡ false → b ≤ a
not-lt a b h = ground arith

pub torn-encode_all :
    (rs : List Record) (cut pos : ℕ) (records buffered : List Record) (good : ℕ)
    → All IsCell rs
    → cut < length (encode_all rs ++ encode batch_end)
    → Committed (batched records buffered good) (
        (loop (take cut (encode_all rs ++ encode batch_end)) pos (batched records buffered good)).0)
unfolding encode_all
torn-encode_all [] cut pos records buffered good h c =
    loop-torn batch_end cut pos (batched records buffered good) batch_end-IsLogged c
torn-encode_all (r ∷ rs) cut pos records buffered good h c =
    let size = length (encode r) in
    let rest = encode_all rs ++ encode batch_end in
    let s = batched records buffered good in
    let joined = append_assoc (encode r) (encode_all rs) (encode batch_end) in
    subst (λ bs. Committed s ((loop (take cut bs) pos s).0)) (sym joined)
      (elim (Bool-cases (ltb cut size)) [
        | inl e ↦
            subst (λ bs. Committed s ((loop bs pos s).0))
              (sym (take-append_le cut (encode r) rest (omega (tests, e))))
              (loop-torn r cut pos s h.0.0 (omega (tests, e)))
        | inr e ↦
            let split = take-append_ge cut (encode r) rest (not-lt cut size e) in
            let opened =
              loop-encode r (take (cut - size) rest) pos s
                (batched records (buffered ++ r ∷ []) good) h.0.0
                (absorb-cell s r (pos + size) h.0.1) in
            subst (λ (x : Progress × Option ℕ). Committed s x.0)
              (sym (ap (λ bs. loop bs pos s) split ∙ opened))
              (torn-encode_all rs (cut - size) (pos + size) records (buffered ++ r ∷ []) good h.1 (
                omega
                  (arith, c, not-lt cut size e, ap length joined, length-append (encode r) rest)))
      ])
