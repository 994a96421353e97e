-- ===== src/Wal/Frames.antt =====
-- A frame is read by its own bytes alone: whatever follows it, it is intact, and a part of it that
-- was cut short is not (crates/epiphany-persist/src/wal.rs).
use epiphany.Base.{
  ℕ, ◌+◌, ◌%◌, ◌^◌, ◌≤◌, ◌<◌, ◌≡◌, ap, sym, ◌∙◌, ◌⊎◌, inl, inr, some, ◌++◌, length, take, drop,
  arith, length-append, length-take,
}
use epiphany.Bytes.{Bytes, from_le, to_le, length-to_le, from_le-to_le}
use epiphany.Bytes.Slices.{
  take-append_left, drop-append_left, take-append_le, take-drop-take, take-take, drop-drop,
  take_all,
}
use epiphany.Wal.{Record, decode, frame, payload, encode}
use epiphany.Wal.Codec.{IsRecord}
use epiphany.Wal.Payloads.{decode-payload}
use epiphany.Wal.Crc.{crc32, crc32-lt}
use epiphany.Wal.Scan.{past_end, broken, intact, read_frame}
use epiphany.Wal.Rounds.{read_frame-IsFrame, IsFrame-read_frame, Seen-cases}

-- A part of two byte strings that begin alike.
pub part_eq :
    (n k m : ℕ) (xs ys : Bytes)
    → take n xs ≡ take n ys
    → k + m ≤ n
    → take m (drop k xs) ≡ take m (drop k ys)
part_eq n k m xs ys e h =
    sym (take-drop-take m k n xs h) ∙ ap (λ t. take m (drop k t)) e ∙ take-drop-take m k n ys h

pub read_frame-prefix :
    (rest other : Bytes) (r : Record) (size : ℕ)
    → read_frame rest ≡ intact r size
    → take size other ≡ take size rest
    → size ≤ length other
    → read_frame other ≡ intact r size
read_frame-prefix rest other r size h e l =
    let framed = read_frame-IsFrame rest r size h in
    let len = from_le (take 4 rest) in
    let same : from_le (take 4 other) ≡ len =
      ap from_le (part_eq size 0 4 other rest e (omega (arith, framed.0))) in
    IsFrame-read_frame other r size (
      omega (arith, framed.0, same),
      l,
      ap (λ n. crc32 (take n (drop 4 other))) same
          ∙ ap crc32 (part_eq size 4 len other rest e (omega (arith, framed.0)))
          ∙ framed.2
          ∙ ap from_le (sym (part_eq size (4 + len) 4 other rest e (omega (arith, framed.0))))
          ∙ ap (λ n. from_le (take 4 (drop (4 + n) other))) (sym same),
      ap (λ n. decode (take n (drop 4 other))) same
          ∙ ap decode (part_eq size 4 len other rest e (omega (arith, framed.0)))
          ∙ framed.3,
    )

pub read_frame-append :
    (rest more : Bytes) (r : Record) (size : ℕ)
    → read_frame rest ≡ intact r size
    → read_frame (rest ++ more) ≡ intact r size
read_frame-append rest more r size h =
    let framed = read_frame-IsFrame rest r size h in
    read_frame-prefix rest (rest ++ more) r size h (take-append_le size rest more framed.1)
      (omega (arith, framed.1, length-append rest more))

pub length-frame : (body : Bytes) → length (frame body) ≡ 8 + length body
unfolding frame
length-frame body =
    let prefix = to_le 4 (length body % 2 ^ 32) in
    omega (
      arith,
      length-append prefix (body ++ to_le 4 (crc32 body)),
      length-append body (to_le 4 (crc32 body)),
      length-to_le 4 (length body % 2 ^ 32),
      length-to_le 4 (crc32 body),
    )

pub take-frame : (body : Bytes) → length body < 2 ^ 32 → from_le (take 4 (frame body)) ≡ length body
unfolding frame
take-frame body h =
    let prefix = to_le 4 (length body % 2 ^ 32) in
    ap (λ n. from_le (take n (prefix ++ (body ++ to_le 4 (crc32 body)))))
      (sym (length-to_le 4 (length body % 2 ^ 32)))
    ∙ ap from_le (take-append_left prefix (body ++ to_le 4 (crc32 body)))
    ∙ from_le-to_le 4 (length body % 2 ^ 32) (omega arith)
    ∙ omega arith

drop-frame : (body : Bytes) → drop 4 (frame body) ≡ body ++ to_le 4 (crc32 body)
unfolding frame
drop-frame body =
    let prefix = to_le 4 (length body % 2 ^ 32) in
    ap (λ n. drop n (prefix ++ (body ++ to_le 4 (crc32 body))))
      (sym (length-to_le 4 (length body % 2 ^ 32)))
    ∙ drop-append_left prefix (body ++ to_le 4 (crc32 body))

read_frame-frame :
    (body : Bytes) (r : Record)
    → length body < 2 ^ 32
    → decode body ≡ some r
    → read_frame (frame body) ≡ intact r (length (frame body))
read_frame-frame body r h d =
    let len = from_le (take 4 (frame body)) in
    let sum = to_le 4 (crc32 body) in
    let same : len ≡ length body = take-frame body h in
    let inner : take len (drop 4 (frame body)) ≡ body =
      ap (λ n. take n (drop 4 (frame body))) same
      ∙ ap (λ t. take (length body) t) (drop-frame body)
      ∙ take-append_left body sum in
    let outer : take 4 (drop (4 + len) (frame body)) ≡ sum =
      ap (λ n. take 4 (drop (4 + n) (frame body))) same
      ∙ ap (λ t. take 4 t)
          (sym (drop-drop (length body) 4 (frame body))
            ∙ ap (λ t. drop (length body) t) (drop-frame body)
            ∙ drop-append_left body sum)
      ∙ take_all 4 sum (omega (arith, length-to_le 4 (crc32 body))) in
    IsFrame-read_frame (frame body) r (length (frame body)) (
      omega (arith, length-frame body, same),
      omega arith,
      ap crc32 inner ∙ sym (ap from_le outer ∙ from_le-to_le 4 (crc32 body) (crc32-lt body)),
      ap decode inner ∙ d,
    )

-- A frame that was cut short is not intact.
pub read_frame-torn :
    (body : Bytes) (cut : ℕ)
    → length body < 2 ^ 32
    → cut < length (frame body)
    → (read_frame (take cut (frame body)) ≡ past_end)
      ⊎ (read_frame (take cut (frame body)) ≡ broken)
read_frame-torn body cut h c = elim (Seen-cases (read_frame (take cut (frame body)))) [
  | inl e ↦ inl e
  | inr (inl e) ↦ inr e
  | inr (inr (r, size, e)) ↦
      let framed = read_frame-IsFrame (take cut (frame body)) r size e in
      let prefix : take 4 (take cut (frame body)) ≡ take 4 (frame body) =
        take-take 4 cut (frame body) (omega (arith, framed, length-take cut (frame body))) in
      absurd (
        omega (
          arith,
          framed,
          length-take cut (frame body),
          ap from_le prefix,
          take-frame body h,
          length-frame body,
        ))
]

-- a record whose payload fits a frame
abbrev pub IsLogged : Record → Type 0
IsLogged r = IsRecord r × (length (payload r) < 2 ^ 32)

pub read_frame-encode :
    (r : Record) → IsLogged r → read_frame (encode r) ≡ intact r (length (encode r))
unfolding encode
read_frame-encode r h = read_frame-frame (payload r) r h.1 (decode-payload r h.0)
