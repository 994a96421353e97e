-- ===== src/Wal/Rounds.antt =====
-- The rounds of the scan of a log, and the equation of its loop
-- (crates/epiphany-persist/src/wal.rs).
use epiphany.Base.{
  ℕ, zero, suc, ◌+◌, ◌≤◌, ◌≡◌, refl, ap, sym, ◌∙◌, ◌⊎◌, inl, inr, Option, none, some, [], ◌∷◌,
  length, take, drop, arith, length-drop,
}
use epiphany.Bytes.{Bytes, from_le}
use epiphany.Wal.{Record, decode}
use epiphany.Wal.Crc.{crc32}
use epiphany.Wal.Scan.{
  Seen, past_end, broken, intact, check_payload, read_frame, Progress, absorb, Next, advance, act,
  round, scan, loop,
}

-- What an intact frame is.
abbrev pub IsFrame : Bytes → Record → ℕ → Type 0
IsFrame rest r size =
    (size ≡ 4 + from_le (take 4 rest) + 4)
    × (size ≤ length rest)
    × (crc32 (take (from_le (take 4 rest)) (drop 4 rest))
        ≡ from_le (take 4 (drop (4 + from_le (take 4 rest)) rest)))
    × (decode (take (from_le (take 4 rest)) (drop 4 rest)) ≡ some r)

check_payload-intact :
    (body : Bytes) (crc size : ℕ) (r : Record) (n : ℕ)
    → check_payload body crc size ≡ intact r n
    → (size ≡ n) × (crc32 body ≡ crc) × (decode body ≡ some r)
unfolding check_payload
check_payload-intact body crc size r n h = ground arith

check_payload-eq :
    (body : Bytes) (crc size : ℕ) (r : Record)
    → crc32 body ≡ crc
    → decode body ≡ some r
    → check_payload body crc size ≡ intact r size
unfolding check_payload
check_payload-eq body crc size r hc hd = ground arith

pub read_frame-IsFrame :
    (rest : Bytes) (r : Record) (size : ℕ) → read_frame rest ≡ intact r size → IsFrame rest r size
unfolding read_frame
read_frame-IsFrame rest r size h =
    let len = from_le (take 4 rest) in
    ground (
      arith,
      check_payload-intact (take len (drop 4 rest)) (from_le (take 4 (drop (4 + len) rest)))
          (4 + len + 4) r size,
    )

pub IsFrame-read_frame :
    (rest : Bytes) (r : Record) (size : ℕ) → IsFrame rest r size → read_frame rest ≡ intact r size
unfolding read_frame
IsFrame-read_frame rest r size h =
    let len = from_le (take 4 rest) in
    ground (
      arith,
      check_payload-eq (take len (drop 4 rest)) (from_le (take 4 (drop (4 + len) rest)))
          (4 + len + 4) r h.2 h.3,
    )

pub Seen-cases :
    (seen : Seen)
    → (seen ≡ past_end) ⊎ (seen ≡ broken) ⊎ ((r : Record) × (size : ℕ) × (seen ≡ intact r size))
Seen-cases past_end = inl refl
Seen-cases broken = inr (inl refl)
Seen-cases (intact r size) = inr (inr (r, size, refl))

module _ (next : Next) (rest : Bytes) (pos : ℕ) (s : Progress) where
  pub round-past_end : read_frame rest ≡ past_end → round next rest pos s ≡ (s, none)
  unfolding round
  round-past_end e = ap (act next rest pos s) e

  pub round-broken : read_frame rest ≡ broken → round next rest pos s ≡ (s, some pos)
  unfolding round
  round-broken e = ap (act next rest pos s) e

  pub round-intact :
      (r : Record) (size : ℕ)
      → read_frame rest ≡ intact r size
      → round next rest pos s ≡ advance next rest pos s size (absorb s r (pos + size))
  unfolding round
  round-intact r size e = ap (act next rest pos s) e

advance_ext :
    (f g : Next) (rest : Bytes) (pos : ℕ) (s : Progress) (size : ℕ)
    → ((t : Progress) → f (drop size rest) (pos + size) t ≡ g (drop size rest) (pos + size) t)
    → (o : Option Progress) → advance f rest pos s size o ≡ advance g rest pos s size o
advance_ext f g rest pos s size h none = refl
advance_ext f g rest pos s size h (some t) = h t

-- Two rounds agree when what follows them does.
round_ext :
    (f g : Next) (rest : Bytes) (pos : ℕ) (s : Progress)
    → ((size : ℕ) (t : Progress)
        → 8 ≤ size
        → size ≤ length rest
        → f (drop size rest) (pos + size) t ≡ g (drop size rest) (pos + size) t)
    → round f rest pos s ≡ round g rest pos s
round_ext f g rest pos s h = elim (Seen-cases (read_frame rest)) [
  | inl e ↦ round-past_end f rest pos s e ∙ sym (round-past_end g rest pos s e)
  | inr (inl e) ↦ round-broken f rest pos s e ∙ sym (round-broken g rest pos s e)
  | inr (inr (r, size, e)) ↦
      let framed = read_frame-IsFrame rest r size e in
      round-intact f rest pos s r size e
      ∙ advance_ext f g rest pos s size (λ t. h size t (omega (arith, framed.0)) framed.1)
          (absorb s r (pos + size))
      ∙ sym (round-intact g rest pos s r size e)
]

pub read_frame-nil : read_frame [] ≡ past_end
unfolding read_frame
read_frame-nil = refl

scan_fuel :
    (f g : ℕ) (rest : Bytes) (pos : ℕ) (s : Progress)
    → length rest ≤ f
    → length rest ≤ g
    → scan f rest pos s ≡ scan g rest pos s
unfolding scan
scan_fuel zero zero rest pos s hf hg = refl
scan_fuel zero (suc g) [] pos s hf hg = sym (round-past_end (scan g) [] pos s read_frame-nil)
scan_fuel zero (suc g) (b ∷ rest) pos s hf hg = elim hf [ ]
scan_fuel (suc f) zero [] pos s hf hg = round-past_end (scan f) [] pos s read_frame-nil
scan_fuel (suc f) zero (b ∷ rest) pos s hf hg = elim hg [ ]
scan_fuel (suc f) (suc g) rest pos s hf hg = round_ext (scan f) (scan g) rest pos s (λ size t h8 hl.
    scan_fuel f g (drop size rest) (pos + size) t (omega (arith, length-drop size rest))
      (omega (arith, length-drop size rest)))

-- More fuel than bytes makes no difference.
pub loop-round : (rest : Bytes) (pos : ℕ) (s : Progress) → loop rest pos s ≡ round loop rest pos s
unfolding loop scan
loop-round [] pos s = sym (round-past_end loop [] pos s read_frame-nil)
loop-round (b ∷ rest) pos s = round_ext (scan (length rest)) loop (b ∷ rest) pos s (λ size t h8 hl.
    scan_fuel (length rest) (length (drop size (b ∷ rest))) (drop size (b ∷ rest)) (pos + size) t
      (omega (arith, length-drop size (b ∷ rest))) (omega arith))
