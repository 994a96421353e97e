-- ===== src/Wal/Ends.antt =====
-- The scan of a log comes to an end (`replay` of crates/epiphany-persist/src/wal.rs).
use epiphany.Base.{
  ℕ, zero, suc, ◌+◌, ◌*◌, ◌≤◌, ◌≡◌, ap, sym, ◌∙◌, subst, inl, inr, Option, none, some, length, drop,
  arith, length-drop, Option-cases,
}
use epiphany.Bytes.{Bytes}
use epiphany.Wal.{Record}
use epiphany.Wal.Scan.{past_end, broken, intact, read_frame, Progress, absorb, loop, advance}
use epiphany.Wal.Rounds.{
  Seen-cases, round-past_end, round-broken, round-intact, read_frame-IsFrame, loop-round,
}

-- A run of the loop, from the bytes at a position, in so many rounds behind the first: it is left at the
-- end of the file, at a bad frame, or at an end marker without a begin, and goes on behind every other
-- intact frame.
pub data Run : Bytes → ℕ → Progress → ℕ → Progress × Option ℕ → Type 0 where
  at_end :
      (rest : Bytes) (pos : ℕ) (s : Progress)
      → read_frame rest ≡ past_end
      → Run rest pos s 0 (s, none)
  at_broken :
      (rest : Bytes) (pos : ℕ) (s : Progress)
      → read_frame rest ≡ broken
      → Run rest pos s 0 (s, some pos)
  at_orphan :
      (rest : Bytes) (pos : ℕ) (s : Progress) (r : Record) (size : ℕ)
      → read_frame rest ≡ intact r size
      → absorb s r (pos + size) ≡ none
      → Run rest pos s 0 (s, some pos)
  onward :
      (rest : Bytes) (pos : ℕ) (s t : Progress) (r : Record) (size rounds : ℕ)
      (out : Progress × Option ℕ)
      → read_frame rest ≡ intact r size
      → absorb s r (pos + size) ≡ some t
      → Run (drop size rest) (pos + size) t rounds out
      → Run rest pos s (suc rounds) out

-- A run of at most one round for eight bytes ends with the result.
abbrev pub Ends : Bytes → ℕ → Progress → Progress × Option ℕ → Type 0
Ends rest pos s out = (rounds : ℕ) × Run rest pos s rounds out × (8 * rounds ≤ length rest)

-- One more round, in front of runs that end.
round-Ends :
    (rest : Bytes) (pos : ℕ) (s : Progress)
    → ((size : ℕ) (t : Progress)
        → 8 ≤ size
        → size ≤ length rest
        → Ends (drop size rest) (pos + size) t (loop (drop size rest) (pos + size) t))
    → Ends rest pos s (loop rest pos s)
round-Ends rest pos s ih = elim (Seen-cases (read_frame rest)) [
  | inl e ↦
      subst (Ends rest pos s) (sym (loop-round rest pos s ∙ round-past_end loop rest pos s e))
        (0, at_end rest pos s e, omega arith)
  | inr (inl e) ↦
      subst (Ends rest pos s) (sym (loop-round rest pos s ∙ round-broken loop rest pos s e))
        (0, at_broken rest pos s e, omega arith)
  | inr (inr (r, size, e)) ↦
      let framed = read_frame-IsFrame rest r size e in
      let read = loop-round rest pos s ∙ round-intact loop rest pos s r size e in
      elim (Option-cases (absorb s r (pos + size))) [
        | inl k ↦
            subst (Ends rest pos s) (sym (read ∙ ap (advance loop rest pos s size) k))
              (0, at_orphan rest pos s r size e k, omega arith)
        | inr (t, k) ↦
            let (rounds, behind, few) = ih size t (omega (arith, framed.0)) framed.1 in
            subst (Ends rest pos s) (sym (read ∙ ap (advance loop rest pos s size) k)) (
              suc rounds,
              onward rest pos s t r size rounds (loop (drop size rest) (pos + size) t) e k behind,
              omega (arith, few, framed.0, framed.1, length-drop size rest),
            )
      ]
]

Ends-within :
    (bound : ℕ) (rest : Bytes) (pos : ℕ) (s : Progress)
    → length rest ≤ bound
    → Ends rest pos s (loop rest pos s)
Ends-within zero rest pos s h =
    round-Ends rest pos s (λ size t h8 hl. absurd (omega (arith, h, h8, hl)))
Ends-within (suc bound) rest pos s h = round-Ends rest pos s (λ size t h8 hl.
    Ends-within bound (drop size rest) (pos + size) t
      (omega (arith, h8, hl, h, length-drop size rest)))

-- The loop of `replay` ends by its own tests: from any bytes, in at most one round for eight bytes behind
-- the first, it comes to the end of the file, to a bad frame, or to an end marker without a begin, and
-- its result is that of this run.
pub loop-Ends : (rest : Bytes) (pos : ℕ) (s : Progress) → Ends rest pos s (loop rest pos s)
loop-Ends rest pos s = Ends-within (length rest) rest pos s (omega arith)
