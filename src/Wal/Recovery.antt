-- ===== src/Wal/Recovery.antt =====
-- What a scan of any file keeps, it keeps when the file is cut to `good_len`, and a scan of what is
-- appended there goes on from it (`replay` of crates/epiphany-persist/src/wal.rs).
use mathlib.Core.List.{append_assoc}
use mathlib.Core.Option.{some-injective}
use epiphany.Base.{
  ℕ, zero, suc, ◌+◌, ◌-◌, ◌≤◌, ◌≡◌, refl, ap, sym, ◌∙◌, subst, ◌⊎◌, inl, inr, Option, none, some,
  List, [], ◌∷◌, ◌++◌, length, take, drop, arith, length-take, length-drop, Option-cases,
}
use epiphany.Bytes.{Bytes}
use epiphany.Bytes.Slices.{drop-append_left, take-split, take-take}
use epiphany.Wal.{Record, set_leaf, set_string, batch_begin, batch_end, set_pin}
use epiphany.Wal.Scan.{intact, read_frame, Progress, absorb, loop, push_cell, advance, close_batch}
use epiphany.Wal.Rounds.{
  read_frame-IsFrame, read_frame-nil, Seen-cases, loop-round, round-past_end, round-broken,
  round-intact,
}
use epiphany.Wal.Frames.{read_frame-prefix, read_frame-append}

-- a scan between two batches
abbrev pub clean : Progress → Progress
clean s = record { records = s.records; batch = none; good = s.good }

abbrev pub Committed : Progress → Progress → Type 0
Committed s t = (t.good ≡ s.good) × (t.records ≡ s.records)

abbrev Absorbed : Progress → Progress → ℕ → Type 0
Absorbed s t frame_end = Committed s t ⊎ ((t.good ≡ frame_end) × (t.batch ≡ none))

push_cell-cases :
    (s : Progress) (o : Option (List Record)) (cell : Record) (frame_end : ℕ)
    → Absorbed s (push_cell s o cell frame_end) frame_end
push_cell-cases s none cell frame_end = inr (refl, refl)
push_cell-cases s (some buffered) cell frame_end = inl (refl, refl)

pushed :
    (s t : Progress) (cell : Record) (frame_end : ℕ)
    → some (push_cell s s.batch cell frame_end) ≡ some t
    → Absorbed s t frame_end
pushed s t cell frame_end h =
    subst (λ u. Absorbed s u frame_end) (some-injective (push_cell s s.batch cell frame_end) t h)
      (push_cell-cases s s.batch cell frame_end)

closed :
    (s t : Progress) (o : Option (List Record)) (frame_end : ℕ)
    → close_batch s o frame_end ≡ some t
    → Absorbed s t frame_end
closed s t none frame_end h = cc
closed s t (some buffered) frame_end h =
    let e =
      some-injective (record { records = s.records ++ buffered; batch = none; good = frame_end }) t
        h in
    subst (λ u. Absorbed s u frame_end) e (inr (refl, refl))

-- A record commits nothing, or all that was read.
absorb-cases :
    (s t : Progress) (r : Record) (frame_end : ℕ)
    → absorb s r frame_end ≡ some t
    → Absorbed s t frame_end
unfolding absorb
absorb-cases s t (batch_begin count) frame_end h =
    subst (λ u. Absorbed s u frame_end) (some-injective (record s { batch = some [] }) t h)
      (inl (refl, refl))
absorb-cases s t batch_end frame_end h = closed s t s.batch frame_end h
absorb-cases s t (set_leaf coord value) frame_end h = pushed s t (set_leaf coord value) frame_end h
absorb-cases s t (set_string coord value) frame_end h =
    pushed s t (set_string coord value) frame_end h
absorb-cases s t (set_pin dimension element pinned) frame_end h =
    pushed s t (set_pin dimension element pinned) frame_end h

-- The bytes from a position on up to the last commit.
abbrev Resumes : Bytes → ℕ → Progress → Progress → Type 0
Resumes rest pos s out =
    (pos + 8 ≤ out.good)
    × (out.good ≤ pos + length rest)
    × ((more : Bytes)
        → loop (take (out.good - pos) rest ++ more) pos s ≡ loop more out.good (clean out))

-- an intact frame, and what follows it
pub loop-intact :
    (rest more : Bytes) (pos : ℕ) (s t : Progress) (r : Record) (size : ℕ)
    → read_frame rest ≡ intact r size
    → absorb s r (pos + size) ≡ some t
    → size ≡ length rest
    → loop (rest ++ more) pos s ≡ loop more (pos + size) t
loop-intact rest more pos s t r size e a l =
    loop-round (rest ++ more) pos s
    ∙ round-intact loop (rest ++ more) pos s r size (read_frame-append rest more r size e)
    ∙ ap (λ o. advance loop (rest ++ more) pos s size o) a
    ∙ ap (λ t'. loop t' (pos + size) t)
        (ap (λ n. drop n (rest ++ more)) l ∙ drop-append_left rest more)

pub progress_eq :
    (s t : Progress) → s.records ≡ t.records → s.batch ≡ t.batch → s.good ≡ t.good → s ≡ t
progress_eq s t p q g = λ i. record { records = p i; batch = q i; good = g i }

-- a frame cut out of a file
cut_frame :
    (rest more : Bytes) (pos : ℕ) (s t : Progress) (r : Record) (size : ℕ)
    → read_frame rest ≡ intact r size
    → absorb s r (pos + size) ≡ some t
    → loop (take size rest ++ more) pos s ≡ loop more (pos + size) t
cut_frame rest more pos s t r size e a =
    let framed = read_frame-IsFrame rest r size e in
    loop-intact (take size rest) more pos s t r size
      (read_frame-prefix rest (take size rest) r size e (take-take size size rest (omega arith))
        (omega (arith, framed.1, length-take size rest)))
      a (omega (arith, framed.1, length-take size rest))

abbrev pub Kept : Bytes → ℕ → Progress → Progress → Type 0
Kept rest pos s out = Committed s out ⊎ Resumes rest pos s out

-- one frame, and the scan of the rest
Kept-frame :
    (rest : Bytes) (pos : ℕ) (s t out : Progress) (r : Record) (size : ℕ)
    → read_frame rest ≡ intact r size
    → absorb s r (pos + size) ≡ some t
    → Kept (drop size rest) (pos + size) t out
    → Kept rest pos s out
Kept-frame rest pos s t out r size e a (inl c) =
    let framed = read_frame-IsFrame rest r size e in
    elim (absorb-cases s t r (pos + size) a) [
      | inl d ↦ inl (c.0 ∙ d.0, c.1 ∙ d.1)
      | inr d ↦ inr (
        omega (arith, c.0, d.0, framed.0),
        omega (arith, c.0, d.0, framed.1),
        λ more.
            ap (λ n. loop (take n rest ++ more) pos s) (omega (arith, c.0, d.0))
            ∙ cut_frame rest more pos s t r size e a
            ∙ ap (λ n. loop more n t) (sym (c.0 ∙ d.0))
            ∙ ap (λ u. loop more out.good u) (progress_eq t (clean out) (sym c.1) d.1 (sym c.0)),
      )
    ]
Kept-frame rest pos s t out r size e a (inr c) =
    let framed = read_frame-IsFrame rest r size e in
    inr (
      omega (arith, c.0),
      omega (arith, c.1, framed.1, length-drop size rest),
      λ more.
          let inner = take (out.good - pos - size) (drop size rest) in
          ap (λ bs. loop (bs ++ more) pos s)
            (take-split size (out.good - pos) rest (omega (arith, c.0)))
          ∙ ap (λ bs. loop bs pos s) (append_assoc (take size rest) inner more)
          ∙ cut_frame rest (inner ++ more) pos s t r size e a
          ∙ ap (λ n. loop (take n (drop size rest) ++ more) (pos + size) t) (omega arith)
          ∙ c.2 more,
    )

pub stays : (s : Progress) (o : Option ℕ) (x : Progress × Option ℕ) → x ≡ (s, o) → Committed s x.0
stays s o x e =
    (ap (λ (y : Progress × Option ℕ). y.0.good) e, ap (λ (y : Progress × Option ℕ). y.0.records) e)

pub loop-Kept :
    (fuel : ℕ) (rest : Bytes) (pos : ℕ) (s : Progress)
    → length rest ≤ fuel
    → Kept rest pos s ((loop rest pos s).0)
loop-Kept zero [] pos s h = inl (
    stays s none (loop [] pos s)
      (loop-round [] pos s ∙ round-past_end loop [] pos s read_frame-nil))
loop-Kept zero (b ∷ rest) pos s h = elim h [ ]
loop-Kept (suc fuel) rest pos s h = elim (Seen-cases (read_frame rest)) [
  | inl e ↦
      inl
        (stays s none (loop rest pos s) (loop-round rest pos s ∙ round-past_end loop rest pos s e))
  | inr (inl e) ↦ inl (
      stays s (some pos) (loop rest pos s) (loop-round rest pos s ∙ round-broken loop rest pos s e))
  | inr (inr (r, size, e)) ↦
      let framed = read_frame-IsFrame rest r size e in
      let opened = loop-round rest pos s ∙ round-intact loop rest pos s r size e in
      elim (Option-cases (absorb s r (pos + size))) [
        | inl a ↦ inl (
            stays s (some pos) (loop rest pos s)
              (opened ∙ ap (λ o. advance loop rest pos s size o) a))
        | inr (t, a) ↦
            subst (λ (x : Progress × Option ℕ). Kept rest pos s x.0)
              (sym (opened ∙ ap (λ o. advance loop rest pos s size o) a))
              (Kept-frame rest pos s t ((loop (drop size rest) (pos + size) t).0) r size e a (
                loop-Kept fuel (drop size rest) (pos + size) t
                  (omega (arith, framed.0, length-drop size rest))))
      ]
]
