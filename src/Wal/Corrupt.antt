-- ===== src/Wal/Corrupt.antt =====
-- Which files a scan refuses, and when it reports an intact frame behind a broken one
-- (crates/epiphany-persist/src/wal.rs).
use mathlib.Core.Option.{some-injective}
use epiphany.Base.{
  ℕ, zero, suc, ◌+◌, ◌-◌, ◌≤◌, ◌<◌, ◌≡◌, refl, ap, sym, ◌∙◌, ◌↔◌, ◌≢◌, inl, inr, Bool, true, false,
  ◌||◌, Option, none, some, [], ◌∷◌, ◌++◌, length, take, drop, arith, Bool-cases, length-take,
  length-drop,
}
use epiphany.Base.Eq.{list_beq, list_beq_iff}
use epiphany.Base.Result.{ok, err}
use epiphany.Bytes.{Bytes, from_le, to_le}
use epiphany.Bytes.Slices.{drop-drop, drop-nil, take-split}
use epiphany.Wal.{header, wal_magic}
use epiphany.Wal.Scan.{
  read_frame, is_intact, any_intact, has_intact_frame_after, has_header, replay, Replay, bad_header,
  loop, begun, corrupt,
}
use epiphany.Wal.Rounds.{read_frame-nil}
use epiphany.Wal.Resume.{has_header-prefix, replay-finish, replay-eq-ok}

-- an intact frame at a position
abbrev pub IsIntactAt : Bytes → ℕ → Type 0
IsIntactAt bytes i = is_intact (read_frame (drop i bytes)) ≡ true

any_intact-IsIntactAt : (rest : Bytes) → any_intact rest ≡ true → (i : ℕ) × IsIntactAt rest i
unfolding any_intact
any_intact-IsIntactAt [] h = cc
any_intact-IsIntactAt (b ∷ rest) h = elim (Bool-cases (is_intact (read_frame (b ∷ rest)))) [
  | inl e ↦ (0, e)
  | inr e ↦
      let found =
        any_intact-IsIntactAt rest (ap (λ (c : Bool). c || any_intact rest) (sym e) ∙ h) in
      (suc found.0, found.1)
]

or_right : (a b : Bool) → b ≡ true → (a || b) ≡ true
or_right true b h = refl
or_right false b h = h

or_left : (a b : Bool) → a ≡ true → (a || b) ≡ true
or_left true b h = refl
or_left false b h = cc

true-ne-false : true ≢ false
true-ne-false e = cc

IsIntactAt-any_intact : (rest : Bytes) (i : ℕ) → IsIntactAt rest i → any_intact rest ≡ true
unfolding any_intact
IsIntactAt-any_intact [] i h = absurd (
    true-ne-false
      (sym h ∙ ap (λ t. is_intact (read_frame t)) (drop-nil i) ∙ ap is_intact read_frame-nil))
IsIntactAt-any_intact (b ∷ rest) zero h =
    or_left (is_intact (read_frame (b ∷ rest))) (any_intact rest) h
IsIntactAt-any_intact (b ∷ rest) (suc i) h =
    or_right (is_intact (read_frame (b ∷ rest))) (any_intact rest) (IsIntactAt-any_intact rest i h)

abbrev IsCorrupt : Bytes → Option ℕ → Type 0
IsCorrupt bytes o = (break_pos i : ℕ) × (o ≡ some break_pos) × (break_pos < i) × IsIntactAt bytes i

corrupt-IsCorrupt : (bytes : Bytes) (o : Option ℕ) → (corrupt bytes o ≡ true) ↔ IsCorrupt bytes o
unfolding has_intact_frame_after
corrupt-IsCorrupt bytes none = (λ h. cc, λ h. cc)
corrupt-IsCorrupt bytes (some break_pos) = (
  λ h.
      let found = any_intact-IsIntactAt (drop (break_pos + 1) bytes) h in
      (
        break_pos,
        break_pos + 1 + found.0,
        refl,
        omega arith,
        ap (λ t. is_intact (read_frame t)) (sym (drop-drop found.0 (break_pos + 1) bytes))
            ∙ found.1,
      ),
  λ h.
      let same : h.0 ≡ break_pos = some-injective h.0 break_pos (sym h.2) in
      let shift : break_pos + 1 + (h.1 - (break_pos + 1)) ≡ h.1 = omega (arith, same, h.3) in
      IsIntactAt-any_intact (drop (break_pos + 1) bytes) (h.1 - (break_pos + 1)) (
        ap (λ t. is_intact (read_frame t))
          (drop-drop (h.1 - (break_pos + 1)) (break_pos + 1) bytes ∙ ap (λ n. drop n bytes) shift)
        ∙ h.4),
)

-- A scan reports an intact tail exactly when it broke off at some position and an intact frame
-- stands at a later one, wherever frames begin.
pub replay-corrupt :
    (bytes : Bytes) (result : Replay)
    → replay bytes ≡ ok result
    → (result.corrupt_with_valid_tail ≡ true) ↔ (
        (break_pos i : ℕ) × ((loop (drop 8 bytes) 8 begun).1 ≡ some break_pos)
        × (break_pos < i)
        × IsIntactAt bytes i)
replay-corrupt bytes result h =
    let flag = ap (λ (r : Replay). r.corrupt_with_valid_tail) ((replay-eq-ok bytes result h).1) in
    let exact = corrupt-IsCorrupt bytes ((loop (drop 8 bytes) 8 begun).1) in
    (λ e. exact.0 (flag ∙ e), λ e. sym flag ∙ exact.1 e)

-- the version of the header
two_bytes : (xs : Bytes) → length xs ≡ 2 → from_le xs ≡ 1 → xs ≡ 1 ∷ 0 ∷ []
unfolding from_le
two_bytes [] l h = absurd (omega arith)
two_bytes (a ∷ []) l h = absurd (omega arith)
two_bytes (a ∷ b ∷ []) l h =
    let low : a ≡ 1 = omega arith in let high : b ≡ 0 = omega arith in λ i. low i ∷ high i ∷ []
two_bytes (a ∷ b ∷ c ∷ xs) l h = absurd (omega arith)

has_header-parts :
    (bytes : Bytes)
    → has_header bytes ≡ true
    → (8 ≤ length bytes)
      × (list_beq (take 6 bytes) wal_magic ≡ true)
      × (from_le (take 2 (drop 6 bytes)) ≡ 1)
unfolding has_header
has_header-parts bytes h = ground arith

has_header-header : (bytes : Bytes) → has_header bytes ≡ true → take 8 bytes ≡ header
unfolding header to_le
has_header-header bytes h =
    let parts = has_header-parts bytes h in
    let version =
      two_bytes (take 2 (drop 6 bytes))
        (omega (arith, parts.0, length-take 2 (drop 6 bytes), length-drop 6 bytes)) parts.2 in
    let magic = (list_beq_iff (take 6 bytes) wal_magic).0 parts.1 in
    take-split 6 8 bytes (omega arith) ∙ λ i. magic i ++ version i

pub header-has_header : (bytes : Bytes) → take 8 bytes ≡ header → has_header bytes ≡ true
unfolding has_header header to_le from_le
header-has_header bytes e =
    let long : 8 ≤ length bytes = omega (arith, length-take 8 bytes, ap length e) in
    has_header-prefix header bytes e long refl

accepted : (bytes : Bytes) → has_header bytes ≡ true → replay bytes ≢ err bad_header
accepted bytes e h = let opened = sym (replay-finish bytes e) ∙ h in cc

refused : (bytes : Bytes) → has_header bytes ≡ false → replay bytes ≡ err bad_header
unfolding replay
refused bytes e = rw (e, replay)

-- A scan fails exactly when the file does not begin with the header.
pub replay-header : (bytes : Bytes) → (replay bytes ≡ err bad_header) ↔ (take 8 bytes ≢ header)
replay-header bytes = elim (Bool-cases (has_header bytes)) [
  | inl e ↦ (λ h p. accepted bytes e h, λ h. absurd (h (has_header-header bytes e)))
  | inr e ↦ (λ h p. true-ne-false (sym (header-has_header bytes p) ∙ e), λ h. refused bytes e)
]
