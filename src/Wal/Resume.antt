-- ===== src/Wal/Resume.antt =====
-- The scan of a file goes on where the last commit ended (`replay` of
-- crates/epiphany-persist/src/wal.rs).
use epiphany.Base.{
  ◌≤◌, ◌≡◌, refl, ap, sym, ◌∙◌, subst, inl, inr, none, ◌++◌, length, take, drop, arith,
  length-append, length-take, length-drop, Bool-cases, ◌==◌, true,
}
use epiphany.Base.Result.{ok, ok-injective}
use epiphany.Base.Eq.{list_beq}
use epiphany.Bytes.{Bytes, from_le}
use epiphany.Bytes.Slices.{drop-append_left, take-take, take-append_le, drop-append_le, drop-take}
use epiphany.Wal.{wal_magic, wal_version}
use epiphany.Wal.Scan.{begun, has_header, replay, finish, Replay, Progress, loop}
use epiphany.Wal.Frames.{part_eq}
use epiphany.Wal.Recovery.{clean, progress_eq, Kept, loop-Kept}

-- the scan of a whole file, cut where the last commit ended
resumed :
    (bytes more : Bytes) (out : Progress)
    → 8 ≤ length bytes
    → Kept (drop 8 bytes) 8 begun out
    → (8 ≤ out.good)
      × (out.good ≤ length bytes)
      × (loop (drop 8 (take out.good bytes ++ more)) 8 begun ≡ loop more out.good (clean out))
resumed bytes more out h (inl c) = (
  omega (arith, c.0),
  omega (arith, c.0),
  ap (λ n. loop (drop 8 (take n bytes ++ more)) 8 begun) c.0
      ∙ ap (λ bs. loop bs 8 begun)
          (ap (λ n. drop n (take 8 bytes ++ more)) {x = 8} (omega (arith, length-take 8 bytes))
            ∙ drop-append_left (take 8 bytes) more)
      ∙ ap (λ n. loop more n begun) (sym c.0)
      ∙ ap (λ u. loop more out.good u) (progress_eq begun (clean out) (sym c.1) refl (sym c.0)),
)
resumed bytes more out h (inr c) = (
  omega (arith, c.0),
  omega (arith, c.1, length-drop 8 bytes),
  ap (λ bs. loop bs 8 begun)
        (drop-append_le 8 (take out.good bytes) more
            (omega (arith, c.0, c.1, length-take out.good bytes, length-drop 8 bytes))
          ∙ ap (λ bs. bs ++ more) (drop-take 8 out.good bytes))
      ∙ c.2 more,
)

-- The header is read from the first eight bytes.
pub has_header-length : (bytes : Bytes) → has_header bytes ≡ true → 8 ≤ length bytes
unfolding has_header
has_header-length bytes h = ground arith

pub has_header-prefix :
    (bytes other : Bytes)
    → take 8 other ≡ take 8 bytes
    → 8 ≤ length other
    → has_header bytes ≡ true
    → has_header other ≡ true
unfolding has_header
has_header-prefix bytes other e l h =
    let magic = ap (λ t. list_beq t wal_magic) (part_eq 8 0 6 other bytes e (omega arith)) in
    let version = ap (λ t. from_le t == wal_version) (part_eq 8 6 2 other bytes e (omega arith)) in
    ground (arith, magic, version)

pub replay-finish :
    (bytes : Bytes)
    → has_header bytes ≡ true
    → replay bytes ≡ ok (finish bytes (loop (drop 8 bytes) 8 begun))
unfolding replay
replay-finish bytes h = rw (h, replay)

pub replay-eq-ok :
    (bytes : Bytes) (result : Replay)
    → replay bytes ≡ ok result
    → (has_header bytes ≡ true) × (finish bytes (loop (drop 8 bytes) 8 begun) ≡ result)
unfolding replay
replay-eq-ok bytes result h = elim (Bool-cases (has_header bytes)) [
  | inl e ↦ (
    e,
    ok-injective (finish bytes (loop (drop 8 bytes) 8 begun)) result
        (sym (replay-finish bytes e) ∙ h),
  )
  | inr e ↦ absurd (cc)
]

-- where a scan of a log goes on: its records are kept, no batch is open
abbrev pub resumption : Replay → Progress
resumption result = record { records = result.records; batch = none; good = result.good_len }

abbrev pub Resumed : Bytes → Bytes → Replay → Type 0
Resumed bytes more result =
    (8 ≤ result.good_len)
    × (result.good_len ≤ length bytes)
    × (replay (take result.good_len bytes ++ more)
        ≡ ok (
            finish (take result.good_len bytes ++ more)
              (loop more result.good_len (resumption result))))

pub replay-resume :
    (bytes more : Bytes) (result : Replay) → replay bytes ≡ ok result → Resumed bytes more result
replay-resume bytes more result h =
    let opened = replay-eq-ok bytes result h in
    let long = has_header-length bytes opened.0 in
    let out = (loop (drop 8 bytes) 8 begun).0 in
    let kept =
      resumed bytes more out long
        (loop-Kept (length (drop 8 bytes)) (drop 8 bytes) 8 begun (omega arith)) in
    let cut = take out.good bytes in
    subst (Resumed bytes more) opened.1 (
      kept.0,
      kept.1,
      replay-finish (cut ++ more) (
            has_header-prefix bytes (cut ++ more)
              (take-append_le 8 cut more (omega (arith, kept, length-take out.good bytes))
                ∙ take-take 8 out.good bytes kept.0)
              (omega (arith, kept, length-take out.good bytes, length-append cut more)) opened.0)
          ∙ ap (λ x. ok (finish (cut ++ more) x)) kept.2,
    )
