-- ===== src/Wal/Codec.antt =====
-- `decode` inverts the payload of `encode` (crates/epiphany-persist/src/wal.rs).
use mathlib.Core.List.{append_assoc}
use epiphany.Base.{
  ℕ, ◌+◌, ◌%◌, ◌^◌, ◌<◌, ◌≡◌, refl, ap, sym, ◌∙◌, some, List, [], ◌∷◌, ◌++◌, length, arith, All,
  length-append,
}
use epiphany.Base.Maybe.{bind-some}
use epiphany.Text.{Text}
use epiphany.Fixed.{IsI64}
use epiphany.Bytes.{Bytes, to_le, from_le, length-to_le, from_le-to_le}
use epiphany.Bytes.Slices.{get_range, get_range-append}
use epiphany.Bytes.Utf8.{as_bytes, IsScalar}
use epiphany.Bytes.Utf8Decoded.{from_utf8-as_bytes}
use epiphany.Wal.{
  Record, set_leaf, set_string, batch_begin, batch_end, set_pin, write_indices, write_coord,
  write_str, read_indices, read_coord, read_str,
}

abbrev pub IsWord : ℕ → Type 0
IsWord v = v < 2 ^ 32

abbrev pub IsCoord : List ℕ → Type 0
IsCoord coord = (length coord < 2 ^ 16) × All IsWord coord

abbrev pub IsText : Text → Type 0
IsText s = All IsScalar s × (length (as_bytes s) < 2 ^ 32)

-- what the fields of a record can hold
abbrev pub IsRecord : Record → Type 0
IsRecord (set_leaf coord value) = IsCoord coord × IsI64 value.scaled
IsRecord (set_string coord value) = IsCoord coord × IsText value
IsRecord (batch_begin count) = IsWord count
IsRecord batch_end = Unit
IsRecord (set_pin dimension element pinned) = IsText dimension × IsText element

pub from_le-word : (v : ℕ) → v < 2 ^ 32 → from_le (to_le 4 v) ≡ v
from_le-word v h = from_le-to_le 4 v (omega arith)

read_indices-write_indices :
    (rest pre post : Bytes) (coord : List ℕ) (pos : ℕ)
    → All IsWord coord
    → rest ≡ pre ++ (write_indices coord ++ post)
    → pos ≡ length pre
    → read_indices rest pos (length coord) ≡ some (coord, pos + length (write_indices coord))
unfolding read_indices write_indices
read_indices-write_indices rest pre post [] pos h e p = ap (λ n. some ([], n)) (omega arith)
read_indices-write_indices rest pre post (index ∷ coord) pos h e p =
    let word = to_le 4 index in
    let split : rest ≡ pre ++ (word ++ (write_indices coord ++ post)) =
      e ∙ ap (λ t. pre ++ t) (append_assoc word (write_indices coord) post) in
    let here_ =
      get_range-append rest pre word (write_indices coord ++ post) pos (pos + 4) split p
        (omega (arith, length-to_le 4 index)) in
    let more =
      read_indices-write_indices rest (pre ++ word) post coord (pos + 4) h.1
        (split ∙ sym (append_assoc pre word (write_indices coord ++ post)))
        (omega (arith, p, length-append pre word, length-to_le 4 index)) in
    bind-some _ word here_ (
      bind-some _ (coord, pos + 4 + length (write_indices coord)) more
        (ap (λ v. some (v ∷ coord, pos + 4 + length (write_indices coord))) (from_le-word index h.0)
          ∙ ap (λ n. some (index ∷ coord, n))
              (omega (arith, length-append word (write_indices coord), length-to_le 4 index))))

pub read_coord-write_coord :
    (rest post : Bytes) (coord : List ℕ)
    → IsCoord coord
    → rest ≡ write_coord coord ++ post
    → read_coord rest ≡ some (coord, length (write_coord coord))
unfolding read_coord write_coord
read_coord-write_coord rest post coord h e =
    let rank = to_le 2 (length coord % 2 ^ 16) in
    let split : rest ≡ rank ++ (write_indices coord ++ post) =
      e ∙ append_assoc rank (write_indices coord) post in
    let count : from_le rank ≡ length coord =
      from_le-to_le 2 (length coord % 2 ^ 16) (omega arith) ∙ omega (arith, h) in
    bind-some _ rank
      (get_range-append rest [] rank (write_indices coord ++ post) 0 2 split refl
        (omega (arith, length-to_le 2 (length coord % 2 ^ 16))))
      (ap (λ n. read_indices rest 2 n) count
        ∙ read_indices-write_indices rest rank post coord 2 h.1 split
            (omega (arith, length-to_le 2 (length coord % 2 ^ 16)))
        ∙ ap (λ n. some (coord, n))
            (omega (
              arith,
              length-append rank (write_indices coord),
              length-to_le 2 (length coord % 2 ^ 16),
            )))

-- a text behind its length, from a position on
pub read_text :
    (rest pre post : Bytes) (s : Text) (pos : ℕ)
    → IsText s
    → rest ≡ pre ++ (write_str s ++ post)
    → pos ≡ length pre
    → (get_range rest pos (pos + 4) ≡ some (to_le 4 (length (as_bytes s) % 2 ^ 32)))
      × (from_le (to_le 4 (length (as_bytes s) % 2 ^ 32)) ≡ length (as_bytes s))
      × (get_range rest (pos + 4) (pos + 4 + length (as_bytes s)) ≡ some (as_bytes s))
unfolding write_str
read_text rest pre post s pos h e p =
    let bytes = as_bytes s in
    let prefix = to_le 4 (length bytes % 2 ^ 32) in
    let split : rest ≡ pre ++ (prefix ++ (bytes ++ post)) =
      e ∙ ap (λ t. pre ++ t) (append_assoc prefix bytes post) in
    (
      get_range-append rest pre prefix (bytes ++ post) pos (pos + 4) split p
          (omega (arith, length-to_le 4 (length bytes % 2 ^ 32))),
      from_le-word (length bytes % 2 ^ 32) (omega arith) ∙ omega (arith, h),
      get_range-append rest (pre ++ prefix) bytes post (pos + 4) (pos + 4 + length bytes)
          (split ∙ sym (append_assoc pre prefix (bytes ++ post)))
          (omega (arith, p, length-append pre prefix, length-to_le 4 (length bytes % 2 ^ 32))) refl,
    )

length-write_str : (s : Text) → length (write_str s) ≡ 4 + length (as_bytes s)
unfolding write_str
length-write_str s = omega (
  arith,
  length-append (to_le 4 (length (as_bytes s) % 2 ^ 32)) (as_bytes s),
  length-to_le 4 (length (as_bytes s) % 2 ^ 32),
)

pub read_str-write_str :
    (rest post : Bytes) (s : Text)
    → IsText s
    → rest ≡ write_str s ++ post
    → read_str rest ≡ some (s, length (write_str s))
unfolding read_str
read_str-write_str rest post s h e =
    let parts = read_text rest [] post s 0 h e refl in
    let prefix = to_le 4 (length (as_bytes s) % 2 ^ 32) in
    bind-some _ prefix parts.0 (
      bind-some _ (as_bytes s) (ap (λ n. get_range rest 4 (4 + n)) parts.1 ∙ parts.2) (
        bind-some _ s (from_utf8-as_bytes s h.0)
          (ap (λ n. some (s, n)) (omega (arith, parts.1, length-write_str s)))))
