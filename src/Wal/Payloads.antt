-- ===== src/Wal/Payloads.antt =====
-- `decode` inverts the payload of `encode`, record by record
-- (crates/epiphany-persist/src/wal.rs).
use mathlib.Core.List.{append_assoc, append-nil}
use epiphany.Base.{
  ℕ, ◌+◌, ◌%◌, ◌^◌, ◌≡◌, refl, ap, sym, ◌∙◌, Bool, true, false, not, ◌==◌, inr, get_elem?,
  get_elem?-push, none, some, List, [], ◌∷◌, ◌++◌, length, drop, arith, length-append, le→leb,
  if◌then◌else◌,
}
use epiphany.Base.Maybe.{bind-some}
use epiphany.Base.Int.{ℤ}
use epiphany.Text.{Text}
use epiphany.Fixed.{IsI64}
use epiphany.Bytes.{
  Bytes, to_le, length-to_le, from_le-to_le, from_bits-to_bits, to_bits-lt, to_bits, from_bits,
}
use epiphany.Bytes.Slices.{get_range, get_range-append, drop-append_left}
use epiphany.Bytes.Utf8.{as_bytes}
use epiphany.Bytes.Utf8Decoded.{from_utf8-as_bytes}
use epiphany.Wal.{
  Record, set_leaf, set_string, batch_begin, batch_end, set_pin, write_coord, write_str, payload,
  decode, decode_leaf, decode_string, decode_batch_begin, decode_pin, get_from,
}
use epiphany.Wal.Codec.{
  IsCoord, IsText, IsRecord, from_le-word, read_coord-write_coord, read_text, read_str-write_str,
}

decode_leaf-payload :
    (coord : List ℕ) (z : ℤ)
    → IsCoord coord
    → IsI64 z
    → decode_leaf (write_coord coord ++ to_le 8 (to_bits z))
      ≡ some (set_leaf coord (record { scaled = z }))
unfolding decode_leaf
decode_leaf-payload coord z hc hz =
    let rest = write_coord coord ++ to_le 8 (to_bits z) in
    let bits = to_le 8 (to_bits z) in
    bind-some _ (coord, length (write_coord coord)) (read_coord-write_coord rest bits coord hc refl)
      (bind-some _ bits
        (get_range-append rest (write_coord coord) bits [] (length (write_coord coord))
          (length (write_coord coord) + 8)
          (ap (λ t. write_coord coord ++ t) (sym (append-nil bits))) refl
          (omega (arith, length-to_le 8 (to_bits z))))
        (ap (λ v. some (set_leaf coord (record { scaled = from_bits v })))
            (from_le-to_le 8 (to_bits z) (to_bits-lt z hz))
          ∙ ap (λ v. some (set_leaf coord (record { scaled = v }))) (from_bits-to_bits z hz)))

decode_string-payload :
    (coord : List ℕ) (value : Text)
    → IsCoord coord
    → IsText value
    → decode_string (write_coord coord ++ write_str value) ≡ some (set_string coord value)
unfolding decode_string
decode_string-payload coord value hc hv =
    let rest = write_coord coord ++ write_str value in
    let at_ = length (write_coord coord) in
    let parts =
      read_text rest (write_coord coord) [] value at_ hv
        (ap (λ t. write_coord coord ++ t) (sym (append-nil (write_str value)))) refl in
    bind-some _ (coord, at_) (read_coord-write_coord rest (write_str value) coord hc refl)
      (bind-some _ (to_le 4 (length (as_bytes value) % 2 ^ 32)) parts.0 (
        bind-some _ (as_bytes value)
          (ap (λ n. get_range rest (at_ + 4) (at_ + 4 + n)) parts.1 ∙ parts.2)
          (bind-some _ value (from_utf8-as_bytes value hv.0) refl)))

get_from-append : (xs ys : Bytes) → get_from (xs ++ ys) (length xs) ≡ some ys
get_from-append xs ys =
    ap (λ b. if b then some (drop (length xs) (xs ++ ys)) else none)
      (le→leb (length xs) (length (xs ++ ys)) (omega (arith, length-append xs ys)))
    ∙ ap (λ r. some r) (drop-append_left xs ys)

get_elem?-flag :
    (xs ys : Bytes) (b : ℕ) → get_elem? (xs ++ (ys ++ b ∷ [])) (length xs + length ys) ≡ some b
get_elem?-flag xs ys b =
    ap (λ t. get_elem? t (length xs + length ys)) (sym (append_assoc xs ys (b ∷ [])))
    ∙ ap (λ n. get_elem? ((xs ++ ys) ++ b ∷ []) n) (sym (length-append xs ys))
    ∙ (get_elem?-push (xs ++ ys) b b (length (xs ++ ys))).1 (inr (refl, refl))

flag_read :
    (dimension element : Text) (pinned : Bool)
    → some (set_pin dimension element (not ((if pinned then 1 else 0) == 0)))
      ≡ some (set_pin dimension element pinned)
flag_read dimension element true = refl
flag_read dimension element false = refl

decode_pin-payload :
    (dimension element : Text) (pinned : Bool)
    → IsText dimension
    → IsText element
    → decode_pin (write_str dimension ++ (write_str element ++ ((if pinned then 1 else 0) ∷ [])))
      ≡ some (set_pin dimension element pinned)
unfolding decode_pin
decode_pin-payload dimension element pinned hd he =
    let flag = (if pinned then 1 else 0) ∷ [] in
    let tail = write_str element ++ flag in
    let rest = write_str dimension ++ tail in
    bind-some _ (dimension, length (write_str dimension))
      (read_str-write_str rest tail dimension hd refl)
      (bind-some _ tail (get_from-append (write_str dimension) tail) (
        bind-some _ (element, length (write_str element))
          (read_str-write_str tail flag element he refl)
          (bind-some _ (if pinned then 1 else 0)
            (get_elem?-flag (write_str dimension) (write_str element) (if pinned then 1 else 0))
            (flag_read dimension element pinned))))

-- `decode` reads the payload of a record back.
pub decode-payload : (r : Record) → IsRecord r → decode (payload r) ≡ some r
unfolding decode payload decode_batch_begin
decode-payload (set_leaf coord value) h = decode_leaf-payload coord value.scaled h.0 h.1
decode-payload (set_string coord value) h = decode_string-payload coord value h.0 h.1
decode-payload (batch_begin count) h =
    bind-some _ (to_le 4 count)
      (get_range-append (to_le 4 count) [] (to_le 4 count) [] 0 4 (sym (append-nil (to_le 4 count)))
        refl (omega (arith, length-to_le 4 count)))
      (ap (λ n. some (batch_begin n)) (from_le-word count h))
decode-payload batch_end h = refl
decode-payload (set_pin dimension element pinned) h =
    decode_pin-payload dimension element pinned h.0 h.1
