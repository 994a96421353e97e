-- ===== src/Bytes/Utf8.antt =====
-- UTF-8: `str::as_bytes` and `str::from_utf8` of Rust's standard library, for texts as lists of
-- code points.
use epiphany.Base.{
  ℕ, ◌+◌, ◌-◌, ◌*◌, ◌/◌, ◌%◌, ◌≡◌, Bool, true, ◌&&◌, ◌||◌, not, Option, none, some, List, [], ◌∷◌,
  ◌++◌, ltb, leb, ◌==◌, if◌then◌else◌,
}
use epiphany.Text.{Text}

-- the bytes of one code point
unfoldable pub char_bytes : ℕ → List ℕ
char_bytes c =
    if ltb c 0x80
    then c ∷ []
    else (if ltb c 0x800
        then (0xc0 + c / 64) ∷ (0x80 + c % 64) ∷ []
        else (if ltb c 0x10000
            then (0xe0 + c / 4096) ∷ (0x80 + c / 64 % 64) ∷ (0x80 + c % 64) ∷ []
            else (0xf0 + c / 262144)
              ∷ (0x80 + c / 4096 % 64)
              ∷ (0x80 + c / 64 % 64)
              ∷ (0x80 + c % 64)
              ∷ []))

-- str::as_bytes
unfoldable pub as_bytes : Text → List ℕ
as_bytes [] = []
as_bytes (c ∷ text) = char_bytes c ++ as_bytes text

-- The decoder between two bytes: how many continuation bytes are missing, the bits read so far, and
-- the least code point that may take so many bytes.
pub record Partial : Type 0 where
  pub missing : ℕ
  pub bits : ℕ
  pub least : ℕ

abbrev pub idle : Partial
idle = record { missing = 0; bits = 0; least = 0 }

-- a code point that is not a surrogate
abbrev pub is_scalar : ℕ → Bool
is_scalar c = ltb c 0xd800 || (leb 0xe000 c && ltb c 0x110000)

-- the first byte of a code point
unfoldable pub lead : ℕ → Option (Partial × Text)
lead b =
    if ltb b 0x80
    then some (idle, b ∷ [])
    else (if leb 0xc0 b && ltb b 0xe0
        then some (record { missing = 1; bits = b - 0xc0; least = 0x80 }, [])
        else (if leb 0xe0 b && ltb b 0xf0
            then some (record { missing = 2; bits = b - 0xe0; least = 0x800 }, [])
            else (if leb 0xf0 b && ltb b 0xf8
                then some (record { missing = 3; bits = b - 0xf0; least = 0x10000 }, [])
                else none)))

-- a byte after the first
unfoldable pub continue : Partial → ℕ → Option (Partial × Text)
continue p b =
    let bits = p.bits * 64 + (b - 0x80) in
    if not (leb 0x80 b && ltb b 0xc0)
    then none
    else (if not (p.missing == 1)
        then some (record { missing = p.missing - 1; bits = bits; least = p.least }, [])
        else (if leb p.least bits && is_scalar bits then some (idle, bits ∷ []) else none))

unfoldable pub step : Partial → ℕ → Option (Partial × Text)
step p b = if p.missing == 0 then lead b else continue p b

abbrev pub prepend : Text → Option Text → Option Text
prepend out none = none
prepend out (some text) = some (out ++ text)

unfoldable pub decode_from : Partial → List ℕ → Option Text
decode_from p [] = if p.missing == 0 then some [] else none
decode_from p (b ∷ bytes) = elim (step p b) [
  | none ↦ none
  | some (q, out) ↦ prepend out (decode_from q bytes)
]

-- str::from_utf8
unfoldable pub from_utf8 : List ℕ → Option Text
from_utf8 bytes = decode_from idle bytes

-- Unicode scalar values, as Rust's `char` holds them
abbrev pub IsScalar : ℕ → Type 0
IsScalar c = is_scalar c ≡ true
