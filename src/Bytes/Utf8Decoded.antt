-- ===== src/Bytes/Utf8Decoded.antt =====
-- The decoder of UTF-8 inverts the encoder.
use epiphany.Base.{
  ℕ, suc, ◌+◌, ◌*◌, ◌/◌, ◌%◌, ◌≤◌, ◌<◌, ◌⊎◌, inl, inr, ◌≡◌, refl, ap, ◌∙◌, Option, none, some, List,
  [], ◌∷◌, ◌++◌, arith, All,
}
use epiphany.Text.{Text}
use epiphany.Bytes.Utf8.{
  char_bytes, as_bytes, Partial, idle, lead, continue, step, prepend, decode_from, from_utf8,
  IsScalar,
}

prepend-nil : (o : Option Text) → prepend [] o ≡ o
prepend-nil none = refl
prepend-nil (some text) = refl

decode-step :
    (p q : Partial) (b : ℕ) (out : Text) (bytes : List ℕ)
    → step p b ≡ some (q, out)
    → decode_from p (b ∷ bytes) ≡ prepend out (decode_from q bytes)
unfolding decode_from
decode-step p q b out bytes h = rw (h, decode_from)

decode-more :
    (p q : Partial) (b : ℕ) (bytes : List ℕ)
    → step p b ≡ some (q, [])
    → decode_from p (b ∷ bytes) ≡ decode_from q bytes
decode-more p q b bytes h = decode-step p q b [] bytes h ∙ prepend-nil (decode_from q bytes)

abbrev partial : ℕ → ℕ → ℕ → Partial
partial missing bits least = record { missing = missing; bits = bits; least = least }

lead_1 : (c : ℕ) → c < 0x80 → step idle c ≡ some (idle, c ∷ [])
unfolding step lead
lead_1 c h = ground arith

lead_2 : (q : ℕ) → q < 32 → step idle (0xc0 + q) ≡ some (partial 1 q 0x80, [])
unfolding step lead
lead_2 q h = ground arith

lead_3 : (q : ℕ) → q < 16 → step idle (0xe0 + q) ≡ some (partial 2 q 0x800, [])
unfolding step lead
lead_3 q h = ground arith

lead_4 : (q : ℕ) → q < 8 → step idle (0xf0 + q) ≡ some (partial 3 q 0x10000, [])
unfolding step lead
lead_4 q h = ground arith

continue_more :
    (m bits least r : ℕ)
    → r < 64
    → step (partial (suc (suc m)) bits least) (0x80 + r)
      ≡ some (partial (suc m) (bits * 64 + r) least, [])
unfolding step continue
continue_more m bits least r h = ground arith

continue_last :
    (bits least r c : ℕ)
    → r < 64
    → bits * 64 + r ≡ c
    → least ≤ c
    → IsScalar c
    → step (partial 1 bits least) (0x80 + r) ≡ some (idle, c ∷ [])
unfolding step continue
continue_last bits least r c h e l s = ground arith

decode_2 :
    (c q r : ℕ) (bytes : List ℕ)
    → q < 32
    → r < 64
    → q * 64 + r ≡ c
    → 0x80 ≤ c
    → IsScalar c
    → decode_from idle ((0xc0 + q) ∷ (0x80 + r) ∷ bytes) ≡ prepend (c ∷ []) (decode_from idle bytes)
decode_2 c q r bytes hq hr e l s =
    decode-more idle (partial 1 q 0x80) (0xc0 + q) ((0x80 + r) ∷ bytes) (lead_2 q hq)
    ∙ decode-step (partial 1 q 0x80) idle (0x80 + r) (c ∷ []) bytes
        (continue_last q 0x80 r c hr e l s)

decode_3 :
    (c q r t : ℕ) (bytes : List ℕ)
    → q < 16
    → r < 64
    → t < 64
    → (q * 64 + r) * 64 + t ≡ c
    → 0x800 ≤ c
    → IsScalar c
    → decode_from idle ((0xe0 + q) ∷ (0x80 + r) ∷ (0x80 + t) ∷ bytes)
      ≡ prepend (c ∷ []) (decode_from idle bytes)
decode_3 c q r t bytes hq hr ht e l s =
    decode-more idle (partial 2 q 0x800) (0xe0 + q) ((0x80 + r) ∷ (0x80 + t) ∷ bytes) (lead_3 q hq)
    ∙ decode-more (partial 2 q 0x800) (partial 1 (q * 64 + r) 0x800) (0x80 + r) ((0x80 + t) ∷ bytes)
        (continue_more 0 q 0x800 r hr)
    ∙ decode-step (partial 1 (q * 64 + r) 0x800) idle (0x80 + t) (c ∷ []) bytes
        (continue_last (q * 64 + r) 0x800 t c ht e l s)

decode_4 :
    (c q r t u : ℕ) (bytes : List ℕ)
    → q < 8
    → r < 64
    → t < 64
    → u < 64
    → ((q * 64 + r) * 64 + t) * 64 + u ≡ c
    → 0x10000 ≤ c
    → IsScalar c
    → decode_from idle ((0xf0 + q) ∷ (0x80 + r) ∷ (0x80 + t) ∷ (0x80 + u) ∷ bytes)
      ≡ prepend (c ∷ []) (decode_from idle bytes)
decode_4 c q r t u bytes hq hr ht hu e l s =
    decode-more idle (partial 3 q 0x10000) (0xf0 + q) ((0x80 + r) ∷ (0x80 + t) ∷ (0x80 + u) ∷ bytes)
      (lead_4 q hq)
    ∙ decode-more (partial 3 q 0x10000) (partial 2 (q * 64 + r) 0x10000) (0x80 + r)
        ((0x80 + t) ∷ (0x80 + u) ∷ bytes) (continue_more 1 q 0x10000 r hr)
    ∙ decode-more (partial 2 (q * 64 + r) 0x10000) (partial 1 ((q * 64 + r) * 64 + t) 0x10000)
        (0x80 + t) ((0x80 + u) ∷ bytes) (continue_more 0 (q * 64 + r) 0x10000 t ht)
    ∙ decode-step (partial 1 ((q * 64 + r) * 64 + t) 0x10000) idle (0x80 + u) (c ∷ []) bytes
        (continue_last ((q * 64 + r) * 64 + t) 0x10000 u c hu e l s)

scalar-lt : (c : ℕ) → IsScalar c → c < 0x110000
scalar-lt c h = ground arith

char_bytes-eq :
    (c : ℕ)
    → ((c < 0x80) × (char_bytes c ≡ c ∷ []))
      ⊎ ((0x80 ≤ c) × (c < 0x800) × (char_bytes c ≡ (0xc0 + c / 64) ∷ (0x80 + c % 64) ∷ []))
      ⊎ ((0x800 ≤ c)
          × (c < 0x10000)
          × (char_bytes c ≡ (0xe0 + c / 4096) ∷ (0x80 + c / 64 % 64) ∷ (0x80 + c % 64) ∷ []))
      ⊎ ((0x10000 ≤ c)
          × (char_bytes c
              ≡ (0xf0 + c / 262144)
                ∷ (0x80 + c / 4096 % 64)
                ∷ (0x80 + c / 64 % 64)
                ∷ (0x80 + c % 64)
                ∷ []))
unfolding char_bytes
char_bytes-eq c = ground arith

decode_from-char :
    (c : ℕ) (bytes : List ℕ)
    → IsScalar c
    → decode_from idle (char_bytes c ++ bytes) ≡ prepend (c ∷ []) (decode_from idle bytes)
decode_from-char c bytes h = elim (char_bytes-eq c) [
  | inl p ↦
      ap (λ bs. decode_from idle (bs ++ bytes)) p.1
      ∙ decode-step idle idle c (c ∷ []) bytes (lead_1 c p.0)
  | inr (inl p) ↦
      ap (λ bs. decode_from idle (bs ++ bytes)) p.2
      ∙ decode_2 c (c / 64) (c % 64) bytes (omega (arith, p)) (omega arith) (omega arith) p.0 h
  | inr (inr (inl p)) ↦
      ap (λ bs. decode_from idle (bs ++ bytes)) p.2
      ∙ decode_3 c (c / 4096) (c / 64 % 64) (c % 64) bytes (omega (arith, p)) (omega arith)
          (omega arith) (omega arith) p.0 h
  | inr (inr (inr p)) ↦
      ap (λ bs. decode_from idle (bs ++ bytes)) p.1
      ∙ decode_4 c (c / 262144) (c / 4096 % 64) (c / 64 % 64) (c % 64) bytes
          (omega (arith, scalar-lt c h)) (omega arith) (omega arith) (omega arith) (omega arith) p.0
          h
]

decode_from-as_bytes :
    (text : Text) → All IsScalar text → decode_from idle (as_bytes text) ≡ some text
unfolding as_bytes decode_from
decode_from-as_bytes [] h = refl
decode_from-as_bytes (c ∷ text) h =
    decode_from-char c (as_bytes text) h.0
    ∙ ap (λ o. prepend (c ∷ []) o) (decode_from-as_bytes text h.1)

-- `from_utf8` inverts `as_bytes`.
pub from_utf8-as_bytes : (text : Text) → All IsScalar text → from_utf8 (as_bytes text) ≡ some text
unfolding from_utf8
from_utf8-as_bytes text h = decode_from-as_bytes text h
