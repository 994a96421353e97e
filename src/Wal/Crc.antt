-- ===== src/Wal/Crc.antt =====
-- The checksum of a log record (`crc32_table` and `crc32` of crates/epiphany-persist/src/wal.rs).
use Prim.Native.Nat.{bit_and, bit_xor, digits, differ, bit_xor-bitwise}
use native.Mathlib.Nat.{pow-suc}
use epiphany.Base.{
  ℕ, zero, suc, ◌+◌, ◌/◌, ◌%◌, ◌^◌, ◌<◌, ◌≤◌, List, [], ◌∷◌, arith, if◌then◌else◌, ◌==◌, get_or,
  sym, subst, All, Bool, true, false,
}
use epiphany.Bytes.{Bytes}

-- the inner loop of `crc32_table`
unfoldable pub crc_bits : ℕ → ℕ → ℕ
crc_bits zero crc = crc
crc_bits (suc j) crc =
    crc_bits j (if bit_and crc 1 == 1 then bit_xor (crc / 2) 0xEDB88320 else crc / 2)

-- the outer loop of `crc32_table`, from an entry on
unfoldable pub crc_rows : ℕ → ℕ → List ℕ
crc_rows zero i = []
crc_rows (suc n) i = crc_bits 8 i ∷ crc_rows n (suc i)

unfoldable pub crc32_table : List ℕ
crc32_table = crc_rows 256 0

unfoldable pub crc_loop : List ℕ → ℕ → Bytes → ℕ
crc_loop table crc [] = crc
crc_loop table crc (b ∷ bytes) =
    crc_loop table (bit_xor (crc / 256) (get_or table (bit_and (bit_xor crc b) 0xff) 0)) bytes

unfoldable pub crc32 : Bytes → ℕ
crc32 bytes = bit_xor (crc_loop crc32_table 0xffffffff bytes) 0xffffffff

differ_le : (x y : ℕ) → x < 2 → y < 2 → differ x y < 2
differ_le zero y hx hy = hy
differ_le (suc x) zero hx hy = hx
differ_le (suc zero) (suc y) hx hy = omega arith
differ_le (suc (suc x)) (suc y) hx hy = absurd (omega arith)

xor_digits : (n a b k : ℕ) → a ≤ n → a < 2 ^ k → b < 2 ^ k → digits (λ b. b) differ n a b < 2 ^ k
xor_digits zero a b k h la lb = lb
xor_digits (suc n) zero b k h la lb = lb
xor_digits (suc n) (suc a) b zero h la lb = absurd (omega arith)
xor_digits (suc n) (suc a) b (suc k) h la lb = omega (
  arith,
  pow-suc 2 k,
  differ_le (suc a % 2) (b % 2) (omega arith) (omega arith),
  xor_digits n (suc a / 2) (b / 2) k (omega arith) (omega (arith, pow-suc 2 k))
      (omega (arith, pow-suc 2 k)),
)

xor-lt : (a b k : ℕ) → a < 2 ^ k → b < 2 ^ k → bit_xor a b < 2 ^ k
xor-lt a b k la lb =
    subst (λ t. t < 2 ^ k) (sym (bit_xor-bitwise a b)) (xor_digits a a b k (omega arith) la lb)

if-lt : (b : Bool) {x y k : ℕ} → x < k → y < k → (if b then x else y) < k
if-lt true hx hy = hx
if-lt false hx hy = hy

-- a shift right of a word is a word, and so is its exclusive or with a word
crc_bits-lt : (n crc : ℕ) → crc < 2 ^ 32 → crc_bits n crc < 2 ^ 32
unfolding crc_bits
crc_bits-lt zero crc h = h
crc_bits-lt (suc n) crc h =
    let next = if bit_and crc 1 == 1 then bit_xor (crc / 2) 0xEDB88320 else crc / 2 in
    crc_bits-lt n next (
      if-lt (bit_and crc 1 == 1) (xor-lt (crc / 2) 0xEDB88320 32 (omega arith) (omega arith))
        (omega arith))

-- The words of the table fit 32 bits.
crc_rows-Word : (n i : ℕ) → i + n < 2 ^ 32 → All (λ w. w < 2 ^ 32) (crc_rows n i)
unfolding crc_rows
crc_rows-Word zero i h = tt
crc_rows-Word (suc n) i h = (crc_bits-lt 8 i (omega arith), crc_rows-Word n (suc i) (omega arith))

get_or-lt : (xs : List ℕ) (i : ℕ) → All (λ w. w < 2 ^ 32) xs → get_or xs i 0 < 2 ^ 32
get_or-lt [] i h = omega arith
get_or-lt (x ∷ xs) zero h = h.0
get_or-lt (x ∷ xs) (suc i) h = get_or-lt xs i h.1

crc_loop-lt :
    (table : List ℕ) (crc : ℕ) (bytes : Bytes)
    → All (λ w. w < 2 ^ 32) table
    → crc < 2 ^ 32
    → crc_loop table crc bytes < 2 ^ 32
unfolding crc_loop
crc_loop-lt table crc [] ht h = h
crc_loop-lt table crc (b ∷ bytes) ht h =
    let word = get_or table (bit_and (bit_xor crc b) 0xff) 0 in
    crc_loop-lt table (bit_xor (crc / 256) word) bytes ht
      (xor-lt (crc / 256) word 32 (omega arith) (get_or-lt table (bit_and (bit_xor crc b) 0xff) ht))

-- A checksum is a word of 32 bits.
pub crc32-lt : (bytes : Bytes) → crc32 bytes < 256 ^ 4
unfolding crc32 crc32_table
crc32-lt bytes =
    xor-lt (crc_loop crc32_table 0xffffffff bytes) 0xffffffff 32
      (crc_loop-lt crc32_table 0xffffffff bytes (crc_rows-Word 256 0 (omega arith)) (omega arith))
      (omega arith)
