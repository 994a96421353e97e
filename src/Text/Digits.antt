-- ===== src/Text/Digits.antt =====
-- Texts of digits: what is printed, padded and stripped of trailing zeros.
use native.Mathlib.Nat.{pow-suc, sub-zero}
use native.Mathlib.Numerals.{unary_clauses}
use epiphany.Base.{
  ℕ, zero, suc, ◌+◌, ◌-◌, ◌*◌, ◌/◌, ◌%◌, ◌^◌, ◌≤◌, ◌<◌, ◌≡◌, refl, Bool, true, [], ◌∷◌, ◌==◌, arith,
  if◌then◌else◌, length, replicate, length-append, Bool-cases, inl, inr, ==_iff,
}
use epiphany.Text.{Text, all_chars, drop_end_while}
use epiphany.Text.Scan.{all_chars-append}
use epiphany.Text.Decimal.{is_digit, value, print_digits, zero_pad}

abbrev pub AreDigits : Text → Type 0
AreDigits s = all_chars is_digit s ≡ true

pub print_digits-AreDigits : (f n : ℕ) → AreDigits (print_digits f n)
unfolding print_digits
print_digits-AreDigits zero n = refl
print_digits-AreDigits (suc f) n = ground (
  arith,
  all_chars-append is_digit (print_digits f (n / 10)) ((b'0' + n % 10) ∷ []),
  print_digits-AreDigits f (n / 10),
)

pub print_digits-pos : (f n : ℕ) → 0 < length (print_digits (suc f) n)
unfolding print_digits
print_digits-pos f n =
    ground (arith, length-append (print_digits f (n / 10)) ((b'0' + n % 10) ∷ []))

replicate-AreDigits : (k : ℕ) → AreDigits (replicate k b'0')
replicate-AreDigits zero = refl
replicate-AreDigits (suc k) = replicate-AreDigits k

pub zero_pad-AreDigits : (w : ℕ) (s : Text) → AreDigits s → AreDigits (zero_pad w s)
zero_pad-AreDigits w s h = ground (
  arith,
  all_chars-append is_digit (replicate (w - length s) b'0') s,
  replicate-AreDigits (w - length s),
)

abbrev is_zero_digit : ℕ → Bool
is_zero_digit c = c == b'0'

pub length-drop_end_while : (p : ℕ → Bool) (s : Text) → length (drop_end_while p s) ≤ length s
unfolding drop_end_while
length-drop_end_while p [] = omega arith
length-drop_end_while p (c ∷ s) = ground (arith, length-drop_end_while p s)

shift_zero :
    (n c k v : ℕ) → c ≡ b'0' → (n * 10 + (c - b'0')) * 10 ^ (k - 0) ≡ v → n * 10 ^ (suc k - 0) ≡ v
shift_zero n c k v e h = rw (sub-zero, pow-suc) (let h' = rw (sub-zero, e) at h in omega arith)

-- one character more before a text `s` that was stripped to `r`
value-drop_zeros_step :
    (n c : ℕ) (s r : Text)
    → value (n * 10 + (c - b'0')) r * 10 ^ (length s - length r) ≡ value (n * 10 + (c - b'0')) s
    → let t : Text = elim r [ [] ↦ if c == b'0' then [] else c ∷ [] | d ∷ u ↦ c ∷ d ∷ u ] in
      value n t * 10 ^ (suc (length s) - length t) ≡ value (n * 10 + (c - b'0')) s
value-drop_zeros_step n c s [] h = elim (Bool-cases (c == b'0')) [
  | inl e ↦ rw e (shift_zero n c (length s) (value (n * 10 + (c - b'0')) s) ((==_iff c b'0').0 e) h)
  | inr e ↦ rw e (simp unary_clauses (simp sub-zero at h))
]
value-drop_zeros_step n c s (d ∷ u) h = ground arith

-- Dropping trailing zeros divides the value by the power of ten that the length lost.
pub value-drop_zeros :
    (n : ℕ) (s : Text)
    → value n (drop_end_while (λ c. c == b'0') s)
        * 10 ^ (length s - length (drop_end_while (λ c. c == b'0') s))
      ≡ value n s
unfolding drop_end_while
value-drop_zeros n [] = omega arith
value-drop_zeros n (c ∷ s) =
    value-drop_zeros_step n c s (drop_end_while (λ c. c == b'0') s)
      (value-drop_zeros (n * 10 + (c - b'0')) s)
