-- ===== src/Text/Scan.antt =====
-- What the operations on text do to texts whose characters are known.
use epiphany.Base.{
  ℕ, ◌≡◌, refl, Bool, true, not, ◌&&◌, none, some, [], ◌∷◌, ◌++◌, ◌==◌, arith, length,
}
use epiphany.Text.{
  Text, all_chars, is_whitespace, trim_start, drop_end_while, trim, split_once, byte_len,
}
use epiphany.Text.Decimal.{is_digit}

pub all_chars-append :
    (p : ℕ → Bool) (s t : Text) → all_chars p (s ++ t) ≡ (all_chars p s && all_chars p t)
all_chars-append p [] t = refl
all_chars-append p (c ∷ s) t = ground (arith, all_chars-append p s t)

pub all_chars_mono :
    (p q : ℕ → Bool)
    → ((c : ℕ) → p c ≡ true → q c ≡ true)
    → (s : Text) → all_chars p s ≡ true
    → all_chars q s ≡ true
all_chars_mono p q w [] h = refl
all_chars_mono p q w (c ∷ s) h = ground (arith, w c, all_chars_mono p q w s)

trim_start-printable :
    (s : Text) → all_chars (λ c. not (is_whitespace c)) s ≡ true → trim_start s ≡ s
unfolding trim_start
trim_start-printable [] h = refl
trim_start-printable (c ∷ s) h = ground arith

drop_end_while-none :
    (p : ℕ → Bool) (s : Text) → all_chars (λ c. not (p c)) s ≡ true → drop_end_while p s ≡ s
unfolding drop_end_while
drop_end_while-none p [] h = refl
drop_end_while-none p (c ∷ []) h = ground arith
drop_end_while-none p (c ∷ d ∷ s) h = ground (arith, drop_end_while-none p (d ∷ s))

-- Text without whitespace is not trimmed.
pub trim-printable : (s : Text) → all_chars (λ c. not (is_whitespace c)) s ≡ true → trim s ≡ s
unfolding trim
trim-printable s h = rw (trim_start-printable s h) (drop_end_while-none is_whitespace s h)

pub split_once-absent :
    (sep : ℕ) (s : Text) → all_chars (λ c. not (c == sep)) s ≡ true → split_once sep s ≡ none
unfolding split_once
split_once-absent sep [] h = refl
split_once-absent sep (c ∷ s) h = ground (arith, split_once-absent sep s)

pub split_once-first :
    (sep : ℕ) (s t : Text)
    → all_chars (λ c. not (c == sep)) s ≡ true
    → split_once sep (s ++ (sep ∷ t)) ≡ some (s, t)
unfolding split_once
split_once-first sep [] t h = ground arith
split_once-first sep (c ∷ s) t h = ground (arith, split_once-first sep s t)

pub byte_len-digits : (s : Text) → all_chars is_digit s ≡ true → byte_len s ≡ length s
unfolding byte_len
byte_len-digits [] h = refl
byte_len-digits (c ∷ s) h = ground (arith, byte_len-digits s)

pub all_chars-drop_end_while :
    (p q : ℕ → Bool) (s : Text) → all_chars q s ≡ true → all_chars q (drop_end_while p s) ≡ true
unfolding drop_end_while
all_chars-drop_end_while p q [] h = refl
all_chars-drop_end_while p q (c ∷ s) h = ground (arith, all_chars-drop_end_while p q s)
