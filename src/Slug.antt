-- ===== src/Slug.antt =====
-- The folder name of an object: crates/epiphany-persist/src/slug.rs.
pub mod Clean
mod Tests
use epiphany.Base.{
  ℕ, ◌+◌, Bool, true, false, not, ◌&&◌, ◌||◌, List, [], ◌∷◌, leb, ◌==◌, if◌then◌else◌,
}
use epiphany.Text.{Text, codes, drop_end_while}
use epiphany.Text.Decimal.{is_digit}

abbrev pub empty_fallback : Text
empty_fallback = codes "unnamed"

-- char::to_ascii_lowercase
abbrev pub to_ascii_lowercase : ℕ → ℕ
to_ascii_lowercase c = if leb b'A' c && leb c b'Z' then c + 32 else c

-- char::is_ascii_lowercase
abbrev pub is_ascii_lowercase : ℕ → Bool
is_ascii_lowercase c = leb b'a' c && leb c b'z'

abbrev pub is_kept : ℕ → Bool
is_kept c = is_ascii_lowercase c || is_digit c || c == b'_'

abbrev pub mapped : ℕ → ℕ
mapped ch = let lowered = to_ascii_lowercase ch in if is_kept lowered then lowered else b'-'

abbrev pub is_dash : ℕ → Bool
is_dash c = c == b'-'

-- the loop of `slug`: what it pushes from here on
pub slug_from : Bool → Text → Text
slug_from last_was_dash [] = []
slug_from last_was_dash (ch ∷ name) =
    let after_dash = slug_from true name in
    let after_other = slug_from false name in
    if is_dash (mapped ch)
    then (if last_was_dash then after_dash else mapped ch ∷ after_dash)
    else mapped ch ∷ after_other

-- str::trim_start_matches('-')
pub drop_dashes : Text → Text
drop_dashes [] = []
drop_dashes (c ∷ s) = let rest = drop_dashes s in if is_dash c then rest else c ∷ s

-- str::trim_matches('-')
pub trim_dashes : Text → Text
unfolding drop_dashes drop_end_while
trim_dashes s = drop_end_while is_dash (drop_dashes s)

abbrev pub or_fallback : Text → Text
or_fallback [] = empty_fallback
or_fallback (c ∷ s) = c ∷ s

-- slug
pub slug : Text → Text
unfolding slug_from trim_dashes
slug name = or_fallback (trim_dashes (slug_from false name))
