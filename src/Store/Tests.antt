-- ===== src/Store/Tests.antt =====
-- A store with packed keys.
use epiphany.Base.{ℕ, ◌≡◌, refl, List, [], ◌∷◌, arith}
use epiphany.Layout.{
  layout_of, offsets_from, masks_of, end_from, bits_for, leading_zeros, bit_count,
}
use epiphany.Layout.RoundTrip.{Fits}
use epiphany.Store.{CellStore, narrow, get, put}
use epiphany.Store.Refines.{IsFor, get-put}

abbrev lens : List ℕ
lens = 5 ∷ 300 ∷ []

abbrev first : List ℕ
first = 4 ∷ 0 ∷ []

abbrev second : List ℕ
second = 0 ∷ 299 ∷ []

first-Fits : Fits lens first
first-Fits = (omega arith, omega arith, (omega arith, omega arith, tt))

second-Fits : Fits lens second
second-Fits = (omega arith, omega arith, (omega arith, omega arith, tt))

abbrev empty : CellStore ℕ
empty = narrow []

empty-IsFor : IsFor lens empty
unfolding layout_of offsets_from masks_of end_from bits_for leading_zeros bit_count
empty-IsFor = refl

get-put_example :
    get (put empty (layout_of lens) first 7) (layout_of lens) second
    ≡ get empty (layout_of lens) second
get-put_example = get-put lens empty first second 7 empty-IsFor first-Fits second-Fits
