-- ===== src/ElementMask/Tests.antt =====
-- A mask over one dimension, of two leaves (0 and 1) and their total (2).
use epiphany.Base.{inr, ℕ, true, false, ◌≡◌, refl, [], ◌∷◌, inl, ◌↔◌}
use epiphany.Base.Int.{pos, ◌*ℤ◌}
use epiphany.Base.Assoc.{insert, remove}
use epiphany.Base.Result.{ok}
use epiphany.Fixed.{is_zero_i64}
use epiphany.Dimension.{Dimension, Element, ElementKind, Edge, leaf, consolidated, element}
use epiphany.Dimension.Leaves.{
  leaf_weights, weights_loop, saturating_mul, clamp_i64, finish, sort_by_leaf, insert_sorted,
}
use epiphany.Cube.{Cube, fresh}
use epiphany.ElementMask.{
  ElementMask, from_denied, bits_of, mark, denies, denies_from, denies_leaf, member_denied,
  dim_has_denials, index_denied, leaves_denied, any_leaf,
}
use epiphany.ElementMask.Sound.{denies_sound}
use epiphany.ElementMask.Build.{IsListed, from_denied-exact}

abbrev named : ℕ → ElementKind → Element
named c kind = record { name = c ∷ []; kind = kind; pinned_to_top = false }

abbrev edge : ℕ → Edge
edge child = record { child = child; weight = pos 1 }

abbrev region : Dimension
region = record {
  name = b'r' ∷ [];
  elements = named b'n' leaf ∷ named b's' leaf ∷ named b't' consolidated ∷ [];
  index_by_name = [];
  children = [] ∷ [] ∷ (edge 0 ∷ []) ∷ [];
  attributes = [];
  attr_index_by_name = [];
  attr_values = [] ∷ [] ∷ [] ∷ [];
  alias_to_element = [];
}

abbrev cube : Cube
cube = fresh (b'c' ∷ []) (region ∷ [])

abbrev north_denied : ElementMask
north_denied = from_denied (3 ∷ []) ((0 ∷ 7 ∷ []) ∷ [])

abbrev south_denied : ElementMask
south_denied = from_denied (3 ∷ []) ((1 ∷ []) ∷ [])

-- the leaf below the total
expanded : leaf_weights region 2 ≡ ok ((0, pos 1) ∷ [])
unfolding leaf_weights weights_loop saturating_mul clamp_i64 finish sort_by_leaf insert_sorted
    element ◌*ℤ◌ insert remove is_zero_i64
expanded = refl

-- The total rolls up the denied leaf.
total_denied : denies north_denied cube (2 ∷ []) ≡ ok true
unfolding denies denies_from member_denied dim_has_denials index_denied leaves_denied any_leaf
    from_denied bits_of mark fresh leaf_weights weights_loop saturating_mul clamp_i64 finish
    sort_by_leaf insert_sorted element ◌*ℤ◌ insert remove is_zero_i64
total_denied = refl

total_allowed : denies south_denied cube (2 ∷ []) ≡ ok false
unfolding denies denies_from member_denied dim_has_denials index_denied leaves_denied any_leaf
    from_denied bits_of mark fresh leaf_weights weights_loop saturating_mul clamp_i64 finish
    sort_by_leaf insert_sorted element ◌*ℤ◌ insert remove is_zero_i64
total_allowed = refl

denies_sound_example : denies_leaf south_denied (0 ∷ []) ≡ false
unfolding fresh
denies_sound_example =
    denies_sound south_denied cube (2 ∷ []) (0 ∷ []) total_allowed
      (inr (region, (0, pos 1) ∷ [], pos 1, refl, expanded, inl refl), tt)

from_denied-exact_example :
    (index_denied north_denied 0 7 ≡ true) ↔ IsListed (3 ∷ []) ((0 ∷ 7 ∷ []) ∷ []) 0 7
from_denied-exact_example = from_denied-exact (3 ∷ []) ((0 ∷ 7 ∷ []) ∷ []) 0 7
