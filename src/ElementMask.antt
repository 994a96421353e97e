-- ===== src/ElementMask.antt =====
-- The mask of elements that a principal may not see: crates/epiphany-core/src/element_mask.rs.
pub mod Sound
pub mod Build
mod Tests
use epiphany.Base.{
  ℕ, suc, Bool, true, false, not, ◌||◌, Option, none, some, List, [], ◌∷◌, get_elem?, set,
  replicate, if◌then◌else◌,
}
use epiphany.Base.Int.{ℤ}
use epiphany.Base.Result.{Result, ok, err, ◌>>=◌}
use epiphany.Model.{Failure, rejected, panic}
use epiphany.Dimension.{Dimension}
use epiphany.Dimension.Leaves.{leaf_weights}
use epiphany.Cube.{Cube}

pub record ElementMask : Type 0 where
  pub denied : List (List Bool)

-- the indices of one list, marked; one out of range changes nothing
pub mark : List Bool → List ℕ → List Bool
mark bits [] = bits
mark bits (index ∷ list) = mark (set bits index true) list

-- `denied_indices` may be shorter than the dimensions.
pub bits_of : List ℕ → List (List ℕ) → List (List Bool)
unfolding mark
bits_of [] lists = []
bits_of (count ∷ counts) [] = replicate count false ∷ bits_of counts []
bits_of (count ∷ counts) (list ∷ lists) = mark (replicate count false) list ∷ bits_of counts lists

-- ElementMask::from_denied
pub from_denied : List ℕ → List (List ℕ) → ElementMask
unfolding bits_of
from_denied counts lists = record { denied = bits_of counts lists }

-- iter().any(|&b| b)
abbrev pub any_bit : List Bool → Bool
any_bit [] = false
any_bit (b ∷ bits) = b || any_bit bits

abbrev pub any_row : List (List Bool) → Bool
any_row [] = false
any_row (bits ∷ rows) = any_bit bits || any_row rows

-- ElementMask::is_empty
pub is_empty : ElementMask → Bool
is_empty mask = not (any_row mask.denied)

-- ElementMask::dim_has_denials
pub dim_has_denials : ElementMask → ℕ → Bool
dim_has_denials mask dim = elim (get_elem? mask.denied dim) [
  | none ↦ false
  | some bits ↦ any_bit bits
]

abbrev pub bit_at : Option (List Bool) → ℕ → Bool
bit_at none index = false
bit_at (some bits) index = elim (get_elem? bits index) [ none ↦ false | some b ↦ b ]

-- ElementMask::index_denied
pub index_denied : ElementMask → ℕ → ℕ → Bool
index_denied mask dim index = bit_at (get_elem? mask.denied dim) index

-- the loop of `denies_leaf`, from a dimension on
pub leaf_from : ElementMask → ℕ → List ℕ → Bool
leaf_from mask dim [] = false
leaf_from mask dim (index ∷ coord) = index_denied mask dim index || leaf_from mask (suc dim) coord

-- ElementMask::denies_leaf
pub denies_leaf : ElementMask → List ℕ → Bool
unfolding leaf_from
denies_leaf mask coord = leaf_from mask 0 coord

-- iter().any over the leaves
pub any_leaf : ElementMask → ℕ → List (ℕ × ℤ) → Bool
any_leaf mask dim [] = false
any_leaf mask dim ((leaf, w) ∷ weights) = index_denied mask dim leaf || any_leaf mask dim weights

-- the leaves that an expansion found; an error counts as none, a panic stays one
pub leaves_denied : ElementMask → ℕ → Result Failure (List (ℕ × ℤ)) → Result Failure Bool
unfolding any_leaf
leaves_denied mask dim (ok weights) = ok (any_leaf mask dim weights)
leaves_denied mask dim (err (rejected e)) = ok false
leaves_denied mask dim (err panic) = err panic

-- ElementMask::member_denied and denies_member
pub member_denied : ElementMask → Cube → ℕ → ℕ → Result Failure Bool
unfolding leaves_denied
member_denied mask cube dim member =
    if not (dim_has_denials mask dim)
    then ok false
    else if index_denied mask dim member
    then ok true
    else elim (get_elem? cube.dimensions dim) [
      | none ↦ ok false
      | some d ↦ leaves_denied mask dim (leaf_weights d member)
    ]

-- the loop of `denies`, from a dimension on
pub denies_from : ElementMask → Cube → ℕ → List ℕ → Result Failure Bool
unfolding member_denied
denies_from mask cube dim [] = ok false
denies_from mask cube dim (index ∷ coord) = do
  found ← member_denied mask cube dim index
  elim found [ true ↦ ok true | false ↦ denies_from mask cube (suc dim) coord ]

-- ElementMask::denies
pub denies : ElementMask → Cube → List ℕ → Result Failure Bool
unfolding denies_from
denies mask cube coord = denies_from mask cube 0 coord
