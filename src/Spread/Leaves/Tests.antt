-- ===== src/Spread/Leaves/Tests.antt =====
-- A spread over the quarters of a year and the theorems at it.
use epiphany.Base.{none, ℕ, ◌≡◌, refl, Bool, List, [], ◌∷◌, arith, ◌⊎◌}
use epiphany.Base.Assoc.{lookup, insert}
use epiphany.Base.Eq.{list_beq}
use epiphany.Base.Int.{pos, ◌+ℤ◌, ◌-ℤ◌, ◌*ℤ◌}
use epiphany.Base.Result.{Result, ok}
use epiphany.Model.{ModelError}
use epiphany.Fixed.{Fixed, is_zero_i64}
use epiphany.Dimension.{Dimension, Edge, leaf, consolidated, element}
use epiphany.Dimension.Leaves.{leaf_weights, weights_loop, finish, saturating_mul}
use epiphany.Cube.{Cube, fresh}
use epiphany.Cube.Sample.{named}
use epiphany.Spread.{distribute_equal, wrap_i64}
use epiphany.Spread.Leaves.{
  equal, spread_leaves, plain_leaves, count_leaves, advance, coord_of, coords_from, retain,
}
use epiphany.Spread.Leaves.Targets.{targets}
use epiphany.Spread.Leaves.Below.{AreTargets, targets-spread_leaves}
use epiphany.Spread.Leaves.Sum.{spread_leaves-sum, total_of}

abbrev below : ℕ → Edge
below n = record { child = n; weight = pos 1 }

-- a year above four quarters
abbrev calendar : Dimension
calendar = record {
  name = b'c' ∷ [];
  elements =
      named b'a' leaf
      ∷ named b'b' leaf
      ∷ named b'c' leaf
      ∷ named b'd' leaf
      ∷ named b'y' consolidated
      ∷ [];
  index_by_name = [];
  children = [] ∷ [] ∷ [] ∷ [] ∷ (below 0 ∷ below 1 ∷ below 2 ∷ below 3 ∷ []) ∷ [];
  attributes = [];
  attr_index_by_name = [];
  attr_values = [] ∷ [] ∷ [] ∷ [] ∷ [] ∷ [];
  alias_to_element = [];
}

abbrev years : Cube
years = fresh (b'c' ∷ []) (calendar ∷ calendar ∷ [])

abbrev no_reads : List ℕ → Result ModelError Fixed
no_reads coord = ok (record { scaled = pos 0 })

-- the second quarter is excluded
abbrev is_second : List ℕ → Bool
is_second coord = list_beq (2 ∷ 1 ∷ []) coord

abbrev ten : Fixed
ten = record { scaled = pos 10 }

abbrev quarters : List (List ℕ × Fixed)
quarters =
    (2 ∷ 0 ∷ [], record { scaled = pos 4 })
    ∷ (2 ∷ 2 ∷ [], record { scaled = pos 3 })
    ∷ (2 ∷ 3 ∷ [], record { scaled = pos 3 })
    ∷ []

spread_ran :
    spread_leaves (λ (e : ModelError). e) no_reads is_second years (2 ∷ 4 ∷ []) ten equal
    ≡ ok quarters
unfolding spread_leaves plain_leaves count_leaves advance coord_of coords_from retain leaf_weights
    weights_loop finish saturating_mul element fresh lookup insert distribute_equal wrap_i64 ◌+ℤ◌
    ◌-ℤ◌ ◌*ℤ◌ is_zero_i64
spread_ran = refl

spread_leaves-sum_example :
    ((plain_leaves (λ (e : ModelError). e) years.dimensions (2 ∷ 4 ∷ []) ≡ ok none)
      × (quarters ≡ []))
    ⊎ (total_of quarters ≡ pos 10)
spread_leaves-sum_example =
    spread_leaves-sum (λ (e : ModelError). e) no_reads is_second years (2 ∷ 4 ∷ []) ten equal
      quarters (omega arith) spread_ran

targets-spread_leaves_example : AreTargets years (2 ∷ 4 ∷ []) is_second (targets quarters)
targets-spread_leaves_example =
    targets-spread_leaves (λ (e : ModelError). e) no_reads is_second years (2 ∷ 4 ∷ []) ten equal
      quarters spread_ran
