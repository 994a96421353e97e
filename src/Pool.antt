-- ===== src/Pool.antt =====
-- The interning pool for texts: `StringPool` of crates/epiphany-core/src/cube.rs.
pub mod Intern
pub mod Compact
mod Tests
use epiphany.Base.{
  ℕ, zero, suc, ◌+◌, ◌-◌, ◌%◌, ◌^◌, Bool, true, false, ◌||◌, Option, none, some, List, [], ◌∷◌,
  ◌++◌, get_elem?, set, length, replicate, ◌==◌, if◌then◌else◌,
}
use epiphany.Base.Eq.{nat_eq, list_eq}
use epiphany.Base.Assoc.{lookup, insert}
use epiphany.Base.Result.{Result, ok, err, ◌>>=◌, ok_or}
use epiphany.Text.{Text}
use epiphany.Model.{Failure, panic}

pub record StringPool : Type 0 where
  pub by_id : List Text
  pub ids : List (Text × ℕ)

abbrev pub empty : StringPool
empty = record { by_id = []; ids = [] }

-- `as u32`
abbrev pub next_id : StringPool → ℕ
next_id pool = length pool.by_id % 2 ^ 32

-- StringPool::intern, with the id it returns
pub intern : StringPool → Text → StringPool × ℕ
intern pool value = elim (lookup value pool.ids) [
  | some id ↦ (pool, id)
  | none ↦ (
    record { by_id = pool.by_id ++ value ∷ []; ids = insert value (next_id pool) pool.ids },
    next_id pool,
  )
]

-- StringPool::get
unfoldable pub get : StringPool → ℕ → Result Failure Text
get pool id = ok_or (get_elem? pool.by_id id) panic

-- HashSet::contains
abbrev pub contains : ℕ → List ℕ → Bool
contains n [] = false
contains n (x ∷ xs) = x == n || contains n xs

-- u32::MAX, the remap of an id that is dropped
abbrev pub dropped : ℕ
dropped = 2 ^ 32 - 1

-- The loop of `compact` from an old id on: the texts not yet visited, the new pool, and the remap
-- from that id on.
pub compact_from : List ℕ → ℕ → List Text → StringPool → StringPool × List ℕ
compact_from live old [] pool = (pool, [])
compact_from live old (value ∷ rest) pool =
    let kept =
      compact_from live (suc old) rest
        (record { by_id = pool.by_id ++ value ∷ []; ids = insert value (next_id pool) pool.ids }) in
    let skipped = compact_from live (suc old) rest pool in
    if contains old live then (kept.0, next_id pool ∷ kept.1) else (skipped.0, dropped ∷ skipped.1)

-- StringPool::compact, with the remap it returns
pub compact : StringPool → List ℕ → StringPool × List ℕ
unfolding compact_from
compact pool live = compact_from live 0 pool.by_id empty
