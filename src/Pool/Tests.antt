-- ===== src/Pool/Tests.antt =====
-- A pool of two texts.
use epiphany.Base.{ℕ, ◌≡◌, refl, [], ◌∷◌, some, arith, true, false, get_elem?}
use epiphany.Base.Assoc.{lookup, insert, remove}
use epiphany.Text.{Text}
use epiphany.Pool.{StringPool, empty, intern, compact, compact_from, contains, dropped}
use epiphany.Pool.Intern.{IsPool, empty-IsPool, intern-IsInterned}
use epiphany.Pool.Compact.{IsMoved, compact-IsRemap}

abbrev one : StringPool
one = (intern empty (b'a' ∷ [])).0

one-IsPool : IsPool one
one-IsPool = (intern-IsInterned empty (b'a' ∷ []) empty-IsPool (omega arith)).0

abbrev two : StringPool
two = (intern one (b'b' ∷ [])).0

two-IsPool : IsPool two
unfolding intern lookup
two-IsPool = (intern-IsInterned one (b'b' ∷ []) one-IsPool (omega arith)).0

-- The second of two texts takes the first id.
second_kept : (compact two (1 ∷ [])).1 ≡ dropped ∷ 0 ∷ []
unfolding compact compact_from intern lookup insert remove
second_kept = refl

compact-IsRemap_example :
    let (pool', remap) = compact two (1 ∷ []) in
    IsPool pool'
    × ((id : ℕ) (t : Text)
        → get_elem? two.by_id id ≡ some t
        → contains id (1 ∷ []) ≡ true
        → IsMoved pool' remap id t)
    × ((id : ℕ) (t : Text)
        → get_elem? two.by_id id ≡ some t
        → contains id (1 ∷ []) ≡ false
        → get_elem? remap id ≡ some dropped)
unfolding intern lookup insert
compact-IsRemap_example = compact-IsRemap two (1 ∷ []) two-IsPool (omega arith)
