-- ===== src/Pool/Intern.antt =====
-- Interning a text.
use epiphany.Base.{
  ℕ, ◌^◌, ◌<◌, ◌≡◌, refl, ap, sym, ◌∙◌, none, some, [], ◌∷◌, ◌++◌, get_elem?, get_elem?-push,
  length, ◌↔◌, Bool-cases, Option-cases, inl, inr, arith,
}
use mathlib.Core.Option.{some-injective}
use epiphany.Base.Eq.{nat_eq, list_eq, list_beq_iff, list_beq}
use epiphany.Base.Assoc.{lookup, insert, lookup-insert}
use epiphany.Text.{Text}
use epiphany.Pool.{StringPool, empty, intern, next_id}

-- The texts and the ids are one correspondence.
abbrev pub IsPool : StringPool → Type 0
IsPool pool =
    (value : Text) (id : ℕ)
    → (lookup value pool.ids ≡ some id) ↔ (get_elem? pool.by_id id ≡ some value)

pub empty-IsPool : IsPool empty
unfolding lookup
empty-IsPool value id = (λ h. cc, λ h. cc)

-- a text that is not there yet, under the next id
abbrev pub pushed : StringPool → Text → StringPool
pushed pool value = record {
  by_id = pool.by_id ++ value ∷ [];
  ids = insert value (next_id pool) pool.ids;
}

pub pushed-IsPool :
    (pool : StringPool) (value : Text)
    → length pool.by_id < 2 ^ 32
    → IsPool pool
    → lookup value pool.ids ≡ none
    → IsPool (pushed pool value)
pushed-IsPool pool value fits h fresh v id =
    let rows = get_elem?-push pool.by_id value v id in
    let found = lookup-insert value v (next_id pool) pool.ids in
    elim (Bool-cases (list_beq value v)) [
      | inl e ↦
          let same = (list_beq_iff value v).0 e in
          let hit : lookup v (insert value (next_id pool) pool.ids) ≡ some (length pool.by_id) =
            rw (found, e) (ap some (omega arith)) in
          (
            λ q. rows.1 (inr (some-injective id (length pool.by_id) (sym q ∙ hit), same)),
            λ q. elim (rows.0 q) [
              | inl old ↦
                  let k : lookup value pool.ids ≡ some id =
                    (h value id).1 (old ∙ ap some (sym same)) in
                  absurd (cc)
              | inr last ↦ hit ∙ ap some (sym last.0)
            ],
          )
      | inr e ↦
          let miss : lookup v (insert value (next_id pool) pool.ids) ≡ lookup v pool.ids =
            rw (found, e) refl in
          (
            λ q. rows.1 (inl ((h v id).0 (sym miss ∙ q))),
            λ q. elim (rows.0 q) [
              | inl old ↦ miss ∙ (h v id).1 old
              | inr last ↦ absurd (grind (arith, last.1, e, list_beq_iff value v))
            ],
          )
    ]

-- What `intern` returns, from the pool before, for a text.
abbrev pub IsInterned : StringPool → Text → StringPool × ℕ → Type 0
IsInterned pool value (pool', id) =
    IsPool pool'
    × (get_elem? pool'.by_id id ≡ some value)
    × ((j : ℕ) (t : Text) → get_elem? pool.by_id j ≡ some t → get_elem? pool'.by_id j ≡ some t)

intern_new :
    (pool : StringPool) (value : Text)
    → lookup value pool.ids ≡ none
    → intern pool value ≡ (pushed pool value, next_id pool)
unfolding intern
intern_new pool value e = rw (e, intern) refl

intern_old :
    (pool : StringPool) (value : Text) (id : ℕ)
    → lookup value pool.ids ≡ some id
    → intern pool value ≡ (pool, id)
unfolding intern
intern_old pool value id e = rw (e, intern) refl

-- In a well-formed pool of fewer than 2^32 texts, the id that `intern` returns is the text's, every
-- id handed out before keeps its text, and the pool stays well formed.
pub intern-IsInterned :
    (pool : StringPool) (value : Text)
    → IsPool pool
    → length pool.by_id < 2 ^ 32
    → IsInterned pool value (intern pool value)
intern-IsInterned pool value h fits = elim (Option-cases (lookup value pool.ids)) [
  | inl e ↦ rw (intern_new pool value e) (
    pushed-IsPool pool value fits h e,
    (get_elem?-push pool.by_id value value (next_id pool)).1 (inr (omega arith, refl)),
    λ j t q. (get_elem?-push pool.by_id value t j).1 (inl q),
  )
  | inr (id, e) ↦ rw (intern_old pool value id e) (h, (h value id).0 e, λ j t q. q)
]
