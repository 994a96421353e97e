-- ===== src/Pool/Compact.antt =====
-- Compacting the pool: the texts of the live ids are kept, and the remap finds them.
use mathlib.Core.Option.{some-injective}
use epiphany.Base.{
  ℕ, zero, suc, ◌+◌, ◌^◌, ◌<◌, ◌≡◌, refl, ap, sym, ◌∙◌, true, false, none, some, List, [], ◌∷◌,
  get_elem?, get_elem?-push, length, length-append, Bool-cases, inl, inr, arith,
}
use epiphany.Base.Eq.{nat_eq, list_eq, list_beq, list_beq_iff}
use epiphany.Base.Assoc.{lookup, lookup-insert}
use epiphany.Text.{Text}
use epiphany.Pool.{StringPool, empty, contains, compact, compact_from, next_id, dropped}
use epiphany.Pool.Intern.{IsPool, empty-IsPool, pushed, pushed-IsPool}

-- No text twice, and none of them in the pool yet.
record IsFresh (rest : List Text) (pool : StringPool) : Type 0 where
  once : (i j : ℕ) (t : Text) → get_elem? rest i ≡ some t → get_elem? rest j ≡ some t → i ≡ j
  outside : (i : ℕ) (t : Text) → get_elem? rest i ≡ some t → lookup t pool.ids ≡ none

-- The remap sends the id to one whose text in the pool is `t`.
abbrev pub IsMoved : StringPool → List ℕ → ℕ → Text → Type 0
IsMoved pool remap id t =
    (new : ℕ) × (get_elem? remap id ≡ some new) × (get_elem? pool.by_id new ≡ some t)

-- What the loop returns, from the texts not yet visited and the pool so far.
record IsCompacted (live : List ℕ) (old : ℕ) (rest : List Text) (pool : StringPool)
    (out : StringPool × List ℕ) : Type 0 where
  ordered : IsPool out.0
  kept : (j : ℕ) (t : Text) → get_elem? pool.by_id j ≡ some t → get_elem? out.0.by_id j ≡ some t
  moved :
      (i : ℕ) (t : Text)
      → get_elem? rest i ≡ some t
      → contains (old + i) live ≡ true
      → IsMoved out.0 out.1 i t
  gone :
      (i : ℕ) (t : Text)
      → get_elem? rest i ≡ some t
      → contains (old + i) live ≡ false
      → get_elem? out.1 i ≡ some dropped

tail-IsFresh :
    (value : Text) (rest : List Text) (pool : StringPool)
    → IsFresh (value ∷ rest) pool
    → IsFresh rest pool
tail-IsFresh value rest pool h = record {
  once = λ i j t p q. omega (arith, h.once (suc i) (suc j) t p q);
  outside = λ i t p. h.outside (suc i) t p;
}

pushed-IsFresh :
    (value : Text) (rest : List Text) (pool : StringPool)
    → IsFresh (value ∷ rest) pool
    → IsFresh rest (pushed pool value)
pushed-IsFresh value rest pool h = record {
  once = λ i j t p q. omega (arith, h.once (suc i) (suc j) t p q);
  outside = λ i t p.
      let other : list_beq value t ≡ false = elim (Bool-cases (list_beq value t)) [
        | inl e ↦
            let same = (list_beq_iff value t).0 e in
            absurd (omega (arith, h.once zero (suc i) value refl (p ∙ ap some (sym same))))
        | inr e ↦ e
      ] in
      lookup-insert value t (next_id pool) pool.ids ∙ (rw other (h.outside (suc i) t p));
}

add_zero : (old : ℕ) (live : List ℕ) → contains (old + 0) live ≡ contains old live
add_zero old live = ap (λ (n : ℕ). contains n live) (omega arith)

zero_add : (i : ℕ) (live : List ℕ) → contains (0 + i) live ≡ contains i live
zero_add i live = ap (λ (n : ℕ). contains n live) (omega arith)

add_suc : (old i : ℕ) (live : List ℕ) → contains (old + suc i) live ≡ contains (suc old + i) live
add_suc old i live = ap (λ (n : ℕ). contains n live) (omega arith)

module _ (live : List ℕ) (old : ℕ) (value : Text) (rest : List Text) (pool : StringPool)
    (out : StringPool × List ℕ) where
  keep_moved :
      length pool.by_id < 2 ^ 32
      → IsCompacted live (suc old) rest (pushed pool value) out
      → (i : ℕ) (t : Text) → get_elem? (value ∷ rest) i ≡ some t
      → contains (old + i) live ≡ true
      → IsMoved out.0 (next_id pool ∷ out.1) i t
  keep_moved fits s zero t q c = (
    next_id pool,
    refl,
    s.kept (next_id pool) t (
        (get_elem?-push pool.by_id value t (next_id pool)).1
          (inr (omega arith, some-injective value t q))),
  )
  keep_moved fits s (suc i) t q c = s.moved i t q (sym (add_suc old i live) ∙ c)

  keep_gone :
      contains old live ≡ true
      → IsCompacted live (suc old) rest (pushed pool value) out
      → (i : ℕ) (t : Text) → get_elem? (value ∷ rest) i ≡ some t
      → contains (old + i) live ≡ false
      → get_elem? (next_id pool ∷ out.1) i ≡ some dropped
  keep_gone e s zero t q c = absurd (cc (add_zero old live, e, c))
  keep_gone e s (suc i) t q c = s.gone i t q (sym (add_suc old i live) ∙ c)

  skip_moved :
      contains old live ≡ false
      → IsCompacted live (suc old) rest pool out
      → (i : ℕ) (t : Text) → get_elem? (value ∷ rest) i ≡ some t
      → contains (old + i) live ≡ true
      → IsMoved out.0 (dropped ∷ out.1) i t
  skip_moved e s zero t q c = absurd (cc (add_zero old live, e, c))
  skip_moved e s (suc i) t q c = s.moved i t q (sym (add_suc old i live) ∙ c)

  skip_gone :
      IsCompacted live (suc old) rest pool out
      → (i : ℕ) (t : Text) → get_elem? (value ∷ rest) i ≡ some t
      → contains (old + i) live ≡ false
      → get_elem? (dropped ∷ out.1) i ≡ some dropped
  skip_gone s zero t q c = refl
  skip_gone s (suc i) t q c = s.gone i t q (sym (add_suc old i live) ∙ c)

  -- the current id is live
  keep-IsCompacted :
      length pool.by_id < 2 ^ 32
      → contains old live ≡ true
      → IsCompacted live (suc old) rest (pushed pool value) out
      → IsCompacted live old (value ∷ rest) pool (out.0, next_id pool ∷ out.1)
  keep-IsCompacted fits e s = record {
    ordered = s.ordered;
    kept = λ j t q. s.kept j t ((get_elem?-push pool.by_id value t j).1 (inl q));
    moved = keep_moved fits s;
    gone = keep_gone e s;
  }

  -- the current id is not
  skip-IsCompacted :
      contains old live ≡ false
      → IsCompacted live (suc old) rest pool out
      → IsCompacted live old (value ∷ rest) pool (out.0, dropped ∷ out.1)
  skip-IsCompacted e s = record {
    ordered = s.ordered;
    kept = s.kept;
    moved = skip_moved e s;
    gone = skip_gone s;
  }

compact_from-IsCompacted :
    (live : List ℕ) (old : ℕ) (rest : List Text) (pool : StringPool)
    → IsPool pool
    → IsFresh rest pool
    → length pool.by_id + length rest < 2 ^ 32
    → IsCompacted live old rest pool (compact_from live old rest pool)
unfolding compact_from
compact_from-IsCompacted live old [] pool h fresh fits = record {
  ordered = h;
  kept = λ j t q. q;
  moved = λ i t q c. cc;
  gone = λ i t q c. cc;
}
compact_from-IsCompacted live old (value ∷ rest) pool h fresh fits =
    let bound : length (pushed pool value).by_id + length rest < 2 ^ 32 =
      omega (arith, fits, length-append pool.by_id (value ∷ [])) in
    let kept =
      compact_from-IsCompacted live (suc old) rest (pushed pool value)
        (pushed-IsPool pool value (omega arith) h (fresh.outside zero value refl))
        (pushed-IsFresh value rest pool fresh) bound in
    let skipped =
      compact_from-IsCompacted live (suc old) rest pool h (tail-IsFresh value rest pool fresh)
        (omega arith) in
    elim (Bool-cases (contains old live)) [
      | inl e ↦ rw e (
          keep-IsCompacted live old value rest pool
            (compact_from live (suc old) rest (pushed pool value)) (omega arith) e kept)
      | inr e ↦ rw e (
          skip-IsCompacted live old value rest pool (compact_from live (suc old) rest pool) e
            skipped)
    ]

-- Compacting a well-formed pool of fewer than 2^32 texts leaves a well-formed pool; the remap sends
-- a live id to the id under which the same text is found there, and every other one to u32::MAX.
pub compact-IsRemap :
    (pool : StringPool) (live : List ℕ)
    → IsPool pool
    → length pool.by_id < 2 ^ 32
    → let (pool', remap) = compact pool live in
      IsPool pool'
      × ((id : ℕ) (t : Text)
          → get_elem? pool.by_id id ≡ some t
          → contains id live ≡ true
          → IsMoved pool' remap id t)
      × ((id : ℕ) (t : Text)
          → get_elem? pool.by_id id ≡ some t
          → contains id live ≡ false
          → get_elem? remap id ≡ some dropped)
unfolding compact
compact-IsRemap pool live h fits =
    let s =
      compact_from-IsCompacted live 0 pool.by_id empty empty-IsPool
        (record {
          once = λ i j t p q. some-injective i j (sym ((h t i).1 p) ∙ (h t j).1 q);
          outside = λ i t p. unfold lookup in refl;
        })
        (omega (arith, fits)) in
    (
      s.ordered,
      λ id t q c. s.moved id t q (zero_add id live ∙ c),
      λ id t q c. s.gone id t q (zero_add id live ∙ c),
    )
