-- ===== src/Durable/Readable.antt =====
-- Writes of readable numbers keep the numbers of a cube readable
-- (crates/epiphany-persist/src/store.rs).
use mathlib.Core.Option.{some-injective}
use epiphany.Base.{
  ℕ, zero, suc, ◌≡◌, ap, ◌∙◌, subst, Bool, inl, inr, Bool-cases, List, [], ◌∷◌, get_elem?, set,
  Option, some, none, All,
}
use epiphany.Base.Assoc.{insert, remove}
use epiphany.Base.Eq.{Eq, list_eq, nat_eq, ◌=?◌}
use epiphany.Base.Result.{ok, ok_or, bind-eq-ok, ok-injective}
use epiphany.Text.{Text}
use epiphany.Model.{ModelError, unknown_dimension, element_not_found}
use epiphany.Fixed.{Fixed, is_zero}
use epiphany.Dimension.{Dimension, AttributeValue, element, index_of}
use epiphany.Dimension.Elements as E
use epiphany.Layout.{Layout}
use epiphany.Store.{CellStore, narrow, wide, put, clear}
use epiphany.Cube.{Cube, set_leaf, store_string}
use epiphany.Cube.Cells.{set_leaf-eq-ok}
use epiphany.Cube.Strings.{set_string-eq-ok}
use epiphany.Cube.Pins.{pin_element, dimension_index}
use epiphany.Wal.{Record, batch_begin, batch_end}
use epiphany.Wal as W
use epiphany.Durable.Snapshot.{
  IsReadable, AreReadable, IsReadableValue, HasReadable, names, AreDifferent,
}
use epiphany.Durable.Commands.{apply_record, apply_records}

-- the number that a record writes is readable
abbrev pub WritesReadable : Record → Type 0
WritesReadable (W.set_leaf coord value) = IsReadable value
WritesReadable (W.set_string coord value) = Unit
WritesReadable (W.set_pin dimension element pinned) = Unit
WritesReadable (batch_begin count) = Unit
WritesReadable batch_end = Unit

abbrev HasReadableRows : Dimension → Type 0
HasReadableRows d = All (λ (row : List (ℕ × AttributeValue)). All IsReadableValue row) d.attr_values

module _ {K : Type 0} {V : Type 0} (P : K × V → Type 0) ⦃e : Eq K⦄ where
  All-remove : (k : K) (m : List (K × V)) → All P m → All P (remove k m)
  unfolding remove
  All-remove k [] a = tt
  All-remove k ((j, v) ∷ m) a = elim (Bool-cases (j =? k)) [
    | inl q ↦ rw q (All-remove k m a.1)
    | inr q ↦ rw q (a.0, All-remove k m a.1)
  ]

module _ {A : Type 0} (P : A → Type 0) where
  All-set : (xs : List A) (i : ℕ) (v : A) → P v → All P xs → All P (set xs i v)
  All-set [] i v h a = tt
  All-set (x ∷ xs) zero v h a = (h, a.1)
  All-set (x ∷ xs) (suc i) v h a = (a.0, All-set xs i v h a.1)

  All-get : (xs : List A) (i : ℕ) (x : A) → All P xs → get_elem? xs i ≡ some x → P x
  All-get [] i x a h = cc
  All-get (y ∷ xs) zero x a h = subst P (some-injective y x h) a.0
  All-get (y ∷ xs) (suc i) x a h = All-get xs i x a.1 h

put-AreReadable :
    (s : CellStore Fixed) (layout : Layout) (coord : List ℕ) (value : Fixed)
    → IsReadable value
    → AreReadable s
    → AreReadable (put s layout coord value)
unfolding put insert
put-AreReadable (narrow m) layout coord value h a = (h, All-remove _ _ m a)
put-AreReadable (wide m) layout coord value h a = (h, All-remove _ coord m a)

clear-AreReadable :
    (s : CellStore Fixed) (layout : Layout) (coord : List ℕ)
    → AreReadable s
    → AreReadable (clear s layout coord)
unfolding clear
clear-AreReadable (narrow m) layout coord a = All-remove _ _ m a
clear-AreReadable (wide m) layout coord a = All-remove _ coord m a

set_leaf-HasReadable :
    (cube after : Cube) (coord : List ℕ) (value : Fixed)
    → HasReadable cube
    → IsReadable value
    → set_leaf cube coord value ≡ ok after
    → HasReadable after
set_leaf-HasReadable cube after coord value n h e =
    subst HasReadable ((set_leaf-eq-ok cube after coord value e).1) (
      n.0,
      elim (Bool-cases (is_zero value)) [
        | inl z ↦ rw z (clear-AreReadable cube.cells cube.layout coord n.1)
        | inr z ↦ rw z (put-AreReadable cube.cells cube.layout coord value h n.1)
      ],
      n.2,
    )

store_string-HasReadable :
    (cube : Cube) (coord : List ℕ) (value : Text)
    → HasReadable cube
    → HasReadable (store_string cube coord value)
unfolding store_string
store_string-HasReadable cube coord [] n = n
store_string-HasReadable cube coord (c ∷ value) n = n

ok_or-some : {A : Type 0} (o : Option A) (e : ModelError) (a : A) → ok_or o e ≡ ok a → o ≡ some a
ok_or-some none e a h = cc
ok_or-some (some b) e a h = ap (λ x. some x) (ok-injective b a h)

names-set :
    (ds : List Dimension) (i : ℕ) (d next : Dimension)
    → get_elem? ds i ≡ some d
    → d.name ≡ next.name
    → names ds ≡ names (set ds i next)
names-set [] i d next h e = cc
names-set (x ∷ ds) zero d next h e =
    ap (λ k. k ∷ names ds) (ap (λ (y : Dimension). y.name) (some-injective x d h) ∙ e)
names-set (x ∷ ds) (suc i) d next h e = ap (λ ks. x.name ∷ ks) (names-set ds i d next h e)

-- A pin leaves the name and the attributes of a dimension as they are.
kept-set_pin :
    (d next : Dimension) (index : ℕ) (pinned : Bool)
    → E.set_pin d index pinned ≡ ok next
    → (d.attr_values ≡ next.attr_values) × (d.name ≡ next.name)
unfolding E.set_pin
kept-set_pin d next index pinned h =
    let (x, is_x, same) =
      bind-eq-ok (element d index)
        (λ e.
          ok (record d { elements = set d.elements index (record e { pinned_to_top = pinned }) }))
        h in
    let changed =
      ok-injective
        (record d { elements = set d.elements index (record x { pinned_to_top = pinned }) }) next
        same in
    (ap (λ (d' : Dimension). d'.attr_values) changed, ap (λ (d' : Dimension). d'.name) changed)

pin_element-HasReadable :
    (cube after : Cube) (dimension name : Text) (pinned : Bool)
    → HasReadable cube
    → pin_element cube dimension name pinned ≡ ok after
    → HasReadable after
unfolding pin_element
pin_element-HasReadable cube after dimension name pinned n h =
    let (d, is_d, h1) = bind-eq-ok (dimension_index cube dimension) _ h in
    let (found, is_found, h2) =
      bind-eq-ok (ok_or (get_elem? cube.dimensions d) (unknown_dimension cube.name dimension)) _
        h1 in
    let (index, is_index, h3) =
      bind-eq-ok (ok_or (index_of found name) (element_not_found dimension name)) _ h2 in
    let (next, is_next, h4) =
      bind-eq-ok (E.set_pin found index pinned)
        (λ d'. ok (record cube { dimensions = set cube.dimensions d d' })) h3 in
    let there =
      ok_or-some (get_elem? cube.dimensions d) (unknown_dimension cube.name dimension) found
        is_found in
    let kept = kept-set_pin found next index pinned is_next in
    let old = All-get HasReadableRows cube.dimensions d found n.0 there in
    let new =
      subst (λ rows. All (λ (row : List (ℕ × AttributeValue)). All IsReadableValue row) rows) kept.0
        old in
    let different = subst AreDifferent (names-set cube.dimensions d found next there kept.1) n.2 in
    subst HasReadable
      (ok-injective (record cube { dimensions = set cube.dimensions d next }) after h4)
      (All-set HasReadableRows cube.dimensions d next new n.0, n.1, different)

apply_record-HasReadable :
    (cube after : Cube) (r : Record)
    → HasReadable cube
    → WritesReadable r
    → apply_record cube r ≡ ok after
    → HasReadable after
apply_record-HasReadable cube after (W.set_leaf coord value) n h e =
    set_leaf-HasReadable cube after coord value n h e
apply_record-HasReadable cube after (W.set_string coord value) n h e =
    subst HasReadable ((set_string-eq-ok cube after coord value e).1)
      (store_string-HasReadable cube coord value n)
apply_record-HasReadable cube after (W.set_pin dimension name pinned) n h e =
    pin_element-HasReadable cube after dimension name pinned n e
apply_record-HasReadable cube after (batch_begin count) n h e =
    subst HasReadable (ok-injective cube after e) n
apply_record-HasReadable cube after batch_end n h e =
    subst HasReadable (ok-injective cube after e) n

pub apply_records-HasReadable :
    (cube after : Cube) (rs : List Record)
    → HasReadable cube
    → All WritesReadable rs
    → apply_records cube rs ≡ ok after
    → HasReadable after
unfolding apply_records
apply_records-HasReadable cube after [] n h e = subst HasReadable (ok-injective cube after e) n
apply_records-HasReadable cube after (r ∷ rs) n h e =
    let (next, first, rest) = bind-eq-ok (apply_record cube r) _ e in
    apply_records-HasReadable next after rs (apply_record-HasReadable cube next r n h.0 first) h.1
      rest
