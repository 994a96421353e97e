-- ===== src/Slug/Clean.antt =====
-- What a slug consists of, and that it is its own slug.
use epiphany.Base.{
  ℕ, ◌≡◌, ◌≢◌, refl, ap, sym, subst, Bool, true, false, not, ◌&&◌, ◌||◌, [], ◌∷◌, Bool-cases, inl,
  inr, arith,
}
use epiphany.Text.{Text, drop_end_while}
use epiphany.Slug.{
  mapped, is_kept, is_dash, slug_from, drop_dashes, trim_dashes, or_fallback, empty_fallback, slug,
}

-- Lowercase letters, digits, underscores and dashes, of which no two stand together; `last` tells
-- that a dash stands before.
abbrev pub is_clean : Bool → Text → Bool
is_clean last [] = true
is_clean last (c ∷ s) = (is_kept c || (is_dash c && not last)) && is_clean (is_dash c) s

mapped_kept : (c : ℕ) → (is_kept (mapped c) || is_dash (mapped c)) ≡ true
mapped_kept c = ground arith

kept-mapped : (c : ℕ) → (is_kept c || is_dash c) ≡ true → mapped c ≡ c
kept-mapped c h = ground arith

and_true : {a b : Bool} → a ≡ true → b ≡ true → (a && b) ≡ true
and_true p q = ground arith

-- of a kept character, and of a dash where none stands before
kept_or_dash :
    (k d last : Bool) → (k || d) ≡ true → (d ≡ true → last ≡ false) → (k || (d && not last)) ≡ true
kept_or_dash true d last h w = refl
kept_or_dash false d last h w = ground (arith, w)

slug_from-is_clean : (last : Bool) (s : Text) → is_clean last (slug_from last s) ≡ true
unfolding slug_from
slug_from-is_clean last [] = refl
slug_from-is_clean true (c ∷ s) = elim (Bool-cases (is_dash (mapped c))) [
  | inl e ↦ rw e (slug_from-is_clean true s)
  | inr e ↦ rw e (
      and_true
        (kept_or_dash (is_kept (mapped c)) (is_dash (mapped c)) true (mapped_kept c)
          (λ d. absurd (cc)))
        (rw e (slug_from-is_clean false s)))
]
slug_from-is_clean false (c ∷ s) = elim (Bool-cases (is_dash (mapped c))) [
  | inl e ↦ rw e (
      and_true
        (kept_or_dash (is_kept (mapped c)) (is_dash (mapped c)) false (mapped_kept c) (λ d. refl))
        (rw e (slug_from-is_clean true s)))
  | inr e ↦ rw e (
      and_true
        (kept_or_dash (is_kept (mapped c)) (is_dash (mapped c)) false (mapped_kept c) (λ d. refl))
        (rw e (slug_from-is_clean false s)))
]

is_clean-slug_from : (last : Bool) (s : Text) → is_clean last s ≡ true → slug_from last s ≡ s
unfolding slug_from
is_clean-slug_from last [] h = refl
is_clean-slug_from last (c ∷ s) h =
    ground (arith, kept-mapped c, is_clean-slug_from true s, is_clean-slug_from false s)

drop_end-is_clean :
    (last : Bool) (s : Text)
    → is_clean last s ≡ true
    → is_clean last (drop_end_while is_dash s) ≡ true
unfolding drop_end_while
drop_end-is_clean last [] h = refl
drop_end-is_clean last (c ∷ s) h = ground (arith, drop_end-is_clean (is_dash c) s)

drop_end-drop_end :
    (s : Text) → drop_end_while is_dash (drop_end_while is_dash s) ≡ drop_end_while is_dash s
unfolding drop_end_while
drop_end-drop_end [] = refl
drop_end-drop_end (c ∷ s) = ground (arith, drop_end-drop_end s)

and_left : (a b : Bool) → (a && b) ≡ true → a ≡ true
and_left a b h = ground arith

and_right : (a b : Bool) → (a && b) ≡ true → b ≡ true
and_right a b h = ground arith

or_weaken : (k d : Bool) → (k || (d && false)) ≡ true → (k || (d && true)) ≡ true
or_weaken k d h = ground arith

or_other : (k d : Bool) → (k || (d && true)) ≡ true → d ≡ false → (k || (d && false)) ≡ true
or_other k d h e = ground (arith, h, e)

-- A dash is no letter, digit or underscore.
dash-not-kept : (c : ℕ) → is_dash c ≡ true → is_kept c ≡ false
dash-not-kept c h = ground arith

kept-not-dash : (k d : Bool) → (k || (d && false)) ≡ true → k ≢ false
kept-not-dash k d h e = ground (arith, h, e)

is_clean_weaken : (s : Text) → is_clean true s ≡ true → is_clean false s ≡ true
is_clean_weaken [] h = refl
is_clean_weaken (c ∷ s) h =
    and_true
      (or_weaken (is_kept c) (is_dash c)
        (and_left (is_kept c || (is_dash c && false)) (is_clean (is_dash c) s) h))
      (and_right (is_kept c || (is_dash c && false)) (is_clean (is_dash c) s) h)

drop_dashes-is_clean : (s : Text) → is_clean true s ≡ true → drop_dashes s ≡ s
unfolding drop_dashes
drop_dashes-is_clean [] h = refl
drop_dashes-is_clean (c ∷ s) h = elim (Bool-cases (is_dash c)) [
  | inl e ↦
      let bad : (is_kept c || (is_dash c && false)) ≡ true =
        and_left (is_kept c || (is_dash c && false)) (is_clean (is_dash c) s) h in
      absurd (kept-not-dash (is_kept c) (is_dash c) bad (dash-not-kept c e))
  | inr e ↦ rw e refl
]

is_clean-drop_dashes : (s : Text) → is_clean false s ≡ true → is_clean true (drop_dashes s) ≡ true
unfolding drop_dashes
is_clean-drop_dashes [] h = refl
is_clean-drop_dashes (c ∷ s) h = elim (Bool-cases (is_dash c)) [
  | inl e ↦
      let rest : is_clean true s ≡ true =
        rw e at (and_right (is_kept c || (is_dash c && true)) (is_clean (is_dash c) s) h) in
      rw (e, drop_dashes-is_clean s rest) rest
  | inr e ↦
      let same : drop_dashes (c ∷ s) ≡ c ∷ s = rw e refl in
      subst (λ t. is_clean true t ≡ true) (sym same)
        (and_true
          (or_other (is_kept c) (is_dash c)
            (and_left (is_kept c || (is_dash c && true)) (is_clean (is_dash c) s) h) e)
          (and_right (is_kept c || (is_dash c && true)) (is_clean (is_dash c) s) h))
]

-- the slug before the fallback
trimmed-is_clean : (name : Text) → is_clean true (trim_dashes (slug_from false name)) ≡ true
unfolding trim_dashes
trimmed-is_clean name =
    drop_end-is_clean true (drop_dashes (slug_from false name))
      (is_clean-drop_dashes (slug_from false name) (slug_from-is_clean false name))

trim_dashes-trimmed :
    (name : Text)
    → let s = trim_dashes (slug_from false name) in trim_dashes (slug_from false s) ≡ s
unfolding trim_dashes
trim_dashes-trimmed name =
    let s = drop_end_while is_dash (drop_dashes (slug_from false name)) in
    let clean : is_clean true s ≡ true = unfold trim_dashes in trimmed-is_clean name in
    rw (is_clean-slug_from false s (is_clean_weaken s clean), drop_dashes-is_clean s clean)
      (drop_end-drop_end (drop_dashes (slug_from false name)))

fallback-slug : slug empty_fallback ≡ empty_fallback
unfolding slug slug_from trim_dashes drop_dashes drop_end_while
fallback-slug = refl

slug-or_fallback :
    (s : Text) → trim_dashes (slug_from false s) ≡ s → slug (or_fallback s) ≡ or_fallback s
unfolding slug
slug-or_fallback [] h = fallback-slug
slug-or_fallback (c ∷ s) h = ap or_fallback h

-- A slug is its own slug.
pub slug-slug : (name : Text) → slug (slug name) ≡ slug name
unfolding slug
slug-slug name = slug-or_fallback (trim_dashes (slug_from false name)) (trim_dashes-trimmed name)

or_fallback-is_clean : (s : Text) → is_clean true s ≡ true → is_clean true (or_fallback s) ≡ true
or_fallback-is_clean [] h = refl
or_fallback-is_clean (c ∷ s) h = h

or_fallback-not-empty : (s : Text) → or_fallback s ≢ []
or_fallback-not-empty [] e = absurd (cc)
or_fallback-not-empty (c ∷ s) e = absurd (cc)

drop_end-or_fallback :
    (s : Text)
    → drop_end_while is_dash s ≡ s
    → drop_end_while is_dash (or_fallback s) ≡ or_fallback s
unfolding drop_end_while
drop_end-or_fallback [] h = refl
drop_end-or_fallback (c ∷ s) h = h

-- A slug is not empty; it consists of lowercase letters, digits, underscores and dashes; it neither
-- begins nor ends with a dash, and no two dashes stand together.
pub slug-is_clean :
    (name : Text)
    → (slug name ≢ [])
      × (is_clean true (slug name) ≡ true)
      × (drop_end_while is_dash (slug name) ≡ slug name)
unfolding slug
slug-is_clean name =
    let s = trim_dashes (slug_from false name) in
    (
      or_fallback-not-empty s,
      or_fallback-is_clean s (trimmed-is_clean name),
      drop_end-or_fallback s
          (unfold trim_dashes in drop_end-drop_end (drop_dashes (slug_from false name))),
    )
