-- ===== src/Acl/Level.antt =====
-- The level of a principal is the most permissive of its grants.
use mathlib.Core.Option.{some-injective}
use epiphany.Base.{
  ◌≤◌, ◌≡◌, ◌≢◌, refl, sym, subst, ◌∙◌, Bool, false, Option, none, some, List, [], ◌∷◌, leb,
  if◌then◌else◌, Bool-cases, Option-cases, inl, inr, ◌⊎◌, In, arith, ◌↔◌,
}
use epiphany.Base.Eq.{list_eq, list_beq}
use epiphany.Base.Assoc.{lookup, lookup-insert, lookup-remove}
use epiphany.Text.{Text}
use epiphany.Acl.{
  AccessLevel, no_access, read, write, admin, level_rank, max_level, Subject, user, group,
  AccessList, or_no_access, raise, raise_all, level_for, put_level, set,
}

-- A level suffices where another one is needed.
abbrev pub Suffices : AccessLevel → AccessLevel → Type 0
Suffices need level = level_rank need ≤ level_rank level

-- A grant of at least the level that is needed.
abbrev pub Grants : List (Text × AccessLevel) → Text → AccessLevel → Type 0
Grants m key need = (l : AccessLevel) × (lookup key m ≡ some l) × Suffices need l

not-none-some : {l : AccessLevel} → none ≢ some l
not-none-some e = cc

max_level-Suffices :
    (a b need : AccessLevel) → Suffices need (max_level a b) ↔ (Suffices need a ⊎ Suffices need b)
max_level-Suffices a b need = elim (Bool-cases (leb (level_rank a) (level_rank b))) [
  | inl e ↦ rw e (λ h. inr h, λ h. elim h [ inl p ↦ ground (arith, p, e) | inr p ↦ p ])
  | inr e ↦ rw e (λ h. inl h, λ h. elim h [ inl p ↦ p | inr p ↦ ground (arith, p, e) ])
]

-- A lookup decides what its key grants.
Grants-some :
    (m : List (Text × AccessLevel)) (key : Text) (l need : AccessLevel)
    → lookup key m ≡ some l
    → Grants m key need ↔ Suffices need l
Grants-some m key l need e =
    (λ (k, is_k, s). subst (Suffices need) (some-injective k l (sym is_k ∙ e)) s, λ s. (l, e, s))

raise-Suffices :
    (level need : AccessLevel) (key : Text) (m : List (Text × AccessLevel))
    → Suffices need (raise level (lookup key m)) ↔ (Suffices need level ⊎ Grants m key need)
raise-Suffices level need key m = elim (Option-cases (lookup key m)) [
  | inl e ↦ (
    λ h. inl (rw e at h),
    λ h. elim h [ inl a ↦ rw e a | inr g ↦ absurd (not-none-some (sym e ∙ g.1)) ],
  )
  | inr (l, e) ↦
      let one = max_level-Suffices level l need in
      let two = Grants-some m key l need e in
      (
        λ h. elim (one.0 (rw e at h)) [ inl a ↦ inl a | inr b ↦ inr (two.1 b) ],
        λ h. rw e (one.1 (elim h [ inl a ↦ inl a | inr g ↦ inr (two.0 g) ])),
      )
]

raise_all-Suffices :
    (m : List (Text × AccessLevel)) (level need : AccessLevel) (gs : List Text)
    → Suffices need (raise_all m level gs)
      ↔ (Suffices need level ⊎ ((g : Text) × In g gs × Grants m g need))
unfolding raise_all
raise_all-Suffices m level need [] = (λ h. inl h, λ h. elim h [ inl a ↦ a | inr z ↦ absurd z.1 ])
raise_all-Suffices m level need (g ∷ gs) =
    let ih = raise_all-Suffices m (raise level (lookup g m)) need gs in
    let one = raise-Suffices level need g m in
    (
      λ h. elim (ih.0 h) [
        | inl a ↦ elim (one.0 a) [ inl b ↦ inl b | inr k ↦ inr (g, inl refl, k) ]
        | inr (x, i, k) ↦ inr (x, inr i, k)
      ],
      λ h. elim h [
        | inl a ↦ ih.1 (inl (one.1 (inl a)))
        | inr (x, i, k) ↦ elim i [
          | inl same ↦ ih.1 (inl (one.1 (inr (subst (λ y. Grants m y need) same k))))
          | inr i ↦ ih.1 (inr (x, i, k))
        ]
      ],
    )

nothing-Suffices : (need : AccessLevel) → Suffices need no_access → need ≡ no_access
nothing-Suffices no_access h = refl
nothing-Suffices read h = absurd (omega (arith, h))
nothing-Suffices write h = absurd (omega (arith, h))
nothing-Suffices admin h = absurd (omega (arith, h))

-- the grant to the user
own-Suffices :
    (acl : AccessList) (username : Text) (need : AccessLevel)
    → Suffices need (or_no_access (lookup username acl.users))
      ↔ ((need ≡ no_access) ⊎ Grants acl.users username need)
own-Suffices acl username need = elim (Option-cases (lookup username acl.users)) [
  | inl e ↦ (
    λ h. inl (nothing-Suffices need (rw e at h)),
    λ h. elim h [ inl z ↦ rw (e, z) (omega arith) | inr g ↦ absurd (not-none-some (sym e ∙ g.1)) ],
  )
  | inr (l, e) ↦
      let one = Grants-some acl.users username l need e in
      (
        λ h. inr (one.1 (rw e at h)),
        λ h. elim h [ inl z ↦ rw (e, z) (omega arith) | inr g ↦ rw e (one.0 g) ],
      )
]

-- A principal has a level that suffices exactly if none is needed, or a grant to the user or to one
-- of the groups suffices: the most permissive grant wins, and nothing else gives access.
pub level_for-Suffices :
    (acl : AccessList) (username : Text) (groups : List Text) (need : AccessLevel)
    → Suffices need (level_for acl username groups) ↔ (
        (need ≡ no_access)
        ⊎ (Grants acl.users username need ⊎ ((g : Text) × In g groups × Grants acl.groups g need)))
unfolding level_for
level_for-Suffices acl username groups need =
    let all =
      raise_all-Suffices acl.groups (or_no_access (lookup username acl.users)) need groups in
    let own = own-Suffices acl username need in
    (
      λ h. elim (all.0 h) [
        | inl a ↦ elim (own.0 a) [ inl z ↦ inl z | inr g ↦ inr (inl g) ]
        | inr k ↦ inr (inr k)
      ],
      λ h. elim h [
        | inl z ↦ all.1 (inl (own.1 (inl z)))
        | inr k ↦ elim k [ inl g ↦ all.1 (inl (own.1 (inr g))) | inr g ↦ all.1 (inr g) ]
      ],
    )

abbrev pub grant_of : AccessList → Subject → Option AccessLevel
grant_of acl (user u) = lookup u acl.users
grant_of acl (group g) = lookup g acl.groups

abbrev pub as_grant : AccessLevel → Option AccessLevel
as_grant no_access = none
as_grant read = some read
as_grant write = some write
as_grant admin = some admin

abbrev pub same_subject : Subject → Subject → Bool
same_subject (user a) (user b) = list_beq a b
same_subject (group a) (group b) = list_beq a b
same_subject _ _ = false

lookup-put_level :
    (key k : Text) (level : AccessLevel) (m : List (Text × AccessLevel))
    → lookup k (put_level key level m) ≡ (if list_beq key k then as_grant level else lookup k m)
lookup-put_level key k no_access m = lookup-remove key k m
lookup-put_level key k read m = lookup-insert key k read m
lookup-put_level key k write m = lookup-insert key k write m
lookup-put_level key k admin m = lookup-insert key k admin m

-- `set` gives its subject the level, `None` taking the grant away, and changes no other subject's
-- grant; a user and a group of one name are two subjects.
pub grant_of-set :
    (acl : AccessList) (a b : Subject) (level : AccessLevel)
    → grant_of (set acl a level) b ≡ (if same_subject a b then as_grant level else grant_of acl b)
unfolding set
grant_of-set acl (user a) (user b) level = lookup-put_level a b level acl.users
grant_of-set acl (group a) (group b) level = lookup-put_level a b level acl.groups
grant_of-set acl (user a) (group b) level = refl
grant_of-set acl (group a) (user b) level = refl
