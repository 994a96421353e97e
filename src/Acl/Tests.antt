-- ===== src/Acl/Tests.antt =====
-- A list with a grant to a user and one to a group.
use epiphany.Base.{◌≡◌, refl, [], ◌∷◌, In, ◌⊎◌, ◌↔◌}
use epiphany.Base.Eq.{list_eq}
use epiphany.Base.Assoc.{lookup}
use epiphany.Text.{Text}
use epiphany.Acl.{no_access, read, write, AccessList, level_for, raise_all}
use epiphany.Acl.Level.{Suffices, Grants, level_for-Suffices}

abbrev acl : AccessList
acl = record { users = (b'a' ∷ [], read) ∷ []; groups = (b'g' ∷ [], write) ∷ [] }

group_wins : level_for acl (b'a' ∷ []) ((b'g' ∷ []) ∷ []) ≡ write
unfolding level_for raise_all lookup
group_wins = refl

level_for-Suffices_example : Suffices write (level_for acl (b'a' ∷ []) ((b'g' ∷ []) ∷ [])) ↔ (
    (write ≡ no_access)
    ⊎ (Grants acl.users (b'a' ∷ []) write
        ⊎ ((g : Text) × In g ((b'g' ∷ []) ∷ []) × Grants acl.groups g write)))
level_for-Suffices_example = level_for-Suffices acl (b'a' ∷ []) ((b'g' ∷ []) ∷ []) write
