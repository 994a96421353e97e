-- ===== src/Acl.antt =====
-- Access levels and the grants on one object: crates/epiphany-security/src/acl.rs.
pub mod Level
mod Tests
use epiphany.Base.{ℕ, Bool, true, false, Option, none, some, List, [], ◌∷◌, leb, if◌then◌else◌}
use epiphany.Base.Eq.{list_eq}
use epiphany.Base.Assoc.{lookup, insert, remove}
use epiphany.Text.{Text}

-- `AccessLevel::None` is `no_access`.
pub data AccessLevel : Type 0 where
  no_access read write admin : AccessLevel

-- the place in the derived order
abbrev pub level_rank : AccessLevel → ℕ
level_rank no_access = 0
level_rank read = 1
level_rank write = 2
level_rank admin = 3

-- Ord::max, which takes the second of two equal ones
abbrev pub max_level : AccessLevel → AccessLevel → AccessLevel
max_level a b = if leb (level_rank a) (level_rank b) then b else a

pub data Subject : Type 0 where
  user : Text → Subject
  group : Text → Subject

pub record AccessList : Type 0 where
  pub users : List (Text × AccessLevel)
  pub groups : List (Text × AccessLevel)

-- copied().unwrap_or(AccessLevel::None)
abbrev pub or_no_access : Option AccessLevel → AccessLevel
or_no_access none = no_access
or_no_access (some l) = l

abbrev pub raise : AccessLevel → Option AccessLevel → AccessLevel
raise level none = level
raise level (some l) = max_level level l

-- the loop of `level_for`
pub raise_all : List (Text × AccessLevel) → AccessLevel → List Text → AccessLevel
raise_all groups level [] = level
raise_all groups level (g ∷ gs) = raise_all groups (raise level (lookup g groups)) gs

-- AccessList::level_for
pub level_for : AccessList → Text → List Text → AccessLevel
unfolding raise_all
level_for acl username groups =
    raise_all acl.groups (or_no_access (lookup username acl.users)) groups

-- the write of `set` to one of the two maps
abbrev pub put_level : Text → AccessLevel → List (Text × AccessLevel) → List (Text × AccessLevel)
put_level key no_access m = remove key m
put_level key read m = insert key read m
put_level key write m = insert key write m
put_level key admin m = insert key admin m

-- AccessList::set
pub set : AccessList → Subject → AccessLevel → AccessList
set acl (user u) level = record acl { users = put_level u level acl.users }
set acl (group g) level = record acl { groups = put_level g level acl.groups }
