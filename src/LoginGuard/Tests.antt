-- ===== src/LoginGuard/Tests.antt =====
-- A guard that locks for 1000 ms after 3 failures.
use epiphany.Base.{◌≡◌, ◌≢◌, refl, [], ◌∷◌, true, arith}
use epiphany.Base.Eq.{list_eq, list_beq_iff}
use epiphany.Base.Assoc.{lookup}
use epiphany.Base.Assoc.Unique.{IsUnique}
use epiphany.Text.{Text}
use epiphany.LoginGuard.{LoginGuard, new, is_locked}
use epiphany.LoginGuard.Lockout.{fail_all, is_locked-fail_all}

abbrev ann : Text
ann = b'a' ∷ []

abbrev bob : Text
bob = b'b' ∷ []

abbrev guard : LoginGuard
guard = new 3 1000

bob-ann : bob ≢ ann
bob-ann e = ground (arith, (list_beq_iff bob ann).1 e)

-- ann is locked until 2000.
abbrev ann_locked : LoginGuard
ann_locked = record guard {
  attempts = (ann, record { failures = 3; locked_until = 2000; last_seen = 1000 }) ∷ [];
}

ann_locked-IsUnique : IsUnique ann_locked.attempts
unfolding lookup
ann_locked-IsUnique = (refl, tt)

is_locked-fail_all_example : is_locked (fail_all guard ann (0 ∷ 500 ∷ 900 ∷ [])) ann 1899 ≡ true
unfolding lookup
is_locked-fail_all_example =
    is_locked-fail_all guard ann 0 (500 ∷ 900 ∷ []) 1899 tt refl refl (omega arith)
      (omega arith, (omega arith, tt)) (omega arith)
