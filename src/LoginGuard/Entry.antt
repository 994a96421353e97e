-- ===== src/LoginGuard/Entry.antt =====
-- The entry of each user behind a failed login, and what other users notice of it.
use epiphany.Base.{
  ℕ, ◌≤◌, ◌≡◌, ◌≢◌, refl, ◌∙◌, Bool, true, false, Option, none, some, if◌then◌else◌, Bool-cases,
  inl, inr, arith,
}
use epiphany.Base.Eq.{nat_eq, list_eq, list_beq, list_beq_iff}
use epiphany.Base.Assoc.{lookup, insert, remove, retain, lookup-insert, lookup-remove}
use epiphany.Base.Assoc.Unique.{IsUnique, keep_if, lookup-retain, retain-IsUnique, insert-IsUnique}
use epiphany.Text.{Text}
use epiphany.LoginGuard.{
  Attempts, LoginGuard, disabled, locked_at, is_locked, active, prune, entry_or_new, serve,
  count_failure, record_failure, record_success,
}

-- the entry behind a failure, from the one before
abbrev pub next_entry : LoginGuard → ℕ → Option Attempts → Attempts × Bool
next_entry g now o =
    count_failure g.max_failures g.lockout_millis now
      (serve now (entry_or_new now (keep_if (active g.lockout_millis now) o)))

-- the guard behind a failure
abbrev pub failed : LoginGuard → Text → ℕ → LoginGuard
failed g u now = record g {
  attempts =
      insert u (next_entry g now (lookup u g.attempts)).0
        (retain (active g.lockout_millis now) g.attempts);
}

pub record_failure-failed :
    (g : LoginGuard) (u : Text) (now : ℕ)
    → IsUnique g.attempts
    → disabled g ≡ false
    → record_failure g u now ≡ (failed g u now, (next_entry g now (lookup u g.attempts)).1)
unfolding record_failure prune
record_failure-failed g u now h on =
    rw (on, lookup-retain (active g.lockout_millis now) u g.attempts h) refl

record_failure-disabled :
    (g : LoginGuard) (u : Text) (now : ℕ) → disabled g ≡ true → record_failure g u now ≡ (g, false)
unfolding record_failure
record_failure-disabled g u now off = rw off refl

pub failed-IsUnique :
    (g : LoginGuard) (u : Text) (now : ℕ) → IsUnique g.attempts → IsUnique (failed g u now).attempts
failed-IsUnique g u now h =
    insert-IsUnique u (next_entry g now (lookup u g.attempts)).0
      (retain (active g.lockout_millis now) g.attempts)
      (retain-IsUnique (active g.lockout_millis now) g.attempts h)

pub lookup-failed_self :
    (g : LoginGuard) (u : Text) (now : ℕ)
    → lookup u (failed g u now).attempts ≡ some (next_entry g now (lookup u g.attempts)).0
lookup-failed_self g u now =
    lookup-insert u u (next_entry g now (lookup u g.attempts)).0
      (retain (active g.lockout_millis now) g.attempts)
    ∙ (rw ((list_beq_iff u u).1 refl) refl)

pub lookup-failed_ne :
    (g : LoginGuard) (u v : Text) (now : ℕ)
    → IsUnique g.attempts
    → list_beq u v ≡ false
    → lookup v (failed g u now).attempts
      ≡ keep_if (active g.lockout_millis now) (lookup v g.attempts)
lookup-failed_ne g u v now h ne =
    lookup-insert u v (next_entry g now (lookup u g.attempts)).0
      (retain (active g.lockout_millis now) g.attempts)
    ∙ (rw ne (lookup-retain (active g.lockout_millis now) v g.attempts h))

-- Only entries that are not locked are pruned.
locked_at-keep_if :
    (lockout now t : ℕ) (o : Option Attempts)
    → now ≤ t
    → locked_at t (keep_if (active lockout now) o) ≡ locked_at t o
locked_at-keep_if lockout now t none le = refl
locked_at-keep_if lockout now t (some a) le = ground arith

-- A failed login of one user changes nothing about whether another one is locked, at that time or
-- later.
pub is_locked-record_failure :
    (g : LoginGuard) (u v : Text) (now t : ℕ)
    → IsUnique g.attempts
    → u ≢ v
    → now ≤ t
    → is_locked (record_failure g u now).0 v t ≡ is_locked g v t
unfolding is_locked
is_locked-record_failure g u v now t h ne le = elim (Bool-cases (disabled g)) [
  | inl off ↦ rw (record_failure-disabled g u now off) refl
  | inr on ↦
      let other : list_beq u v ≡ false = grind (arith, ne, list_beq_iff u v) in
      rw (record_failure-failed g u now h on, on, lookup-failed_ne g u v now h other)
        (locked_at-keep_if g.lockout_millis now t (lookup v g.attempts) le)
]

-- A successful login unlocks its user and nobody else.
pub is_locked-record_success :
    (g : LoginGuard) (u v : Text) (t : ℕ)
    → is_locked (record_success g u) v t ≡ (if list_beq u v then false else is_locked g v t)
unfolding is_locked record_success
is_locked-record_success g u v t =
    let k : lookup v (remove u g.attempts) ≡ (if list_beq u v then none else lookup v g.attempts) =
      lookup-remove u v g.attempts in
    elim (Bool-cases (list_beq u v)) [ inl e ↦ rw (k, e) (ground arith) | inr e ↦ rw (k, e) refl ]
