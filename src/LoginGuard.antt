-- ===== src/LoginGuard.antt =====
-- The lockout of users after failed logins: crates/epiphany-api/src/login_guard.rs. Times are
-- milliseconds of the injected clock.
pub mod Entry
pub mod Lockout
mod Tests
use epiphany.Base.{
  ℕ, ◌+◌, ◌-◌, ◌^◌, min, Bool, true, false, not, ◌&&◌, ◌||◌, Option, none, some, List, [], ◌∷◌, ltb,
  leb, ◌==◌, if◌then◌else◌,
}
use epiphany.Base.Eq.{nat_eq, list_eq}
use epiphany.Base.Assoc.{lookup, insert, remove, retain}
use epiphany.Text.{Text}

pub record Attempts : Type 0 where
  pub failures : ℕ
  pub locked_until : ℕ
  pub last_seen : ℕ

pub record LoginGuard : Type 0 where
  pub attempts : List (Text × Attempts)
  pub max_failures : ℕ
  pub lockout_millis : ℕ

-- LoginGuard::new
abbrev pub new : ℕ → ℕ → LoginGuard
new max_failures lockout_millis = record {
  attempts = [];
  max_failures = max_failures;
  lockout_millis = lockout_millis;
}

-- u64::saturating_add and u32::saturating_add
abbrev pub saturating_add : ℕ → ℕ → ℕ → ℕ
saturating_add bits a b = min (a + b) (2 ^ bits - 1)

-- LoginGuard::disabled
abbrev pub disabled : LoginGuard → Bool
disabled g = g.max_failures == 0 || g.lockout_millis == 0

abbrev pub locked_at : ℕ → Option Attempts → Bool
locked_at now none = false
locked_at now (some a) = ltb now a.locked_until

-- LoginGuard::is_locked
pub is_locked : LoginGuard → Text → ℕ → Bool
is_locked g username now = if disabled g then false else locked_at now (lookup username g.attempts)

-- what `prune` keeps
abbrev pub active : ℕ → ℕ → Attempts → Bool
active lockout now a = ltb now a.locked_until || ltb now (saturating_add 64 a.last_seen lockout)

-- LoginGuard::prune
pub prune : LoginGuard → ℕ → LoginGuard
prune g now = record g { attempts = retain (active g.lockout_millis now) g.attempts }

-- entry(..).or_insert(..)
abbrev pub entry_or_new : ℕ → Option Attempts → Attempts
entry_or_new now none = record { failures = 0; locked_until = 0; last_seen = now }
entry_or_new now (some a) = a

-- A lockout that has elapsed starts a fresh window.
pub serve : ℕ → Attempts → Attempts
serve now a =
    if not (a.locked_until == 0) && leb a.locked_until now
    then record a { failures = 0; locked_until = 0 }
    else a

-- one more failure, and whether it locks
pub count_failure : ℕ → ℕ → ℕ → Attempts → Attempts × Bool
count_failure max lockout now a =
    let failures = saturating_add 32 a.failures 1 in
    if leb max failures
    then (
      record { failures = failures; locked_until = saturating_add 64 now lockout; last_seen = now },
      true,
    )
    else (record a { failures = failures; last_seen = now }, false)

-- LoginGuard::record_failure, with what it returns
pub record_failure : LoginGuard → Text → ℕ → LoginGuard × Bool
unfolding prune serve count_failure
record_failure g username now =
    if disabled g
    then (g, false)
    else (let pruned = prune g now in
        let entry = entry_or_new now (lookup username pruned.attempts) in
        let counted = count_failure g.max_failures g.lockout_millis now (serve now entry) in
        (record g { attempts = insert username counted.0 pruned.attempts }, counted.1))

-- LoginGuard::record_success
pub record_success : LoginGuard → Text → LoginGuard
record_success g username = record g { attempts = remove username g.attempts }
