-- ===== src/LoginGuard/Lockout.antt =====
-- When failures lock a user.
use epiphany.Base.{
  ℕ, ◌+◌, ◌^◌, ◌≤◌, ◌<◌, ◌≡◌, refl, ap, sym, subst, ◌∙◌, true, false, ◌&&◌, none, some, List, [],
  ◌∷◌, length, ltb, leb, ◌==◌, if◌then◌else◌, Bool-cases, inl, inr, arith,
}
use epiphany.Base.Eq.{nat_eq, list_eq}
use epiphany.Base.Assoc.{lookup}
use epiphany.Base.Assoc.Unique.{IsUnique}
use epiphany.Text.{Text}
use epiphany.LoginGuard.{
  Attempts, LoginGuard, disabled, is_locked, active, serve, count_failure, record_failure,
  saturating_add,
}
use epiphany.LoginGuard.Entry.{
  next_entry, record_failure-failed, failed-IsUnique, lookup-failed_self,
}

-- failed logins of one user, one after the other
pub fail_all : LoginGuard → Text → List ℕ → LoginGuard
fail_all g u [] = g
fail_all g u (t ∷ ts) = fail_all (record_failure g u t).0 u ts

-- Each failure comes within the lockout of the one before.
abbrev pub IsPaced : ℕ → ℕ → List ℕ → Type 0
IsPaced lockout before [] = Unit
IsPaced lockout before (t ∷ ts) = (t < saturating_add 64 before lockout) × IsPaced lockout t ts

abbrev pub last : ℕ → List ℕ → ℕ
last t [] = t
last t (s ∷ ts) = last s ts

abbrev counted : ℕ → ℕ → ℕ → Attempts
counted failures locked_until last_seen = record {
  failures = failures;
  locked_until = locked_until;
  last_seen = last_seen;
}

-- the count behind one more failure of a user that is not locked
next_entry-counted :
    (g : LoginGuard) (i seen now : ℕ)
    → now < saturating_add 64 seen g.lockout_millis
    → i + 1 < 2 ^ 32
    → (next_entry g now (some (counted i 0 seen))).0
      ≡ counted
          (i + 1)
          (if leb g.max_failures (i + 1) then saturating_add 64 now g.lockout_millis else 0)
          now
unfolding serve count_failure
next_entry-counted g i seen now soon small =
    let kept : active g.lockout_millis now (counted i 0 seen) ≡ true = ground arith in
    let exact : saturating_add 32 i 1 ≡ i + 1 = omega arith in
    elim (Bool-cases (leb g.max_failures (i + 1))) [
      | inl e ↦ rw (kept, exact, e) refl
      | inr e ↦ rw (kept, exact, e) refl
    ]

-- the same from a user without an entry
next_entry-none :
    (g : LoginGuard) (now : ℕ)
    → (next_entry g now none).0
      ≡ counted 1 (if leb g.max_failures 1 then saturating_add 64 now g.lockout_millis else 0) now
unfolding serve count_failure
next_entry-none g now = elim (Bool-cases (leb g.max_failures 1)) [
  | inl e ↦ rw e refl
  | inr e ↦ rw e refl
]

module _ (u : Text) where
  -- a guard that counts, with the entry of the user
  record IsCounting (g : LoginGuard) (max lockout : ℕ) (entry : Attempts) : Type 0 where
    unique : IsUnique g.attempts
    on : disabled g ≡ false
    is_max : g.max_failures ≡ max
    is_lockout : g.lockout_millis ≡ lockout
    is_entry : lookup u g.attempts ≡ some entry

  first-IsCounting :
      (g : LoginGuard) (now : ℕ)
      → IsUnique g.attempts
      → disabled g ≡ false
      → lookup u g.attempts ≡ none
      → IsCounting (record_failure g u now).0 g.max_failures g.lockout_millis (
          counted 1
            (if leb g.max_failures 1 then saturating_add 64 now g.lockout_millis else 0)
            now)
  first-IsCounting g now h on e = rw (record_failure-failed g u now h on) (record {
    unique = failed-IsUnique g u now h;
    on = on;
    is_max = refl;
    is_lockout = refl;
    is_entry = lookup-failed_self g u now ∙ (rw (e, next_entry-none g now) refl);
  })

  next-IsCounting :
      (g : LoginGuard) (max lockout i seen now : ℕ)
      → IsCounting g max lockout (counted i 0 seen)
      → now < saturating_add 64 seen lockout
      → i + 1 < 2 ^ 32
      → IsCounting
          (record_failure g u now).0
          max
          lockout
          (counted (i + 1) (if leb max (i + 1) then saturating_add 64 now lockout else 0) now)
  next-IsCounting g max lockout i seen now s soon small =
      rw (record_failure-failed g u now s.unique s.on) (record {
        unique = failed-IsUnique g u now s.unique;
        on = s.on;
        is_max = s.is_max;
        is_lockout = s.is_lockout;
        is_entry =
            lookup-failed_self g u now
            ∙ (rw (s.is_entry, sym s.is_max, sym s.is_lockout)
                (ap some (
                  next_entry-counted g i seen now
                    (subst (λ l. now < saturating_add 64 seen l) (sym s.is_lockout) soon) small)));
      })

  -- the entry behind `count` failures, the last one at `t`
  abbrev reached : ℕ → ℕ → ℕ → ℕ → Attempts
  reached max lockout count t =
      counted count (if leb max count then saturating_add 64 t lockout else 0) t

  reached-below : (max lockout i t : ℕ) → i < max → reached max lockout i t ≡ counted i 0 t
  reached-below max lockout i t lt = let below : leb max i ≡ false = ground arith in rw below refl

  fail_all-IsCounting :
      (g : LoginGuard) (max lockout i seen : ℕ) (ts : List ℕ)
      → IsCounting g max lockout (reached max lockout i seen)
      → max < 2 ^ 32
      → IsPaced lockout seen ts
      → i + length ts ≤ max
      → IsCounting
          (fail_all g u ts)
          max
          lockout
          (reached max lockout (i + length ts) (last seen ts))
  unfolding fail_all
  fail_all-IsCounting g max lockout i seen [] s small paced room =
      subst (λ n. IsCounting g max lockout (reached max lockout n seen)) (omega arith) s
  fail_all-IsCounting g max lockout i seen (t ∷ ts) s small paced room =
      let now =
        subst (IsCounting g max lockout) (reached-below max lockout i seen (omega arith)) s in
      let next = next-IsCounting g max lockout i seen t now paced.0 (omega arith) in
      subst
        (λ n.
          IsCounting (fail_all (record_failure g u t).0 u ts) max lockout
            (reached max lockout n (last t ts)))
        (omega arith)
        (fail_all-IsCounting (record_failure g u t).0 max lockout (i + 1) t ts next small paced.1
          (omega arith))

  IsCounting-is_locked :
      (g : LoginGuard) (max lockout : ℕ) (entry : Attempts) (now : ℕ)
      → IsCounting g max lockout entry
      → is_locked g u now ≡ ltb now entry.locked_until
  unfolding is_locked
  IsCounting-is_locked g max lockout entry now s = rw (s.on, s.is_entry) refl

locks_at :
    (n max now until m : ℕ)
    → m ≡ n
    → n ≤ max
    → ltb now (if leb max m then until else 0) ≡ (n == max && ltb now until)
locks_at n max now until m same le = ground arith

-- From a user without an entry, failures that each come within the lockout of the one before lock
-- the user exactly when there are `max_failures` of them, from then until the lockout has passed
-- since the last one; fewer failures leave the user unlocked at every time.
pub is_locked-fail_all :
    (g : LoginGuard) (u : Text) (t : ℕ) (ts : List ℕ) (now : ℕ)
    → IsUnique g.attempts
    → disabled g ≡ false
    → lookup u g.attempts ≡ none
    → g.max_failures < 2 ^ 32
    → IsPaced g.lockout_millis t ts
    → length (t ∷ ts) ≤ g.max_failures
    → is_locked (fail_all g u (t ∷ ts)) u now ≡ (
        length (t ∷ ts) == g.max_failures
        && ltb now (saturating_add 64 (last t ts) g.lockout_millis))
unfolding fail_all
is_locked-fail_all g u t ts now h on e small paced room =
    let max = g.max_failures in
    let lockout = g.lockout_millis in
    let s =
      fail_all-IsCounting u (record_failure g u t).0 max lockout 1 t ts
        (first-IsCounting u g t h on e) small paced (omega (arith, room)) in
    IsCounting-is_locked u (fail_all (record_failure g u t).0 u ts) max lockout
      (reached u max lockout (1 + length ts) (last t ts)) now s
    ∙ locks_at (length (t ∷ ts)) max now (saturating_add 64 (last t ts) lockout) (1 + length ts)
        (omega arith) room
