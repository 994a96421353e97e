-- ===== src/Base/Maybe.antt =====
-- The `?` of Rust on an `Option`, which is `>>=`.
use mathlib.Core.Option.{Option, none, some, some-injective}
use mathlib.Core.Path.{◌≡◌, ap, ◌∙◌}

infixl 5 ◌>>=◌
abbrev pub ◌>>=◌ {ℓ κ} : {A : Type ℓ} {B : Type κ} → Option A → (A → Option B) → Option B
none >>= f = none
some a >>= f = f a

-- To step through a chain of which one part is known.
pub bind-some {ℓ κ} :
    {A : Type ℓ} {B : Type κ} {o : Option A} (f : A → Option B) (a : A) {r : Option B}
    → o ≡ some a
    → f a ≡ r
    → (o >>= f) ≡ r
bind-some {o = none} f a e h = cc
bind-some {o = some b} f a e h = ap f (some-injective b a e) ∙ h
