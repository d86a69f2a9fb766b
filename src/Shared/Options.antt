-- ===== src/Shared/Options.antt =====
-- Chains of computations that may have no result.
use mathlib.Core.Path.{◌≡◌, refl}
use mathlib.Core.Option.{Option, none, some}

infixl 5 ◌>>=◌
abbrev pub ◌>>=◌ : {A B : Type 0} → Option A → (A → Option B) → Option B
none >>= f = none
some a >>= f = f a

-- The parts of a chain that goes on.
pub bind_inv :
    {A B : Type 0} (m : Option A) (f : A → Option B) (b : B)
    → (m >>= f) ≡ some b
    → (a : A) × (m ≡ some a) × (f a ≡ some b)
bind_inv none f b e = cc
bind_inv (some a) f b e = (a, refl, e)

pub some_injective : {A : Type 0} {a b : A} → some a ≡ some b → a ≡ b
some_injective e = cc

pub none≢some : {A : Type 0} {a : A} → ¬ (none ≡ some a)
none≢some e = cc

-- A computation that has a result.
abbrev pub Defined : {A : Type 0} → Option A → Type 0
Defined {A = A} m = (a : A) × (m ≡ some a)

pub bind-Defined :
    {A B : Type 0} (m : Option A) (f : A → Option B)
    → Defined m
    → ((a : A) → Defined (f a))
    → Defined (m >>= f)
bind-Defined none f h each = absurd (none≢some h.1)
bind-Defined (some a) f h each = each a
