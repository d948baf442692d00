-- ===== src/Base/Faults.antt =====
-- `Assert` of assertUtils.hpp and the accesses that are undefined out of range: `none` is a fault.
use mathlib.Core.Path.{◌≡◌, refl}
use mathlib.Core.Bool.{Bool, true, false}
use mathlib.Core.Option.{Option, none, some}

infixl 5 ◌>>=◌ ◌>>◌
abbrev pub ◌>>=◌ {ℓ κ} : {A : Type ℓ} {B : Type κ} → Option A → (A → Option B) → Option B
none >>= f = none
some a >>= f = f a

abbrev pub ◌>>◌ {ℓ} : {B : Type ℓ} → Option (Unit {0}) → Option B → Option B
none >> k = none
some u >> k = k

-- `Assert(expr)`: the process stops when the test fails.
abbrev pub assert : Bool → Option (Unit {0})
assert true = some tt
assert false = none

-- A chain that succeeds has succeeded in each of its steps.
pub bind_inv {ℓ κ} :
    {A : Type ℓ} {B : Type κ} (o : Option A) (f : A → Option B) (b : B)
    → (o >>= f) ≡ some b
    → (a : A) × (o ≡ some a) × (f a ≡ some b)
bind_inv none f b e = absurd (cc e)
bind_inv (some a) f b e = (a, refl, e)

pub assert_inv {ℓ} :
    {B : Type ℓ} (test : Bool) (o : Option B) (b : B)
    → (assert test >> o) ≡ some b
    → (test ≡ true) × (o ≡ some b)
assert_inv true o b e = (refl, e)
assert_inv false o b e = absurd (cc e)

pub some_inj {ℓ} : {A : Type ℓ} {a b : A} → some a ≡ some b → a ≡ b
some_inj e = cc e
