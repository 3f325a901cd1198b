-- ===== src/Prelude/Maybe.antt =====
-- A chain of lookups that end with `null` at the first that fails.
use mathlib.Core.Path.{◌≡◌, refl}
use mathlib.Core.Bool.{Bool, true, false}
use mathlib.Core.Option.{Option, none, some}

infixl 5 ◌>>=◌
abbrev pub ◌>>=◌ {ℓ κ} : {A : Type ℓ} {B : Type κ} → Option A → (A → Option B) → Option B
none >>= f = none
some a >>= f = f a

-- A chain that ends in a value found one at each step.
pub >>=-eq-some {ℓ κ} :
    {A : Type ℓ} {B : Type κ} (found : Option A) (next : A → Option B) {out : B}
    → (found >>= next) ≡ some out
    → (value : A) × (found ≡ some value) × (next value ≡ some out)
>>=-eq-some none next h = cc
>>=-eq-some (some value) next h = (value, refl, h)

-- `Boolean(x)` of an object or `undefined`
abbrev pub is_some {ℓ} : {A : Type ℓ} → Option A → Bool
is_some none = false
is_some (some a) = true
