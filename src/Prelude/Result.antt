-- ===== src/Prelude/Result.antt =====
-- A call that may throw. The error is the message of the `Error` that the code throws.
use Prim.Native.String.{String}
use mathlib.Core.Path.{◌≡◌, refl}
use mathlib.Core.Bool.{Bool, true, false}
use mathlib.Core.Option.{Option, none, some}
use mathlib.Core.List.{List, [], ◌∷◌}
use braiker.Prelude.{◌⊎◌, inl, inr}

pub data Result {ℓ} (A : Type ℓ) : Type ℓ where
  ok : A → Result A
  throw : String → Result A

infixl 5 ◌>>=◌
abbrev pub ◌>>=◌ {ℓ κ} : {A : Type ℓ} {B : Type κ} → Result A → (A → Result B) → Result B
throw message >>= next = throw message
ok value >>= next = next value

-- `if (c) throw new Error(e)`
abbrev pub throw_if : Bool → String → Result (Unit {0})
throw_if true e = throw e
throw_if false e = ok tt

infixl 5 ◌>>◌
abbrev pub ◌>>◌ {ℓ} : {B : Type ℓ} → Result (Unit {0}) → Result B → Result B
throw message >> next = throw message
ok _ >> next = next

-- `if (x === null) throw new Error(e)`
abbrev pub or_throw {ℓ} : {A : Type ℓ} → Option A → String → Result A
or_throw none e = throw e
or_throw (some a) e = ok a

module _ {ℓ κ} {A : Type ℓ} {B : Type κ} where
  pub >>=-eq-ok :
      (call : Result A) (next : A → Result B) {out : B}
      → (call >>= next) ≡ ok out
      → (value : A) × (call ≡ ok value) × (next value ≡ ok out)
  >>=-eq-ok (throw message) next h = cc
  >>=-eq-ok (ok value) next h = (value, refl, h)

-- `xs.map(f)` with an `f` that may throw
unfoldable pub map_result {ℓ κ} :
    {A : Type ℓ} {B : Type κ} → (A → Result B) → List A → Result (List B)
map_result f [] = ok []
map_result f (x ∷ xs) = do y ← f x; ys ← map_result f xs; ok (y ∷ ys)

-- `xs.some(p)` with a `p` that may throw: it stops at the first that holds.
unfoldable pub any_result {ℓ} : {A : Type ℓ} → (A → Result Bool) → List A → Result Bool
any_result p [] = ok false
any_result p (x ∷ xs) = do found ← p x; elim found [ true ↦ ok true | false ↦ any_result p xs ]

-- Evaluates a list from the left; the first throw ends it.
unfoldable pub sequence {ℓ} : {A : Type ℓ} → List (Result A) → Result (List A)
sequence [] = ok []
sequence (m ∷ ms) = do x ← m; xs ← sequence ms; ok (x ∷ xs)

pub Result-cases {ℓ} :
    {A : Type ℓ} (m : Result A) → ((a : A) × (m ≡ ok a)) ⊎ ((e : String) × (m ≡ throw e))
Result-cases (ok a) = inl (a, refl)
Result-cases (throw e) = inr (e, refl)

pub ok-injective {ℓ} : {A : Type ℓ} {a b : A} → ok a ≡ ok b → a ≡ b
ok-injective h = cc

-- Inversion of the two guards.
pub throw_if->> {ℓ} :
    {B : Type ℓ} (b : Bool) (e : String) (k : Result B) {r : B}
    → (throw_if b e >> k) ≡ ok r
    → (b ≡ false) × (k ≡ ok r)
throw_if->> true e k h = cc
throw_if->> false e k h = (refl, h)

pub or_throw->>= {ℓ κ} :
    {A : Type ℓ} {B : Type κ} (o : Option A) (e : String) (f : A → Result B) {r : B}
    → (or_throw o e >>= f) ≡ ok r
    → (a : A) × (o ≡ some a) × (f a ≡ ok r)
or_throw->>= none e f h = cc
or_throw->>= (some a) e f h = (a, refl, h)

-- What a run returned, for tests.
abbrev pub or_else {ℓ} : {A : Type ℓ} → Result A → A → A
or_else (ok a) b = a
or_else (throw e) b = b

pub >>-eq-ok {ℓ} :
    {B : Type ℓ} (check : Result (Unit {0})) (next : Result B) {out : B}
    → (check >> next) ≡ ok out
    → (check ≡ ok tt) × (next ≡ ok out)
>>-eq-ok (throw message) next h = cc
>>-eq-ok (ok tt) next h = (refl, h)
