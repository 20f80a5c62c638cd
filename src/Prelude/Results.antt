-- ===== src/Prelude/Results.antt =====
-- A computation that returns a value or throws an error.
use mathlib.Core.Path.{◌≡◌, refl}
use mathlib.Core.Bool.{Bool, true, false}
use native.Mathlib.Omega.{arith}

-- An `err` is the exception that leaves the function.
pub data Result {ℓ} (Error : Type ℓ) (Value : Type ℓ) : Type ℓ where
  ok : (value : Value) → Result Error Value
  err : (thrown : Error) → Result Error Value

-- `if (bad) throw e`
abbrev pub throw_if {ℓ} : {Error : Type ℓ} → Bool → Error → Result Error (Unit {ℓ})
throw_if false e = ok tt
throw_if true e = err e

-- What was tested where nothing was thrown.
pub throw_if-ok {ℓ} : {Error : Type ℓ} (b : Bool) (e : Error) → throw_if b e ≡ ok tt → b ≡ false
throw_if-ok true e h = absurd (cc h)
throw_if-ok false e h = refl

pub ok_inj {ℓ} :
    {Error Value : Type ℓ} {a b : Value} → ◌≡◌ {A = Result Error Value} (ok a) (ok b) → a ≡ b
ok_inj h = cc

infixl 5 ◌>>=◌
abbrev pub ◌>>=◌ {ℓ} :
    {Error Value Next : Type ℓ}
    → Result Error Value
    → (Value → Result Error Next)
    → Result Error Next
err thrown >>= rest = err thrown
ok value >>= rest = rest value

-- Inversion of a chain that returned.
pub >>=-eq-ok {ℓ} :
    {Error Value Next : Type ℓ} (first : Result Error Value) (rest : Value → Result Error Next)
    {returned : Next}
    → (first >>= rest) ≡ ok returned
    → (value : Value) × (first ≡ ok value) × (rest value ≡ ok returned)
>>=-eq-ok (err thrown) rest h = cc
>>=-eq-ok (ok value) rest h = (value, refl, h)

infixl 5 ◌>>◌
abbrev pub ◌>>◌ {ℓ} :
    {Error Value Next : Type ℓ} → Result Error Value → Result Error Next → Result Error Next
check >> rest = check >>= λ _. rest

-- Two returns of a value and a state that agree.
pub ok-pair {ℓ} :
    {Error Value State : Type ℓ} {a b : Value} {s t : State}
    → ◌≡◌ {A = Result Error (Value × State)} (ok (a, s)) (ok (b, t))
    → (a ≡ b) × (s ≡ t)
ok-pair h = ground (arith, h)
