-- ===== src/Base/Results.antt =====
-- The Go pair (value, error) as a sum. The texts of errors are not kept, only what `errors.Is` tells.
use mathlib.Core.Path.{◌≡◌, refl}
use mathlib.Core.Bool.{Bool, true, false}

-- `frame` and `connection` wrap ErrFrame and ErrConnection, `plain` wraps neither, `panicked` is
-- a Go panic, and `stuck` is no Go value: a loop of the model ran out of fuel.
pub data Error : Type 0 where
  frame connection plain panicked stuck : Error

-- What a Go function with a last result of type error returns.
pub data Result {ℓ} (Value : Type ℓ) : Type ℓ where
  err : Error → Result Value
  ok : Value → Result Value

-- if !b { return err }
abbrev pub ensure : Bool → Error → Result (Unit {0})
ensure false cause = err cause
ensure true cause = ok tt

-- fmt.Errorf("%w: %v", ErrFrame, err)
abbrev pub in_frame {ℓ} : {Value : Type ℓ} → Result Value → Result Value
in_frame (err cause) = err frame
in_frame (ok value) = ok value

-- if err != nil { return err }, in front of the rest of the function
infixl 5 ◌>>=◌
abbrev pub ◌>>=◌ {ℓ₁ ℓ₂} :
    {V : Type ℓ₁} {W : Type ℓ₂} (first : Result V) (rest : V → Result W) → Result W
err cause >>= rest = err cause
ok value >>= rest = rest value

infixl 5 ◌>>◌
abbrev pub ◌>>◌ {ℓ₂} : {W : Type ℓ₂} (first : Result (Unit {0})) (rest : Result W) → Result W
first >> rest = first >>= λ _. rest

-- The value that an unwrapped result had before.
pub in_frame-eq-ok {ℓ} :
    {Value : Type ℓ} (r : Result Value) {value : Value} → in_frame r ≡ ok value → r ≡ ok value
in_frame-eq-ok (err cause) h = cc
in_frame-eq-ok (ok value) h = h

pub >>=-eq-ok {ℓ₁ ℓ₂} :
    {V : Type ℓ₁} {W : Type ℓ₂} (first : Result V) (rest : V → Result W) {w : W}
    → (first >>= rest) ≡ ok w
    → (v : V) × (first ≡ ok v) × (rest v ≡ ok w)
>>=-eq-ok (err cause) rest h = cc
>>=-eq-ok (ok v) rest h = (v, refl, h)

pub ok-injective {ℓ} : {Value : Type ℓ} {v w : Value} → ok v ≡ ok w → v ≡ w
ok-injective h = cc
