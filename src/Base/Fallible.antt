-- ===== src/Base/Fallible.antt =====
-- A Go function that returns a value and an error.
use mathlib.Core.Path.{◌≡◌, refl}
use native.Mathlib.Omega.{arith}

-- The error's type comes first.
pub data Result (E V : Type 0) : Type 0 where
  err : (reason : E) → Result E V
  ok : (value : V) → Result E V

infixl 5 ◌>>=◌
abbrev pub ◌>>=◌ : {E V W : Type 0} → Result E V → (V → Result E W) → Result E W
err reason >>= rest = err reason
ok value >>= rest = rest value

-- Inversion of a chain of calls that succeeded.
pub >>=-eq-ok :
    {E V W : Type 0} (first : Result E V) (rest : V → Result E W) {w : W}
    → (first >>= rest) ≡ ok w
    → (v : V) × (first ≡ ok v) × (rest v ≡ ok w)
>>=-eq-ok (err reason) rest done = cc
>>=-eq-ok (ok v) rest done = (v, refl, done)

-- Where the rest cannot fail, a chain fails as its first call does.
pub >>=-eq-err :
    {E V W : Type 0} (first : Result E V) (rest : V → W) {reason : E}
    → (first >>= λ v. ok (rest v)) ≡ err reason
    → first ≡ err reason
>>=-eq-err (err r) rest failed = ground arith
>>=-eq-err (ok v) rest failed = cc

-- A call that may panic.
pub data Outcome (A : Type 0) : Type 0 where
  done : A → Outcome A
  panic : Outcome A
