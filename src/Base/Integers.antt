-- ===== src/Base/Integers.antt =====
-- Go's `int` where a negative value matters, and its decimal text.
use Prim.Native.Nat.{ℕ, zero, suc, ◌+◌, ◌/◌, ◌%◌, ◌<◌}
use mathlib.Core.Path.{◌≡◌}
use native.Mathlib.Omega.{arith}
use mathlib.Core.List.{List, [], ◌∷◌}
use cash_prototype.Base.Tests.{ltb, if◌then◌else◌}

-- `negsuc n` is -(n + 1).
pub data ℤ : Type 0 where
  pos : ℕ → ℤ
  negsuc : ℕ → ℤ

-- The digits of `n` in front of `out`, with fuel that `n + 1` suffices for.
pub digits_onto : ℕ → ℕ → List ℕ → List ℕ
digits_onto zero n out = out
digits_onto (suc fuel) n out =
    let rest = digits_onto fuel (n / 10) ((48 + n % 10) ∷ out) in
    if ltb n 10 then (48 + n) ∷ out else rest

-- More fuel than the number gives the same digits.
digits_onto_fuel :
    (f g n : ℕ) (out : List ℕ) → n < f → n < g → digits_onto f n out ≡ digits_onto g n out
unfolding digits_onto
digits_onto_fuel zero g n out hf hg = absurd (omega arith)
digits_onto_fuel (suc f) zero n out hf hg = absurd (omega arith)
digits_onto_fuel (suc f) (suc g) n out hf hg =
    ground (arith, digits_onto_fuel f g (n / 10) ((48 + n % 10) ∷ out))

-- `strconv.Itoa`, as bytes.
unfoldable pub itoa : ℤ → List ℕ
unfolding digits_onto
itoa (pos n) = digits_onto (suc n) n []
itoa (negsuc n) = 45 ∷ digits_onto (suc (suc n)) (suc n) []
