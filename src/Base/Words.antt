-- ===== src/Base/Words.antt =====
-- `uint64` values as numbers below 2^64, and `int` values as their 64-bit patterns.
use Prim.Native.Nat.{ℕ, ◌+◌, ◌-◌, ◌%◌}
use mathlib.Core.Bool.{Bool, ◌&&◌}
use cash_prototype.Base.Tests.{ltb}

abbrev pub u64_mod : ℕ
u64_mod = 0x10000000000000000

-- Patterns from here on stand for negative numbers.
abbrev pub i64_min : ℕ
i64_min = 0x8000000000000000

abbrev pub add64 : ℕ → ℕ → ℕ
add64 a b = (a + b) % u64_mod

abbrev pub sub64 : ℕ → ℕ → ℕ
sub64 a b = (a + u64_mod - b) % u64_mod

-- `int(x) > k` for a constant `k` that is not negative.
abbrev pub int_gt : ℕ → ℕ → Bool
int_gt x k = ltb x i64_min && ltb k x
