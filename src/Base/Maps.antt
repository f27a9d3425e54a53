-- ===== src/Base/Maps.antt =====
-- A Go map by its lookup: `none`, or the zero value where the code reads no more than that, for a
-- key that is not there.
use Prim.Native.Nat.{ℕ}
use mathlib.Core.Path.{◌≡◌}
use mathlib.Core.Logic.{◌≢◌}
use mathlib.Core.Option.{Option, none, some}
use native.Mathlib.Omega.{arith}
use cash_prototype.Base.Tests.{◌==◌, if◌then◌else◌}

module _ {A : Type 0} where
  -- `m[k] = v`
  abbrev pub put : ℕ → A → (ℕ → A) → ℕ → A
  put k v m j = if j == k then v else m j

  abbrev pub or_else : A → Option A → A
  or_else d none = d
  or_else d (some a) = a

  pub put_same : (k : ℕ) (v : A) (m : ℕ → A) → put k v m k ≡ v
  put_same k v m = ground arith

  pub put_other : (k j : ℕ) (v : A) (m : ℕ → A) → j ≢ k → put k v m j ≡ m j
  put_other k j v m h = ground arith
