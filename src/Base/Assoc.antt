-- ===== src/Base/Assoc.antt =====
-- A Go map whose entries are counted or listed, as an association list.
use Prim.Native.Nat.{ℕ}
use mathlib.Core.Path.{◌≡◌, refl, sym, ◌∙◌}
use mathlib.Core.Logic.{◌≢◌, ◌⊎◌, inl, inr}
use native.Mathlib.Decide.{ℕ_discrete}
use mathlib.Core.Option.{Option, none, some}
use mathlib.Core.List.{List, [], ◌∷◌}
use native.Mathlib.Omega.{arith}
use cash_prototype.Base.Tests.{◌==◌, if◌then◌else◌}

module _ {V : Type 0} where
  abbrev pub lookup : ℕ → List (ℕ × V) → Option V
  lookup k [] = none
  lookup k (e ∷ m) = if e.0 == k then some e.1 else lookup k m

  -- `m[k] = v`
  abbrev pub set_key : ℕ → V → List (ℕ × V) → List (ℕ × V)
  set_key k v [] = (k, v) ∷ []
  set_key k v (e ∷ m) = if e.0 == k then (k, v) ∷ m else e ∷ set_key k v m

  -- `delete(m, k)`
  abbrev pub delete_key : ℕ → List (ℕ × V) → List (ℕ × V)
  delete_key k [] = []
  delete_key k (e ∷ m) = if e.0 == k then delete_key k m else e ∷ delete_key k m

  pub lookup_set_same : (k : ℕ) (v : V) (m : List (ℕ × V)) → lookup k (set_key k v m) ≡ some v
  lookup_set_same k v [] = ground arith
  lookup_set_same k v (e ∷ m) = ground (arith, lookup_set_same k v m)

  pub lookup_set_other :
      (k j : ℕ) (v : V) (m : List (ℕ × V)) → j ≢ k → lookup j (set_key k v m) ≡ lookup j m
  lookup_set_other k j v [] ne = ground arith
  lookup_set_other k j v (e ∷ m) ne = ground (arith, lookup_set_other k j v m)

  pub lookup_delete_same : (k : ℕ) (m : List (ℕ × V)) → lookup k (delete_key k m) ≡ none
  lookup_delete_same k [] = refl
  lookup_delete_same k (e ∷ m) = ground (arith, lookup_delete_same k m)

  pub lookup_delete_other :
      (k j : ℕ) (m : List (ℕ × V)) → j ≢ k → lookup j (delete_key k m) ≡ lookup j m
  lookup_delete_other k j [] ne = refl
  lookup_delete_other k j (e ∷ m) ne = ground (arith, lookup_delete_other k j m)

  pub some-injective : {a b : V} → some a ≡ some b → a ≡ b
  some-injective e = cc

  -- What is found after a key is set is the new value, or was there.
  pub lookup_set-cases :
      (k j : ℕ) (v w : V) (m : List (ℕ × V))
      → lookup j (set_key k v m) ≡ some w
      → ((j ≡ k) × (w ≡ v)) ⊎ ((j ≢ k) × (lookup j m ≡ some w))
  lookup_set-cases k j v w m e = elim (ℕ_discrete j k) [
    | yes same ↦ inl (same, some-injective (sym (rw same at e) ∙ lookup_set_same k v m))
    | no other ↦ inr (other, sym (lookup_set_other k j v m other) ∙ e)
  ]

  pub lookup_delete-some :
      (k j : ℕ) (w : V) (m : List (ℕ × V))
      → lookup j (delete_key k m) ≡ some w
      → (j ≢ k) × (lookup j m ≡ some w)
  lookup_delete-some k j w m e = elim (ℕ_discrete j k) [
    | yes same ↦ let gone = lookup_delete_same k m in absurd (ground (arith, rw same at e, gone))
    | no other ↦ (other, sym (lookup_delete_other k j m other) ∙ e)
  ]
