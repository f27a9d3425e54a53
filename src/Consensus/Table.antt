-- ===== src/Consensus/Table.antt =====
-- A Go map with strings as keys, as an association list.
use cash_prototype.Base.{
  ◌≡◌, refl, sym, ◌∙◌, ◌⊎◌, inl, inr, false, Option, none, some, List, [], ◌∷◌, if◌then◌else◌,
  Bool-cases,
}
use cash_prototype.Base.{String, str_eq, str_eq_iff, str_eq_refl, some-injective}

module _ {V : Type 0} where
  unfoldable pub find : String → List (String × V) → Option V
  find k [] = none
  find k (e ∷ m) = if str_eq e.0 k then some e.1 else find k m

  -- `m[k] = v`
  unfoldable pub set_at : String → V → List (String × V) → List (String × V)
  set_at k v [] = (k, v) ∷ []
  set_at k v (e ∷ m) = if str_eq e.0 k then (k, v) ∷ m else e ∷ set_at k v m

  unfoldable pub keys : List (String × V) → List String
  keys [] = []
  keys (e ∷ m) = e.0 ∷ keys m

  -- No key has two entries.
  unfoldable pub Distinct : List (String × V) → Type 0
  unfolding find
  Distinct [] = Unit
  Distinct (e ∷ m) = (find e.0 m ≡ none) × Distinct m

  -- The value that is found after one is set is the new one, or was there.
  pub find_set-cases :
      (k j : String) (v w : V) (m : List (String × V))
      → find j (set_at k v m) ≡ some w
      → ((j ≡ k) × (w ≡ v)) ⊎ (find j m ≡ some w)
  unfolding find set_at
  find_set-cases k j v w [] e = elim (Bool-cases (str_eq k j)) [
    | inl same ↦ inl (sym ((str_eq_iff k j).0 same), sym (some-injective (sym (rw same refl) ∙ e)))
    | inr other ↦ inr (rw other at e)
  ]
  find_set-cases k j v w (d ∷ m) e = elim (Bool-cases (str_eq d.0 k)) [
    | inl there ↦ elim (Bool-cases (str_eq k j)) [
      | inl same ↦
          inl
            (sym ((str_eq_iff k j).0 same), sym (some-injective (sym (rw (there, same) refl) ∙ e)))
      | inr other ↦
          let apart : str_eq d.0 j ≡ false = rw ((str_eq_iff d.0 k).0 there) other in
          inr (rw apart (rw (there, other) at e))
    ]
    | inr not_there ↦ elim (Bool-cases (str_eq d.0 j)) [
      | inl found ↦ inr (rw found (rw (not_there, found) at e))
      | inr other ↦ elim (find_set-cases k j v w m (rw (not_there, other) at e)) [
        | inl new ↦ inl new
        | inr old ↦ inr (rw other old)
      ]
    ]
  ]

  pub find_set_same : (k : String) (v : V) (m : List (String × V)) → find k (set_at k v m) ≡ some v
  unfolding find set_at
  find_set_same k v [] = rw (str_eq_refl k) refl
  find_set_same k v (d ∷ m) = elim (Bool-cases (str_eq d.0 k)) [
    | inl there ↦ rw (there, str_eq_refl k) refl
    | inr not_there ↦ rw (not_there, not_there) (find_set_same k v m)
  ]

  pub find_set_other :
      (k j : String) (v : V) (m : List (String × V))
      → str_eq k j ≡ false
      → find j (set_at k v m) ≡ find j m
  unfolding find set_at
  find_set_other k j v [] apart = rw apart refl
  find_set_other k j v (d ∷ m) apart = elim (Bool-cases (str_eq d.0 k)) [
    | inl there ↦
        let same : str_eq d.0 j ≡ false = rw ((str_eq_iff d.0 k).0 there) apart in
        rw (there, apart, same) refl
    | inr not_there ↦ rw (not_there, find_set_other k j v m apart) refl
  ]
