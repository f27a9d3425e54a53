-- ===== src/Metadata.antt =====
-- metadata/staking.go: which stakers are new.
use cash_prototype.Base.{
  refl, ap, ◌≡◌, str_eq_iff, arith, Bool, List, [], ◌∷◌, if◌then◌else◌, String, str_eq, any, ◌≡◌,
  ◌&&◌, not, Bool-cases, inl, inr, true,
}

-- The inner loop of GetValidStaker.
abbrev pub contains : List String → String → Bool
contains committees staker = any (str_eq staker) committees

unfoldable pub get_valid_staker : List String → List String → List String
get_valid_staker committees [] = []
get_valid_staker committees (s ∷ ss) =
    if contains committees s
    then get_valid_staker committees ss
    else s ∷ get_valid_staker committees ss

contains_same :
    (xs : List String) (c s : String) → str_eq c s ≡ true → contains xs c ≡ contains xs s
contains_same xs c s e = ap (contains xs) ((str_eq_iff c s).0 e)

-- GetValidStaker returns just those of the stakers that are not in the committee.
pub get_valid_staker-contains :
    (committees stakers : List String) (c : String)
    → contains (get_valid_staker committees stakers) c
      ≡ (contains stakers c && not (contains committees c))
unfolding get_valid_staker
get_valid_staker-contains committees [] c = refl
get_valid_staker-contains committees (s ∷ ss) c = elim (Bool-cases (contains committees s)) [
  | inl old ↦
      let drops = contains_same committees c s in
      rw (get_valid_staker, old)
        (ground (arith, get_valid_staker-contains committees ss c, drops, old))
  | inr new ↦
      let keeps = contains_same committees c s in
      rw (get_valid_staker, new)
        (ground (arith, get_valid_staker-contains committees ss c, keeps, new))
]
