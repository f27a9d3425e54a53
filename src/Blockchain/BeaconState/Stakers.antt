-- ===== src/Blockchain/BeaconState/Stakers.antt =====
-- beaconbeststate.go and beaconproducer.go: who may stake, and the roles.
use cash_prototype.Base.{
  ◌==◌, length, ◌%◌, ◌+◌, some-injective, Option-cases, Bool-cases, ℕ, Bool, true, false, ◌≡◌, refl,
  sym, ◌∙◌, List, [], ◌∷◌, ◌&&◌, ◌||◌, not, String, arith, some, get_elem?, str_eq, inl, inr,
  str_eq_iff, suc, none,
}
use cash_prototype.Common.{index_of_str}
use cash_prototype.Metadata.{contains, get_valid_staker, get_valid_staker-contains}
use cash_prototype.Blockchain.BeaconState.{
  next_idx, BestStateBeacon, proposer, no_role, find_shard, beacon_role, get_pubkey_role,
  valid_in_shards, get_valid_stakers,
}

-- In the list of one of the shards.
abbrev pub in_shards : List ℕ → (ℕ → List String) → String → Bool
in_shards [] m c = false
in_shards (s ∷ shards) m c = contains (m s) c || in_shards shards m c

valid_in_shards-contains :
    (shards : List ℕ) (m : ℕ → List String) (stakers : List String) (c : String)
    → contains (valid_in_shards shards m stakers) c
      ≡ (contains stakers c && not (in_shards shards m c))
unfolding valid_in_shards
valid_in_shards-contains [] m stakers c = ground arith
valid_in_shards-contains (s ∷ shards) m stakers c =
    let rest = valid_in_shards-contains shards m (get_valid_staker (m s) stakers) c in
    let first = get_valid_staker-contains (m s) stakers c in ground (arith, rest, first)

-- In one of the committees or lists of the state.
abbrev pub known : List ℕ → BestStateBeacon → String → Bool
known shards b c =
    in_shards shards b.shard_committee c
    || in_shards shards b.shard_pending_validator c
    || contains b.beacon_committee c
    || contains b.beacon_pending_validator c
    || contains b.candidate_beacon_waiting_for_current_random c
    || contains b.candidate_beacon_waiting_for_next_random c
    || contains b.candidate_shard_waiting_for_current_random c
    || contains b.candidate_shard_waiting_for_next_random c

-- GetValidStakers keeps just those stakers that are in no committee, pending list or candidate list
-- of the state, whatever the order in which the shards come.
get_valid_stakers-contains :
    (shards : List ℕ) (b : BestStateBeacon) (stakers : List String) (c : String)
    → contains (get_valid_stakers shards b stakers) c
      ≡ (contains stakers c && not (known shards b c))
unfolding get_valid_stakers
get_valid_stakers-contains shards b stakers c =
    let l1 = valid_in_shards shards b.shard_committee stakers in
    let l2 = valid_in_shards shards b.shard_pending_validator l1 in
    let l3 = get_valid_staker b.beacon_committee l2 in
    let l4 = get_valid_staker b.beacon_pending_validator l3 in
    let l5 = get_valid_staker b.candidate_beacon_waiting_for_current_random l4 in
    let l6 = get_valid_staker b.candidate_beacon_waiting_for_next_random l5 in
    let l7 = get_valid_staker b.candidate_shard_waiting_for_current_random l6 in
    let l8 = get_valid_staker b.candidate_shard_waiting_for_next_random l7 in
    rw
      (
        get_valid_staker-contains b.candidate_shard_waiting_for_next_random l8 c,
        get_valid_staker-contains b.candidate_shard_waiting_for_next_random l7 c,
        get_valid_staker-contains b.candidate_shard_waiting_for_current_random l6 c,
        get_valid_staker-contains b.candidate_beacon_waiting_for_next_random l5 c,
        get_valid_staker-contains b.candidate_beacon_waiting_for_current_random l4 c,
        get_valid_staker-contains b.beacon_pending_validator l3 c,
        get_valid_staker-contains b.beacon_committee l2 c,
        valid_in_shards-contains shards b.shard_pending_validator l1 c,
        valid_in_shards-contains shards b.shard_committee stakers c,
      )
      (ground arith)

index_of_str-contains :
    (c : String) (xs : List String) (k : ℕ) → index_of_str c xs ≡ some k → contains xs c ≡ true
unfolding index_of_str
index_of_str-contains c [] k e = cc
index_of_str-contains c (x ∷ xs) k e = elim (Bool-cases (str_eq c x)) [
  | inl same ↦ ground (arith, same)
  | inr other ↦ elim (Option-cases (index_of_str c xs)) [
    | inl out ↦ absurd (ground (arith, other, rw (index_of_str, out) at e))
    | inr (j, at) ↦ ground (arith, index_of_str-contains c xs j at)
  ]
]

index_of_str-get :
    (c : String) (xs : List String) (k : ℕ) → index_of_str c xs ≡ some k → get_elem? xs k ≡ some c
unfolding index_of_str
index_of_str-get c [] k e = cc
index_of_str-get c (x ∷ xs) k e = elim (Bool-cases (str_eq c x)) [
  | inl same ↦
      let at : some 0 ≡ some k = rw (index_of_str, same) at e in
      let zero' : k ≡ 0 = cc in rw (zero', (str_eq_iff c x).0 same) refl
  | inr other ↦ elim (Option-cases (index_of_str c xs)) [
    | inl out ↦ absurd (ground (arith, other, rw (index_of_str, out) at e))
    | inr (j, at) ↦
        let found : some (suc j) ≡ some k = rw (index_of_str, other, at) at e in
        let next : k ≡ suc j = cc in rw next (index_of_str-get c xs j at)
  ]
]

-- The proposer's place in the committee.
abbrev proposer_place : ℕ → BestStateBeacon → ℕ
proposer_place proposer_offset b =
    (next_idx b.beacon_proposer_idx + proposer_offset) % length b.beacon_committee

beacon_role-proposer :
    (pubkey : String) (proposer_offset : ℕ) (b : BestStateBeacon)
    → beacon_role pubkey proposer_offset b ≡ proposer
    → get_elem? b.beacon_committee (proposer_place proposer_offset b) ≡ some pubkey
unfolding beacon_role
beacon_role-proposer pubkey proposer_offset b e =
    elim (Option-cases (index_of_str pubkey b.beacon_committee)) [
      | inl out ↦ elim (Option-cases (index_of_str pubkey b.beacon_pending_validator)) [
        | inl out' ↦ absurd (ground (arith, rw (beacon_role, out, out') at e))
        | inr (j, at') ↦ absurd (ground (arith, rw (beacon_role, out, at') at e))
      ]
      | inr (k, at) ↦ elim (Bool-cases (k == proposer_place proposer_offset b)) [
        | inl here ↦
            let place : proposer_place proposer_offset b ≡ k = ground (arith, here) in
            rw place (index_of_str-get pubkey b.beacon_committee k at)
        | inr there ↦ absurd (ground (arith, rw (beacon_role, at, there) at e))
      ]
    ]

get_pubkey_role-beacon :
    (shards : List ℕ) (pubkey : String) (proposer_offset : ℕ) (b : BestStateBeacon)
    → get_pubkey_role shards pubkey proposer_offset b ≡ proposer
    → beacon_role pubkey proposer_offset b ≡ proposer
unfolding get_pubkey_role
get_pubkey_role-beacon shards pubkey proposer_offset b e =
    elim (Option-cases (find_shard pubkey shards b.shard_pending_validator)) [
      | inr (s, at) ↦ absurd (ground (arith, rw (get_pubkey_role, at) at e))
      | inl out ↦ elim (Option-cases (find_shard pubkey shards b.shard_committee)) [
        | inr (s, at) ↦ absurd (ground (arith, rw (get_pubkey_role, out, at) at e))
        | inl out' ↦ rw (get_pubkey_role, out, out') at e
      ]
    ]

-- For one state and offset at most one key has the role of the proposer.
get_pubkey_role_unique :
    (shards : List ℕ) (p q : String) (proposer_offset : ℕ) (b : BestStateBeacon)
    → get_pubkey_role shards p proposer_offset b ≡ proposer
    → get_pubkey_role shards q proposer_offset b ≡ proposer
    → p ≡ q
get_pubkey_role_unique shards p q proposer_offset b hp hq =
    let place_p =
      beacon_role-proposer p proposer_offset b
        (get_pubkey_role-beacon shards p proposer_offset b hp) in
    let place_q =
      beacon_role-proposer q proposer_offset b
        (get_pubkey_role-beacon shards q proposer_offset b hq) in
    some-injective (sym place_p ∙ place_q)

index_of_str-none :
    (c : String) (xs : List String) → contains xs c ≡ false → index_of_str c xs ≡ none
index_of_str-none c xs e = elim (Option-cases (index_of_str c xs)) [
  | inl out ↦ out
  | inr (k, at) ↦ absurd (ground (arith, index_of_str-contains c xs k at, e))
]

find_shard-none :
    (c : String) (shards : List ℕ) (m : ℕ → List String)
    → in_shards shards m c ≡ false
    → find_shard c shards m ≡ none
unfolding find_shard
find_shard-none c [] m e = refl
find_shard-none c (s ∷ shards) m e =
    let out : index_of_str c (m s) ≡ none = index_of_str-none c (m s) (ground (arith, e)) in
    rw (find_shard, out) (find_shard-none c shards m (ground (arith, e)))

-- A key that GetValidStakers lets stake has no role.
pub get_pubkey_role-stakers :
    (shards : List ℕ) (b : BestStateBeacon) (stakers : List String) (c : String)
    (proposer_offset : ℕ)
    → contains (get_valid_stakers shards b stakers) c ≡ true
    → get_pubkey_role shards c proposer_offset b ≡ no_role
unfolding get_pubkey_role beacon_role
get_pubkey_role-stakers shards b stakers c proposer_offset e =
    let new = get_valid_stakers-contains shards b stakers c in
    let out1 = find_shard-none c shards b.shard_pending_validator (ground (arith, new, e)) in
    let out2 = find_shard-none c shards b.shard_committee (ground (arith, new, e)) in
    let out3 = index_of_str-none c b.beacon_committee (ground (arith, new, e)) in
    let out4 = index_of_str-none c b.beacon_pending_validator (ground (arith, new, e)) in
    rw (get_pubkey_role, beacon_role, out1, out2, out3, out4) refl
