-- ===== src/Blockchain/BeaconState.antt =====
-- blockchain/beaconbeststate.go, and the update of the best beacon state in
-- blockchain/beaconprocess.go.
-- The state has what the update of the validators and candidates reads and writes; the parameters,
-- the stability data and the hashes of the state are left out.
pub mod Epochs
pub mod Stakers
pub mod Swaps
mod Tests
use cash_prototype.Base.{
  ℕ, zero, suc, ◌+◌, ◌-◌, ◌*◌, ◌%◌, Bool, true, false, Option, none, some, List, [], ◌∷◌, ◌++◌, ltb,
  leb, ◌==◌, ◌&&◌, not, if◌then◌else◌, length, take, drop, put, String, ℤ, pos, Outcome, done,
  panic,
}
use cash_prototype.Common.{index_of_str}
use cash_prototype.Metadata.{get_valid_staker}
use cash_prototype.Blockchain.Validators.{
  RemoveError, Swap, SwapError, remove_validator, swap_validator, assign_validator_shard,
}

abbrev pub epoch_length : ℕ
epoch_length = 10

abbrev pub random_time : ℕ
random_time = 5

abbrev pub swap_offset : ℕ
swap_offset = 1

pub record BestStateBeacon : Type 0 where
  pub epoch : ℕ
  pub beacon_height : ℕ
  -- `none` is -1.
  pub beacon_proposer_idx : Option ℕ
  pub beacon_committee : List String
  pub beacon_pending_validator : List String
  pub candidate_shard_waiting_for_current_random : List String
  pub candidate_beacon_waiting_for_current_random : List String
  pub candidate_shard_waiting_for_next_random : List String
  pub candidate_beacon_waiting_for_next_random : List String
  pub shard_committee : ℕ → List String
  pub shard_pending_validator : ℕ → List String
  pub current_random_number : ℤ
  pub current_random_time_stamp : ℤ
  pub is_get_random_number : Bool
  pub beacon_committee_size : ℕ
  pub shard_committee_size : ℕ
  pub active_shards : ℕ

-- An instruction with its texts split at the commas and its numbers read, `none` where Atoi fails.
-- An empty text of a swap is the empty list. `other` is one that sets or deletes a parameter, or belongs
-- to the stability part.
pub data Instruction : Type 0 where
  swap_shard : List String → List String → Option ℕ → Instruction
  swap_beacon : List String → List String → Instruction
  random : Option ℤ → Instruction
  stake_beacon stake_shard : List String → Instruction
  other : Instruction

pub record BeaconHeader : Type 0 where
  pub height : ℕ
  pub header_epoch : ℕ
  pub producer : String
  pub timestamp : ℤ

-- An error leaves what the code has changed before it.
pub data Progress (S : Type 0) : Type 0 where
  going stopped : S → Progress S
  crashed : Progress S

abbrev pub and_then : {S : Type 0} → Progress S → (S → Progress S) → Progress S
and_then (going s) f = f s
and_then (stopped s) f = stopped s
and_then crashed f = crashed

-- RemoveValidator on one list of the state, and what follows where it succeeds.
abbrev pub removing :
    List String
    → List String
    → (List String → BestStateBeacon)
    → (BestStateBeacon → BestStateBeacon)
    → Progress BestStateBeacon
removing validators removed store follow = elim (remove_validator validators removed) [
  | panic ↦ crashed
  | done (rest, none) ↦ going (follow (store rest))
  | done (rest, some e) ↦ stopped (store rest)
]

pub enter_shard : List String → ℕ → BestStateBeacon → Progress BestStateBeacon
enter_shard [] s b = going b
enter_shard (n ∷ ns) s b =
    removing (b.shard_pending_validator s) (n ∷ ns)
      (λ rest. record b { shard_pending_validator = put s rest b.shard_pending_validator })
      (λ c. record c { shard_committee = put s (c.shard_committee s ++ n ∷ ns) c.shard_committee })

pub leave_shard : List String → ℕ → BestStateBeacon → Progress BestStateBeacon
leave_shard [] s b = going b
leave_shard (n ∷ ns) s b =
    removing (b.shard_committee s) (n ∷ ns)
      (λ rest. record b { shard_committee = put s rest b.shard_committee }) (λ c. c)

pub enter_beacon : List String → BestStateBeacon → Progress BestStateBeacon
enter_beacon [] b = going b
enter_beacon (n ∷ ns) b =
    removing b.beacon_pending_validator (n ∷ ns)
      (λ rest. record b { beacon_pending_validator = rest })
      (λ c. record c { beacon_committee = c.beacon_committee ++ n ∷ ns })

pub leave_beacon : List String → BestStateBeacon → Progress BestStateBeacon
leave_beacon [] b = going b
leave_beacon (n ∷ ns) b =
    removing b.beacon_committee (n ∷ ns) (λ rest. record b { beacon_committee = rest }) (λ c. c)

-- The variables of the loop over the instructions.
pub record Reading : Type 0 where
  pub best : BestStateBeacon
  pub new_beacon_candidate : List String
  pub new_shard_candidate : List String
  pub random_flag : Bool

abbrev pub reading : Reading → Progress BestStateBeacon → Progress Reading
reading r (going b) = going (record r { best = b })
reading r (stopped b) = stopped (record r { best = b })
reading r crashed = crashed

-- One round of the loop.
pub process_instruction : Instruction → Reading → Progress Reading
unfolding enter_shard leave_shard enter_beacon leave_beacon
process_instruction (swap_shard ins outs none) r = stopped r
process_instruction (swap_shard ins outs (some n)) r =
    reading r (and_then (enter_shard ins (n % 256) r.best) (leave_shard outs (n % 256)))
process_instruction (swap_beacon ins outs) r =
    reading r (and_then (enter_beacon ins r.best) (leave_beacon outs))
process_instruction (random none) r = stopped r
process_instruction (random (some n)) r =
    going (record r { best = record r.best { current_random_number = n }; random_flag = true })
process_instruction (stake_beacon names) r =
    going (record r { new_beacon_candidate = r.new_beacon_candidate ++ names })
process_instruction (stake_shard names) r =
    going (record r { new_shard_candidate = r.new_shard_candidate ++ names })
process_instruction other r = going r

pub process_instructions : List Instruction → Reading → Progress Reading
unfolding process_instruction
process_instructions [] r = going r
process_instructions (l ∷ ls) r = and_then (process_instruction l r) (process_instructions ls)

-- The fields that the header sets.
pub start_update : BeaconHeader → BestStateBeacon → BestStateBeacon
unfolding index_of_str
start_update hd b = record b {
  epoch = hd.header_epoch;
  beacon_height = hd.height;
  beacon_proposer_idx =
      if hd.height == 1 then some 0 else index_of_str hd.producer b.beacon_committee;
}

-- The committees of the first block, for the shards from `s` on. A slice beyond the candidates is
-- taken to panic, whatever capacity Go has given the list.
pub assign_genesis : ℕ → ℕ → ℕ → List String → (ℕ → List String) → Outcome (ℕ → List String)
assign_genesis zero s size candidates committee = done committee
assign_genesis (suc n) s size candidates committee =
    let rest =
      assign_genesis n (s + 1) size candidates
        (put (s % 256) (committee (s % 256) ++ take size (drop (s * size) candidates)) committee) in
    if ltb (length candidates) ((s + 1) * size) then panic else rest

-- What becomes of the new candidates.
pub take_candidates : Reading → Progress Reading
unfolding assign_genesis
take_candidates r =
    let b = r.best in
    if b.beacon_height == 1
    then (if ltb (length r.new_beacon_candidate) b.beacon_committee_size
        then crashed
        else elim (assign_genesis b.active_shards 0 b.shard_committee_size r.new_shard_candidate
            b.shard_committee) [
              | panic ↦ crashed
              | done committee ↦ going (record r {
                best = record b {
                  beacon_committee = take b.beacon_committee_size r.new_beacon_candidate;
                  shard_committee = committee;
                  epoch = 1;
                };
              })
            ])
    else going (record r {
      best = record b {
        candidate_beacon_waiting_for_next_random =
            b.candidate_beacon_waiting_for_next_random ++ r.new_beacon_candidate;
        candidate_shard_waiting_for_next_random =
            b.candidate_shard_waiting_for_next_random ++ r.new_shard_candidate;
      };
    })

-- The snapshot of the candidates at the random time of an epoch.
pub snapshot : BeaconHeader → BestStateBeacon → BestStateBeacon
snapshot hd b = record b {
  candidate_shard_waiting_for_current_random = b.candidate_shard_waiting_for_next_random;
  candidate_beacon_waiting_for_current_random = b.candidate_beacon_waiting_for_next_random;
  candidate_shard_waiting_for_next_random = [];
  candidate_beacon_waiting_for_next_random = [];
  current_random_time_stamp = hd.timestamp;
}

-- `shuffle` is ShuffleCandidate, whose order is that of a Go map.
module _ (sha256_last : List ℕ → ℕ) (shuffle : List String → ℤ → List String) where
  pub assign_with_random : BestStateBeacon → Progress BestStateBeacon
  unfolding assign_validator_shard
  assign_with_random b =
      elim (assign_validator_shard sha256_last b.shard_pending_validator
        b.candidate_shard_waiting_for_current_random b.current_random_number b.active_shards) [
          | panic ↦ crashed
          | done assigned ↦ going (record b {
            is_get_random_number = true;
            shard_pending_validator = assigned;
            candidate_shard_waiting_for_current_random = [];
            beacon_pending_validator =
                b.beacon_pending_validator
                ++ shuffle b.candidate_beacon_waiting_for_current_random b.current_random_number;
            candidate_beacon_waiting_for_current_random = [];
          })
        ]

  -- The swap at the end of an epoch.
  pub swap_committee : BestStateBeacon → Progress BestStateBeacon
  unfolding swap_validator
  swap_committee b =
      elim (swap_validator b.beacon_pending_validator b.beacon_committee
        (pos b.beacon_committee_size) (pos swap_offset)) [
          | panic ↦ crashed
          | done (s, e) ↦
              (let c : BestStateBeacon = record b {
                beacon_pending_validator = s.pending;
                beacon_committee = s.current;
              } in
                elim e [ none ↦ going c | some _ ↦ stopped c ])
        ]

  -- The branches on the place of the height in its epoch.
  pub epoch_step : BeaconHeader → Bool → BestStateBeacon → Progress BestStateBeacon
  unfolding snapshot assign_with_random swap_committee
  epoch_step hd random_flag b =
      let place = b.beacon_height % epoch_length in
      if place == 1 && not (b.beacon_height == 1)
      then going (record b { is_get_random_number = false })
      else (if ltb place random_time
          then going b
          else (if leb random_time place
              then (let c = if place == random_time then snapshot hd b else b in
                  if random_flag then assign_with_random c else going c)
              else (if place == 0 then swap_committee b else going b)))

  -- The part of Update after the block's hashes and shard states are stored.
  pub update : BeaconHeader → List Instruction → BestStateBeacon → Progress BestStateBeacon
  unfolding start_update process_instructions take_candidates epoch_step
  update hd ls b =
      let start : Reading = record {
        best = start_update hd b;
        new_beacon_candidate = [];
        new_shard_candidate = [];
        random_flag = false;
      } in
      elim (and_then (process_instructions ls start) take_candidates) [
        | going r ↦ epoch_step hd r.random_flag r.best
        | stopped r ↦ stopped r.best
        | crashed ↦ crashed
      ]

-- The roles of common/constants.go.
pub data Role : Type 0 where
  shard_role : ℕ → Role
  proposer validator pending_role no_role : Role

-- The loop over a map of shards, in the order of `shards`: the shard that has the key.
pub find_shard : String → List ℕ → (ℕ → List String) → Option ℕ
unfolding index_of_str
find_shard pubkey [] m = none
find_shard pubkey (s ∷ shards) m =
    let rest = find_shard pubkey shards m in
    elim (index_of_str pubkey (m s)) [ none ↦ rest | some k ↦ some s ]

-- `BeaconProposerIdx + 1`
abbrev pub next_idx : Option ℕ → ℕ
next_idx none = 0
next_idx (some i) = i + 1

-- GetPubkeyRole beyond the shards.
pub beacon_role : String → ℕ → BestStateBeacon → Role
unfolding index_of_str
beacon_role pubkey proposer_offset b = elim (index_of_str pubkey b.beacon_committee) [
  | some found ↦
      if found == (next_idx b.beacon_proposer_idx + proposer_offset) % length b.beacon_committee
      then proposer
      else validator
  | none ↦ elim (index_of_str pubkey b.beacon_pending_validator) [
    | some _ ↦ pending_role
    | none ↦ no_role
  ]
]

pub get_pubkey_role : List ℕ → String → ℕ → BestStateBeacon → Role
unfolding find_shard beacon_role
get_pubkey_role shards pubkey proposer_offset b =
    elim (find_shard pubkey shards b.shard_pending_validator) [
      | some s ↦ shard_role s
      | none ↦ elim (find_shard pubkey shards b.shard_committee) [
        | some s ↦ shard_role s
        | none ↦ beacon_role pubkey proposer_offset b
      ]
    ]

-- The loop of GetValidStakers over a map of shards.
pub valid_in_shards : List ℕ → (ℕ → List String) → List String → List String
unfolding get_valid_staker
valid_in_shards [] m stakers = stakers
valid_in_shards (s ∷ shards) m stakers = valid_in_shards shards m (get_valid_staker (m s) stakers)

pub get_valid_stakers : List ℕ → BestStateBeacon → List String → List String
unfolding valid_in_shards
get_valid_stakers shards b stakers =
    let in_committees = valid_in_shards shards b.shard_committee stakers in
    let in_shards = valid_in_shards shards b.shard_pending_validator in_committees in
    let in_committee = get_valid_staker b.beacon_committee in_shards in
    let in_pending = get_valid_staker b.beacon_pending_validator in_committee in
    let c1 = get_valid_staker b.candidate_beacon_waiting_for_current_random in_pending in
    let c2 = get_valid_staker b.candidate_beacon_waiting_for_next_random c1 in
    let c3 = get_valid_staker b.candidate_shard_waiting_for_current_random c2 in
    let c4 = get_valid_staker b.candidate_shard_waiting_for_next_random c3 in
    get_valid_staker b.candidate_shard_waiting_for_next_random c4
