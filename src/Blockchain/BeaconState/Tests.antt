-- ===== src/Blockchain/BeaconState/Tests.antt =====
-- The best beacon state at concrete inputs, and its theorems.
use cash_prototype.Blockchain.BeaconState.Epochs.{epoch_step-random, epoch_step-candidates}
use cash_prototype.Blockchain.BeaconState.Swaps.{process_instruction-swap_validator}
use cash_prototype.Blockchain.Validators.Assigning.{of_shard}
use cash_prototype.Blockchain.BeaconState.Stakers.{get_pubkey_role-stakers}
use cash_prototype.Blockchain.Validators.{swap_validator, assign_validator_shard, Swap}
use cash_prototype.Base.{
  done, length, ◌%◌, ◌++◌, ◌==◌, ℤ, if◌then◌else◌, ℕ, List, [], ◌∷◌, ◌≡◌, refl, arith, some, none,
  pos, String, false, true,
}
use cash_prototype.Blockchain.BeaconState.{
  crashed, random_time, epoch_length, random, swap_shard, stake_shard, going, proposer, no_role,
  epoch_step, Progress, BestStateBeacon, BeaconHeader, Reading, process_instruction, update,
  get_pubkey_role, get_valid_stakers, stopped,
}

-- Shard 0 has the committee a, b and the pending validator c; d waits for the next random number,
-- and e and f are the beacon's committee.
abbrev some_state : BestStateBeacon
some_state = record {
  epoch = 1;
  beacon_height = 14;
  beacon_proposer_idx = some 0;
  beacon_committee = "e" ∷ "f" ∷ [];
  beacon_pending_validator = "g" ∷ [];
  candidate_shard_waiting_for_current_random = [];
  candidate_beacon_waiting_for_current_random = [];
  candidate_shard_waiting_for_next_random = "d" ∷ [];
  candidate_beacon_waiting_for_next_random = [];
  shard_committee = λ s. if s == 0 then "a" ∷ "b" ∷ [] else [];
  shard_pending_validator = λ s. if s == 0 then "c" ∷ [] else [];
  current_random_number = pos 0;
  current_random_time_stamp = pos 0;
  is_get_random_number = false;
  beacon_committee_size = 2;
  shard_committee_size = 2;
  active_shards = 1;
}

abbrev some_reading : Reading
some_reading = record {
  best = some_state;
  new_beacon_candidate = [];
  new_shard_candidate = [];
  random_flag = false;
}

abbrev header : ℕ → BeaconHeader
header h = record { height = h; header_epoch = 2; producer = "f"; timestamp = pos 100 }

abbrev no_hash : List ℕ → ℕ
no_hash ns = 0

abbrev keep : List String → ℤ → List String
keep names n = names

-- The snapshot and the random number come with one block: d goes to shard 0, h waits.
abbrev after_random : Progress BestStateBeacon
after_random =
    update no_hash keep (header 15) (stake_shard ("d2" ∷ []) ∷ random (some (pos 5)) ∷ [])
      some_state

abbrev pending_of : Progress BestStateBeacon → List String
pending_of (going b) = b.shard_pending_validator 0
pending_of (stopped b) = []
pending_of crashed = []

random_assigns : pending_of after_random ≡ "c" ∷ "d" ∷ "d2" ∷ []
unfolding update assign_validator_shard
random_assigns = refl

-- At the end of an epoch no beacon validator is swapped.
abbrev committee_of : Progress BestStateBeacon → List String
committee_of (going b) = b.beacon_committee
committee_of (stopped b) = []
committee_of crashed = []

no_swap : committee_of (update no_hash keep (header 20) [] some_state) ≡ "e" ∷ "f" ∷ []
unfolding update
no_swap = refl

process_instruction-swap_validator_example :
    (q : Reading) × (t : Swap) × (process_instruction
        (swap_shard ("c" ∷ []) ("a" ∷ []) (some 0))
        some_reading
      ≡ going q)
    × (swap_validator
          (some_state.shard_pending_validator 0)
          (some_state.shard_committee 0)
          (pos (length (some_state.shard_committee 0)))
          (pos 1)
        ≡ done (t, none))
    × (t.incoming ≡ "c" ∷ [])
    × (t.swapped ≡ "a" ∷ [])
    × (q.best.shard_pending_validator 0 ≡ t.pending)
    × (q.best.shard_committee 0 ≡ t.current)
process_instruction-swap_validator_example =
    process_instruction-swap_validator some_reading 0 "c" "a" [] ("b" ∷ []) (omega arith) refl refl

abbrev snap_state : BestStateBeacon
snap_state = record some_state {
  beacon_height = 15;
  candidate_shard_waiting_for_current_random = "h" ∷ [];
}

epoch_step-candidates_example :
    (c : BestStateBeacon) × (epoch_step no_hash keep (header 15) false snap_state ≡ going c)
    × (c.beacon_committee ≡ snap_state.beacon_committee)
    × (c.beacon_pending_validator ≡ snap_state.beacon_pending_validator)
    × (c.shard_pending_validator ≡ snap_state.shard_pending_validator)
    × (c.candidate_shard_waiting_for_current_random
        ≡ snap_state.candidate_shard_waiting_for_next_random)
    × (c.candidate_shard_waiting_for_next_random ≡ [])
    × (c.candidate_beacon_waiting_for_current_random
        ≡ snap_state.candidate_beacon_waiting_for_next_random)
    × (c.candidate_beacon_waiting_for_next_random ≡ [])
epoch_step-candidates_example = epoch_step-candidates no_hash keep (header 15) snap_state

abbrev late_state : BestStateBeacon
late_state = record some_state {
  beacon_height = 17;
  candidate_shard_waiting_for_current_random = "h" ∷ [];
}

epoch_step-random_example :
    (c : BestStateBeacon) × (epoch_step no_hash keep (header 17) true late_state ≡ going c)
    × (c.candidate_shard_waiting_for_current_random ≡ [])
    × (c.beacon_committee ≡ late_state.beacon_committee)
    × ((s : ℕ)
        → c.shard_pending_validator s
          ≡ late_state.shard_pending_validator s
            ++ of_shard no_hash late_state.current_random_number late_state.active_shards
                (if late_state.beacon_height % epoch_length == random_time
                  then late_state.candidate_shard_waiting_for_next_random
                  else late_state.candidate_shard_waiting_for_current_random)
                s)
epoch_step-random_example =
    epoch_step-random no_hash keep (header 17) late_state (omega arith) (omega arith)

abbrev shards : List ℕ
shards = 0 ∷ []

abbrev name_f : String
name_f = "f"

proposer_f : get_pubkey_role shards "f" 0 some_state ≡ proposer
unfolding get_pubkey_role
proposer_f = refl

get_pubkey_role-stakers_example : get_pubkey_role shards "z" 0 some_state ≡ no_role
get_pubkey_role-stakers_example =
    get_pubkey_role-stakers shards some_state ("c" ∷ "z" ∷ []) "z" 0
      (unfold get_valid_stakers in refl)
