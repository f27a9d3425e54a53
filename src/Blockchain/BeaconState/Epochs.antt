-- ===== src/Blockchain/BeaconState/Epochs.antt =====
-- beaconprocess.go: what Update does with the candidates at the places of an epoch.
use cash_prototype.Base.{
  leb, ltb, not, Bool-cases, ◌&&◌, ◌≤◌, ℕ, ◌≡◌, ◌≢◌, refl, true, false, List, [], ◌++◌, ◌==◌, ◌%◌,
  String, ℤ, arith, if◌then◌else◌, inl, inr,
}
use cash_prototype.Blockchain.BeaconState.{
  BestStateBeacon, BeaconHeader, going, epoch_step, snapshot, epoch_length, random_time,
  assign_with_random,
}
use cash_prototype.Blockchain.Validators.Assigning.{of_shard, assign_validator_shard-lists}

module _ (sha256_last : List ℕ → ℕ) (shuffle : List String → ℤ → List String) where
  -- Without a random number the step never fails, and leaves the beacon committee, the beacon's
  -- pending validators and those of the shards. At the random time of an epoch each list of
  -- candidates, of the shards and of the beacon, that waits for the current random number becomes the
  -- one that waited for the next, which is left empty: who still waited for the current number is no
  -- longer in a list. At any other place of the epoch each of the four lists stays as it is. This
  -- holds at the end of an epoch too: the beacon committee is not swapped.
  pub epoch_step-candidates :
      (hd : BeaconHeader) (b : BestStateBeacon)
      → let snapped = b.beacon_height % epoch_length == random_time in
        (c : BestStateBeacon) × (epoch_step sha256_last shuffle hd false b ≡ going c)
        × (c.beacon_committee ≡ b.beacon_committee)
        × (c.beacon_pending_validator ≡ b.beacon_pending_validator)
        × (c.shard_pending_validator ≡ b.shard_pending_validator)
        × (c.candidate_shard_waiting_for_current_random ≡ (
            if snapped
            then b.candidate_shard_waiting_for_next_random
            else b.candidate_shard_waiting_for_current_random))
        × (c.candidate_shard_waiting_for_next_random
            ≡ (if snapped then [] else b.candidate_shard_waiting_for_next_random))
        × (c.candidate_beacon_waiting_for_current_random ≡ (
            if snapped
            then b.candidate_beacon_waiting_for_next_random
            else b.candidate_beacon_waiting_for_current_random))
        × (c.candidate_beacon_waiting_for_next_random
            ≡ (if snapped then [] else b.candidate_beacon_waiting_for_next_random))
  unfolding epoch_step snapshot
  epoch_step-candidates hd b = elim (Bool-cases (place == 1 && not (b.beacon_height == 1))) [
    | inl start ↦
        let early : (place == random_time) ≡ false = ground (arith, start) in
        (
          record b { is_get_random_number = false },
          rw (epoch_step, start) refl,
          refl,
          refl,
          refl,
          rw early refl,
          rw early refl,
          rw early refl,
          rw early refl,
        )
    | inr no_start ↦ elim (Bool-cases (ltb place random_time)) [
      | inl before ↦
          let early : (place == random_time) ≡ false = ground (arith, before) in
          (
            b,
            rw (epoch_step, no_start, before) refl,
            refl,
            refl,
            refl,
            rw early refl,
            rw early refl,
            rw early refl,
            rw early refl,
          )
      | inr after ↦
          let late : leb random_time place ≡ true = ground (arith, after) in
          elim (Bool-cases (place == random_time)) [
            | inl now ↦ (
              snapshot hd b,
              rw (epoch_step, no_start, after, late, now) refl,
              refl,
              refl,
              refl,
              rw now refl,
              rw now refl,
              rw now refl,
              rw now refl,
            )
            | inr later ↦ (
              b,
              rw (epoch_step, no_start, after, late, later) refl,
              refl,
              refl,
              refl,
              rw later refl,
              rw later refl,
              rw later refl,
              rw later refl,
            )
          ]
    ]
  ]
    where
      place : ℕ
      place = b.beacon_height % epoch_length

  assign_with_random-lists :
      (b : BestStateBeacon)
      → b.active_shards ≢ 0
      → (c : BestStateBeacon) × (assign_with_random sha256_last shuffle b ≡ going c)
        × (c.candidate_shard_waiting_for_current_random ≡ [])
        × (c.beacon_committee ≡ b.beacon_committee)
        × ((s : ℕ)
            → c.shard_pending_validator s
              ≡ b.shard_pending_validator s
                ++ of_shard sha256_last b.current_random_number b.active_shards
                    b.candidate_shard_waiting_for_current_random s)
  unfolding assign_with_random
  assign_with_random-lists b active =
      let (assigned, step, lists) =
        assign_validator_shard-lists sha256_last b.shard_pending_validator
          b.candidate_shard_waiting_for_current_random b.current_random_number b.active_shards
          active in
      let c : BestStateBeacon = record b {
        is_get_random_number = true;
        shard_pending_validator = assigned;
        candidate_shard_waiting_for_current_random = [];
        beacon_pending_validator =
            b.beacon_pending_validator
            ++ shuffle b.candidate_beacon_waiting_for_current_random b.current_random_number;
        candidate_beacon_waiting_for_current_random = [];
      } in
      (c, rw (assign_with_random, step) refl, refl, refl, lists)

  -- With a random number in the second half of an epoch and an active shard, the shard candidates
  -- that wait for it, at the random time those of the new snapshot, are appended to the pending
  -- lists of the shards that their hashes select, and none of them is left waiting; the beacon
  -- committee stays.
  pub epoch_step-random :
      (hd : BeaconHeader) (b : BestStateBeacon)
      → random_time ≤ b.beacon_height % epoch_length
      → b.active_shards ≢ 0
      → (c : BestStateBeacon) × (epoch_step sha256_last shuffle hd true b ≡ going c)
        × (c.candidate_shard_waiting_for_current_random ≡ [])
        × (c.beacon_committee ≡ b.beacon_committee)
        × ((s : ℕ)
            → c.shard_pending_validator s
              ≡ b.shard_pending_validator s
                ++ of_shard sha256_last b.current_random_number b.active_shards
                    (if b.beacon_height % epoch_length == random_time
                      then b.candidate_shard_waiting_for_next_random
                      else b.candidate_shard_waiting_for_current_random)
                    s)
  unfolding epoch_step snapshot assign_with_random
  epoch_step-random hd b late active =
      let place = b.beacon_height % epoch_length in
      let no_start : (place == 1 && not (b.beacon_height == 1)) ≡ false = ground (arith, late) in
      let after : ltb place random_time ≡ false = ground (arith, late) in
      let in_time : leb random_time place ≡ true = ground (arith, late) in
      elim (Bool-cases (place == random_time)) [
        | inl now ↦
            let (c, step, none_left, same, lists) =
              assign_with_random-lists (snapshot hd b) active in
            (
              c,
              rw (epoch_step, no_start, after, in_time, now) step,
              none_left,
              same,
              λ s. rw now (lists s),
            )
        | inr later ↦
            let (c, step, none_left, same, lists) = assign_with_random-lists b active in
            (
              c,
              rw (epoch_step, no_start, after, in_time, later) step,
              none_left,
              same,
              λ s. rw later (lists s),
            )
      ]
