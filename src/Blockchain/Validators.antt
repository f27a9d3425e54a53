-- ===== src/Blockchain/Validators.antt =====
-- blockchain/beaconprocess.go, the utilities for the beacon chain: how validators are swapped,
-- removed and assigned to shards.
pub mod Swapping
pub mod Removing
pub mod Assigning
mod Tests
use cash_prototype.Base.{
  ℕ, suc, ◌+◌, ◌-◌, ◌%◌, Bool, true, false, Option, none, some, List, [], ◌∷◌, ◌++◌, ltb, leb, ◌==◌,
  if◌then◌else◌, take, drop, length, get_elem?, Outcome, done, panic, ℤ, pos, negsuc, itoa, String,
  str_eq, codes, put,
}

pub data SwapError : Type 0 where
  swap_zero no_pending too_many : SwapError

-- The four lists that SwapValidator returns.
pub record Swap : Type 0 where
  pub pending : List String
  pub current : List String
  pub swapped : List String
  pub incoming : List String

-- The exchange of `offset` validators at the end of SwapValidator, with the incoming ones recorded
-- so far. A slice out of bounds panics.
pub exchange : List String → List String → ℕ → ℕ → Outcome (Swap × Option SwapError)
exchange pending current max_committee offset =
    if ltb (length current) offset
    then panic
    else (if ltb (length pending) offset
        then panic
        else (let current' = drop offset current ++ take offset pending in
            if ltb max_committee (length current')
            then panic
            else done (
              record {
                pending = drop offset pending;
                current = current';
                swapped = take offset current;
                incoming = take offset pending;
              },
              none,
            )))

-- With an offset that is neither 0 nor above the number of pending validators. In the second branch
-- the code records the validators that fill the committee in a variable of an inner scope, so they
-- are not among the incoming ones.
pub fill : List String → List String → ℕ → ℕ → Outcome (Swap × Option SwapError)
unfolding exchange
fill pending current max_committee offset =
    if ltb (length current) max_committee
    then (let diff = max_committee - length current in
        if leb offset diff
        then done (
          record {
            pending = drop offset pending;
            current = current ++ take offset pending;
            swapped = [];
            incoming = take offset pending;
          },
          none,
        )
        else exchange (drop diff pending) (current ++ take diff pending) max_committee
            (offset - diff))
    else exchange pending current max_committee offset

-- `return pendingValidators, currentValidators, []string{}, []string{}, err`
abbrev pub unchanged : List String → List String → SwapError → Outcome (Swap × Option SwapError)
unchanged pending current e =
    done (record { pending = pending; current = current; swapped = []; incoming = [] }, some e)

pub swap_some : List String → List String → ℕ → ℕ → Outcome (Swap × Option SwapError)
unfolding fill
swap_some pending current max_committee offset =
    if offset == 0
    then done (
      record { pending = []; current = pending; swapped = current; incoming = [] },
      some swap_zero,
    )
    else (let offset' = if ltb (length pending) offset then length pending else offset in
        if offset' == 0
        then unchanged pending current no_pending
        else (if ltb max_committee offset'
            then unchanged pending current too_many
            else fill pending current max_committee offset'))

unfoldable pub swap_validator :
    List String → List String → ℤ → ℤ → Outcome (Swap × Option SwapError)
unfolding swap_some
swap_validator pending current (negsuc _) offset = panic
swap_validator pending current (pos max_committee) (negsuc _) = panic
swap_validator pending current (pos max_committee) (pos offset) =
    swap_some pending current max_committee offset

pub data RemoveError : Type 0 where
  remove_too_many wrong_format : RemoveError

-- The loop over the removed validators: `validators` gets shorter while `index` rises.
pub remove_from : ℕ → List String → List String → Outcome (List String × Option RemoveError)
remove_from index validators [] = done (validators, none)
remove_from index validators (r ∷ removed) =
    let rest = remove_from (suc index) (drop 1 validators) removed in
    elim (get_elem? validators index) [
      | none ↦ panic
      | some v ↦ if str_eq v r then rest else done (validators, some wrong_format)
    ]

unfoldable pub remove_validator :
    List String → List String → Outcome (List String × Option RemoveError)
unfolding remove_from
remove_validator validators removed =
    if ltb (length validators) (length removed)
    then done (validators, some remove_too_many)
    else remove_from 0 validators removed

-- `sha256_last` is the last byte of `sha256.Sum256`; an active shard count of 0 panics in `%`.
module _ (sha256_last : List ℕ → ℕ) where
  pub calculate_candidate_shard_id : String → ℤ → ℕ → Outcome ℕ
  calculate_candidate_shard_id candidate rand active_shards =
      if active_shards == 0
      then panic
      else done (sha256_last (codes candidate ++ itoa rand) % active_shards % 256)

  -- The caller's map is changed in place; here the new map is returned.
  unfoldable pub assign_validator_shard :
      (ℕ → List String) → List String → ℤ → ℕ → Outcome (ℕ → List String)
  unfolding calculate_candidate_shard_id
  assign_validator_shard current [] rand active_shards = done current
  assign_validator_shard current (c ∷ cs) rand active_shards =
      elim (calculate_candidate_shard_id c rand active_shards) [
        | panic ↦ panic
        | done s ↦
            assign_validator_shard (put s (current s ++ c ∷ []) current) cs rand active_shards
      ]

  pub assign_validator : List String → ℤ → ℕ → Outcome (ℕ → List String)
  unfolding assign_validator_shard
  assign_validator cs rand active_shards = assign_validator_shard (λ s. []) cs rand active_shards

  pub verify_validator : String → ℤ → ℕ → ℕ → Outcome Bool
  unfolding calculate_candidate_shard_id
  verify_validator candidate rand shard active_shards =
      elim (calculate_candidate_shard_id candidate rand active_shards) [
        | panic ↦ panic
        | done s ↦ done (shard == s)
      ]
