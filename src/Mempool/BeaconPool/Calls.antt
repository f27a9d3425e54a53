-- ===== src/Mempool/BeaconPool/Calls.antt =====
-- beacon_pool.go: any sequence of calls on a new pool.
use cash_prototype.Base.{
  ℕ, ◌+◌, ◌-◌, ◌≤◌, ◌<◌, ◌≡◌, refl, List, [], ◌∷◌, Result, ok, err, u64_mod, All,
}
use cash_prototype.Mempool.Heights.{Block, height, PoolError}
use cash_prototype.Mempool.Heights.Runs.{up_from, take_up_to-RunsTo}
use cash_prototype.Mempool.BeaconPool.{
  BeaconPool, add_beacon_block, set_beacon_state, remove_block, get_beacon_pool,
  get_valid_block_height,
}
use cash_prototype.Mempool.BeaconPool.Invariant.{
  IsValid, add_beacon_block-IsValid, set_beacon_state-IsValid, remove_block-IsValid,
  get_beacon_pool-IsValid,
}

-- The exported calls that change the pool.
pub data Call (B : Type 0) : Type 0 where
  adds : B → Call B
  sets removes : ℕ → Call B

module _ {B : Type 0} ⦃b : Block B⦄ where
  -- Heights are uint64 values.
  abbrev pub InRange : Call B → Type 0
  InRange (adds blk) = height blk < u64_mod
  InRange (sets h) = h < u64_mod
  InRange (removes h) = h < u64_mod

  -- A call that fails changes nothing.
  abbrev after : BeaconPool B → Result PoolError (BeaconPool B) → BeaconPool B
  after p (ok q) = q
  after p (err e) = p

  pub step : BeaconPool B → Call B → BeaconPool B
  step p (adds blk) = after p (add_beacon_block blk p)
  step p (sets h) = set_beacon_state h p
  step p (removes h) = remove_block h p

  unfoldable pub run : BeaconPool B → List (Call B) → BeaconPool B
  unfolding step
  run p [] = p
  run p (c ∷ cs) = run (step p c) cs

  after-IsValid :
      (blk : B) (p : BeaconPool B) (r : Result PoolError (BeaconPool B))
      → add_beacon_block blk p ≡ r
      → height blk < u64_mod
      → IsValid p
      → IsValid (after p r)
  after-IsValid blk p (ok q) e lt v = add_beacon_block-IsValid blk p v lt e
  after-IsValid blk p (err _) e lt v = v

  step-IsValid : (p : BeaconPool B) (c : Call B) → InRange c → IsValid p → IsValid (step p c)
  unfolding step
  step-IsValid p (adds blk) lt v = after-IsValid blk p (add_beacon_block blk p) refl lt v
  step-IsValid p (sets h) lt v = set_beacon_state-IsValid h p v lt
  step-IsValid p (removes h) lt v = remove_block-IsValid h p v

  pub run-IsValid :
      (p : BeaconPool B) (cs : List (Call B)) → All InRange cs → IsValid p → IsValid (run p cs)
  unfolding run
  run-IsValid p [] lt v = v
  run-IsValid p (c ∷ cs) lt v = run-IsValid (step p c) cs lt.1 (step-IsValid p c lt.0 v)

  -- After any calls with uint64 heights on a new pool, it is sorted by height, its valid blocks run
  -- up to the latest valid height, and the block at the height after that is missing.
  pub run-get_beacon_pool-IsValid :
      (cs : List (Call B)) → All InRange cs → IsValid (run get_beacon_pool cs)
  run-get_beacon_pool-IsValid cs lt = run-IsValid get_beacon_pool cs lt get_beacon_pool-IsValid

  -- After any calls with uint64 heights on a new pool, GetValidBlockHeight returns consecutive
  -- heights that end at the latest valid height (or none at all).
  get_valid_block_height-run :
      (cs : List (Call B))
      → All InRange cs
      → (k : ℕ) × (k ≤ (run get_beacon_pool cs).latest_valid_height + 1)
        × (get_valid_block_height (run get_beacon_pool cs)
            ≡ up_from ((run get_beacon_pool cs).latest_valid_height + 1 - k) k)
  unfolding get_valid_block_height
  get_valid_block_height-run cs lt = take_up_to-RunsTo _ _ (run-get_beacon_pool-IsValid cs lt).runs
