-- ===== src/Mempool/ShardToBeaconPool/Reading.antt =====
-- shard_to_beacon_pool_v2.go: what GetValidPendingBlock returns, and any sequence of calls.
use cash_prototype.Base.{
  ℕ, ◌+◌, ◌-◌, ◌≤◌, ◌<◌, ◌≡◌, refl, Option, none, some, List, [], ◌∷◌, map, arith, u64_mod,
  Bool-cases, All, or_else, ◌==◌, ltb, inl, inr, if◌then◌else◌,
}
use cash_prototype.Mempool.Heights.{Block, height, take_up_to}
use cash_prototype.Mempool.Heights.Runs.{up_from, take_up_to-RunsTo}
use cash_prototype.Mempool.ShardToBeaconPool.{
  ShardToBeaconPool, blocks, at_least_one, get_valid_pending_block, take_valid,
  get_valid_pending_block_height, get_shard_to_beacon_pool, add_shard_to_beacon_block,
  set_shard_state, remove_pending_block,
}
use cash_prototype.Mempool.ShardToBeaconPool.Invariant.{
  Fits, IsValid, HeightsInRange, remove_pending_block-IsValid, set_shard_state-IsValid,
}
use cash_prototype.Mempool.ShardToBeaconPool.Adding.{add_shard_to_beacon_block-IsValid}

-- The exported calls that change the pool.
pub data Call (B : Type 0) : Type 0 where
  adds : B → Call B
  sets removes : (ℕ → Option ℕ) → Call B
  reads : Option (ℕ → ℕ) → Call B

module _ {B : Type 0} ⦃b : Block B⦄ where
  take_valid_unlimited : (latest : ℕ) (xs : List B) → take_valid latest 0 xs ≡ take_up_to latest xs
  unfolding take_valid take_up_to
  take_valid_unlimited latest [] = refl
  take_valid_unlimited latest (x ∷ xs) = ground (arith, take_valid_unlimited latest xs)

  take_valid_limited :
      (latest limit : ℕ) (xs : List B)
      → 0 < limit
      → take_valid latest limit xs ≡ take_up_to limit (take_up_to latest xs)
  unfolding take_valid take_up_to
  take_valid_limited latest limit [] pos = refl
  take_valid_limited latest limit (x ∷ xs) pos = elim (Bool-cases (ltb latest (height x))) [
    | inl out ↦ rw out refl
    | inr below ↦ rw below (ground (arith, take_valid_limited latest limit xs))
  ]

  cut :
      (latest limit : ℕ) (xs : List B)
      → take_valid latest limit xs
        ≡ (if limit == 0 then take_valid latest 0 xs else take_up_to limit (take_valid latest 0 xs))
  cut latest limit xs = elim (Bool-cases (limit == 0)) [
    | inl zero' ↦ let at : limit ≡ 0 = ground arith in rw zero' (rw at refl)
    | inr some' ↦
        rw (some', take_valid_unlimited latest xs)
          (take_valid_limited latest limit xs (ground arith))
  ]

  -- A limit other than 0 for a shard cuts its valid blocks off above that height.
  get_valid_pending_block-limit :
      (limits : ℕ → ℕ) (p : ShardToBeaconPool B) (s : ℕ)
      → (get_valid_pending_block (some limits) p).1 s ≡ (
          if limits s == 0
          then (get_valid_pending_block none p).1 s
          else take_up_to (limits s) ((get_valid_pending_block none p).1 s))
  unfolding get_valid_pending_block
  get_valid_pending_block-limit limits p s = cut _ (limits s) (blocks p s)

  slice_consecutive :
      (slice : Option (List B)) (l : ℕ)
      → Fits slice l
      → (k : ℕ) × (k ≤ l + 1)
        × (map height (take_up_to l (or_else [] slice)) ≡ up_from (l + 1 - k) k)
  unfolding take_up_to
  slice_consecutive none l f = (0, omega arith, refl)
  slice_consecutive (some xs) l f = take_up_to-RunsTo l xs f.1

  read_Fits :
      (slice : Option (List B)) (l : ℕ)
      → Fits slice l
      → elim slice [ none ↦ l | some xs ↦ at_least_one l ] ≡ l
  read_Fits none l f = refl
  read_Fits (some xs) l f = ground arith

  -- Reading the valid blocks of a valid pool does not change it.
  get_valid_pending_block-IsValid :
      (limit : Option (ℕ → ℕ)) (p : ShardToBeaconPool B)
      → IsValid p
      → IsValid (get_valid_pending_block limit p).0
  unfolding get_valid_pending_block
  get_valid_pending_block-IsValid limit p v s =
      rw (read_Fits (p.pool s) (p.latest_valid_height s) (v s)) (v s)

  valid_heights :
      (p : ShardToBeaconPool B) (s : ℕ)
      → IsValid p
      → (k : ℕ) × (k ≤ p.latest_valid_height s + 1)
        × (get_valid_pending_block_height p s ≡ up_from (p.latest_valid_height s + 1 - k) k)
  unfolding get_valid_pending_block_height
  valid_heights p s v =
      rw
        (
          read_Fits (p.pool s) (p.latest_valid_height s) (v s),
          take_valid_unlimited (p.latest_valid_height s) (blocks p s),
        )
        (slice_consecutive (p.pool s) (p.latest_valid_height s) (v s))

  abbrev pub InRange : Call B → Type 0
  InRange (adds blk) = height blk < u64_mod
  InRange (sets state) = HeightsInRange state
  InRange (removes items) = HeightsInRange items
  InRange (reads limit) = Unit {0}

  module _ (shard_of : B → ℕ) where
    pub step : ShardToBeaconPool B → Call B → ShardToBeaconPool B
    step p (adds blk) = (add_shard_to_beacon_block shard_of blk p).0
    step p (sets state) = set_shard_state state p
    step p (removes items) = remove_pending_block items p
    step p (reads limit) = (get_valid_pending_block limit p).0

    unfoldable pub run : ShardToBeaconPool B → List (Call B) → ShardToBeaconPool B
    unfolding step
    run p [] = p
    run p (c ∷ cs) = run (step p c) cs

    step-IsValid :
        (p : ShardToBeaconPool B) (c : Call B) → InRange c → IsValid p → IsValid (step p c)
    unfolding step
    step-IsValid p (adds blk) lt v = add_shard_to_beacon_block-IsValid shard_of blk p lt v
    step-IsValid p (sets state) lt v = set_shard_state-IsValid state p v lt
    step-IsValid p (removes items) lt v = remove_pending_block-IsValid items p v
    step-IsValid p (reads limit) lt v = get_valid_pending_block-IsValid limit p v

    pub run-IsValid :
        (p : ShardToBeaconPool B) (cs : List (Call B))
        → All InRange cs
        → IsValid p
        → IsValid (run p cs)
    unfolding run
    run-IsValid p [] lt v = v
    run-IsValid p (c ∷ cs) lt v = run-IsValid (step p c) cs lt.1 (step-IsValid p c lt.0 v)

    get_shard_to_beacon_pool-IsValid : IsValid {B = B} get_shard_to_beacon_pool
    unfolding get_shard_to_beacon_pool
    get_shard_to_beacon_pool-IsValid s = omega arith

    -- After any calls with uint64 heights on a new pool, every shard's slice is sorted, its valid
    -- blocks run up to the shard's latest valid height and the block after that is missing; and
    -- GetValidPendingBlockHeight returns for it consecutive heights that end at that height, if any.
    pub run-get_shard_to_beacon_pool-consecutive :
        (cs : List (Call B)) (s : ℕ)
        → All InRange cs
        → Fits
            ((run get_shard_to_beacon_pool cs).pool s)
            ((run get_shard_to_beacon_pool cs).latest_valid_height s)
          × ((k : ℕ) × (k ≤ (run get_shard_to_beacon_pool cs).latest_valid_height s + 1)
              × (get_valid_pending_block_height (run get_shard_to_beacon_pool cs) s
                  ≡ up_from ((run get_shard_to_beacon_pool cs).latest_valid_height s + 1 - k) k))
    run-get_shard_to_beacon_pool-consecutive cs s lt =
        let v = run-IsValid get_shard_to_beacon_pool cs lt get_shard_to_beacon_pool-IsValid in
        (v s, valid_heights (run get_shard_to_beacon_pool cs) s v)
