-- ===== src/Mempool/ShardToBeaconPool/Adding.antt =====
-- shard_to_beacon_pool_v2.go: AddShardToBeaconBlock.
use cash_prototype.Base.{
  ℕ, ◌+◌, ◌≤◌, ◌<◌, ◌≡◌, ◌≢◌, refl, Option, none, some, List, [], ◌∷◌, ◌++◌, Result, ok, err, arith,
  u64_mod, leb, Bool-cases, inl, inr, put, or_else, put_other, ◌==◌, min,
}
use cash_prototype.Mempool.Heights.{PoolError, Block, height, Above, Lacks, has_height, sort}
use cash_prototype.Mempool.Heights.Sorting.{has_height-Lacks}
use cash_prototype.Mempool.Heights.Runs.{advance_fix, Above-Lacks}
use cash_prototype.Mempool.Heights.Room.{Leaves, make_room-Leaves}
use cash_prototype.Mempool.Heights.Adding.{added-Above}
use cash_prototype.Mempool.ShardToBeaconPool.{
  ShardToBeaconPool, blocks, at_least_one, advance_shard, update_latest_shard_state, touch, check,
  insert_block, finish_add, add_shard_to_beacon_block, requested,
}
use cash_prototype.Mempool.ShardToBeaconPool.Invariant.{
  Fits, Fits-lt, Fits-sorted, IsValid, SortedSlice, at_least_one_bounds, update-IsValid,
}

module _ {B : Type 0} ⦃b : Block B⦄ where
  check-ok :
      (blk : B) (latest : ℕ) (xs : List B) {kept : List B}
      → check blk latest xs ≡ ok kept
      → (latest < height blk) × Lacks (height blk) xs × Leaves (height blk) xs kept
  unfolding check
  check-ok blk latest xs e = elim (Bool-cases (leb (height blk) latest)) [
    | inl old ↦ absurd (ground arith)
    | inr new ↦ elim (Bool-cases (has_height (height blk) xs)) [
      | inl twice ↦ absurd (ground arith)
      | inr once ↦ (
        ground arith,
        has_height-Lacks _ _ once,
        make_room-Leaves _ _ _ _ _ (rw (new, once) at e),
      )
    ]
  ]

  touched-Fits : (slice : Option (List B)) (l : ℕ) → Fits slice l → Fits slice (at_least_one l)
  touched-Fits none l f = (at_least_one_bounds l f).1
  touched-Fits (some xs) l f = let same : at_least_one l ≡ l = ground arith in rw same f

  touch-IsValid : (s : ℕ) (p : ShardToBeaconPool B) → IsValid p → IsValid (touch s p)
  touch-IsValid s p v j = elim (Bool-cases (j == s)) [
    | inl here ↦
        let at : j ≡ s = ground arith in rw here (rw (← at) (touched-Fits (p.pool j) _ (v j)))
    | inr there ↦ rw there (v j)
  ]

  slice-Above : (slice : Option (List B)) (l : ℕ) → Fits slice l → Above 0 (or_else [] slice)
  slice-Above none l f = tt
  slice-Above (some xs) l f = f.0

  insert_block-IsValid :
      (blk : B) (s : ℕ) (kept : List B) (p : ShardToBeaconPool B)
      → IsValid p
      → height blk < u64_mod
      → p.latest_valid_height s < height blk
      → Lacks (height blk) (blocks p s)
      → Leaves (height blk) (blocks p s) kept
      → IsValid (insert_block blk s kept p)
  unfolding insert_block
  insert_block-IsValid blk s kept p v lt fresh absent left =
      update-IsValid _ sorted (λ j. Fits-lt (p.pool j) _ (v j))
    where
      sorted : (j : ℕ) → SortedSlice (put s (some (sort (kept ++ blk ∷ []))) p.pool j)
      sorted j = elim (Bool-cases (j == s)) [
        | inl here ↦ rw here (
            added-Above blk (blocks p s) kept left (slice-Above (p.pool s) _ (v s)) absent lt
              (omega arith))
        | inr there ↦ rw there (Fits-sorted (p.pool j) _ (v j))
      ]

  finish_add-IsValid :
      (blk : B) (s : ℕ) (p : ShardToBeaconPool B) (r : Result PoolError (List B))
      → check blk (p.latest_valid_height s) (blocks p s) ≡ r
      → height blk < u64_mod
      → IsValid p
      → IsValid (finish_add blk s p r).0
  unfolding finish_add
  finish_add-IsValid blk s p (err _) e lt v = v
  finish_add-IsValid blk s p (ok kept) e lt v =
      let (fresh, absent, left) = check-ok blk (p.latest_valid_height s) (blocks p s) e in
      insert_block-IsValid blk s kept p v lt fresh absent left

  -- AddShardToBeaconBlock with a uint64 height keeps every shard's slice valid, on every branch.
  pub add_shard_to_beacon_block-IsValid :
      (shard_of : B → ℕ) (blk : B) (p : ShardToBeaconPool B)
      → height blk < u64_mod
      → IsValid p
      → IsValid (add_shard_to_beacon_block shard_of blk p).0
  unfolding add_shard_to_beacon_block
  add_shard_to_beacon_block-IsValid shard_of blk p lt v =
      finish_add-IsValid blk (shard_of blk) (touch (shard_of blk) p) _ refl lt
        (touch-IsValid (shard_of blk) p v)

  advance_shard_fix : (slice : Option (List B)) (l : ℕ) → Fits slice l → advance_shard slice l ≡ l
  advance_shard_fix none l f = refl
  advance_shard_fix (some xs) l f =
      let same : at_least_one l ≡ l = ground arith in rw same (advance_fix 0 l xs f.4 f.0 f.1 f.2)

  finish_add-other :
      (blk : B) (s j : ℕ) (p : ShardToBeaconPool B) (r : Result PoolError (List B))
      → IsValid p
      → j ≢ s
      → ((finish_add blk s (touch s p) r).0.pool j ≡ p.pool j)
        × ((finish_add blk s (touch s p) r).0.latest_valid_height j ≡ p.latest_valid_height j)
  unfolding finish_add update_latest_shard_state
  finish_add-other blk s j p (err _) v ne = (refl, put_other s j _ p.latest_valid_height ne)
  finish_add-other blk s j p (ok kept) v ne =
      let slice = put_other s j (some (sort (kept ++ blk ∷ []))) p.pool ne in
      let latest =
        put_other s j (at_least_one (p.latest_valid_height s)) p.latest_valid_height ne in
      (slice, rw (slice, latest) (advance_shard_fix (p.pool j) (p.latest_valid_height j) (v j)))

  -- In a valid pool, AddShardToBeaconBlock leaves the slice and the latest valid height of every
  -- other shard as they are.
  add_shard_to_beacon_block-other :
      (shard_of : B → ℕ) (blk : B) (p : ShardToBeaconPool B) (j : ℕ)
      → IsValid p
      → j ≢ shard_of blk
      → ((add_shard_to_beacon_block shard_of blk p).0.pool j ≡ p.pool j)
        × ((add_shard_to_beacon_block shard_of blk p).0.latest_valid_height j
            ≡ p.latest_valid_height j)
  unfolding add_shard_to_beacon_block
  add_shard_to_beacon_block-other shard_of blk p j v ne =
      finish_add-other blk (shard_of blk) j p _ v ne

  -- With uint64 heights, what AddShardToBeaconBlock asks for starts above the latest valid
  -- height and ends at the first block's height, or 1000 heights further where that comes first; it
  -- is (0, 0) where the first block is not above.
  requested-range :
      (latest : ℕ) (x : B) (xs : List B)
      → height x < u64_mod
      → latest < u64_mod
      → (latest < height x
          → requested latest (x ∷ xs) ≡ (latest + 1, min (latest + 1000) (height x)))
        × (height x ≤ latest → requested latest (x ∷ xs) ≡ (0, 0))
  unfolding requested
  requested-range latest x xs hx hl = (λ lt. ground arith, λ le. ground arith)

  -- Every height that is asked for, but for the last, is missing from the shard's slice, where that
  -- is sorted and the latest valid height is a uint64.
  requested-Lacks :
      (latest h : ℕ) (xs : List B)
      → Above 0 xs
      → latest < u64_mod
      → (requested latest xs).0 ≤ h
      → h < (requested latest xs).1
      → Lacks h xs
  unfolding requested
  requested-Lacks latest h [] a lt from to = tt
  requested-Lacks latest h (x ∷ xs) a lt from to =
      (ground arith, Above-Lacks h (height x) xs (ground arith) a.2)
