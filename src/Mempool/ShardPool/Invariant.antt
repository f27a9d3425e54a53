-- ===== src/Mempool/ShardPool/Invariant.antt =====
-- shard_pool.go: the pool stays sorted and its valid blocks consecutive, after any calls.
use cash_prototype.Base.{
  ℕ, ◌+◌, ◌-◌, ◌≤◌, ◌<◌, ◌≡◌, refl, List, [], ◌∷◌, ◌++◌, Result, ok, err, >>=-eq-ok, arith, u64_mod,
  leb, Bool-cases, inl, inr, All,
}
use cash_prototype.Mempool.Heights.{
  PoolError, Block, height, Above, Lacks, has_height, make_room, sort,
}
use cash_prototype.Mempool.Heights.Sorting.{has_height-Lacks, drop_up_to-Above, Above-drop_up_to}
use cash_prototype.Mempool.Heights.Runs.{
  Chain, Chain-le, RunsTo, up_from, drop_up_to-RunsTo, take_up_to-RunsTo,
}
use cash_prototype.Mempool.Heights.Room.{make_room-Leaves}
use cash_prototype.Mempool.Heights.Adding.{added-Above, added-RunsTo}
use cash_prototype.Mempool.ShardPool.{
  ShardPool, max_valid_shard_blk_in_pool, max_pending_shard_blk_in_pool, follow, add_shard_block,
  set_shard_state, remove_block, update_latest_shard_state, get_shard_pool, get_valid_block_height,
}

-- The exported calls that change the pool.
pub data Call (B : Type 0) : Type 0 where
  adds : B → Call B
  sets removes : ℕ → Call B

module _ {B : Type 0} ⦃b : Block B⦄ where
  -- Sorted, and the valid blocks run up to the latest valid height.
  pub record IsValid (p : ShardPool B) : Type 0 where
    pub sorted : Above 0 p.pool
    pub runs : RunsTo p.latest_valid_height p.pool
    pub in_range : p.latest_valid_height < u64_mod

  pub follow-Chain : (n : ℕ) (xs : List B) → n < u64_mod → Above n xs → Chain n (follow n xs) xs
  unfolding follow
  follow-Chain n [] lt a = refl
  follow-Chain n (x ∷ xs) lt a = ground (arith, follow-Chain (height x) xs)

  follow-RunsTo :
      (n l : ℕ) (xs : List B) → l < u64_mod → Above n xs → RunsTo l xs → RunsTo (follow l xs) xs
  unfolding follow
  follow-RunsTo n l [] lt a r = tt
  follow-RunsTo n l (x ∷ xs) lt a r =
      ground (arith, follow-Chain (height x) xs, Chain-le (height x) (follow (height x) xs) xs)

  follow-lt : (n l : ℕ) (xs : List B) → l < u64_mod → Above n xs → follow l xs < u64_mod
  unfolding follow
  follow-lt n l [] lt a = lt
  follow-lt n l (x ∷ xs) lt a = ground (arith, follow-lt (height x) (height x) xs)

  update-IsValid :
      (p : ShardPool B)
      → Above 0 p.pool
      → RunsTo p.latest_valid_height p.pool
      → p.latest_valid_height < u64_mod
      → IsValid (update_latest_shard_state p)
  unfolding update_latest_shard_state
  update-IsValid p a r lt = record {
    sorted = a;
    runs = follow-RunsTo 0 p.latest_valid_height p.pool lt a r;
    in_range = follow-lt 0 p.latest_valid_height p.pool lt a;
  }

  abbrev pub room : B → ShardPool B → Result PoolError (List B)
  room blk p =
      make_room max_valid_shard_blk_in_pool max_pending_shard_blk_in_pool p.latest_valid_height
        (height blk) p.pool

  -- What a successful call has checked, and the pool that it leaves.
  pub add_shard_block-ok :
      (blk : B) (p : ShardPool B) {q : ShardPool B}
      → add_shard_block blk p ≡ ok q
      → (kept : List B) × (room blk p ≡ ok kept)
        × (p.latest_valid_height < height blk)
        × Lacks (height blk) p.pool
        × (q ≡ update_latest_shard_state (record p { pool = sort (kept ++ blk ∷ []) }))
  unfolding add_shard_block
  add_shard_block-ok blk p e = elim (Bool-cases (leb (height blk) p.latest_valid_height)) [
    | inl old ↦ absurd (ground arith)
    | inr new ↦ elim (Bool-cases (has_height (height blk) p.pool)) [
      | inl twice ↦ absurd (ground arith)
      | inr once ↦
          let (kept, made, done) = >>=-eq-ok (room blk p) _ (rw (new, once) at e) in
          (kept, made, ground arith, has_height-Lacks _ _ once, ground arith)
    ]
  ]

  add_shard_block-IsValid :
      (blk : B) (p : ShardPool B) (r : Result PoolError (ShardPool B))
      → add_shard_block blk p ≡ r
      → height blk < u64_mod
      → IsValid p
      → IsValid (elim r [ ok q ↦ q | err e ↦ p ])
  add_shard_block-IsValid blk p (ok q) e lt v =
      let (kept, made, fresh, absent, done) = add_shard_block-ok blk p e in
      let left = make_room-Leaves _ _ _ _ _ made in
      rw done (
        update-IsValid _ (added-Above blk p.pool kept left v.sorted absent lt (omega arith))
          (added-RunsTo blk p.pool kept left v.sorted absent lt _ fresh v.runs) v.in_range)
  add_shard_block-IsValid blk p (err _) e lt v = v

  Above-RunsTo : (h : ℕ) (xs : List B) → Above h xs → RunsTo h xs
  Above-RunsTo h [] a = tt
  Above-RunsTo h (x ∷ xs) a = inr a.0

  set_shard_state-IsValid :
      (h : ℕ) (p : ShardPool B) → IsValid p → h < u64_mod → IsValid (set_shard_state h p)
  unfolding set_shard_state
  set_shard_state-IsValid h p v lt =
      update-IsValid _ (Above-drop_up_to h 0 p.pool v.sorted)
        (Above-RunsTo h _ (drop_up_to-Above h 0 p.pool v.sorted)) lt

  remove_block-IsValid : (h : ℕ) (p : ShardPool B) → IsValid p → IsValid (remove_block h p)
  unfolding remove_block
  remove_block-IsValid h p v = record {
    sorted = Above-drop_up_to h 0 p.pool v.sorted;
    runs = drop_up_to-RunsTo h 0 p.latest_valid_height p.pool v.sorted v.runs;
    in_range = v.in_range;
  }

  -- Heights are uint64 values.
  abbrev pub InRange : Call B → Type 0
  InRange (adds blk) = height blk < u64_mod
  InRange (sets h) = h < u64_mod
  InRange (removes h) = h < u64_mod

  -- A call that fails changes nothing.
  pub step : ShardPool B → Call B → ShardPool B
  step p (adds blk) = elim (add_shard_block blk p) [ ok q ↦ q | err e ↦ p ]
  step p (sets h) = set_shard_state h p
  step p (removes h) = remove_block h p

  unfoldable pub run : ShardPool B → List (Call B) → ShardPool B
  unfolding step
  run p [] = p
  run p (c ∷ cs) = run (step p c) cs

  step-IsValid : (p : ShardPool B) (c : Call B) → InRange c → IsValid p → IsValid (step p c)
  unfolding step
  step-IsValid p (adds blk) lt v = add_shard_block-IsValid blk p (add_shard_block blk p) refl lt v
  step-IsValid p (sets h) lt v = set_shard_state-IsValid h p v lt
  step-IsValid p (removes h) lt v = remove_block-IsValid h p v

  run-IsValid :
      (p : ShardPool B) (cs : List (Call B)) → All InRange cs → IsValid p → IsValid (run p cs)
  unfolding run
  run-IsValid p [] lt v = v
  run-IsValid p (c ∷ cs) lt v = run-IsValid (step p c) cs lt.1 (step-IsValid p c lt.0 v)

  get_shard_pool-IsValid : (shard : ℕ) → IsValid (get_shard_pool shard)
  unfolding get_shard_pool
  get_shard_pool-IsValid shard = omega arith

  -- After any calls with uint64 heights on a new pool it is sorted by height, and GetValidBlockHeight
  -- returns consecutive heights that end at the latest valid height (or none at all).
  pub run-get_shard_pool-consecutive :
      (shard : ℕ) (cs : List (Call B))
      → All InRange cs
      → Above 0 (run (get_shard_pool shard) cs).pool
        × ((k : ℕ) × (k ≤ (run (get_shard_pool shard) cs).latest_valid_height + 1)
            × (get_valid_block_height (run (get_shard_pool shard) cs)
                ≡ up_from ((run (get_shard_pool shard) cs).latest_valid_height + 1 - k) k))
  unfolding get_valid_block_height
  run-get_shard_pool-consecutive shard cs lt =
      let v = run-IsValid (get_shard_pool shard) cs lt (get_shard_pool-IsValid shard) in
      (v.sorted, take_up_to-RunsTo _ _ v.runs)
