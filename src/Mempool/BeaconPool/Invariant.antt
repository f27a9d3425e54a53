-- ===== src/Mempool/BeaconPool/Invariant.antt =====
-- beacon_pool.go: the pool stays sorted, and its valid blocks are consecutive, after any calls.
use cash_prototype.Base.{
  ◌++◌, >>=-eq-ok, ℕ, ◌+◌, ◌<◌, ◌≡◌, List, [], ◌∷◌, Result, ok, arith, u64_mod, leb, Bool-cases,
  inl, inr,
}
use cash_prototype.Mempool.Heights.{
  PoolError, Block, height, Above, Lacks, has_height, make_room, sort,
}
use cash_prototype.Mempool.Heights.Sorting.{
  drop_up_to-Lacks, has_height-Lacks, drop_up_to-Above, Above-drop_up_to,
}
use cash_prototype.Mempool.Heights.Runs.{
  RunsTo, advance-RunsTo, advance-Lacks, advance-lt, drop_up_to-RunsTo,
}
use cash_prototype.Mempool.Heights.Room.{make_room-Leaves}
use cash_prototype.Mempool.Heights.Adding.{added-Above}
use cash_prototype.Mempool.BeaconPool.{
  BeaconPool, max_valid_beacon_blk_in_pool, max_invalid_beacon_blk_in_pool, add_beacon_block,
  set_beacon_state, remove_block, update_latest_beacon_state, get_beacon_pool,
}

module _ {B : Type 0} ⦃b : Block B⦄ where
  -- Sorted, the valid blocks run up to the latest valid height, and the next block is missing.
  pub record IsValid (p : BeaconPool B) : Type 0 where
    pub sorted : Above 0 p.pool
    pub runs : RunsTo p.latest_valid_height p.pool
    pub complete : Lacks (p.latest_valid_height + 1) p.pool
    pub in_range : p.latest_valid_height < u64_mod

  update-IsValid :
      (n : ℕ) (p : BeaconPool B)
      → Above n p.pool
      → Above 0 p.pool
      → p.latest_valid_height < u64_mod
      → IsValid (update_latest_beacon_state p)
  unfolding update_latest_beacon_state
  update-IsValid n p a s lt = record {
    sorted = s;
    runs = advance-RunsTo n p.latest_valid_height p.pool lt a;
    complete = advance-Lacks n p.latest_valid_height p.pool lt a;
    in_range = advance-lt n p.latest_valid_height p.pool lt a;
  }

  abbrev pub room : B → BeaconPool B → Result PoolError (List B)
  room blk p =
      make_room max_valid_beacon_blk_in_pool max_invalid_beacon_blk_in_pool p.latest_valid_height
        (height blk) p.pool

  -- What a successful call has checked, and the pool that it leaves.
  pub add_beacon_block-ok :
      (blk : B) (p : BeaconPool B) {q : BeaconPool B}
      → add_beacon_block blk p ≡ ok q
      → (kept : List B) × (room blk p ≡ ok kept)
        × (p.latest_valid_height < height blk)
        × Lacks (height blk) p.pool
        × (q ≡ update_latest_beacon_state (record p { pool = sort (kept ++ blk ∷ []) }))
  unfolding add_beacon_block
  add_beacon_block-ok blk p e = elim (Bool-cases (leb (height blk) p.latest_valid_height)) [
    | inl old ↦ absurd (ground arith)
    | inr new ↦ elim (Bool-cases (has_height (height blk) p.pool)) [
      | inl twice ↦ absurd (ground arith)
      | inr once ↦
          let (kept, made, done) = >>=-eq-ok (room blk p) _ (rw (new, once) at e) in
          (kept, made, ground arith, has_height-Lacks _ _ once, ground arith)
    ]
  ]

  pub add_beacon_block-IsValid :
      (blk : B) (p : BeaconPool B) {q : BeaconPool B}
      → IsValid p
      → height blk < u64_mod
      → add_beacon_block blk p ≡ ok q
      → IsValid q
  add_beacon_block-IsValid blk p v lt e =
      let (kept, made, fresh, absent, done) = add_beacon_block-ok blk p e in
      let left = make_room-Leaves _ _ _ _ _ made in
      let sorted = added-Above blk p.pool kept left v.sorted absent lt (omega arith) in
      rw done (update-IsValid 0 _ sorted sorted v.in_range)

  pub set_beacon_state-IsValid :
      (h : ℕ) (p : BeaconPool B) → IsValid p → h < u64_mod → IsValid (set_beacon_state h p)
  unfolding set_beacon_state
  set_beacon_state-IsValid h p v lt =
      update-IsValid h _ (drop_up_to-Above h 0 p.pool v.sorted)
        (Above-drop_up_to h 0 p.pool v.sorted) lt

  pub remove_block-IsValid : (h : ℕ) (p : BeaconPool B) → IsValid p → IsValid (remove_block h p)
  unfolding remove_block
  remove_block-IsValid h p v = record {
    sorted = Above-drop_up_to h 0 p.pool v.sorted;
    runs = drop_up_to-RunsTo h 0 p.latest_valid_height p.pool v.sorted v.runs;
    complete = drop_up_to-Lacks h (p.latest_valid_height + 1) p.pool v.complete;
    in_range = v.in_range;
  }

  pub get_beacon_pool-IsValid : IsValid get_beacon_pool
  unfolding get_beacon_pool
  get_beacon_pool-IsValid = omega arith
