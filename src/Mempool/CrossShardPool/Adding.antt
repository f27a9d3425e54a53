-- ===== src/Mempool/CrossShardPool/Adding.antt =====
-- cross_shard_pool_v2.go: AddCrossShardBlock, and any sequence of calls.

use cash_prototype.Base.{
  Result, subst, ℕ, ◌≤◌, ◌<◌, ◌≡◌, ◌≢◌, refl, sym, inl, inr, Option, List, arith, u64_mod,
  Bool-cases, leb, ◌==◌, length, ok, >>=-eq-ok,
}
use cash_prototype.Mempool.Heights.{Block, height, Lacks, drop_up_to, insert}
use cash_prototype.Mempool.Heights.Sorting.{
  drop_up_to-Lacks, Above-drop_up_to, insert-Above, insert-Lacks, sort-append, has_height-Lacks,
}
use cash_prototype.Mempool.CrossShardPool.{
  CrossShardError, BeaconChain, store_cross_shard, get_next_cross_shard_height, CrossShardPool,
  CrossHeader, Database, valid_blocks, pending_blocks, remove_block_by_height, update_pool, check,
  insert_pending, add_cross_shard_block, get_cross_shard_pool,
}
use cash_prototype.Mempool.CrossShardPool.Stores.{
  IsInOrder, store_cross_shard-IsInOrder, stored-IsValid,
}
use cash_prototype.Mempool.CrossShardPool.Update.{removed}
use cash_prototype.Mempool.CrossShardPool.Slices.{
  LooseSlice, moved-IsValid, IsValid, Follows, awaited, update_pool-IsValid,
}

module _ {B : Type 0} ⦃b : Block B⦄ where
  -- What the checks establish.
  pub check-ok :
      (hd : CrossHeader B) (db : Database) (blk : B) (p : CrossShardPool B)
      → check hd db blk p ≡ ok tt
      → (hd.to_shard blk ≡ p.shard_id)
        × (p.cross_shard_state (hd.from_shard blk) < height blk)
        × Lacks (height blk) (valid_blocks p (hd.from_shard blk))
        × Lacks (height blk) (pending_blocks p (hd.from_shard blk))
        × (length (pending_blocks p (hd.from_shard blk)) ≤ 100)
  unfolding check
  check-ok hd db blk p e = ground (
    arith,
    has_height-Lacks (height blk) (valid_blocks p (hd.from_shard blk)),
    has_height-Lacks (height blk) (pending_blocks p (hd.from_shard blk)),
  )

  insert-LooseSlice :
      (state wait : ℕ) (blk : B) (valid pending : List B)
      → 0 < height blk
      → height blk < u64_mod
      → Lacks (height blk) valid
      → Lacks (height blk) pending
      → LooseSlice state wait valid pending
      → LooseSlice state wait valid (insert blk pending)
  insert-LooseSlice state wait blk valid pending lt bound lv lp (a, inl empty) =
      (insert-Above 0 blk pending lt bound a lp, inl empty)
  insert-LooseSlice state wait blk valid pending lt bound lv lp (a, inr (x, one, at, l)) =
      let other : height blk ≢ height x = λ e. (subst (Lacks (height blk)) one lv).0 (sym e) in
      (
        insert-Above 0 blk pending lt bound a lp,
        inr (x, one, at, insert-Lacks (height x) blk pending other l),
      )

  insert_pending-IsValid :
      (hd : CrossHeader B) (db : Database) (blk : B) (p : CrossShardPool B)
      → IsValid db p
      → height blk < u64_mod
      → check hd db blk p ≡ ok tt
      → IsValid db (insert_pending blk (hd.from_shard blk) p)
  unfolding insert_pending
  insert_pending-IsValid hd db blk p v bound e j =
      let s = hd.from_shard blk in
      let (_, new, lv, lp, _) = check-ok hd db blk p e in
      elim (Bool-cases (j == s)) [
        | inl here ↦
            let at : j ≡ s = ground arith in
            rw here (
              rw at (
                rw (sort-append _ (pending_blocks p s) blk bound (v s).0 lp) (
                  insert-LooseSlice _ _ blk (valid_blocks p s) (pending_blocks p s) (omega arith)
                    bound lv lp (v s))))
        | inr there ↦ rw there (v j)
      ]

  -- A successful AddCrossShardBlock keeps the pool valid while the best state follows the
  -- confirmed blocks.
  pub add_cross_shard_block-IsValid :
      (hd : CrossHeader B) (db : Database) (best : ℕ → ℕ) (blk : B) (p q : CrossShardPool B)
      {expected : ℕ → Option ℕ} {shard : ℕ}
      → IsValid db p
      → Follows db best p
      → height blk < u64_mod
      → add_cross_shard_block hd db best blk p ≡ ok (q, expected, shard)
      → IsValid db q
  unfolding add_cross_shard_block
  add_cross_shard_block-IsValid hd db best blk p q v f bound e =
      let (_, passed, rest) = >>=-eq-ok (check hd db blk p) _ e in
      let inner = insert_pending-IsValid hd db blk p v bound passed in
      let result : q ≡ (update_pool db best (insert_pending blk (hd.from_shard blk) p)).0 =
        ground arith in
      rw result (
        update_pool-IsValid db best (insert_pending blk (hd.from_shard blk) p) inner
          (unfold insert_pending in f))

  -- RemoveBlockByHeight leaves the state and drops blocks from the head of the slices.
  removed-LooseSlice :
      (h state wait : ℕ) (valid pending : List B)
      → LooseSlice state wait valid pending
      → LooseSlice state wait (drop_up_to h valid) (drop_up_to h pending)
  removed-LooseSlice h state wait valid pending (a, inl empty) =
      (Above-drop_up_to h 0 pending a, inl (rw empty (unfold drop_up_to in refl)))
  removed-LooseSlice h state wait valid pending (a, inr (x, one, at, l)) = (
    Above-drop_up_to h 0 pending a,
    elim (Bool-cases (leb (height x) h)) [
      | inl gone ↦ inl (rw one (unfold drop_up_to in rw gone refl))
      | inr stays ↦ inr (
        x,
        rw one (unfold drop_up_to in rw stays refl),
        at,
        drop_up_to-Lacks h (height x) pending l,
      )
    ],
  )

  remove_block_by_height-IsValid :
      (db : Database) (since : ℕ → ℕ) (p : CrossShardPool B)
      → IsValid db p
      → IsValid db (remove_block_by_height since p)
  unfolding remove_block_by_height
  remove_block_by_height-IsValid db since p v s =
      rw (removed (since s) (p.valid_pool s), removed (since s) (p.pending_pool s))
        (removed-LooseSlice (since s) _ _ (valid_blocks p s) (pending_blocks p s) (v s))

  module _ (hd : CrossHeader B) where
    -- The exported calls that change a pool, with the shard's best state when the pool reads it; the
    -- changes of the best state, whose map the pool shares; and those of the database: the committees
    -- of the epochs, in any way, and the next heights, as the beacon chain stores them, for shard
    -- blocks in the order of their heights.
    pub data Step (c : BeaconChain) (p : CrossShardPool B)
        : BeaconChain → CrossShardPool B → Type 0 where
      adds :
          (best : ℕ → ℕ) (blk : B) {q : CrossShardPool B} {expected : ℕ → Option ℕ} {shard : ℕ}
          → Follows c.database best p
          → height blk < u64_mod
          → add_cross_shard_block hd c.database best blk p ≡ ok (q, expected, shard)
          → Step c p c q
      updates :
          (best : ℕ → ℕ) → Follows c.database best p → Step c p c (update_pool c.database best p).0
      removes : (since : ℕ → ℕ) → Step c p c (remove_block_by_height since p)
      moves :
          (best : ℕ → ℕ)
          → Follows c.database best p
          → Step c p c (record p { cross_shard_state = best })
      commits :
          (committees : ℕ → Result CrossShardError (ℕ → List ℕ))
          → Step c p
              (record c { database = record c.database { fetch_committee_by_epoch = committees } })
              p
      stores :
          (from_shard to_shard wait_height : ℕ)
          → c.last_cross_shard_state from_shard to_shard ≤ wait_height
          → Step c p (store_cross_shard from_shard to_shard wait_height c) p

    pub data Reach (c : BeaconChain) (p : CrossShardPool B)
        : BeaconChain → CrossShardPool B → Type 0 where
      here : Reach c p c p
      next :
          {d e : BeaconChain} {q r : CrossShardPool B}
          → Reach c p d q
          → Step d q e r
          → Reach c p e r

    Step-IsValid :
        {c d : BeaconChain} {p q : CrossShardPool B}
        → Step c p d q
        → IsInOrder c × IsValid c.database p
        → IsInOrder d × IsValid d.database q
    Step-IsValid {c} {d} {p} {q} (adds best blk f lt e) (o, v) =
        (o, add_cross_shard_block-IsValid hd c.database best blk p q v f lt e)
    Step-IsValid {c} {d} {p} (updates best f) (o, v) =
        (o, update_pool-IsValid c.database best p v f)
    Step-IsValid {c} {d} {p} (removes since) (o, v) =
        (o, remove_block_by_height-IsValid c.database since p v)
    Step-IsValid {c} {d} {p} (moves best f) (o, v) = (o, moved-IsValid c.database best p v f)
    Step-IsValid {c} {d} {p} (commits committees) (o, v) =
        (unfold get_next_cross_shard_height in o, unfold get_next_cross_shard_height in v)
    Step-IsValid {c} {d} {p} (stores from to wait le) (o, v) = (
      (store_cross_shard-IsInOrder from to wait c le o).0,
      stored-IsValid from to wait c p le o v,
    )

    Reach-IsValid :
        {c : BeaconChain} {p : CrossShardPool B} {d : BeaconChain} {q : CrossShardPool B}
        → Reach c p d q
        → IsInOrder c × IsValid c.database p
        → IsInOrder d × IsValid d.database q
    Reach-IsValid here v = v
    Reach-IsValid (next r s) v = Step-IsValid s (Reach-IsValid r v)

    -- From a new pool and a chain that stores no next height from its last ones on, while the heights
    -- of the added blocks are below 2^64, the shard's best state stays or moves on past the awaited
    -- block, and the beacon chain stores the next heights in order: every shard has at most one valid
    -- block, which has the height that is awaited in the database of the moment or is not above the
    -- state; its pending blocks are sorted and do not hold the height of the valid one.
    pub Reach-get_cross_shard_pool :
        (c : BeaconChain) (shard : ℕ) {d : BeaconChain} {p : CrossShardPool B}
        → IsInOrder c
        → Reach c (get_cross_shard_pool shard) d p
        → (s : ℕ)
        → LooseSlice
            (p.cross_shard_state s)
            (awaited d.database p s)
            (valid_blocks p s)
            (pending_blocks p s)
    Reach-get_cross_shard_pool c shard o r =
        (Reach-IsValid r (o, unfold get_cross_shard_pool in λ s. (tt, inl refl))).1
