-- ===== src/Mempool/ShardPool/Progress.antt =====
-- shard_pool.go: when the latest valid height rises, and when it cannot.
use cash_prototype.Base.{
  subst, ◌∙◌, ℕ, ◌+◌, ◌≤◌, ◌<◌, ◌≡◌, refl, ap, List, [], ◌∷◌, ◌++◌, ok, arith, u64_mod, inl, inr,
}
use cash_prototype.Mempool.Heights.{
  Block, height, Above, advance, insert, sort, last, drop_last, Lacks,
}
use cash_prototype.Mempool.Heights.Room.{Leaves, make_room-Leaves}
use cash_prototype.Mempool.Heights.Runs.{le-advance, advance-Lacks}
use cash_prototype.Mempool.Heights.Sorting.{insert_below, drop_up_to-Above}
use cash_prototype.Mempool.Heights.Adding.{added-eq-insert}
use cash_prototype.Mempool.ShardPool.{
  ShardPool, follow, add_shard_block, update_latest_shard_state, set_shard_state,
}
use cash_prototype.Mempool.ShardPool.Invariant.{IsValid, add_shard_block-ok}

module _ {B : Type 0} ⦃b : Block B⦄ where
  -- On a pool without valid blocks the update of this pool is the one of the beacon pool.
  pub follow-eq-advance :
      (l : ℕ) (xs : List B) → l < u64_mod → Above l xs → follow l xs ≡ advance l xs
  unfolding follow advance
  follow-eq-advance l [] lt a = refl
  follow-eq-advance l (x ∷ xs) lt a = ground (arith, follow-eq-advance (height x) xs)

  follow_stuck :
      (l : ℕ) (x : B) (xs : List B)
      → height x ≤ l
      → 0 < height x
      → l < u64_mod
      → follow l (x ∷ xs) ≡ l
  unfolding follow
  follow_stuck l x xs le pos lt = ground arith

  kept_head :
      (h : ℕ) (x : B) (rest kept : List B)
      → height x < h
      → Leaves h (x ∷ rest) kept
      → (ks : List B) × (kept ≡ x ∷ ks)
  unfolding drop_last last
  kept_head h x rest kept lt (inl e) = (rest, e)
  kept_head h x [] kept lt (inr e) = absurd (omega arith)
  kept_head h x (y ∷ ys) kept lt (inr e) = (drop_last y ys, e.0)

  -- While a valid block is left at the front of a valid pool, a successful AddShardBlock of a block
  -- with a uint64 height does not change the latest valid height, not even for the next block.
  add_shard_block-stuck :
      (blk : B) (p q : ShardPool B) (x : B) (rest : List B)
      → IsValid p
      → height blk < u64_mod
      → p.pool ≡ x ∷ rest
      → height x ≤ p.latest_valid_height
      → add_shard_block blk p ≡ ok q
      → q.latest_valid_height ≡ p.latest_valid_height
  unfolding update_latest_shard_state
  add_shard_block-stuck blk p q x rest v lt e le eq =
      let (kept, made, fresh, absent, done) = add_shard_block-ok blk p eq in
      let left = make_room-Leaves _ _ _ _ _ made in
      let (ks, head) =
        kept_head (height blk) x rest kept (omega arith)
          (subst (λ xs. Leaves (height blk) xs kept) e left) in
      let pos : 0 < height x = (rw e at v.sorted).0 in
      let sorted : sort (kept ++ blk ∷ []) ≡ x ∷ insert blk ks =
        added-eq-insert blk p.pool kept left v.sorted absent lt
        ∙ ap (insert blk) head
        ∙ insert_below x blk ks (omega arith) in
      ap (λ r. r.latest_valid_height) done
      ∙ ap (follow p.latest_valid_height) sorted
      ∙ follow_stuck p.latest_valid_height x (insert blk ks) le pos v.in_range

  -- Setting the state of a valid pool to a uint64 height makes the pool follow its blocks: the latest
  -- valid height is then at least the given one, and the block after it is missing from the pool.
  set_shard_state_complete :
      (h : ℕ) (p : ShardPool B)
      → IsValid p
      → h < u64_mod
      → (h ≤ (set_shard_state h p).latest_valid_height)
        × Lacks ((set_shard_state h p).latest_valid_height + 1) (set_shard_state h p).pool
  unfolding set_shard_state
  set_shard_state_complete h p v lt =
      let above = drop_up_to-Above h 0 p.pool v.sorted in
      let same = follow-eq-advance h _ lt above in
      (rw same (le-advance h _ lt above), rw same (advance-Lacks h h _ lt above))
