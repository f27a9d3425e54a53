-- ===== src/Mempool/CrossShardPool/Tests.antt =====
-- cross_shard_pool_v2.go: runs of the pool, and its theorems at concrete inputs.
use cash_prototype.Mempool.CrossShardPool.Slices.{LooseSlice, awaited}
use cash_prototype.Mempool.CrossShardPool.Adding.{
  Reach, next, here, adds, stores, Reach-get_cross_shard_pool,
}
use cash_prototype.Mempool.CrossShardPool.Stores.{IsInOrder}
use cash_prototype.Mempool.Heights.{Block}
use cash_prototype.Mempool.CrossShardPool.{
  BeaconChain, store_cross_shard, get_next_cross_shard_height, CrossShardPool, CrossHeader,
  get_cross_shard_pool, update_pool, add_cross_shard_block, get_valid_block_height, insert_pending,
  get_pending_block_height, valid_blocks, pending_blocks,
}
use cash_prototype.Base.{ℕ, [], ◌∷◌, ◌≡◌, refl, arith, ok, some, none, inl}

-- A block that is its height, from shard 1 to shard 0.
instance abbrev number_block : Block ℕ
number_block = record { block_height = λ n. n; block_hash = λ n. n }

abbrev from_one : CrossHeader ℕ
from_one = record { from_shard = λ n. 1; to_shard = λ n. 0; epoch = λ n. 1 }

-- The beacon chain before and after it processes shard 1's blocks 3 and 6, which are for shard 0.
abbrev new_chain : BeaconChain
new_chain = record {
  database = record {
    fetch_cross_shard_next_height = λ from to h. none;
    fetch_committee_by_epoch = λ e. ok (λ s. []);
  };
  last_cross_shard_state = λ from to. 0;
}

abbrev with_three : BeaconChain
with_three = store_cross_shard 1 0 3 new_chain

abbrev with_six : BeaconChain
with_six = store_cross_shard 1 0 6 with_three

new_chain-IsInOrder : IsInOrder new_chain
unfolding get_next_cross_shard_height
new_chain-IsInOrder from to h le = refl

abbrev best : ℕ → ℕ
best s = 0

abbrev empty : CrossShardPool ℕ
empty = get_cross_shard_pool 0

-- Block 6 comes first, block 3 when the chain has stored it, and the pool is updated when both are.
abbrev after_six : CrossShardPool ℕ
after_six = (update_pool new_chain.database best (insert_pending 6 1 empty)).0

abbrev after_three : CrossShardPool ℕ
after_three = (update_pool with_three.database best (insert_pending 3 1 after_six)).0

six_added :
    add_cross_shard_block from_one new_chain.database best 6 empty
    ≡ ok (after_six, (update_pool new_chain.database best (insert_pending 6 1 empty)).1, 0)
unfolding add_cross_shard_block get_cross_shard_pool insert_pending update_pool
six_added = refl

three_added :
    add_cross_shard_block from_one with_three.database best 3 after_six
    ≡ ok (after_three, (update_pool with_three.database best (insert_pending 3 1 after_six)).1, 0)
unfolding add_cross_shard_block get_cross_shard_pool insert_pending update_pool store_cross_shard
three_added = refl

-- Block 3 is valid, block 6 stays pending, and 3 is still reported as expected.
slices :
    (get_valid_block_height after_three 1 ≡ 3 ∷ [])
    × (get_pending_block_height after_three 1 ≡ 6 ∷ [])
unfolding get_valid_block_height get_pending_block_height get_cross_shard_pool insert_pending
    update_pool store_cross_shard
slices = (refl, refl)

reported : (update_pool with_three.database best (insert_pending 3 1 after_six)).1 1 ≡ some 3
unfolding get_cross_shard_pool insert_pending update_pool store_cross_shard
reported = refl

abbrev reach_six : Reach from_one new_chain empty with_six after_three
reach_six =
    next
      (next
        (next
          (next here
            (adds best 6 (λ s. inl (unfold get_cross_shard_pool in refl)) (omega arith) six_added))
          (stores 1 0 3 (omega arith)))
        (adds best 3 (λ s. inl (unfold update_pool in refl)) (omega arith) three_added))
      (stores 1 0 6 (unfold store_cross_shard in omega arith))

Reach-get_cross_shard_pool_example :
    LooseSlice
      (after_three.cross_shard_state 1)
      (awaited with_six.database after_three 1)
      (valid_blocks after_three 1)
      (pending_blocks after_three 1)
Reach-get_cross_shard_pool_example =
    Reach-get_cross_shard_pool from_one new_chain 0 new_chain-IsInOrder reach_six 1
