-- ===== src/Mempool/ShardPool.antt =====
-- mempool/shard_pool.go: the blocks of one shard that are not yet in its chain.
-- A method returns the pool that it leaves; a block is any type with a height and a hash.
pub mod Invariant
pub mod Progress
mod Tests
use cash_prototype.Base.{
  ℕ, Bool, List, [], ◌∷◌, ◌++◌, map, ltb, leb, if◌then◌else◌, Result, ok, err, ◌>>=◌, ◌==◌, not,
  add64,
}
use cash_prototype.Mempool.Heights.{
  Block, height, PoolError, old_block, duplicate_block, sort, has_height, make_room, drop_up_to,
  take_up_to, last_height,
}

pub record ShardPool (B : Type 0) : Type 0 where
  pub pool : List B
  pub shard_id : ℕ
  pub latest_valid_height : ℕ

abbrev pub max_valid_shard_blk_in_pool : ℕ
max_valid_shard_blk_in_pool = 1000

abbrev pub max_pending_shard_blk_in_pool : ℕ
max_pending_shard_blk_in_pool = 200

module _ {B : Type 0} ⦃b : Block B⦄ where
  -- The loop of UpdateLatestShardState: unlike those of the other pools, it does not pass over the
  -- blocks up to the latest valid height.
  pub follow : ℕ → List B → ℕ
  follow last [] = last
  follow last (x ∷ xs) = if not (add64 last 1 == height x) then last else follow (height x) xs

  pub update_latest_shard_state : ShardPool B → ShardPool B
  unfolding follow
  update_latest_shard_state p = record p {
    latest_valid_height = follow p.latest_valid_height p.pool;
  }

  pub remove_block : ℕ → ShardPool B → ShardPool B
  unfolding drop_up_to
  remove_block h p = record p { pool = drop_up_to h p.pool }

  pub set_shard_state : ℕ → ShardPool B → ShardPool B
  unfolding update_latest_shard_state remove_block
  set_shard_state h p =
      update_latest_shard_state (remove_block h (record p { latest_valid_height = h }))

  pub get_shard_state : ShardPool B → ℕ
  get_shard_state p = p.latest_valid_height

  -- The pool of a shard before any call.
  pub get_shard_pool : ℕ → ShardPool B
  get_shard_pool shard = record { pool = []; shard_id = shard; latest_valid_height = 1 }

  -- One round of InitShardPool's loop, with the height of the shard's best state.
  pub init_shard_pool : ℕ → ℕ → ShardPool B
  unfolding set_shard_state get_shard_pool
  init_shard_pool shard best = set_shard_state best (get_shard_pool shard)

  pub add_shard_block : B → ShardPool B → Result PoolError (ShardPool B)
  unfolding sort has_height make_room update_latest_shard_state
  add_shard_block blk p =
      if leb (height blk) p.latest_valid_height
      then err old_block
      else (if has_height (height blk) p.pool then err duplicate_block else do
        kept ←
            make_room max_valid_shard_blk_in_pool max_pending_shard_blk_in_pool
              p.latest_valid_height (height blk) p.pool
        ok (update_latest_shard_state (record p { pool = sort (kept ++ blk ∷ []) })))

  pub get_valid_block : ShardPool B → List B
  unfolding take_up_to
  get_valid_block p = take_up_to p.latest_valid_height p.pool

  pub get_valid_block_hash : ShardPool B → List ℕ
  unfolding get_valid_block
  get_valid_block_hash p = map b.block_hash (get_valid_block p)

  pub get_valid_block_height : ShardPool B → List ℕ
  unfolding get_valid_block
  get_valid_block_height p = map height (get_valid_block p)

  pub get_latest_valid_block_height : ShardPool B → ℕ
  unfolding get_valid_block last_height
  get_latest_valid_block_height p = last_height 0 (get_valid_block p)

  pub get_all_block_height : ShardPool B → List ℕ
  get_all_block_height p = map height p.pool
