-- ===== src/Mempool/CrossShardPool.antt =====
-- mempool/cross_shard_pool_v2.go: the cross-shard blocks that other shards send to this one.
-- A map is its lookup function: a shard without a slice is `none`, a height that is not there reads 0.
pub mod Update
pub mod Slices
pub mod Stores
pub mod Adding
mod Tests
use mathlib.Core.Option
use cash_prototype.Base.{
  ℕ, ◌+◌, Bool, true, false, ◌&&◌, ◌||◌, not, Option, none, some, List, [], ◌∷◌, ◌++◌, map, ltb,
  leb, ◌==◌, if◌then◌else◌, Result, ok, err, put, or_else, take, drop, length, ◌>>=◌,
}
use cash_prototype.Mempool.Heights.{Block, height, sort, has_height, drop_up_to, take_up_to}

pub data CrossShardError : Type 0 where
  wrong_shard old_block duplicate_block no_committee bad_committee max_pending : CrossShardError

pub record CrossShardPool (B : Type 0) : Type 0 where
  pub shard_id : ℕ
  pub valid_pool : ℕ → Option (List B)
  pub pending_pool : ℕ → Option (List B)
  pub cross_shard_state : ℕ → ℕ

-- The rest of a block's header: its own shard, the shard that it is for, and the epoch.
pub record CrossHeader (B : Type 0) : Type 0 where
  pub from_shard : B → ℕ
  pub to_shard : B → ℕ
  pub epoch : B → ℕ

-- What the pool reads from the database: the next height from a shard to a shard after a height
-- (`none` for an error), and the committees of an epoch.
pub record Database : Type 0 where
  pub fetch_cross_shard_next_height : ℕ → ℕ → ℕ → Option ℕ
  pub fetch_committee_by_epoch : ℕ → Result CrossShardError (ℕ → List ℕ)

abbrev pub max_pending_cross_shard_in_pool : ℕ
max_pending_cross_shard_in_pool = 100

-- ValidateAggSignature of blockchain/multisigs.go returns nil before it checks anything.
pub validate_agg_signature : {B : Type 0} → B → List ℕ → Result CrossShardError (Unit {0})
validate_agg_signature blk committee = ok tt

-- A new pool of a shard.
pub get_cross_shard_pool : {B : Type 0} → ℕ → CrossShardPool B
get_cross_shard_pool shard = record {
  shard_id = shard;
  valid_pool = λ s. none;
  pending_pool = λ s. none;
  cross_shard_state = λ s. 0;
}

pub get_next_cross_shard_height : Database → ℕ → ℕ → ℕ → ℕ
get_next_cross_shard_height db from to start =
    or_else 0 (db.fetch_cross_shard_next_height from to start)

-- StoreCrossShardNextHeight
pub store_cross_shard_next_height : ℕ → ℕ → ℕ → ℕ → Database → Database
store_cross_shard_next_height from to cur_height next_height db = record db {
  fetch_cross_shard_next_height = λ f t h.
      if f == from && t == to && h == cur_height
      then some next_height
      else db.fetch_cross_shard_next_height f t h;
}

-- What the beacon chain knows of cross-shard blocks: the database, and the height of the last one
-- from a shard to a shard (LastCrossShardState).
pub record BeaconChain : Type 0 where
  pub database : Database
  pub last_cross_shard_state : ℕ → ℕ → ℕ

-- For a shard block of the height `wait_height` and one of the shards that it is marked for, the
-- body of the loop of InsertBeaconBlock. The errors of the two writes, which the code ignores, are left
-- out.
pub store_cross_shard : ℕ → ℕ → ℕ → BeaconChain → BeaconChain
unfolding store_cross_shard_next_height
store_cross_shard from_shard to_shard wait_height c =
    if from_shard == to_shard
    then c
    else (let last_height = c.last_cross_shard_state from_shard to_shard in
        let linked =
          store_cross_shard_next_height from_shard to_shard last_height wait_height c.database in
        record {
          database = store_cross_shard_next_height from_shard to_shard wait_height 0 linked;
          last_cross_shard_state =
              put from_shard (put to_shard wait_height (c.last_cross_shard_state from_shard))
                c.last_cross_shard_state;
        })

module _ {B : Type 0} ⦃b : Block B⦄ where
  abbrev pub valid_blocks : CrossShardPool B → ℕ → List B
  valid_blocks p s = or_else [] (p.valid_pool s)

  abbrev pub pending_blocks : CrossShardPool B → ℕ → List B
  pending_blocks p s = or_else [] (p.pending_pool s)

  -- The two loops, over each map.
  pub remove_block_by_height : (ℕ → ℕ) → CrossShardPool B → CrossShardPool B
  unfolding drop_up_to
  remove_block_by_height since p = record p {
    valid_pool = λ s. Option.map (drop_up_to (since s)) (p.valid_pool s);
    pending_pool = λ s. Option.map (drop_up_to (since s)) (p.pending_pool s);
  }

  -- The loop over a shard's pending blocks: how many of them are next, and the height that is
  -- expected where the loop breaks. The start height is the same in every round.
  pub count_ready : ℕ → List B → ℕ × Option ℕ
  count_ready wait [] = (0, none)
  count_ready wait (x ∷ xs) =
      let rest = count_ready wait xs in
      if wait == height x then (rest.0 + 1, rest.1) else (0, some wait)

  -- One round of updatePool's loop, on a shard's pending and valid slices.
  pub promote : ℕ → Option (List B) → Option (List B) → Option (List B) × Option (List B)
  unfolding count_ready
  promote wait valid none = (valid, none)
  promote wait valid (some blks) =
      let index = (count_ready wait blks).0 in
      if ltb 0 index
      then (some (or_else [] valid ++ take index blks), some (drop index blks))
      else (valid, some blks)

  pub expected : ℕ → Option (List B) → Option ℕ
  unfolding count_ready
  expected wait none = none
  expected wait (some blks) = (count_ready wait blks).1

  -- `best` is the cross-shard state of the shard's best state, read at the call.
  pub update_pool : Database → (ℕ → ℕ) → CrossShardPool B → CrossShardPool B × (ℕ → Option ℕ)
  unfolding remove_block_by_height promote expected get_next_cross_shard_height
  update_pool db best p =
      let q = remove_block_by_height best (record p { cross_shard_state = best }) in
      let wait = λ (s : ℕ). get_next_cross_shard_height db s q.shard_id (best s) in
      let moved = λ (s : ℕ). promote (wait s) (q.valid_pool s) (q.pending_pool s) in
      (
        record q { valid_pool = λ s. (moved s).0; pending_pool = λ s. (moved s).1 },
        λ s. expected (wait s) (q.pending_pool s),
      )

  -- The checks of AddCrossShardBlock.
  pub check : CrossHeader B → Database → B → CrossShardPool B → Result CrossShardError (Unit {0})
  unfolding has_height validate_agg_signature
  check hd db blk p =
      let s = hd.from_shard blk in
      let h = height blk in
      if not (hd.to_shard blk == p.shard_id)
      then err wrong_shard
      else (if leb h (p.cross_shard_state s)
          then err old_block
          else (if has_height h (valid_blocks p s)
              then err duplicate_block
              else (if has_height h (pending_blocks p s) then err duplicate_block else do
                committees ← db.fetch_committee_by_epoch (hd.epoch blk)
                checked ← validate_agg_signature blk (committees s)
                if ltb max_pending_cross_shard_in_pool (length (pending_blocks p s))
                    then err max_pending
                    else ok tt)))

  pub insert_pending : B → ℕ → CrossShardPool B → CrossShardPool B
  unfolding sort
  insert_pending blk s p = record p {
    pending_pool = put s (some (sort (pending_blocks p s ++ blk ∷ []))) p.pending_pool;
  }

  -- The expected heights come with the pool's shard.
  pub add_cross_shard_block :
      CrossHeader B
      → Database
      → (ℕ → ℕ)
      → B
      → CrossShardPool B
      → Result CrossShardError (CrossShardPool B × (ℕ → Option ℕ) × ℕ)
  unfolding check insert_pending update_pool
  add_cross_shard_block hd db best blk p = do
    checked ← check hd db blk p
    let r = update_pool db best (insert_pending blk (hd.from_shard blk) p)
    ok (r.0, r.1, p.shard_id)

  -- The loop over a shard's valid blocks, with the limit of the caller's map for it (0 for none).
  pub take_limited : ℕ → List B → List B
  take_limited limit [] = []
  take_limited limit (x ∷ xs) =
      if not (limit == 0) && ltb limit (height x) then [] else x ∷ take_limited limit xs

  -- `none` is the nil map.
  pub get_valid_block : Option (ℕ → ℕ) → CrossShardPool B → ℕ → List B
  unfolding take_limited
  get_valid_block limit p s = take_limited (or_else (λ s. 0) limit s) (valid_blocks p s)

  pub get_valid_block_hash : CrossShardPool B → ℕ → List ℕ
  get_valid_block_hash p s = map b.block_hash (valid_blocks p s)

  pub get_valid_block_height : CrossShardPool B → ℕ → List ℕ
  get_valid_block_height p s = map height (valid_blocks p s)

  pub get_pending_block_height : CrossShardPool B → ℕ → List ℕ
  get_pending_block_height p s = map height (pending_blocks p s)

  pub get_all_block_height : CrossShardPool B → ℕ → List ℕ
  get_all_block_height p s = map height (valid_blocks p s) ++ map height (pending_blocks p s)

  -- The height of the last valid block; the map has 0 for an empty slice.
  pub last_or_zero : List B → ℕ
  last_or_zero [] = 0
  last_or_zero (x ∷ []) = height x
  last_or_zero (x ∷ y ∷ ys) = last_or_zero (y ∷ ys)

  pub get_latest_valid_block_height : CrossShardPool B → ℕ → Option ℕ
  unfolding last_or_zero
  get_latest_valid_block_height p s = Option.map last_or_zero (p.valid_pool s)
