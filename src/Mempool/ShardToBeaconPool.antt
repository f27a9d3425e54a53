-- ===== src/Mempool/ShardToBeaconPool.antt =====
-- mempool/shard_to_beacon_pool_v2.go: for each shard the blocks that it reports to the beacon chain.
-- A map is its lookup function: a shard without a slice is `none` in the pool, and a height that was
-- never set reads 0. The loops over a map treat each shard by itself, so their order does not matter.
pub mod Invariant
pub mod Adding
pub mod Reading
mod Tests
use mathlib.Core.Option
use cash_prototype.Base.{
  ℕ, ◌+◌, Bool, true, false, ◌&&◌, ◌||◌, not, Option, none, some, List, [], ◌∷◌, ◌++◌, map, ltb,
  leb, ◌==◌, if◌then◌else◌, Result, ok, err, add64, sub64, put, or_else,
}
use cash_prototype.Mempool.Heights.{
  Block, height, PoolError, old_block, duplicate_block, sort, has_height, make_room, advance,
  drop_up_to, last_height,
}

pub record ShardToBeaconPool (B : Type 0) : Type 0 where
  pub pool : ℕ → Option (List B)
  pub latest_valid_height : ℕ → ℕ

abbrev pub max_valid_shard_to_beacon_blk_in_pool : ℕ
max_valid_shard_to_beacon_blk_in_pool = 1000

abbrev pub max_invalid_shard_to_beacon_blk_in_pool : ℕ
max_invalid_shard_to_beacon_blk_in_pool = 200

-- `if latestValidHeight[shardID] == 0 { latestValidHeight[shardID] = 1 }`
abbrev pub at_least_one : ℕ → ℕ
at_least_one n = if n == 0 then 1 else n

-- The heights of the argument, which the code also raises to 1 in the caller's map.
abbrev pub raised : (ℕ → Option ℕ) → ℕ → Option ℕ
raised state s = Option.map (λ h. if ltb h 1 then 1 else h) (state s)

module _ {B : Type 0} ⦃b : Block B⦄ where
  -- `self.pool[shardID]` as it is read.
  abbrev pub blocks : ShardToBeaconPool B → ℕ → List B
  blocks p s = or_else [] (p.pool s)

  pub get_shard_to_beacon_pool : ShardToBeaconPool B
  get_shard_to_beacon_pool = record { pool = λ s. none; latest_valid_height = λ s. 0 }

  pub get_shard_state : ShardToBeaconPool B → ℕ → ℕ
  get_shard_state p = p.latest_valid_height

  -- One round of the loop: the shard's slice, if it has one, and its latest valid height.
  abbrev pub advance_shard : Option (List B) → ℕ → ℕ
  advance_shard none h = h
  advance_shard (some xs) h = advance (at_least_one h) xs

  pub update_latest_shard_state : ShardToBeaconPool B → ShardToBeaconPool B
  unfolding advance
  update_latest_shard_state p = record p {
    latest_valid_height = λ s. advance_shard (p.pool s) (p.latest_valid_height s);
  }

  -- One round of the loop: the height to remove up to, if the shard has one, and its slice.
  abbrev pub remove_shard : Option ℕ → Option (List B) → Option (List B)
  remove_shard none xs = xs
  remove_shard (some h) none = none
  remove_shard (some h) (some xs) = some (drop_up_to h xs)

  pub remove_pending_block : (ℕ → Option ℕ) → ShardToBeaconPool B → ShardToBeaconPool B
  unfolding drop_up_to
  remove_pending_block items p = record p { pool = λ s. remove_shard (items s) (p.pool s) }

  pub set_shard_state : (ℕ → Option ℕ) → ShardToBeaconPool B → ShardToBeaconPool B
  unfolding update_latest_shard_state remove_pending_block
  set_shard_state state p =
      let heights = λ (s : ℕ). or_else (p.latest_valid_height s) (raised state s) in
      update_latest_shard_state
        (remove_pending_block (raised state) (record p { latest_valid_height = heights }))

  pub init_shard_to_beacon_pool : (ℕ → Option ℕ) → ShardToBeaconPool B
  unfolding set_shard_state get_shard_to_beacon_pool
  init_shard_to_beacon_pool best = set_shard_state best get_shard_to_beacon_pool

  -- The heights to ask the shard for. The slice has the new block, so it is not empty.
  pub requested : ℕ → List B → ℕ × ℕ
  requested latest [] = (0, 0)
  requested latest (x ∷ xs) =
      if ltb latest (height x)
      then (let gap = sub64 (height x) latest in
          let offset =
            if ltb max_valid_shard_to_beacon_blk_in_pool gap
            then max_valid_shard_to_beacon_blk_in_pool
            else gap in
          (add64 latest 1, add64 latest offset))
      else (0, 0)

  -- A call that fails may still have set the shard's height from 0 to 1.
  abbrev pub touch : ℕ → ShardToBeaconPool B → ShardToBeaconPool B
  touch s p = record p {
    latest_valid_height = put s (at_least_one (p.latest_valid_height s)) p.latest_valid_height;
  }

  -- The checks, with the part of the shard's slice that is kept.
  pub check : B → ℕ → List B → Result PoolError (List B)
  unfolding has_height make_room
  check blk latest xs =
      if leb (height blk) latest
      then err old_block
      else (if has_height (height blk) xs
          then err duplicate_block
          else make_room max_valid_shard_to_beacon_blk_in_pool
              max_invalid_shard_to_beacon_blk_in_pool latest (height blk) xs)

  pub insert_block : B → ℕ → List B → ShardToBeaconPool B → ShardToBeaconPool B
  unfolding sort update_latest_shard_state
  insert_block blk s kept p =
      update_latest_shard_state (record p { pool = put s (some (sort (kept ++ blk ∷ []))) p.pool })

  -- What follows the checks.
  pub finish_add :
      B
      → ℕ
      → ShardToBeaconPool B
      → Result PoolError (List B)
      → ShardToBeaconPool B × Result PoolError (ℕ × ℕ)
  unfolding insert_block requested
  finish_add blk s p (err e) = (p, err e)
  finish_add blk s p (ok kept) =
      let q = insert_block blk s kept p in
      (q, ok (requested (q.latest_valid_height s) (blocks q s)))

  -- `shard_of` is `blk.Header.ShardID`.
  pub add_shard_to_beacon_block :
      (B → ℕ) → B → ShardToBeaconPool B → ShardToBeaconPool B × Result PoolError (ℕ × ℕ)
  unfolding check finish_add
  add_shard_to_beacon_block shard_of blk p =
      let s = shard_of blk in
      let q = touch s p in finish_add blk s q (check blk (q.latest_valid_height s) (blocks q s))

  -- The loop over a shard's blocks, with the limit of the caller's map for it (0 for none).
  pub take_valid : ℕ → ℕ → List B → List B
  take_valid latest limit [] = []
  take_valid latest limit (x ∷ xs) =
      if ltb latest (height x)
      then []
      else (if not (limit == 0) && ltb limit (height x) then [] else x ∷ take_valid latest limit xs)

  -- `none` is the nil map. The heights of the shards that have a slice are raised to 1.
  pub get_valid_pending_block :
      Option (ℕ → ℕ) → ShardToBeaconPool B → ShardToBeaconPool B × (ℕ → List B)
  unfolding take_valid
  get_valid_pending_block limit p =
      let q = record p {
        latest_valid_height = λ s. elim (p.pool s) [
          | none ↦ p.latest_valid_height s
          | some xs ↦ at_least_one (p.latest_valid_height s)
        ];
      } in
      (q, λ s. take_valid (q.latest_valid_height s) (or_else (λ s. 0) limit s) (blocks p s))

  pub get_valid_pending_block_hash : ShardToBeaconPool B → ℕ → List ℕ
  unfolding get_valid_pending_block
  get_valid_pending_block_hash p s = map b.block_hash ((get_valid_pending_block none p).1 s)

  pub get_valid_pending_block_height : ShardToBeaconPool B → ℕ → List ℕ
  unfolding get_valid_pending_block
  get_valid_pending_block_height p s = map height ((get_valid_pending_block none p).1 s)

  pub get_latest_valid_pending_block_height : ShardToBeaconPool B → ℕ → ℕ
  unfolding get_valid_pending_block last_height
  get_latest_valid_pending_block_height p s = last_height 0 ((get_valid_pending_block none p).1 s)

  pub get_all_pending_block_height : ShardToBeaconPool B → ℕ → List ℕ
  get_all_pending_block_height p s = map height (blocks p s)
