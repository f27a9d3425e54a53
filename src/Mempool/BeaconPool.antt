-- ===== src/Mempool/BeaconPool.antt =====
-- mempool/beacon_pool.go: the beacon blocks that are not yet in the chain.
-- A method returns the pool that it leaves; a block is any type with a height and a hash.
pub mod Invariant
pub mod Calls
pub mod Contents
mod Tests
use cash_prototype.Base.{
  ℕ, Bool, List, [], ◌∷◌, ◌++◌, map, ltb, leb, if◌then◌else◌, Result, ok, err, ◌>>=◌,
}
use cash_prototype.Mempool.Heights.{
  Block, height, PoolError, old_block, duplicate_block, sort, has_height, make_room, advance,
  drop_up_to, take_up_to, last_height,
}

pub record BeaconPool (B : Type 0) : Type 0 where
  pub pool : List B
  pub latest_valid_height : ℕ

abbrev pub max_valid_beacon_blk_in_pool : ℕ
max_valid_beacon_blk_in_pool = 1000

abbrev pub max_invalid_beacon_blk_in_pool : ℕ
max_invalid_beacon_blk_in_pool = 200

module _ {B : Type 0} ⦃b : Block B⦄ where
  pub update_latest_beacon_state : BeaconPool B → BeaconPool B
  unfolding advance
  update_latest_beacon_state p = record p {
    latest_valid_height = advance p.latest_valid_height p.pool;
  }

  pub remove_block : ℕ → BeaconPool B → BeaconPool B
  unfolding drop_up_to
  remove_block h p = record p { pool = drop_up_to h p.pool }

  pub set_beacon_state : ℕ → BeaconPool B → BeaconPool B
  unfolding update_latest_beacon_state remove_block
  set_beacon_state h p =
      update_latest_beacon_state (remove_block h (record p { latest_valid_height = h }))

  pub get_beacon_state : BeaconPool B → ℕ
  get_beacon_state p = p.latest_valid_height

  -- The pool before any call.
  pub get_beacon_pool : BeaconPool B
  get_beacon_pool = record { pool = []; latest_valid_height = 1 }

  -- With the height of the best beacon state.
  pub init_beacon_pool : ℕ → BeaconPool B
  unfolding set_beacon_state get_beacon_pool
  init_beacon_pool best = set_beacon_state best get_beacon_pool

  pub add_beacon_block : B → BeaconPool B → Result PoolError (BeaconPool B)
  unfolding sort has_height make_room update_latest_beacon_state
  add_beacon_block blk p =
      if leb (height blk) p.latest_valid_height
      then err old_block
      else (if has_height (height blk) p.pool then err duplicate_block else do
        kept ←
            make_room max_valid_beacon_blk_in_pool max_invalid_beacon_blk_in_pool
              p.latest_valid_height (height blk) p.pool
        ok (update_latest_beacon_state (record p { pool = sort (kept ++ blk ∷ []) })))

  pub get_valid_block : BeaconPool B → List B
  unfolding take_up_to
  get_valid_block p = take_up_to p.latest_valid_height p.pool

  pub get_valid_block_hash : BeaconPool B → List ℕ
  unfolding get_valid_block
  get_valid_block_hash p = map b.block_hash (get_valid_block p)

  pub get_valid_block_height : BeaconPool B → List ℕ
  unfolding get_valid_block
  get_valid_block_height p = map height (get_valid_block p)

  pub get_latest_valid_block_height : BeaconPool B → ℕ
  unfolding get_valid_block last_height
  get_latest_valid_block_height p = last_height 0 (get_valid_block p)

  pub get_all_block_height : BeaconPool B → List ℕ
  get_all_block_height p = map height p.pool
