-- ===== src/Mempool/ShardToBeaconPool/Tests.antt =====
-- shard_to_beacon_pool_v2.go: runs of the pool, and its theorems at concrete inputs.
use cash_prototype.Mempool.Heights.Runs.{up_from}
use cash_prototype.Mempool.ShardToBeaconPool.Adding.{}
use cash_prototype.Mempool.ShardToBeaconPool.Invariant.{IsValid, Fits}
use cash_prototype.Mempool.Heights.{Block}
use cash_prototype.Mempool.ShardToBeaconPool.{
  ShardToBeaconPool, get_shard_to_beacon_pool, get_valid_pending_block_height,
  add_shard_to_beacon_block,
}
use cash_prototype.Mempool.ShardToBeaconPool.Reading.{
  Call, adds, run, run-get_shard_to_beacon_pool-consecutive,
}
use cash_prototype.Base.{◌+◌, ℕ, List, [], ◌∷◌, ◌≡◌, refl, arith, ok, ◌%◌, ◌/◌, ◌≤◌, ◌-◌}

-- A block is its height and its shard: ten times the height, and the shard.
instance abbrev number_block : Block ℕ
number_block = record { block_height = λ n. n / 10; block_hash = λ n. n }

abbrev shard_of : ℕ → ℕ
shard_of n = n % 10

abbrev some_calls : List (Call ℕ)
some_calls = adds 21 ∷ adds 51 ∷ adds 31 ∷ adds 40 ∷ []

abbrev some_pool : ShardToBeaconPool ℕ
some_pool = run shard_of get_shard_to_beacon_pool some_calls

first_shard : get_valid_pending_block_height some_pool 1 ≡ 2 ∷ 3 ∷ []
unfolding run get_valid_pending_block_height get_shard_to_beacon_pool add_shard_to_beacon_block
first_shard = refl

-- Shard 0 is asked for the heights 2 to 4.
asked : (add_shard_to_beacon_block shard_of 50 some_pool).1 ≡ ok (2, 4)
unfolding run get_shard_to_beacon_pool add_shard_to_beacon_block
asked = refl

some_pool-IsValid : IsValid some_pool
some_pool-IsValid =
    λ s. (run-get_shard_to_beacon_pool-consecutive shard_of some_calls s (omega arith)).0

run-get_shard_to_beacon_pool-consecutive_example :
    Fits (some_pool.pool 1) (some_pool.latest_valid_height 1)
    × ((k : ℕ) × (k ≤ some_pool.latest_valid_height 1 + 1)
        × (get_valid_pending_block_height some_pool 1
            ≡ up_from (some_pool.latest_valid_height 1 + 1 - k) k))
run-get_shard_to_beacon_pool-consecutive_example =
    run-get_shard_to_beacon_pool-consecutive shard_of some_calls 1 (omega arith)

abbrev two_blocks : List ℕ
two_blocks = 40 ∷ 50 ∷ []

abbrev limits : ℕ → ℕ
limits s = 2
