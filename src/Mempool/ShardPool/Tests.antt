-- ===== src/Mempool/ShardPool/Tests.antt =====
-- shard_pool.go: runs of the pool, and its theorems at concrete inputs.
use cash_prototype.Mempool.Heights.Runs.{up_from}
use cash_prototype.Mempool.Heights.{Block, Above}
use cash_prototype.Mempool.ShardPool.{
  ShardPool, get_valid_block_height, get_shard_pool, add_shard_block, set_shard_state,
}
use cash_prototype.Mempool.ShardPool.Invariant.{
  Call, adds, run, IsValid, run-get_shard_pool-consecutive,
}
use cash_prototype.Base.{ℕ, List, [], ◌∷◌, ◌≡◌, refl, arith, ok, ◌≤◌, ◌+◌, ◌-◌}

instance abbrev number_block : Block ℕ
number_block = record { block_height = λ n. n; block_hash = λ n. n }

abbrev some_calls : List (Call ℕ)
some_calls = adds 5 ∷ adds 3 ∷ adds 2 ∷ []

abbrev some_pool : ShardPool ℕ
some_pool = record { pool = 2 ∷ 3 ∷ 5 ∷ []; shard_id = 0; latest_valid_height = 3 }

abbrev stuck_pool : ShardPool ℕ
stuck_pool = record { pool = 2 ∷ 3 ∷ 4 ∷ 5 ∷ []; shard_id = 0; latest_valid_height = 3 }

some_calls-run : run (get_shard_pool 0) some_calls ≡ some_pool
unfolding run get_shard_pool add_shard_block
some_calls-run = refl

-- The next block does not move the latest valid height, but setting the state does.
four_added : add_shard_block 4 some_pool ≡ ok stuck_pool
unfolding add_shard_block
four_added = refl

state_set : (set_shard_state 3 stuck_pool).latest_valid_height ≡ 5
unfolding set_shard_state
state_set = refl

some_pool-IsValid : IsValid some_pool
some_pool-IsValid = omega arith

run-get_shard_pool-consecutive_example :
    Above 0 (run (get_shard_pool 0) some_calls).pool
    × ((k : ℕ) × (k ≤ (run (get_shard_pool 0) some_calls).latest_valid_height + 1)
        × (get_valid_block_height (run (get_shard_pool 0) some_calls)
            ≡ up_from ((run (get_shard_pool 0) some_calls).latest_valid_height + 1 - k) k))
run-get_shard_pool-consecutive_example = run-get_shard_pool-consecutive 0 some_calls (omega arith)
