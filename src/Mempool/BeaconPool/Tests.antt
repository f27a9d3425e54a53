-- ===== src/Mempool/BeaconPool/Tests.antt =====
-- beacon_pool.go: runs of the pool, and its theorems at concrete inputs.
use cash_prototype.Mempool.BeaconPool.Contents.{add_beacon_block-contents}
use cash_prototype.Mempool.Heights.Room.{Leaves}
use cash_prototype.Mempool.BeaconPool.Invariant.{IsValid}
use cash_prototype.Mempool.BeaconPool.Calls.{run, Call, adds, run-get_beacon_pool-IsValid}
use cash_prototype.Mempool.BeaconPool.{
  get_all_block_height, add_beacon_block, BeaconPool, get_beacon_pool, set_beacon_state,
  get_valid_block_height,
}
use cash_prototype.Mempool.Heights.{Block}
use cash_prototype.Base.{ℕ, List, [], ◌∷◌, ◌≡◌, refl, arith, ◌≤◌, ok, Perm}

-- A block that is its height, and its own hash.
instance abbrev number_block : Block ℕ
number_block = record { block_height = λ n. n; block_hash = λ n. n }

abbrev some_calls : List (Call ℕ)
some_calls = adds 2 ∷ adds 5 ∷ adds 3 ∷ adds 3 ∷ []

abbrev some_pool : BeaconPool ℕ
some_pool = record { pool = 2 ∷ 3 ∷ 5 ∷ []; latest_valid_height = 3 }

abbrev filled_pool : BeaconPool ℕ
filled_pool = record { pool = 2 ∷ 3 ∷ 4 ∷ 5 ∷ []; latest_valid_height = 5 }

abbrev far_pool : BeaconPool ℕ
far_pool = record { pool = 300 ∷ []; latest_valid_height = 1 }

some_calls-run : run get_beacon_pool some_calls ≡ some_pool
unfolding run get_beacon_pool add_beacon_block
some_calls-run = refl

two_to_five :
    get_valid_block_height (run get_beacon_pool (adds 4 ∷ some_calls)) ≡ 2 ∷ 3 ∷ 4 ∷ 5 ∷ []
unfolding run get_beacon_pool add_beacon_block get_valid_block_height
two_to_five = refl

state_set : get_all_block_height (set_beacon_state 4 some_pool) ≡ 5 ∷ []
unfolding get_all_block_height set_beacon_state
state_set = refl

some_pool-IsValid : IsValid some_pool
some_pool-IsValid = omega arith

four_added : add_beacon_block 4 some_pool ≡ ok filled_pool
unfolding add_beacon_block
four_added = refl

run-get_beacon_pool-IsValid_example : IsValid (run get_beacon_pool some_calls)
run-get_beacon_pool-IsValid_example = run-get_beacon_pool-IsValid some_calls (omega arith)

add_beacon_block-contents_example :
    (kept : List ℕ) × Leaves 4 some_pool.pool kept
    × Perm filled_pool.pool (4 ∷ kept)
    × (some_pool.latest_valid_height ≤ filled_pool.latest_valid_height)
add_beacon_block-contents_example =
    add_beacon_block-contents 4 some_pool filled_pool some_pool-IsValid (omega arith) four_added
