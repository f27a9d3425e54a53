-- ===== src/Blockchain/CrossShard/Tests.antt =====
-- Merkle trees and cross-shard blocks at concrete inputs, and their theorems. The hash keeps the
-- first 32 bytes.
use mathlib.Core.List.{Memᴰ}
use cash_prototype.Base.{
  ◌↔◌, ◌≢◌, inl, ℕ, zero, suc, ◌*◌, ◌≤◌, ◌<◌, ◌≡◌, refl, ◌⊎◌, true, false, none, some, List, [],
  ◌∷◌, map, flatten, arith, length, done,
}
use cash_prototype.Base.{Result, ok}
use cash_prototype.Common.Bytes.{Bytes, bytes_eq}
use cash_prototype.Transaction.{normal, custom_token}
use cash_prototype.Blockchain.Merkle.{
  calc_merkle_root, build_merkle_tree_of_hashes, last_node, hash_merkle_branches,
}
use cash_prototype.Blockchain.Merkle.Rounds.{two_to, tree}
use cash_prototype.Blockchain.Merkle.Root.{
  leaves, calc_merkle_root-tree, build_merkle_tree_of_hashes-four,
}
use cash_prototype.Blockchain.CrossShard.{OutputCoin, TokenData, ShardTx, no_groups, group_txs}
use cash_prototype.Blockchain.CrossShard.Tree.{verify_merkle_tree, get_merkle_path_cross_shard}
use cash_prototype.Blockchain.CrossShard.Block.{
  ShardBlock, CrossShardBlock, CrossShardBlockError, create_cross_shard_block,
  verify_cross_shard_block_utxo, create_cross_shard_byte_array,
}
use cash_prototype.Blockchain.CrossShard.Paths.{
  root_of, Collision, get_merkle_path-verifies, verify_merkle_tree_unique,
}
use cash_prototype.Blockchain.CrossShard.Sending.{create_cross_shard_block-verifies}
use cash_prototype.Blockchain.CrossShard.Reaching.{Sends}
use cash_prototype.Blockchain.CrossShard.Marking.{
  create_cross_shard_byte_array_iff, get_out_coin-misses,
}

-- The first bytes of a list, filled up with zeros.
abbrev first_bytes : ℕ → Bytes → Bytes
first_bytes zero b = []
first_bytes (suc n) [] = 0 ∷ first_bytes n []
first_bytes (suc n) (x ∷ xs) = x ∷ first_bytes n xs

abbrev toy_hash : Bytes → Bytes
toy_hash b = first_bytes 32 b

length-first_bytes : (n : ℕ) (b : Bytes) → length (first_bytes n b) ≡ n
length-first_bytes zero b = refl
length-first_bytes (suc n) [] = omega (arith, length-first_bytes n [])
length-first_bytes (suc n) (x ∷ xs) = omega (arith, length-first_bytes n xs)

abbrev h1 : Bytes
h1 = toy_hash (1 ∷ [])

abbrev h2 : Bytes
h2 = toy_hash (2 ∷ [])

calc_merkle_root-tree_example :
    (root : Bytes) × (k : ℕ) × (calc_merkle_root toy_hash (h1 ∷ h2 ∷ h1 ∷ []) ≡ done root)
    × (3 ≤ two_to k)
    × (two_to k < 2 * 3)
    × (tree toy_hash k (leaves k (h1 ∷ h2 ∷ h1 ∷ [])) ≡ some root)
calc_merkle_root-tree_example = calc_merkle_root-tree toy_hash h1 (h2 ∷ h1 ∷ [])

build_merkle_tree_of_hashes-four_example :
    last_node (build_merkle_tree_of_hashes toy_hash (h1 ∷ h2 ∷ h1 ∷ h2 ∷ h1 ∷ []))
    ≡ some (
        hash_merkle_branches toy_hash
          (hash_merkle_branches toy_hash h1 h2)
          (hash_merkle_branches toy_hash h1 h2))
build_merkle_tree_of_hashes-four_example =
    build_merkle_tree_of_hashes-four toy_hash h1 h2 h1 h2 (h1 ∷ [])

get_merkle_path-verifies_example :
    (path : List Bytes) × (get_merkle_path_cross_shard toy_hash (h1 ∷ h2 ∷ h1 ∷ h2 ∷ []) 3
      ≡ some (done (path, root_of toy_hash h1 h2 h1 h2)))
    × (verify_merkle_tree toy_hash h2 path (root_of toy_hash h1 h2 h1 h2) 3 ≡ true)
    × (length path ≡ 2)
get_merkle_path-verifies_example = get_merkle_path-verifies toy_hash h1 h2 h1 h2 h2 3 refl

left_verified : verify_merkle_tree toy_hash h1 (h1 ∷ []) h1 1 ≡ true
unfolding verify_merkle_tree bytes_eq
left_verified = refl

other_verified : verify_merkle_tree toy_hash h2 (h1 ∷ []) h1 1 ≡ true
unfolding verify_merkle_tree bytes_eq
other_verified = refl

verify_merkle_tree_unique_example : (h1 ≡ h2) ⊎ Collision toy_hash
verify_merkle_tree_unique_example =
    verify_merkle_tree_unique toy_hash (λ x. length-first_bytes 32 x) (h1 ∷ []) (h1 ∷ []) 1 h1 h2 h1
      refl refl (refl, tt) (refl, tt) refl left_verified other_verified

abbrev some_tokens : TokenData
some_tokens = record {
  property_id = 9;
  property = [];
  is_cross_shard = false;
  vouts = record { last_byte = 6; value = 5 ∷ [] } ∷ record { last_byte = 2; value = 6 ∷ [] } ∷ [];
}

abbrev some_block : ShardBlock
some_block = record {
  header = record { shard_id = 0; shard_tx_root = toy_hash [] };
  transactions =
      record {
        tx_type = custom_token;
        coins = some (record { last_byte = 1; bytes = 3 ∷ [] } ∷ []);
        token_data = some_tokens;
        inner_coins = none;
      }
      ∷ record {
        tx_type = normal;
        coins = some (record { last_byte = 2; bytes = 4 ∷ [] } ∷ []);
        token_data = some_tokens;
        inner_coins = none;
      }
      ∷ [];
}

abbrev token_text : TokenData → Bytes
token_text t = toy_hash (flatten (map (λ v. v.value) t.vouts))

create_cross_shard_block-verifies_example :
    (r : Result CrossShardBlockError CrossShardBlock) × (create_cross_shard_block toy_hash
        token_text some_block 2
      ≡ some (done r))
    × ((c : CrossShardBlock)
        → r ≡ ok c
        → verify_cross_shard_block_utxo toy_hash token_text c ≡ true)
create_cross_shard_block-verifies_example =
    create_cross_shard_block-verifies toy_hash token_text some_block 2 (omega arith)
      (((omega arith, tt), λ e. cc), (((omega arith, tt), λ e. cc), tt))

create_cross_shard_byte_array_iff_example :
    Memᴰ 2 (create_cross_shard_byte_array some_block.transactions 0) ↔ (
      (2 < 4) × (◌≢◌ {A = ℕ} 2 0) × ((tx : ShardTx) × Memᴰ tx some_block.transactions × Sends tx 2))
create_cross_shard_byte_array_iff_example =
    create_cross_shard_byte_array_iff some_block.transactions 0 2

some_block_marked : create_cross_shard_byte_array some_block.transactions 0 ≡ 2 ∷ []
unfolding create_cross_shard_byte_array
some_block_marked = refl

abbrev far_coin : OutputCoin
far_coin = record { last_byte = 6; bytes = 3 ∷ [] }

abbrev far_tx : ShardTx
far_tx = record {
  tx_type = normal;
  coins = some (far_coin ∷ []);
  token_data = some_tokens;
  inner_coins = none;
}

abbrev far_block : ShardBlock
far_block = record some_block { transactions = far_tx ∷ some_block.transactions }

get_out_coin-misses_example :
    Memᴰ far_coin ((group_txs far_block.transactions no_groups).out_coin_each_shard 2)
    × (◌≢◌ {A = ℕ} 2 0 → Memᴰ 2 (create_cross_shard_byte_array far_block.transactions 0))
    × ((s : ℕ) (x : CrossShardBlock)
        → s < 4
        → create_cross_shard_block toy_hash token_text far_block s ≡ some (done (ok x))
        → ¬ Memᴰ far_coin x.cross_output_coin)
get_out_coin-misses_example =
    get_out_coin-misses toy_hash token_text far_block far_tx (far_coin ∷ []) far_coin
      (Memᴰ.head refl) (inl refl) refl (Memᴰ.head refl) (omega arith)
