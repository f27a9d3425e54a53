-- ===== src/Blockchain/CrossShard/Block.antt =====
-- blockchain/shardutils.go, shardblock.go and shardcross_process.go: the hashes of what goes to each
-- shard, and the blocks that carry it.
use cash_prototype.Base.{
  ℕ, zero, suc, ◌+◌, Bool, true, false, ◌&&◌, not, Option, none, some, List, [], ◌∷◌, ◌++◌, map,
  flatten, ◌==◌, if◌then◌else◌, Outcome, done, panic, or_else,
}
use cash_prototype.Base.{Result, ok, err, any, retain}
use cash_prototype.Common.Bytes.{Bytes, bytes_eq}
use cash_prototype.Transaction.{normal, salary, custom_token, custom_token_privacy, other_type}
use cash_prototype.Blockchain.CrossShard.{
  OutputCoin, TokenData, ShardTx, TokenMap, Groups, no_groups, group_txs, proof_coins,
  get_shard_id_from_last_byte, get_out_coin_cross_shard, get_tx_token_data_cross_shard,
  sorted_values,
}
use cash_prototype.Blockchain.CrossShard.Tree.{verify_merkle_tree, get_merkle_path_cross_shard}

-- The fields of the header that the code compares or copies.
pub record ShardHeader : Type 0 where
  pub shard_id : ℕ
  pub shard_tx_root : Bytes

pub record ShardBlock : Type 0 where
  pub header : ShardHeader
  pub transactions : List ShardTx

pub record CrossShardBlock : Type 0 where
  pub header : ShardHeader
  pub to_shard_id : ℕ
  pub merkle_path_shard : List Bytes
  pub cross_output_coin : List OutputCoin
  pub cross_tx_token_data : List TokenData

pub data CrossShardBlockError : Type 0 where
  nothing_to_send root_mismatch : CrossShardBlockError

abbrev pub is_empty : {A : Type 0} → List A → Bool
is_empty [] = true
is_empty (x ∷ xs) = false

-- The shards' ids, below common.MAX_SHARD_NUMBER.
abbrev pub all_shards : List ℕ
all_shards = 0 ∷ 1 ∷ 2 ∷ 3 ∷ []

-- `token_hash` is the hash of the text of token data, and `hash_h` that of bytes.
module _ (hash_h : Bytes → Bytes) (token_hash : TokenData → Bytes) where
  -- calHashOutCoinCrossShard
  unfoldable pub cal_hash_out_coin_cross_shard : List OutputCoin → Bytes
  cal_hash_out_coin_cross_shard [] = hash_h []
  cal_hash_out_coin_cross_shard (c ∷ cs) = hash_h (flatten (map (λ d. d.bytes) (c ∷ cs)))

  -- calHashTxTokenDataHashList
  unfoldable pub cal_hash_tx_token_data_hash_list : List TokenData → Bytes
  cal_hash_tx_token_data_hash_list ts = hash_h (flatten (map token_hash ts))

  -- calHashTxTokenDataHashFromMap
  unfoldable pub cal_hash_tx_token_data_hash_from_map : TokenMap → Bytes
  cal_hash_tx_token_data_hash_from_map [] = hash_h []
  cal_hash_tx_token_data_hash_from_map (e ∷ m) =
      cal_hash_tx_token_data_hash_list (sorted_values (e ∷ m))

  -- The hash of a shard's coins and token data.
  unfoldable pub combined_hash : Groups → ℕ → Bytes
  combined_hash g s = hash_h (
      cal_hash_out_coin_cross_shard (g.out_coin_each_shard s)
      ++ cal_hash_tx_token_data_hash_from_map (g.tx_token_data_each_shard s))

  -- getCrossShardDataHash
  unfoldable pub get_cross_shard_data_hash : List ShardTx → List Bytes
  get_cross_shard_data_hash txs = map (combined_hash (group_txs txs no_groups)) all_shards

  -- VerifyCrossShardBlockUTXO, with the path of the block
  unfoldable pub verify_cross_shard_block_utxo : CrossShardBlock → Bool
  verify_cross_shard_block_utxo b =
      verify_merkle_tree hash_h
        (hash_h (
          cal_hash_out_coin_cross_shard b.cross_output_coin
          ++ cal_hash_tx_token_data_hash_list b.cross_tx_token_data))
        b.merkle_path_shard b.header.shard_tx_root b.to_shard_id

  -- What CreateCrossShardBlock returns for a path and a root.
  unfoldable pub with_path :
      ShardBlock → ℕ → List Bytes × Bytes → Result CrossShardBlockError CrossShardBlock
  with_path b shard_id (path, root) =
      if bytes_eq root b.header.shard_tx_root
      then ok (record {
        header = b.header;
        to_shard_id = shard_id;
        merkle_path_shard = path;
        cross_output_coin = get_out_coin_cross_shard b.transactions shard_id;
        cross_tx_token_data = get_tx_token_data_cross_shard b.transactions shard_id;
      })
      else err root_mismatch

  -- CreateCrossShardBlock
  unfoldable pub create_cross_shard_block :
      ShardBlock → ℕ → Option (Outcome (Result CrossShardBlockError CrossShardBlock))
  create_cross_shard_block b shard_id =
      let path =
        get_merkle_path_cross_shard hash_h (get_cross_shard_data_hash b.transactions) shard_id in
      if is_empty (get_out_coin_cross_shard b.transactions shard_id)
        && is_empty (get_tx_token_data_cross_shard b.transactions shard_id)
      then some (done (err nothing_to_send))
      else elim path [
        | none ↦ none
        | some panic ↦ some panic
        | some (done p) ↦ some (done (with_path b shard_id p))
      ]

  -- CreateAllCrossShardBlock, from shard `i` on for the given number of shards: the blocks by the
  -- shard they go to.
  unfoldable pub create_from : ℕ → ℕ → ShardBlock → Option (Outcome (List (ℕ × CrossShardBlock)))
  create_from zero i b = some (done [])
  create_from (suc n) i b =
      let rest = create_from n (i + 1) b in
      if i == b.header.shard_id then rest else elim (create_cross_shard_block b i) [
        | none ↦ none
        | some panic ↦ some panic
        | some (done (err e)) ↦ rest
        | some (done (ok block)) ↦ elim rest [
          | none ↦ none
          | some panic ↦ some panic
          | some (done blocks) ↦ some (done ((i, block) ∷ blocks))
        ]
      ]

  unfoldable pub create_all_cross_shard_block :
      ℕ → ShardBlock → Option (Outcome (List (ℕ × CrossShardBlock)))
  unfolding create_from
  create_all_cross_shard_block active_shards b =
      if active_shards == 1 then some (done []) else create_from active_shards 0 b

-- The shards that CreateCrossShardByteArray marks for a transaction.
unfoldable pub goes_to : ShardTx → ℕ → Bool
goes_to tx s = elim tx.tx_type [
  | normal ↦ any (λ c. get_shard_id_from_last_byte c.last_byte == s) (proof_coins tx)
  | salary ↦ any (λ c. get_shard_id_from_last_byte c.last_byte == s) (proof_coins tx)
  | custom_token ↦ any (λ v. get_shard_id_from_last_byte v.last_byte == s) tx.token_data.vouts
  | custom_token_privacy ↦
      any (λ c. get_shard_id_from_last_byte c.last_byte == s) (or_else [] tx.inner_coins)
  | other_type ↦ false
]

-- CreateCrossShardByteArray
unfoldable pub create_cross_shard_byte_array : List ShardTx → ℕ → List ℕ
unfolding goes_to
create_cross_shard_byte_array txs from_shard_id =
    retain (λ s. any (λ tx. goes_to tx s) txs && not (s == from_shard_id)) all_shards
