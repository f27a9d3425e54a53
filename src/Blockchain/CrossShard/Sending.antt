-- ===== src/Blockchain/CrossShard/Sending.antt =====
-- The cross-shard blocks: a block that is made verifies where it arrives.
use cash_prototype.Base.{
  ℕ, zero, suc, ◌<◌, ◌≡◌, refl, ap, subst, ◌∙◌, inl, inr, Bool, true, false, ◌&&◌, some, List, [],
  ◌∷◌, ◌++◌, flatten, arith, if◌then◌else◌, Bool-cases, get_elem?, All, done,
}
use cash_prototype.Base.{Result, ok, err}
use cash_prototype.Common.Bytes.{Bytes, bytes_eq, bytes_eq_iff}
use cash_prototype.Blockchain.CrossShard.{
  TokenData, ShardTx, TokenMap, no_groups, group_txs, get_out_coin_cross_shard,
  get_tx_token_data_cross_shard, sorted_values, token_map,
}
use cash_prototype.Blockchain.CrossShard.Tree.{verify_merkle_tree}
use cash_prototype.Blockchain.CrossShard.Block.{
  ShardBlock, CrossShardBlock, CrossShardBlockError, nothing_to_send, is_empty,
  cal_hash_out_coin_cross_shard, cal_hash_tx_token_data_hash_list,
  cal_hash_tx_token_data_hash_from_map, combined_hash, get_cross_shard_data_hash,
  verify_cross_shard_block_utxo, with_path, create_cross_shard_block,
}
use cash_prototype.Blockchain.CrossShard.Grouping.{IsCovered, group_txs-tokens, group_txs-coins}
use cash_prototype.Blockchain.CrossShard.Paths.{root_of, get_merkle_path-verifies}

if_some :
    {A : Type 0} (b : Bool) (x y : A)
    → (if b then some (done x) else some (done y)) ≡ some (done (if b then x else y))
if_some true x y = refl
if_some false x y = refl

module _ (hash_h : Bytes → Bytes) (token_hash : TokenData → Bytes) where
  from_map-list :
      (m : TokenMap)
      → cal_hash_tx_token_data_hash_from_map hash_h token_hash m
        ≡ cal_hash_tx_token_data_hash_list hash_h token_hash (sorted_values m)
  unfolding cal_hash_tx_token_data_hash_from_map cal_hash_tx_token_data_hash_list sorted_values
      flatten
  from_map-list [] = refl
  from_map-list (e ∷ m) = refl

  -- The hash that the receiver computes of what a block carries.
  abbrev received_hash : List ShardTx → ℕ → Bytes
  received_hash txs s = hash_h (
      cal_hash_out_coin_cross_shard hash_h token_hash (get_out_coin_cross_shard txs s)
      ++ cal_hash_tx_token_data_hash_list hash_h token_hash (get_tx_token_data_cross_shard txs s))

  combined_hash-received :
      (txs : List ShardTx) (s : ℕ)
      → All IsCovered txs
      → combined_hash hash_h token_hash (group_txs txs no_groups) s ≡ received_hash txs s
  unfolding combined_hash get_tx_token_data_cross_shard
  combined_hash-received txs s all =
      ap
        (λ cs. hash_h (
          cal_hash_out_coin_cross_shard hash_h token_hash cs
          ++ cal_hash_tx_token_data_hash_from_map hash_h token_hash
              ((group_txs txs no_groups).tx_token_data_each_shard s)))
        (group_txs-coins txs no_groups s all)
      ∙ ap
          (λ h.
            hash_h (
              cal_hash_out_coin_cross_shard hash_h token_hash (get_out_coin_cross_shard txs s)
              ++ h))
          (ap (cal_hash_tx_token_data_hash_from_map hash_h token_hash)
              (group_txs-tokens txs no_groups s)
            ∙ from_map-list (token_map txs s []))

  -- The block that is made for a path.
  sent : ShardBlock → ℕ → List Bytes → CrossShardBlock
  sent b s path = record {
    header = b.header;
    to_shard_id = s;
    merkle_path_shard = path;
    cross_output_coin = get_out_coin_cross_shard b.transactions s;
    cross_tx_token_data = get_tx_token_data_cross_shard b.transactions s;
  }

  with_path-ok :
      (b : ShardBlock) (s : ℕ) (path : List Bytes) (root : Bytes) (nothing : Bool)
      (c : CrossShardBlock)
      → (if nothing then err nothing_to_send else with_path hash_h token_hash b s (path, root))
        ≡ ok c
      → (root ≡ b.header.shard_tx_root) × (sent b s path ≡ c)
  unfolding with_path sent
  with_path-ok b s path root true c e = cc
  with_path-ok b s path root false c e =
      let same = bytes_eq_iff root b.header.shard_tx_root in
      elim (Bool-cases (bytes_eq root b.header.shard_tx_root)) [
        | inl here ↦ (same.0 here, ground arith)
        | inr other ↦ absurd (ground arith)
      ]

  leaf : (f : ℕ → Bytes) (s : ℕ) → s < 4 → get_elem? (f 0 ∷ f 1 ∷ f 2 ∷ f 3 ∷ []) s ≡ some (f s)
  leaf f zero lt = refl
  leaf f (suc zero) lt = refl
  leaf f (suc (suc zero)) lt = refl
  leaf f (suc (suc (suc zero))) lt = refl
  leaf f (suc (suc (suc (suc s)))) lt = absurd (omega arith)

  -- Of a block whose transactions' coins the hashes cover, and for one of the four shards, whatever
  -- CreateCrossShardBlock makes without an error passes VerifyCrossShardBlockUTXO; and it makes a
  -- block, unless it reports that there is nothing to send or that the header has another root.
  pub create_cross_shard_block-verifies :
      (b : ShardBlock) (s : ℕ)
      → s < 4
      → All IsCovered b.transactions
      → (r : Result CrossShardBlockError CrossShardBlock) × (create_cross_shard_block hash_h
            token_hash b s
          ≡ some (done r))
        × ((c : CrossShardBlock)
            → r ≡ ok c
            → verify_cross_shard_block_utxo hash_h token_hash c ≡ true)
  unfolding create_cross_shard_block get_cross_shard_data_hash verify_cross_shard_block_utxo sent
  create_cross_shard_block-verifies b s lt all =
      let f = combined_hash hash_h token_hash (group_txs b.transactions no_groups) in
      let (path, made, verifies, two) =
        get_merkle_path-verifies hash_h (f 0) (f 1) (f 2) (f 3) (f s) s (leaf f s lt) in
      let nothing =
        is_empty (get_out_coin_cross_shard b.transactions s)
        && is_empty (get_tx_token_data_cross_shard b.transactions s) in
      let root = root_of hash_h (f 0) (f 1) (f 2) (f 3) in
      (
        if nothing then err nothing_to_send else with_path hash_h token_hash b s (path, root),
        rw made (if_some nothing _ _),
        λ c e.
            let (same, fields) = with_path-ok b s path root nothing c e in
            subst (λ d. verify_cross_shard_block_utxo hash_h token_hash d ≡ true) fields
              (subst (λ h. verify_merkle_tree hash_h h path b.header.shard_tx_root s ≡ true)
                (combined_hash-received b.transactions s all)
                (subst (λ r. verify_merkle_tree hash_h (f s) path r s ≡ true) same verifies)),
      )
