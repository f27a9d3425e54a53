-- ===== src/Blockchain/CrossShard.antt =====
-- blockchain/shardutils.go, shardcross_process.go and shardblock.go: what a shard block sends to the
-- other shards, its Merkle tree, and the check of a cross-shard block.
pub mod Tree
pub mod Block
pub mod Grouping
pub mod Paths
pub mod Sending
pub mod Reaching
pub mod Marking
mod Tests
use cash_prototype.Base.{
  ℕ, zero, suc, ◌+◌, ◌-◌, ◌*◌, ◌/◌, ◌%◌, ◌≤◌, ◌<◌, min, max, ◌≡◌, refl, sym, ap, subst, ◌∙◌, ◌≢◌,
  ◌↔◌, ◌⊎◌, inl, inr, Bool, true, false, ◌&&◌, ◌||◌, not, Option, none, some, List, [], ◌∷◌, ◌++◌,
  map, append_assoc, flatten, arith, ltb, leb, ◌==◌, if◌then◌else◌, Bool-cases, Option-cases, ==→eq,
  ==_refl, length, take, drop, get_elem?, All, Outcome, done, panic, put, or_else, u64_mod, add64,
  sub64,
}
use mathlib.Core.List.{foldr}
use cash_prototype.Common.Bytes.{Bytes, bytes_eq}
use cash_prototype.Transaction.{
  TxType, normal, salary, custom_token, custom_token_privacy, other_type,
}
use cash_prototype.Blockchain.Merkle.{max_shard_number}

-- An output coin: the last byte of its public key, and its bytes.
pub record OutputCoin : Type 0 where
  pub last_byte : ℕ
  pub bytes : Bytes

-- A receiver of tokens: the last byte of its address, and the rest of the entry.
pub record Vout : Type 0 where
  pub last_byte : ℕ
  pub value : Bytes

-- TxTokenData. The id of the property is the number whose hexadecimal digits `PropertyID.String()`
-- prints, so that the strings are in the order of the numbers.
pub record TokenData : Type 0 where
  pub property_id : ℕ
  pub property : Bytes
  pub is_cross_shard : Bool
  pub vouts : List Vout

-- What the code reads of a transaction: `coins` is `none` where the proof is nil; the token data is
-- read of custom token transactions, and the coins of the inner transaction of privacy token ones.
pub record ShardTx : Type 0 where
  pub tx_type : TxType
  pub coins : Option (List OutputCoin)
  pub token_data : TokenData
  pub inner_coins : Option (List OutputCoin)

-- GetShardIDFromLastByte
abbrev pub get_shard_id_from_last_byte : ℕ → ℕ
get_shard_id_from_last_byte b = b % max_shard_number

abbrev pub proof_coins : ShardTx → List OutputCoin
proof_coins tx = or_else [] tx.coins

-- cloneTxTokenDataForCrossShard, with the inputs, which are empty, left out
unfoldable pub clone_tx_token_data_for_cross_shard : TokenData → TokenData
clone_tx_token_data_for_cross_shard t = record t { is_cross_shard = true; vouts = [] }

-- The token data of a property, by its id.
abbrev pub TokenMap : Type 0
TokenMap = List (ℕ × TokenData)

-- One receiver more for a property, which is cloned where it is not there yet.
unfoldable pub add_vout : TokenData → Vout → TokenMap → TokenMap
unfolding clone_tx_token_data_for_cross_shard
add_vout t v [] =
    (t.property_id, record (clone_tx_token_data_for_cross_shard t) { vouts = v ∷ [] }) ∷ []
add_vout t v ((id, d) ∷ m) =
    if id == t.property_id
    then (id, record d { vouts = d.vouts ++ v ∷ [] }) ∷ m
    else (id, d) ∷ add_vout t v m

-- `txTokenDataList`: the values, sorted by their ids, whatever the map's order
unfoldable pub insert_by_id : ℕ × TokenData → TokenMap → TokenMap
insert_by_id e [] = e ∷ []
insert_by_id e (x ∷ m) = if leb e.0 x.0 then e ∷ x ∷ m else x ∷ insert_by_id e m

unfoldable pub sorted_values : TokenMap → List TokenData
unfolding insert_by_id
sorted_values m = map (λ e. e.1) (foldr insert_by_id [] m)

-- What goes to each shard.
pub record Groups : Type 0 where
  pub out_coin_each_shard : ℕ → List OutputCoin
  pub tx_token_data_each_shard : ℕ → TokenMap

abbrev pub no_groups : Groups
no_groups = record { out_coin_each_shard = λ s. []; tx_token_data_each_shard = λ s. [] }

unfoldable pub group_coins : List OutputCoin → Groups → Groups
group_coins [] g = g
group_coins (c ∷ cs) g =
    let s = get_shard_id_from_last_byte c.last_byte in
    group_coins cs (record g {
      out_coin_each_shard = put s (g.out_coin_each_shard s ++ c ∷ []) g.out_coin_each_shard;
    })

unfoldable pub group_vouts : TokenData → List Vout → Groups → Groups
unfolding add_vout
group_vouts t [] g = g
group_vouts t (v ∷ vs) g =
    let s = get_shard_id_from_last_byte v.last_byte in
    group_vouts t vs (record g {
      tx_token_data_each_shard =
          put s (add_vout t v (g.tx_token_data_each_shard s)) g.tx_token_data_each_shard;
    })

-- The cases of the `switch` on the type.
unfoldable pub group_by_type : TxType → ShardTx → Groups → Groups
unfolding group_coins group_vouts
group_by_type normal tx g = group_coins (proof_coins tx) g
group_by_type salary tx g = group_coins (proof_coins tx) g
group_by_type custom_token tx g =
    group_vouts tx.token_data tx.token_data.vouts (group_coins (proof_coins tx) g)
group_by_type custom_token_privacy tx g = g
group_by_type other_type tx g = g

-- The groups of getCrossShardDataHash.
unfoldable pub group_txs : List ShardTx → Groups → Groups
unfolding group_by_type
group_txs [] g = g
group_txs (tx ∷ txs) g = group_txs txs (group_by_type tx.tx_type tx g)

-- getOutCoinCrossShard: it compares the last byte itself.
unfoldable pub coins_of : List OutputCoin → ℕ → List OutputCoin
coins_of [] shard_id = []
coins_of (c ∷ cs) shard_id =
    if c.last_byte == shard_id then c ∷ coins_of cs shard_id else coins_of cs shard_id

unfoldable pub get_out_coin_cross_shard : List ShardTx → ℕ → List OutputCoin
unfolding coins_of
get_out_coin_cross_shard [] shard_id = []
get_out_coin_cross_shard (tx ∷ txs) shard_id =
    coins_of (proof_coins tx) shard_id ++ get_out_coin_cross_shard txs shard_id

-- getTxTokenDataCrossShard
unfoldable pub vouts_of : TokenData → List Vout → ℕ → TokenMap → TokenMap
unfolding add_vout
vouts_of t [] shard_id m = m
vouts_of t (v ∷ vs) shard_id m =
    vouts_of t vs shard_id
      (if get_shard_id_from_last_byte v.last_byte == shard_id then add_vout t v m else m)

unfoldable pub tokens_by_type : TxType → ShardTx → ℕ → TokenMap → TokenMap
unfolding vouts_of
tokens_by_type normal tx shard_id m = m
tokens_by_type salary tx shard_id m = m
tokens_by_type custom_token tx shard_id m = vouts_of tx.token_data tx.token_data.vouts shard_id m
tokens_by_type custom_token_privacy tx shard_id m = m
tokens_by_type other_type tx shard_id m = m

unfoldable pub token_map : List ShardTx → ℕ → TokenMap → TokenMap
unfolding tokens_by_type
token_map [] shard_id m = m
token_map (tx ∷ txs) shard_id m = token_map txs shard_id (tokens_by_type tx.tx_type tx shard_id m)

unfoldable pub get_tx_token_data_cross_shard : List ShardTx → ℕ → List TokenData
unfolding token_map sorted_values
get_tx_token_data_cross_shard txs shard_id = sorted_values (token_map txs shard_id [])
