-- ===== src/Blockchain/CrossShard/Grouping.antt =====
-- What goes to a shard, in the groups that are hashed and in the blocks that are sent.
use cash_prototype.Base.{
  ℕ, ◌%◌, ◌<◌, ◌≡◌, refl, sym, ap, ◌∙◌, ◌≢◌, inl, inr, Bool, true, false, List, [], ◌∷◌, ◌++◌,
  append_assoc, arith, ◌==◌, if◌then◌else◌, Bool-cases, ==→eq, All, put,
}
use cash_prototype.Transaction.{
  TxType, normal, salary, custom_token, custom_token_privacy, other_type,
}
use cash_prototype.Base.{put_same, put_other}
use mathlib.Core.List.{append-nil}
use cash_prototype.Blockchain.CrossShard.{
  OutputCoin, Vout, TokenData, ShardTx, Groups, group_txs, group_by_type, tokens_by_type,
  group_coins, group_vouts, proof_coins, get_out_coin_cross_shard, coins_of, vouts_of, token_map,
}

group_vouts-tokens :
    (t : TokenData) (vs : List Vout) (g : Groups) (s : ℕ)
    → (group_vouts t vs g).tx_token_data_each_shard s
      ≡ vouts_of t vs s (g.tx_token_data_each_shard s)
unfolding group_vouts vouts_of
group_vouts-tokens t [] g s = refl
group_vouts-tokens t (v ∷ vs) g s =
    group_vouts-tokens t vs _ s ∙ ap (vouts_of t vs s) (ground arith)

pub group_vouts-coins :
    (t : TokenData) (vs : List Vout) (g : Groups)
    → (group_vouts t vs g).out_coin_each_shard ≡ g.out_coin_each_shard
unfolding group_vouts
group_vouts-coins t [] g = refl
group_vouts-coins t (v ∷ vs) g = group_vouts-coins t vs _

group_coins-tokens :
    (cs : List OutputCoin) (g : Groups)
    → (group_coins cs g).tx_token_data_each_shard ≡ g.tx_token_data_each_shard
unfolding group_coins
group_coins-tokens [] g = refl
group_coins-tokens (c ∷ cs) g = group_coins-tokens cs _

abbrev pub covered : TxType → Bool
covered normal = true
covered salary = true
covered custom_token = true
covered custom_token_privacy = false
covered other_type = false

-- The last byte is the id of a shard.
abbrev pub IsShardByte : OutputCoin → Type 0
IsShardByte c = c.last_byte < 4

one_coin :
    (c : OutputCoin) (m : ℕ → List OutputCoin) (s : ℕ) (rest : List OutputCoin)
    → IsShardByte c
    → put (c.last_byte % 4) (m (c.last_byte % 4) ++ c ∷ []) m s ++ rest
      ≡ m s ++ (if c.last_byte == s then c ∷ rest else rest)
one_coin c m s rest small =
    let byte : c.last_byte % 4 ≡ c.last_byte = omega arith in
    elim (Bool-cases (c.last_byte == s)) [
      | inl here ↦
          let at_s = byte ∙ ==→eq c.last_byte s here in
          rw (here, at_s)
            (ap (λ r. r ++ rest) (put_same s (m s ++ c ∷ []) m) ∙ append_assoc (m s) (c ∷ []) rest)
      | inr other ↦
          let ne : s ≢ c.last_byte % 4 = λ e. absurd (ground arith) in
          rw other (
            ap (λ r. r ++ rest)
              (put_other (c.last_byte % 4) s (m (c.last_byte % 4) ++ c ∷ []) m ne))
    ]

group_coins-coins :
    (cs : List OutputCoin) (g : Groups) (s : ℕ)
    → All IsShardByte cs
    → (group_coins cs g).out_coin_each_shard s ≡ g.out_coin_each_shard s ++ coins_of cs s
unfolding group_coins coins_of
group_coins-coins [] g s small = sym (append-nil (g.out_coin_each_shard s))
group_coins-coins (c ∷ cs) g s small =
    group_coins-coins cs _ s small.1 ∙ one_coin c (g.out_coin_each_shard) s (coins_of cs s) small.0

group_by_type-tokens :
    (t : TxType) (tx : ShardTx) (g : Groups) (s : ℕ)
    → (group_by_type t tx g).tx_token_data_each_shard s
      ≡ tokens_by_type t tx s (g.tx_token_data_each_shard s)
unfolding group_by_type tokens_by_type
group_by_type-tokens normal tx g s = ap (λ m. m s) (group_coins-tokens (proof_coins tx) g)
group_by_type-tokens salary tx g s = ap (λ m. m s) (group_coins-tokens (proof_coins tx) g)
group_by_type-tokens custom_token tx g s =
    group_vouts-tokens tx.token_data tx.token_data.vouts (group_coins (proof_coins tx) g) s
    ∙ ap (λ m. vouts_of tx.token_data tx.token_data.vouts s (m s))
        (group_coins-tokens (proof_coins tx) g)
group_by_type-tokens custom_token_privacy tx g s = refl
group_by_type-tokens other_type tx g s = refl

-- The token data that is hashed for a shard is that which the shard's block carries.
pub group_txs-tokens :
    (txs : List ShardTx) (g : Groups) (s : ℕ)
    → (group_txs txs g).tx_token_data_each_shard s ≡ token_map txs s (g.tx_token_data_each_shard s)
unfolding group_txs token_map
group_txs-tokens [] g s = refl
group_txs-tokens (tx ∷ txs) g s =
    group_txs-tokens txs (group_by_type tx.tx_type tx g) s
    ∙ ap (token_map txs s) (group_by_type-tokens tx.tx_type tx g s)

-- A transaction whose coins the hashes cover: its last bytes are ids of shards, and where it is of
-- another type than normal, salary and custom token it has no coins.
abbrev pub IsCovered : ShardTx → Type 0
IsCovered tx = All IsShardByte (proof_coins tx) × (covered tx.tx_type ≡ false → proof_coins tx ≡ [])

group_by_type-coins :
    (t : TxType) (tx : ShardTx) (g : Groups) (s : ℕ)
    → All IsShardByte (proof_coins tx)
    → (covered t ≡ false → proof_coins tx ≡ [])
    → (group_by_type t tx g).out_coin_each_shard s
      ≡ g.out_coin_each_shard s ++ coins_of (proof_coins tx) s
unfolding group_by_type coins_of
group_by_type-coins normal tx g s small empty = group_coins-coins (proof_coins tx) g s small
group_by_type-coins salary tx g s small empty = group_coins-coins (proof_coins tx) g s small
group_by_type-coins custom_token tx g s small empty =
    ap (λ m. m s)
      (group_vouts-coins tx.token_data tx.token_data.vouts (group_coins (proof_coins tx) g))
    ∙ group_coins-coins (proof_coins tx) g s small
group_by_type-coins custom_token_privacy tx g s small empty =
    let no_coins = empty refl in
    sym (ap (λ cs. g.out_coin_each_shard s ++ coins_of cs s) no_coins ∙ append-nil _)
group_by_type-coins other_type tx g s small empty =
    let no_coins = empty refl in
    sym (ap (λ cs. g.out_coin_each_shard s ++ coins_of cs s) no_coins ∙ append-nil _)

-- Of covered transactions, the coins that are hashed for a shard are those that its block carries.
pub group_txs-coins :
    (txs : List ShardTx) (g : Groups) (s : ℕ)
    → All IsCovered txs
    → (group_txs txs g).out_coin_each_shard s
      ≡ g.out_coin_each_shard s ++ get_out_coin_cross_shard txs s
unfolding group_txs get_out_coin_cross_shard
group_txs-coins [] g s all = sym (append-nil (g.out_coin_each_shard s))
group_txs-coins (tx ∷ txs) g s (one, rest) =
    group_txs-coins txs (group_by_type tx.tx_type tx g) s rest
    ∙ ap (λ cs. cs ++ get_out_coin_cross_shard txs s)
        (group_by_type-coins tx.tx_type tx g s one.0 one.1)
    ∙ append_assoc (g.out_coin_each_shard s) (coins_of (proof_coins tx) s)
        (get_out_coin_cross_shard txs s)
