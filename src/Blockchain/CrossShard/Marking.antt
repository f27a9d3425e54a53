-- ===== src/Blockchain/CrossShard/Marking.antt =====
-- Which shards a block is marked for, and which coins reach them.
use mathlib.Core.List.{Memᴰ}
use cash_prototype.Base.{
  ℕ, ◌%◌, ◌≤◌, ◌<◌, ◌≡◌, refl, ap, ◌∙◌, ◌≢◌, ◌↔◌, inl, inr, true, false, ◌&&◌, not, none, some,
  List, [], ◌∷◌, ◌++◌, arith, ◌==◌, Bool-cases, ==→eq, ==_refl, put, subst, Option, Outcome, panic,
  done, sym,
}
use cash_prototype.Base.{any, ok}
use cash_prototype.Common.Bytes.{Bytes, bytes_eq}
use cash_prototype.Transaction.{
  TxType, normal, salary, custom_token, custom_token_privacy, other_type,
}
use cash_prototype.Blockchain.CrossShard.{
  OutputCoin, ShardTx, TokenData, Groups, no_groups, group_txs, group_by_type, group_coins,
  get_out_coin_cross_shard, coins_of, proof_coins, get_tx_token_data_cross_shard,
}
use cash_prototype.Blockchain.CrossShard.Tree.{get_merkle_path_cross_shard}
use cash_prototype.Blockchain.CrossShard.Block.{
  all_shards, goes_to, create_cross_shard_byte_array, ShardBlock, CrossShardBlock,
  create_cross_shard_block, is_empty, get_cross_shard_data_hash, with_path,
}
use cash_prototype.Common.Membership.{
  any-Mem, Mem-any, Mem-retain, Mem-append-left, Mem-append-last, Mem-append-cases,
}
use cash_prototype.Blockchain.CrossShard.Grouping.{group_vouts-coins}
use cash_prototype.Blockchain.CrossShard.Reaching.{
  Mem-all_shards, all_shards-lt, eq→==, goes_to-Sends, Sends-goes_to, SpendsCoins, Sends, by_coin,
}

-- CreateCrossShardByteArray returns just those of the four shards, other than the block's own, to
-- which one of the transactions goes: a normal or salary transaction by a coin of its proof, a custom
-- token one by a receiver of tokens, and a privacy token one by a coin of its inner transaction, each
-- with the shard that its last byte selects.
pub create_cross_shard_byte_array_iff :
    (txs : List ShardTx) (from_shard_id s : ℕ)
    → Memᴰ s (create_cross_shard_byte_array txs from_shard_id)
      ↔ ((s < 4) × (s ≢ from_shard_id) × ((tx : ShardTx) × Memᴰ tx txs × Sends tx s))
unfolding create_cross_shard_byte_array
create_cross_shard_byte_array_iff txs from_shard_id s =
    let test = λ (k : ℕ). any (λ tx. goes_to tx k) txs && not (k == from_shard_id) in
    let listed = Mem-retain test all_shards s in
    (
      λ m.
          let (there, passed) = listed.0 m in
          let reached : any (λ tx. goes_to tx s) txs ≡ true = ground (arith, passed) in
          let apart : (s == from_shard_id) ≡ false = ground (arith, passed) in
          let (tx, among, goes) = any-Mem (λ tx. goes_to tx s) txs reached in
          (
            all_shards-lt s there,
            λ e. let same = eq→== s from_shard_id e in cc,
            (tx, among, goes_to-Sends tx s goes),
          ),
      λ (lt, ne, (tx, among, sends)).
          let reached = Mem-any (λ tx. goes_to tx s) txs tx among (Sends-goes_to tx s sends) in
          let apart : (s == from_shard_id) ≡ false = ground (arith, ne) in
          listed.1 (Mem-all_shards s lt, rw (reached, apart) refl),
    )

group_coins-keeps :
    (cs : List OutputCoin) (g : Groups) (s : ℕ) (c : OutputCoin)
    → Memᴰ c (g.out_coin_each_shard s)
    → Memᴰ c ((group_coins cs g).out_coin_each_shard s)
unfolding group_coins
group_coins-keeps [] g s c m = m
group_coins-keeps (d ∷ cs) g s c m =
    group_coins-keeps cs _ s c (elim (Bool-cases (s == d.last_byte % 4)) [
      | inl here ↦
          let at : s ≡ d.last_byte % 4 = ==→eq s (d.last_byte % 4) here in
          rw here (
            Mem-append-left c (g.out_coin_each_shard (d.last_byte % 4)) (d ∷ [])
              (subst (λ k. Memᴰ c (g.out_coin_each_shard k)) at m))
      | inr there ↦ rw there m
    ])

group_coins-takes :
    (cs : List OutputCoin) (g : Groups) (c : OutputCoin)
    → Memᴰ c cs
    → Memᴰ c ((group_coins cs g).out_coin_each_shard (c.last_byte % 4))
unfolding group_coins
group_coins-takes [] g c m = elim m [ ]
group_coins-takes (d ∷ cs) g c (Memᴰ.head e) = group_coins-keeps cs _ (c.last_byte % 4) c (
    subst
      (λ x. Memᴰ c (
        put (d.last_byte % 4) (g.out_coin_each_shard (d.last_byte % 4) ++ d ∷ [])
          g.out_coin_each_shard (x.last_byte % 4)))
      (sym e)
      (rw (==_refl (d.last_byte % 4)) (
        subst (λ x. Memᴰ x (g.out_coin_each_shard (d.last_byte % 4) ++ d ∷ [])) (sym e)
          (Mem-append-last d (g.out_coin_each_shard (d.last_byte % 4))))))
group_coins-takes (d ∷ cs) g c (Memᴰ.tail m) = group_coins-takes cs _ c m

group_by_type-keeps :
    (t : TxType) (tx : ShardTx) (g : Groups) (s : ℕ) (c : OutputCoin)
    → Memᴰ c (g.out_coin_each_shard s)
    → Memᴰ c ((group_by_type t tx g).out_coin_each_shard s)
unfolding group_by_type
group_by_type-keeps normal tx g s c m = group_coins-keeps (proof_coins tx) g s c m
group_by_type-keeps salary tx g s c m = group_coins-keeps (proof_coins tx) g s c m
group_by_type-keeps custom_token tx g s c m =
    subst (λ f. Memᴰ c (f s))
      (sym (group_vouts-coins tx.token_data tx.token_data.vouts (group_coins (proof_coins tx) g)))
      (group_coins-keeps (proof_coins tx) g s c m)
group_by_type-keeps custom_token_privacy tx g s c m = m
group_by_type-keeps other_type tx g s c m = m

group_txs-keeps :
    (txs : List ShardTx) (g : Groups) (s : ℕ) (c : OutputCoin)
    → Memᴰ c (g.out_coin_each_shard s)
    → Memᴰ c ((group_txs txs g).out_coin_each_shard s)
unfolding group_txs
group_txs-keeps [] g s c m = m
group_txs-keeps (tx ∷ txs) g s c m =
    group_txs-keeps txs _ s c (group_by_type-keeps tx.tx_type tx g s c m)

group_by_type-takes :
    (tx : ShardTx) (g : Groups) (c : OutputCoin)
    → SpendsCoins tx
    → Memᴰ c (proof_coins tx)
    → Memᴰ c ((group_by_type tx.tx_type tx g).out_coin_each_shard (c.last_byte % 4))
unfolding group_by_type
group_by_type-takes tx g c (inl e) m = rw e (group_coins-takes (proof_coins tx) g c m)
group_by_type-takes tx g c (inr e) m = rw e (group_coins-takes (proof_coins tx) g c m)

group_txs-takes :
    (txs : List ShardTx) (g : Groups) (tx : ShardTx) (c : OutputCoin)
    → Memᴰ tx txs
    → SpendsCoins tx
    → Memᴰ c (proof_coins tx)
    → Memᴰ c ((group_txs txs g).out_coin_each_shard (c.last_byte % 4))
unfolding group_txs
group_txs-takes [] g tx c among spends m = elim among [ ]
group_txs-takes (t ∷ txs) g tx c (Memᴰ.head e) spends m =
    let spends' = subst SpendsCoins e spends in
    let m' = subst (λ x. Memᴰ c (proof_coins x)) e m in
    group_txs-keeps txs _ (c.last_byte % 4) c (group_by_type-takes t g c spends' m')
group_txs-takes (t ∷ txs) g tx c (Memᴰ.tail among) spends m =
    group_txs-takes txs _ tx c among spends m

coins_of-byte :
    (cs : List OutputCoin) (s : ℕ) (c : OutputCoin) → Memᴰ c (coins_of cs s) → c.last_byte ≡ s
unfolding coins_of
coins_of-byte [] s c m = elim m [ ]
coins_of-byte (d ∷ cs) s c m = elim (Bool-cases (d.last_byte == s)) [
  | inl here ↦ elim (rw here at m) [
    | Memᴰ.head e ↦ ap (λ x. x.last_byte) e ∙ ==→eq d.last_byte s here
    | Memᴰ.tail n ↦ coins_of-byte cs s c n
  ]
  | inr other ↦ coins_of-byte cs s c (rw other at m)
]

get_out_coin-byte :
    (txs : List ShardTx) (s : ℕ) (c : OutputCoin)
    → Memᴰ c (get_out_coin_cross_shard txs s)
    → c.last_byte ≡ s
unfolding get_out_coin_cross_shard
get_out_coin-byte [] s c m = elim m [ ]
get_out_coin-byte (tx ∷ txs) s c m =
    elim (Mem-append-cases c (coins_of (proof_coins tx) s) (get_out_coin_cross_shard txs s) m) [
      | inl one ↦ coins_of-byte (proof_coins tx) s c one
      | inr rest ↦ get_out_coin-byte txs s c rest
    ]

module _ (hash_h : Bytes → Bytes) (token_hash : TokenData → Bytes) where
  with_path-coins :
      (b : ShardBlock) (s : ℕ) (path : List Bytes × Bytes) (x : CrossShardBlock)
      → with_path hash_h token_hash b s path ≡ ok x
      → x.cross_output_coin ≡ get_out_coin_cross_shard b.transactions s
  unfolding with_path
  with_path-coins b s (path, root) x e = elim (Bool-cases (bytes_eq root b.header.shard_tx_root)) [
    | inl same ↦ ground (arith, rw same at e)
    | inr other ↦ absurd (ground (arith, rw other at e))
  ]

  create_cross_shard_block-coins :
      (b : ShardBlock) (s : ℕ) (x : CrossShardBlock)
      → create_cross_shard_block hash_h token_hash b s ≡ some (done (ok x))
      → x.cross_output_coin ≡ get_out_coin_cross_shard b.transactions s
  unfolding create_cross_shard_block
  create_cross_shard_block-coins b s x e =
      elim (Bool-cases (
        is_empty (get_out_coin_cross_shard b.transactions s)
        && is_empty (get_tx_token_data_cross_shard b.transactions s))) [
          | inl nothing ↦ absurd (ground (arith, rw nothing at e))
          | inr sends ↦
              made
                (get_merkle_path_cross_shard hash_h
                  (get_cross_shard_data_hash hash_h token_hash b.transactions) s)
                (rw sends at e)
        ]
    where
      made :
          (path : Option (Outcome (List Bytes × Bytes)))
          → elim path [
            | none ↦ none
            | some panic ↦ some panic
            | some (done p) ↦ some (done (with_path hash_h token_hash b s p))
          ]
            ≡ some (done (ok x))
          → x.cross_output_coin ≡ get_out_coin_cross_shard b.transactions s
      made none e = cc
      made (some panic) e = cc
      made (some (done p)) e = with_path-coins b s p x cc

  -- Of a block with any transactions: a coin of a normal or salary transaction of it whose last byte
  -- is 4 or more is among those that are hashed for the shard that its last byte selects, and the
  -- block is marked for that shard, if it is not its own; but no block that CreateCrossShardBlock
  -- makes for one of the four shards has the coin.
  pub get_out_coin-misses :
      (b : ShardBlock) (tx : ShardTx) (cs : List OutputCoin) (c : OutputCoin)
      → Memᴰ tx b.transactions
      → SpendsCoins tx
      → tx.coins ≡ some cs
      → Memᴰ c cs
      → 4 ≤ c.last_byte
      → Memᴰ c ((group_txs b.transactions no_groups).out_coin_each_shard (c.last_byte % 4))
        × (c.last_byte % 4 ≢ b.header.shard_id
            → Memᴰ
                (c.last_byte % 4)
                (create_cross_shard_byte_array b.transactions b.header.shard_id))
        × ((s : ℕ) (x : CrossShardBlock)
            → s < 4
            → create_cross_shard_block hash_h token_hash b s ≡ some (done (ok x))
            → ¬ Memᴰ c x.cross_output_coin)
  get_out_coin-misses b tx cs c among spends has m big = (
    group_txs-takes b.transactions no_groups tx c among spends (rw has m),
    λ ne.
        (create_cross_shard_byte_array_iff b.transactions b.header.shard_id (c.last_byte % 4)).1
          (omega arith, ne, (tx, among, by_coin c cs spends has m refl)),
    λ s x lt made has_c.
        let byte =
          get_out_coin-byte b.transactions s c
            (subst (Memᴰ c) (create_cross_shard_block-coins b s x made) has_c) in
        absurd (omega arith),
  )
