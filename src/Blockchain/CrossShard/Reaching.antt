-- ===== src/Blockchain/CrossShard/Reaching.antt =====
-- The shards that a transaction goes to.
use mathlib.Core.List.{Memᴰ}
use cash_prototype.Base.{
  ℕ, zero, suc, ◌%◌, ◌<◌, ◌≡◌, refl, or_else, ◌⊎◌, inl, inr, true, false, some, List, [], arith,
  ◌==◌, ==→eq, Option-cases,
}
use cash_prototype.Base.{any}
use cash_prototype.Transaction.{
  TxType, normal, salary, custom_token, custom_token_privacy, other_type,
}
use cash_prototype.Blockchain.CrossShard.{OutputCoin, Vout, ShardTx, proof_coins}
use cash_prototype.Blockchain.CrossShard.Block.{all_shards, goes_to}
use cash_prototype.Common.Membership.{any-Mem, Mem-any}

pub Mem-all_shards : (s : ℕ) → s < 4 → Memᴰ s all_shards
Mem-all_shards zero lt = Memᴰ.head refl
Mem-all_shards (suc zero) lt = Memᴰ.tail (Memᴰ.head refl)
Mem-all_shards (suc (suc zero)) lt = Memᴰ.tail (Memᴰ.tail (Memᴰ.head refl))
Mem-all_shards (suc (suc (suc zero))) lt = Memᴰ.tail (Memᴰ.tail (Memᴰ.tail (Memᴰ.head refl)))
Mem-all_shards (suc (suc (suc (suc s)))) lt = absurd (omega arith)

pub all_shards-lt : (s : ℕ) → Memᴰ s all_shards → s < 4
all_shards-lt s (Memᴰ.head e) = omega arith
all_shards-lt s (Memᴰ.tail (Memᴰ.head e)) = omega arith
all_shards-lt s (Memᴰ.tail (Memᴰ.tail (Memᴰ.head e))) = omega arith
all_shards-lt s (Memᴰ.tail (Memᴰ.tail (Memᴰ.tail (Memᴰ.head e)))) = omega arith
all_shards-lt s (Memᴰ.tail (Memᴰ.tail (Memᴰ.tail (Memᴰ.tail m)))) = elim m [ ]

-- A transaction whose proof's coins count.
abbrev pub SpendsCoins : ShardTx → Type 0
SpendsCoins tx = (tx.tx_type ≡ normal) ⊎ (tx.tx_type ≡ salary)

-- What makes a transaction reach a shard.
pub data Sends (tx : ShardTx) (s : ℕ) : Type 0 where
  by_coin :
      (c : OutputCoin) (cs : List OutputCoin)
      → SpendsCoins tx
      → tx.coins ≡ some cs
      → Memᴰ c cs
      → c.last_byte % 4 ≡ s
      → Sends tx s
  by_receiver :
      (v : Vout)
      → tx.tx_type ≡ custom_token
      → Memᴰ v tx.token_data.vouts
      → v.last_byte % 4 ≡ s
      → Sends tx s
  by_inner_coin :
      (c : OutputCoin) (cs : List OutputCoin)
      → tx.tx_type ≡ custom_token_privacy
      → tx.inner_coins ≡ some cs
      → Memᴰ c cs
      → c.last_byte % 4 ≡ s
      → Sends tx s

pub eq→== : (n m : ℕ) → n ≡ m → (n == m) ≡ true
eq→== n m e = ground (arith, e)

pub goes_to-Sends : (tx : ShardTx) (s : ℕ) → goes_to tx s ≡ true → Sends tx s
unfolding goes_to
goes_to-Sends tx s = go tx.tx_type refl
  where
    coin :
        (cs : List OutputCoin)
        → any (λ c. c.last_byte % 4 == s) cs ≡ true
        → (c : OutputCoin) × Memᴰ c cs × (c.last_byte % 4 ≡ s)
    coin cs e =
        let (c, m, t) = any-Mem (λ c. c.last_byte % 4 == s) cs e in
        (c, m, ==→eq (c.last_byte % 4) s t)

    by_proof : SpendsCoins tx → any (λ c. c.last_byte % 4 == s) (proof_coins tx) ≡ true → Sends tx s
    by_proof spends e = elim (Option-cases tx.coins) [
      | inl nil ↦ absurd (ground (arith, rw nil at e))
      | inr (cs, has) ↦ let (c, m, at) = coin cs (rw has at e) in by_coin c cs spends has m at
    ]

    go :
        (t : TxType)
        → tx.tx_type ≡ t
        → elim t [
          | normal ↦ any (λ c. c.last_byte % 4 == s) (proof_coins tx)
          | salary ↦ any (λ c. c.last_byte % 4 == s) (proof_coins tx)
          | custom_token ↦ any (λ v. v.last_byte % 4 == s) tx.token_data.vouts
          | custom_token_privacy ↦ any (λ c. c.last_byte % 4 == s) (or_else [] tx.inner_coins)
          | other_type ↦ false
        ]
          ≡ true
        → Sends tx s
    go normal at e = by_proof (inl at) e
    go salary at e = by_proof (inr at) e
    go custom_token at e =
        let (v, m, t) = any-Mem (λ v. v.last_byte % 4 == s) tx.token_data.vouts e in
        by_receiver v at m (==→eq (v.last_byte % 4) s t)
    go custom_token_privacy at e = elim (Option-cases tx.inner_coins) [
      | inl nil ↦ absurd (ground (arith, rw nil at e))
      | inr (cs, has) ↦ let (c, m, to) = coin cs (rw has at e) in by_inner_coin c cs at has m to
    ]
    go other_type at e = cc

pub Sends-goes_to : (tx : ShardTx) (s : ℕ) → Sends tx s → goes_to tx s ≡ true
unfolding goes_to
Sends-goes_to tx s (by_coin c cs (inl at) has m e) =
    rw (goes_to, at, has) (Mem-any (λ c. c.last_byte % 4 == s) cs c m (eq→== (c.last_byte % 4) s e))
Sends-goes_to tx s (by_coin c cs (inr at) has m e) =
    rw (goes_to, at, has) (Mem-any (λ c. c.last_byte % 4 == s) cs c m (eq→== (c.last_byte % 4) s e))
Sends-goes_to tx s (by_receiver v at m e) =
    rw (goes_to, at)
      (Mem-any (λ v. v.last_byte % 4 == s) tx.token_data.vouts v m (eq→== (v.last_byte % 4) s e))
Sends-goes_to tx s (by_inner_coin c cs at has m e) =
    rw (goes_to, at, has) (Mem-any (λ c. c.last_byte % 4 == s) cs c m (eq→== (c.last_byte % 4) s e))
