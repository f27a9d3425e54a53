-- ===== src/Mempool/TxPool/Coins.antt =====
-- mempool.go: what RemoveTx and the coin calls release.
use native.Mathlib.Decide.{ℕ_discrete}
use cash_prototype.Base.{
  ℕ, Bool, true, false, ◌≡◌, refl, List, [], ◌∷◌, ◌&&◌, ◌||◌, not, any, share, lookup, set_key,
  delete_key, ◌==◌, some, none, Option, arith, ap, lookup_set_same, lookup_delete_same,
  lookup_set_other, lookup_delete_other, Bool-cases, Option-cases, inl, inr, ◌↔◌, ◌∙◌,
}
use cash_prototype.Transaction.{
  plain, token, token_privacy, TxKind, custom_token, salary, validate_tx_with_current_mempool,
  is_type, double_spends, double_spends_token, Tx, list_nullifiers, validate_type,
  check_transaction_fee,
}
use cash_prototype.Mempool.TxPool.{
  TxPool, TxDesc, Validations, refused, mempool_conflict, maybe_accept_transaction, remove_tx,
  validate_coin_hash, add_tx_coin_hash, remove_tx_coin_hash, use_coins, release_coins,
  is_tx_in_pool, get_txs_in_mem, accept_typed,
}
use cash_prototype.Mempool.TxPool.Spending.{
  IsValid, same_serial, any-lookup, remove_tx_coin_hash-Same,
}

abbrev pub free : Option Bool → Bool
free none = true
free (some b) = false

use_coins-free :
    (c : ℕ) (cs : List ℕ) (m : List (ℕ × Bool))
    → free (lookup c (use_coins cs m)) ≡ (not (any (λ x. x == c) cs) && free (lookup c m))
unfolding use_coins
use_coins-free c [] m = refl
use_coins-free c (x ∷ cs) m = elim (ℕ_discrete c x) [
  | yes same ↦
      let here : (x == c) ≡ true = ground (arith, same) in
      let found : lookup c (set_key x true m) ≡ some true = rw same (lookup_set_same x true m) in
      rw (use_coins-free c cs (set_key x true m), found, here) (ground arith)
  | no other ↦
      let there : (x == c) ≡ false = ground (arith, other) in
      rw (use_coins-free c cs (set_key x true m), lookup_set_other x c true m other, there) refl
]

release_coins-free :
    (c : ℕ) (cs : List ℕ) (m : List (ℕ × Bool))
    → free (lookup c (release_coins cs m)) ≡ (any (λ x. x == c) cs || free (lookup c m))
unfolding release_coins
release_coins-free c [] m = refl
release_coins-free c (x ∷ cs) m = elim (ℕ_discrete c x) [
  | yes same ↦
      let here : (x == c) ≡ true = ground (arith, same) in
      let found : lookup c (delete_key x m) ≡ none = rw same (lookup_delete_same x m) in
      rw (release_coins-free c cs (delete_key x m), found, here) (ground arith)
  | no other ↦
      let there : (x == c) ≡ false = ground (arith, other) in
      rw (release_coins-free c cs (delete_key x m), lookup_delete_other x c m other, there) refl
]

validate-free : (c : ℕ) (tp : TxPool) → validate_coin_hash c tp ≡ free (lookup c tp.coin_hash_pool)
unfolding validate_coin_hash
validate-free c tp = ground arith

-- With the coins that PrePoolTxCoinHashH has stored for a transaction, AddTxCoinHashH makes
-- ValidateCoinHashH fail for these coins and changes it for no other; RemoveTxCoinHashH makes it
-- pass for them, also where another transaction uses them too, and changes it for no other.
coin_hash-cases :
    (h c : ℕ) (cs : List ℕ) (tp : TxPool)
    → lookup h tp.tx_coin_hash_pool ≡ some cs
    → (validate_coin_hash c (add_tx_coin_hash h tp)
        ≡ (not (any (λ x. x == c) cs) && validate_coin_hash c tp))
      × (validate_coin_hash c (remove_tx_coin_hash h tp)
          ≡ (any (λ x. x == c) cs || validate_coin_hash c tp))
coin_hash-cases h c cs tp e = (
  rw (validate-free c (add_tx_coin_hash h tp), validate-free c tp, ap (λ r. r.coin_hash_pool) added)
      (use_coins-free c cs tp.coin_hash_pool),
  rw
      (
        validate-free c (remove_tx_coin_hash h tp),
        validate-free c tp,
        ap (λ r. r.coin_hash_pool) removed,
      )
      (release_coins-free c cs tp.coin_hash_pool),
)
  where
    added : add_tx_coin_hash h tp ≡ record tp { coin_hash_pool = use_coins cs tp.coin_hash_pool }
    added = unfold add_tx_coin_hash in rw (add_tx_coin_hash, e) refl

    removed : remove_tx_coin_hash h tp ≡ record tp {
      coin_hash_pool = release_coins cs tp.coin_hash_pool;
      tx_coin_hash_pool = delete_key h tp.tx_coin_hash_pool;
    }
    removed = unfold remove_tx_coin_hash in rw (remove_tx_coin_hash, e) refl

share_self : (n : ℕ) (ns : List ℕ) → share same_serial (n ∷ ns) (n ∷ ns) ≡ true
share_self n ns = ground arith

pub is_tx_in_pool-none :
    (h : ℕ) (tp : TxPool) → (is_tx_in_pool h tp ≡ false) ↔ (lookup h tp.pool ≡ none)
unfolding is_tx_in_pool
is_tx_in_pool-none h tp = (
  λ e. elim (Option-cases (lookup h tp.pool)) [
    | inl out ↦ out
    | inr (d, there) ↦ absurd (ground (arith, rw (is_tx_in_pool, there) at e))
  ],
  λ e. rw (is_tx_in_pool, e) refl,
)

remove_tx-gone :
    (h : ℕ) (tp : TxPool)
    → (is_tx_in_pool h (remove_tx h tp).0 ≡ false)
      × ((remove_tx h tp).0.pool_serial_numbers ≡ tp.pool_serial_numbers)
unfolding remove_tx
remove_tx-gone h tp = elim (Bool-cases (is_tx_in_pool h tp)) [
  | inl there ↦
      let q : TxPool = record tp { pool = delete_key h tp.pool } in
      let removed : (remove_tx h tp).0 ≡ remove_tx_coin_hash h q = rw (remove_tx, there) refl in
      let (pool, serials) = remove_tx_coin_hash-Same h q in
      (
        rw removed (
            (is_tx_in_pool-none h (remove_tx_coin_hash h q)).1
              (ap (lookup h) pool ∙ lookup_delete_same h tp.pool)),
        rw removed serials,
      )
  | inr out ↦
      let removed : (remove_tx h tp).0 ≡ remove_tx_coin_hash h tp = rw (remove_tx, out) refl in
      let (pool, serials) = remove_tx_coin_hash-Same h tp in
      (
        rw removed (
            (is_tx_in_pool-none h (remove_tx_coin_hash h tp)).1
              (ap (lookup h) pool ∙ (is_tx_in_pool-none h tp).0 out)),
        rw removed serials,
      )
]

spent-refused :
    (tx : Tx) (serials : List (ℕ × List ℕ)) (txs : List (ℕ × Tx))
    → double_spends serials tx ≡ true
    → validate_tx_with_current_mempool tx serials txs ≡ false
unfolding validate_tx_with_current_mempool
spent-refused tx serials txs e = go tx.kind
  where
    go :
        (k : TxKind)
        → elim k [
          | plain ↦ not (is_type tx.tx_type salary) && not (double_spends serials tx)
          | token data' ↦
              not (is_type tx.tx_type salary)
              && not (double_spends serials tx)
              && not (any (λ e. is_type e.1.tx_type custom_token && double_spends_token tx e.1) txs)
          | token_privacy ↦ not (double_spends serials tx)
        ]
          ≡ false
    go plain = ground (arith, e)
    go (token data') = ground (arith, e)
    go token_privacy = ground (arith, e)

-- RemoveTx leaves the serial numbers of the transaction behind: a pooled transaction with an input
-- that is removed and sent again is refused as a conflict with the pool, as far as the checks before
-- that one pass.
remove_tx-respend :
    (w : Validations) (height : ℕ) (d : TxDesc) (tp : TxPool) (n : ℕ) (ns : List ℕ)
    → IsValid tp
    → lookup d.tx.hash tp.pool ≡ some d
    → list_nullifiers d.tx ≡ n ∷ ns
    → w.check_tx_version d.tx ≡ true
    → check_transaction_fee w.min_fee_per_kb_tx d.tx ≡ some true
    → validate_type d.tx ≡ true
    → maybe_accept_transaction w height d.tx (remove_tx d.tx.hash tp).0 ≡ refused mempool_conflict
unfolding maybe_accept_transaction
remove_tx-respend w height d tp n ns v at input version enough typed =
    let (gone, serials) = remove_tx-gone d.tx.hash tp in
    let kept = v.recorded d.tx.hash d at in
    let spent : double_spends tp.pool_serial_numbers d.tx ≡ true =
      elim (Bool-cases (double_spends tp.pool_serial_numbers d.tx)) [
        | inl e ↦ e
        | inr e ↦
            let apart =
              any-lookup (list_nullifiers d.tx) tp.pool_serial_numbers d.tx.hash
                (list_nullifiers d.tx) (unfold double_spends in e) kept in
            absurd (ground (arith, share_self n ns, rw input at apart))
      ] in
    let refused' =
      spent-refused d.tx tp.pool_serial_numbers (get_txs_in_mem (remove_tx d.tx.hash tp).0) spent in
    rw (maybe_accept_transaction, accept_typed, gone, version, enough, typed, serials, refused')
      refl
