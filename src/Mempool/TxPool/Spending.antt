-- ===== src/Mempool/TxPool/Spending.antt =====
-- mempool.go: no two pooled transactions spend the same coin, after any calls.
use cash_prototype.Mempool.TxPool.Checks.{maybe_accept-Passes}
use cash_prototype.Base.{
  ◌&&◌, ℕ, Bool, true, false, ◌≡◌, ◌≢◌, refl, sym, Option, none, some, List, [], ◌∷◌, share,
  share_comm, any, lookup, set_key, delete_key, ◌==◌, ◌∙◌, Option-cases, String, inl, inr,
  Bool-cases, arith, not, lookup_set-cases, lookup_delete-some, lookup_set_same, lookup_set_other,
}
use cash_prototype.Transaction.{
  plain, token, token_privacy, TxKind, custom_token, salary, validate_tx_with_current_mempool,
  is_type, double_spends_token, Tx, list_nullifiers, double_spends,
  validate_tx_with_current_mempool, TxKind,
}
use cash_prototype.Mempool.TxPool.{
  is_tx_in_pool, accepted, Validations, TxPool, TxDesc, add_tx, remove_tx, add_tx_coin_hash,
  remove_tx_coin_hash, add_candidate_to_list, add_token_id_to_list, add_key, add_token, new_token,
  get_txs_in_mem, maybe_accept_transaction, init,
}

abbrev pub same_serial : ℕ → ℕ → Bool
same_serial n m = n == m

-- The serial numbers of the pooled transactions are recorded, and no two of them share one.
pub record IsValid (tp : TxPool) : Type 0 where
  pub recorded :
      (h : ℕ) (d : TxDesc)
      → lookup h tp.pool ≡ some d
      → lookup h tp.pool_serial_numbers ≡ some (list_nullifiers d.tx)
  pub unshared :
      (h k : ℕ) (d e : TxDesc)
      → lookup h tp.pool ≡ some d
      → lookup k tp.pool ≡ some e
      → h ≢ k
      → share same_serial (list_nullifiers d.tx) (list_nullifiers e.tx) ≡ false

-- The part of the pool that the invariant reads.
abbrev pub Same : TxPool → TxPool → Type 0
Same p q = (q.pool ≡ p.pool) × (q.pool_serial_numbers ≡ p.pool_serial_numbers)

pub Same-IsValid : (p q : TxPool) → Same p q → IsValid p → IsValid q
Same-IsValid p q (pool, serials) v = record {
  recorded = λ h d e. rw serials (v.recorded h d (rw pool at e));
  unshared = λ h k d e a b ne. v.unshared h k d e (rw pool at a) (rw pool at b) ne;
}

Same-trans : (p q r : TxPool) → Same p q → Same q r → Same p r
Same-trans p q r (a, b) (c, d) = (c ∙ a, d ∙ b)

pub add_tx_coin_hash-Same : (h : ℕ) (tp : TxPool) → Same tp (add_tx_coin_hash h tp)
unfolding add_tx_coin_hash
add_tx_coin_hash-Same h tp = elim (Option-cases (lookup h tp.tx_coin_hash_pool)) [
  | inl e ↦ rw (add_tx_coin_hash, e) (refl, refl)
  | inr (cs, e) ↦ rw (add_tx_coin_hash, e) (refl, refl)
]

pub remove_tx_coin_hash-Same : (h : ℕ) (tp : TxPool) → Same tp (remove_tx_coin_hash h tp)
unfolding remove_tx_coin_hash
remove_tx_coin_hash-Same h tp = elim (Option-cases (lookup h tp.tx_coin_hash_pool)) [
  | inl e ↦ rw (remove_tx_coin_hash, e) (refl, refl)
  | inr (cs, e) ↦ rw (remove_tx_coin_hash, e) (refl, refl)
]

add_key-Same : (o : Option String) (tp : TxPool) → Same tp (add_key o tp)
unfolding add_candidate_to_list
add_key-Same none tp = (refl, refl)
add_key-Same (some k) tp = (refl, refl)

add_token-Same : (o : Option String) (tp : TxPool) → Same tp (add_token o tp)
unfolding add_token_id_to_list
add_token-Same none tp = (refl, refl)
add_token-Same (some k) tp = (refl, refl)

abbrev pooled : Tx → ℕ → TxPool → TxPool
pooled tx height tp = record tp {
  pool = set_key tx.hash (record { tx = tx; height = height; desc_fee = tx.fee }) tp.pool;
  pool_serial_numbers = set_key tx.hash (list_nullifiers tx) tp.pool_serial_numbers;
}

pub add_tx-Same :
    (tx : Tx) (height : ℕ) (tp : TxPool) → Same (pooled tx height tp) (add_tx tx height tx.fee tp)
unfolding add_tx
add_tx-Same tx height tp =
    let p = pooled tx height tp in
    let q = add_tx_coin_hash tx.hash p in
    let r = add_key tx.staking_key q in
    Same-trans p r (add_token (new_token tx) r)
      (Same-trans p q r (add_tx_coin_hash-Same tx.hash p) (add_key-Same tx.staking_key q))
      (add_token-Same (new_token tx) r)

-- A transaction that passed the check shares no serial number with a recorded one.
pub any-lookup :
    (xs : List ℕ) (m : List (ℕ × List ℕ)) (k : ℕ) (ys : List ℕ)
    → any (λ e. share same_serial xs e.1) m ≡ false
    → lookup k m ≡ some ys
    → share same_serial xs ys ≡ false
any-lookup xs [] k ys no' at = cc
any-lookup xs ((j, zs) ∷ m) k ys no' at = elim (Bool-cases (j == k)) [
  | inl here ↦ ground (arith, here, no', at)
  | inr other ↦ any-lookup xs m k ys (ground (arith, no')) (rw other at at)
]

unspent-unshared :
    (tx : Tx) (tp : TxPool)
    → validate_tx_with_current_mempool tx tp.pool_serial_numbers (get_txs_in_mem tp) ≡ true
    → double_spends tp.pool_serial_numbers tx ≡ false
unfolding validate_tx_with_current_mempool
unspent-unshared tx tp e = go tx.kind e
  where
    go :
        (k : TxKind)
        → elim k [
          | plain ↦ not (is_type tx.tx_type salary) && not (double_spends tp.pool_serial_numbers tx)
          | token data' ↦
              not (is_type tx.tx_type salary)
              && not (double_spends tp.pool_serial_numbers tx)
              && not (
                  any
                    (λ e. is_type e.1.tx_type custom_token && double_spends_token tx e.1)
                    (get_txs_in_mem tp))
          | token_privacy ↦ not (double_spends tp.pool_serial_numbers tx)
        ]
          ≡ true
        → double_spends tp.pool_serial_numbers tx ≡ false
    go plain e = ground (arith, e)
    go (token data') e = ground (arith, e)
    go token_privacy e = ground (arith, e)

-- The transaction enters beside the others.
pooled-IsValid :
    (tx : Tx) (height : ℕ) (tp : TxPool)
    → double_spends tp.pool_serial_numbers tx ≡ false
    → IsValid tp
    → IsValid (pooled tx height tp)
unfolding double_spends
pooled-IsValid tx height tp unspent v = record {
  recorded = λ h d at. elim (lookup_set-cases tx.hash h new d tp.pool at) [
    | inl (same, is_new) ↦
        rw (same, is_new) (lookup_set_same tx.hash (list_nullifiers tx) tp.pool_serial_numbers)
    | inr (other, was) ↦
        lookup_set_other tx.hash h (list_nullifiers tx) tp.pool_serial_numbers other
        ∙ v.recorded h d was
  ];
  unshared = λ h k d e a b ne. elim (lookup_set-cases tx.hash h new d tp.pool a) [
    | inl (same, is_new) ↦ elim (lookup_set-cases tx.hash k new e tp.pool b) [
      | inl (same', _) ↦ absurd (ne (same ∙ sym same'))
      | inr (_, was) ↦ rw is_new (apart k e was)
    ]
    | inr (_, was) ↦ elim (lookup_set-cases tx.hash k new e tp.pool b) [
      | inl (_, is_new) ↦ rw is_new (
          share_comm same_serial (list_nullifiers d.tx) (list_nullifiers tx) same_serial_comm
          ∙ apart h d was)
      | inr (_, was') ↦ v.unshared h k d e was was' ne
    ]
  ];
}
  where
    new : TxDesc
    new = record { tx = tx; height = height; desc_fee = tx.fee }

    same_serial_comm : (n m : ℕ) → same_serial n m ≡ same_serial m n
    same_serial_comm n m = ground arith

    apart :
        (k : ℕ) (e : TxDesc)
        → lookup k tp.pool ≡ some e
        → share same_serial (list_nullifiers tx) (list_nullifiers e.tx) ≡ false
    apart k e was =
        any-lookup (list_nullifiers tx) tp.pool_serial_numbers k (list_nullifiers e.tx) unspent
          (v.recorded k e was)

pub maybe_accept-IsValid :
    (w : Validations) (height : ℕ) (tx : Tx) (tp q : TxPool)
    → maybe_accept_transaction w height tx tp ≡ accepted q
    → IsValid tp
    → IsValid q
maybe_accept-IsValid w height tx tp q e v =
    let (ok', done) = maybe_accept-Passes w height tx tp q e in
    rw done (
      Same-IsValid (pooled tx height tp) (add_tx tx height tx.fee tp) (add_tx-Same tx height tp)
        (pooled-IsValid tx height tp (unspent-unshared tx tp ok'.unspent) v))

removed-IsValid :
    (h : ℕ) (tp : TxPool) → IsValid tp → IsValid (record tp { pool = delete_key h tp.pool })
removed-IsValid h tp v = record {
  recorded = λ k d at. v.recorded k d (lookup_delete-some h k d tp.pool at).1;
  unshared = λ k j d e a b ne.
      v.unshared k j d e (lookup_delete-some h k d tp.pool a).1
        (lookup_delete-some h j e tp.pool b).1 ne;
}

pub remove_tx-IsValid : (h : ℕ) (tp : TxPool) → IsValid tp → IsValid (remove_tx h tp).0
unfolding remove_tx
remove_tx-IsValid h tp v = elim (Bool-cases (is_tx_in_pool h tp)) [
  | inl in_pool ↦
      let q : TxPool = record tp { pool = delete_key h tp.pool } in
      rw (remove_tx, in_pool)
        (Same-IsValid q (remove_tx_coin_hash h q) (remove_tx_coin_hash-Same h q)
          (removed-IsValid h tp v))
  | inr not_in ↦
      rw (remove_tx, not_in)
        (Same-IsValid tp (remove_tx_coin_hash h tp) (remove_tx_coin_hash-Same h tp) v)
]

pub init-IsValid : IsValid init
unfolding init
init-IsValid = record { recorded = λ h d e. cc; unshared = λ h k d e a b ne. cc }
