-- ===== src/Mempool/TxPool/Accepting.antt =====
-- mempool.go: when maybeAcceptTransaction takes a transaction, and what addTx does with it.
use mathlib.Core.List.{Memᴰ, append-nil}
use cash_prototype.Base.{
  ℕ, ◌≡◌, ◌≢◌, refl, sym, ap, ◌∙◌, ◌↔◌, inl, inr, Bool, true, false, Option, none, some, List, [],
  ◌∷◌, ◌++◌, arith, ◌==◌, if◌then◌else◌, Bool-cases, Option-cases, any, String, lookup, set_key,
  or_else, ==→eq, subst, lookup_set_same, lookup_set_other,
}
use cash_prototype.Transaction.{Tx, list_nullifiers}
use cash_prototype.Mempool.TxPool.{
  TxPool, TxDesc, Validations, accepted, maybe_accept_transaction, add_tx, add_tx_coin_hash,
  add_key, add_token, add_candidate_to_list, add_token_id_to_list, new_token, use_coins,
}
use cash_prototype.Mempool.TxPool.Checks.{Passes, maybe_accept-Passes, Passes-maybe_accept}
use cash_prototype.Mempool.TxPool.Coins.{is_tx_in_pool-none}
use cash_prototype.Mempool.TxPool.Conditions.{Unspent, TokensUnspent, type_of, typed-Unspent}
use cash_prototype.Mempool.TxPool.Singles.{
  Pays, typed-is_salary_tx, check_transaction_fee-Pays, token_pooled-Mem, key_pooled-Mem,
}
use cash_prototype.Mempool.TxPool.Spending.{add_tx-Same}

-- What a transaction that the pool takes has.
pub record Acceptable (v : Validations) (tx : Tx) (tp : TxPool) : Type 0 where
  pub fresh : lookup tx.hash tp.pool ≡ none
  pub version : v.check_tx_version tx ≡ true
  pub pays : Pays v.min_fee_per_kb_tx tx
  pub typed : tx.tx_type ≡ type_of tx.kind
  pub unspent : Unspent tp.pool_serial_numbers tx
  pub tokens_unspent : TokensUnspent tp.pool tx
  pub sane : v.validate_sanity_data tx ≡ some true
  pub by_itself : v.validate_tx_by_itself tx ≡ some true
  pub on_chain : v.validate_tx_with_block_chain tx ≡ some true
  pub new : (t : String) → new_token tx ≡ some t → ¬ Memᴰ t tp.token_id_list
  pub unstaked : (key : String) → tx.staking_key ≡ some key → ¬ Memᴰ key tp.candidate_list

abbrev pub listed : Option String → List String
listed none = []
listed (some x) = x ∷ []

-- The coins that are stored for the transaction.
abbrev pub stored_coins : Tx → TxPool → List ℕ
stored_coins tx tp = or_else [] (lookup tx.hash tp.tx_coin_hash_pool)

-- What the pool holds then, of `q` after and of `tp` before.
pub record Added (tx : Tx) (height : ℕ) (tp q : TxPool) : Type 0 where
  pub in_pool :
      lookup tx.hash q.pool ≡ some (record { tx = tx; height = height; desc_fee = tx.fee })
  pub others : (h : ℕ) → h ≢ tx.hash → lookup h q.pool ≡ lookup h tp.pool
  pub serials : lookup tx.hash q.pool_serial_numbers ≡ some (list_nullifiers tx)
  pub other_serials :
      (h : ℕ) → h ≢ tx.hash → lookup h q.pool_serial_numbers ≡ lookup h tp.pool_serial_numbers
  pub coins :
      (c : ℕ)
      → lookup c q.coin_hash_pool
        ≡ (if any (λ x. x == c) (stored_coins tx tp) then some true else lookup c tp.coin_hash_pool)
  pub tx_coins : q.tx_coin_hash_pool ≡ tp.tx_coin_hash_pool
  pub candidates : q.candidate_list ≡ tp.candidate_list ++ listed tx.staking_key
  pub tokens : q.token_id_list ≡ tp.token_id_list ++ listed (new_token tx)

-- The parts of a pool besides the transactions and the serial numbers.
abbrev rest : TxPool → List (ℕ × Bool) × List (ℕ × List ℕ) × List String × List String
rest tp = (tp.coin_hash_pool, tp.tx_coin_hash_pool, tp.candidate_list, tp.token_id_list)

add_token-rest :
    (o : Option String) (tp : TxPool)
    → rest (add_token o tp)
      ≡ (tp.coin_hash_pool, tp.tx_coin_hash_pool, tp.candidate_list, tp.token_id_list ++ listed o)
unfolding add_token_id_to_list
add_token-rest none tp = rw (append-nil tp.token_id_list) refl
add_token-rest (some t) tp = refl

add_key-rest :
    (o : Option String) (tp : TxPool)
    → rest (add_key o tp)
      ≡ (tp.coin_hash_pool, tp.tx_coin_hash_pool, tp.candidate_list ++ listed o, tp.token_id_list)
unfolding add_candidate_to_list
add_key-rest none tp = rw (append-nil tp.candidate_list) refl
add_key-rest (some k) tp = refl

add_tx_coin_hash-rest :
    (h : ℕ) (tp : TxPool)
    → rest (add_tx_coin_hash h tp) ≡ (
      use_coins (or_else [] (lookup h tp.tx_coin_hash_pool)) tp.coin_hash_pool,
      tp.tx_coin_hash_pool,
      tp.candidate_list,
      tp.token_id_list,
    )
unfolding add_tx_coin_hash use_coins
add_tx_coin_hash-rest h tp = elim (Option-cases (lookup h tp.tx_coin_hash_pool)) [
  | inl nothing ↦ rw (add_tx_coin_hash, nothing) refl
  | inr (coins, stored) ↦ rw (add_tx_coin_hash, stored) refl
]

lookup-use_coins :
    (cs : List ℕ) (m : List (ℕ × Bool)) (c : ℕ)
    → lookup c (use_coins cs m) ≡ (if any (λ x. x == c) cs then some true else lookup c m)
unfolding use_coins
lookup-use_coins [] m c = refl
lookup-use_coins (x ∷ cs) m c = elim (Bool-cases (x == c)) [
  | inl here ↦
      let at : x ≡ c = ==→eq x c here in
      rw (here, at)
        (lookup-use_coins cs (set_key c true m) c
          ∙ rw (lookup_set_same c true m) (go (any (λ y. y == c) cs)))
  | inr there ↦
      let ne : c ≢ x = λ e. absurd (ground (arith, e, there)) in
      rw there (lookup-use_coins cs (set_key x true m) c ∙ rw (lookup_set_other x c true m ne) refl)
]
  where
    go : (b : Bool) → (if b then some true else some true) ≡ some true
    go true = refl
    go false = refl

add_tx-Added :
    (tx : Tx) (height : ℕ) (tp : TxPool) → Added tx height tp (add_tx tx height tx.fee tp)
unfolding add_tx
add_tx-Added tx height tp =
    let (pool, serial) = add_tx-Same tx height tp in
    let desc : TxDesc = record { tx = tx; height = height; desc_fee = tx.fee } in
    let p : TxPool = record tp {
      pool = set_key tx.hash desc tp.pool;
      pool_serial_numbers = set_key tx.hash (list_nullifiers tx) tp.pool_serial_numbers;
    } in
    let q = add_tx_coin_hash tx.hash p in
    let by_coins = add_tx_coin_hash-rest tx.hash p in
    let by_key = add_key-rest tx.staking_key q in
    let by_token = add_token-rest (new_token tx) (add_key tx.staking_key q) in
    record {
      in_pool = rw pool (lookup_set_same tx.hash desc tp.pool);
      others = λ h ne. rw pool (lookup_set_other tx.hash h desc tp.pool ne);
      serials = rw serial (lookup_set_same tx.hash (list_nullifiers tx) tp.pool_serial_numbers);
      other_serials = λ h ne.
          rw serial (lookup_set_other tx.hash h (list_nullifiers tx) tp.pool_serial_numbers ne);
      coins = λ c.
          ap (lookup c) (ap (λ r. r.0) by_token ∙ ap (λ r. r.0) by_key ∙ ap (λ r. r.0) by_coins)
          ∙ lookup-use_coins (stored_coins tx tp) tp.coin_hash_pool c;
      tx_coins = ap (λ r. r.1) by_token ∙ ap (λ r. r.1) by_key ∙ ap (λ r. r.1) by_coins;
      candidates =
          ap (λ r. r.2) by_token
          ∙ ap (λ r. r.2) by_key
          ∙ ap (λ r. r.2 ++ listed tx.staking_key) by_coins;
      tokens =
          ap (λ r. r.3) by_token
          ∙ ap (λ r. r.3 ++ listed (new_token tx))
              (by_key ∙ ap (λ r. (r.0, r.1, r.2 ++ listed tx.staking_key, r.3)) by_coins);
    }

Passes-Acceptable : (v : Validations) (tx : Tx) (tp : TxPool) → Passes v tx tp ↔ Acceptable v tx tp
Passes-Acceptable v tx tp = (
  λ a.
      let (typed, unspent, tokens) = (typed-Unspent tx tp).0 (a.right_type, a.unspent) in
      record {
        fresh = (is_tx_in_pool-none tx.hash tp).0 a.fresh;
        version = a.version;
        pays = (check_transaction_fee-Pays v.min_fee_per_kb_tx tx a.not_salary).0 a.enough_fee;
        typed = typed;
        unspent = unspent;
        tokens_unspent = tokens;
        sane = a.sane;
        by_itself = a.by_itself;
        on_chain = a.on_chain;
        new = (token_pooled-Mem (new_token tx) tp).0 a.new;
        unstaked = (key_pooled-Mem tx.staking_key tp).0 a.unstaked;
      },
  λ c.
      let (right, free) = (typed-Unspent tx tp).1 (c.typed, c.unspent, c.tokens_unspent) in
      let not_salary = typed-is_salary_tx tx c.typed in
      record {
        fresh = (is_tx_in_pool-none tx.hash tp).1 c.fresh;
        version = c.version;
        enough_fee = (check_transaction_fee-Pays v.min_fee_per_kb_tx tx not_salary).1 c.pays;
        right_type = right;
        unspent = free;
        sane = c.sane;
        by_itself = c.by_itself;
        on_chain = c.on_chain;
        new = (token_pooled-Mem (new_token tx) tp).1 c.new;
        not_salary = not_salary;
        unstaked = (key_pooled-Mem tx.staking_key tp).1 c.unstaked;
      },
)

-- MaybeAcceptTransaction accepts a transaction just when the pool has none of its hash, its version
-- is right, its fee covers its size or its metadata ask for none, its type is that of its Go type, it
-- shares no serial number with a recorded one and no token input with a pooled custom token
-- transaction, the sanity check, the check by itself and that on the chain return true, and the pool
-- has neither the token that it creates nor its staking key. The pool then has the transaction with
-- its fee and the height of the shard's best block under its hash, its serial numbers, the coins that
-- were stored for it as used, its staking key and its new token at the ends of their lists, and
-- everything else as before.
pub maybe_accept_transaction-accepted :
    (v : Validations) (height : ℕ) (tx : Tx) (tp : TxPool)
    → (((q : TxPool) × (maybe_accept_transaction v height tx tp ≡ accepted q)) ↔ Acceptable v tx tp)
      × ((q : TxPool) → maybe_accept_transaction v height tx tp ≡ accepted q → Added tx height tp q)
maybe_accept_transaction-accepted v height tx tp = (
  (
    λ (q, e). (Passes-Acceptable v tx tp).0 (maybe_accept-Passes v height tx tp q e).0,
    λ c. (
      add_tx tx height tx.fee tp,
      Passes-maybe_accept v height tx tp ((Passes-Acceptable v tx tp).1 c),
    ),
  ),
  λ q e.
      subst (Added tx height tp) (sym (maybe_accept-Passes v height tx tp q e).1)
        (add_tx-Added tx height tp),
)
