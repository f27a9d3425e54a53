-- ===== src/Mempool/TxPool/Tests.antt =====
-- mempool.go: runs of the pool, and its theorems at concrete inputs.
use cash_prototype.Mempool.TxPool.Accepting.{maybe_accept_transaction-accepted, Acceptable, Added}
use cash_prototype.Mempool.TxPool.Spending.{init-IsValid, IsValid}
use cash_prototype.Mempool.TxPool.Calls.{
  adds_candidate, run-init-unshared, pre_pools, run-IsValid, accepts, run, Call,
}
use cash_prototype.Transaction.{
  Tx, plain, token, normal, other_type, token_init, list_nullifiers, salary,
}
use cash_prototype.Mempool.TxPool.{
  add_candidate_to_list, pre_pool_tx_coin_hash, init, panicked, accepted, TxPool, TxDesc,
  Validations, maybe_accept_transaction,
}
use cash_prototype.Base.{
  ◌↔◌, ◌==◌, share, ℕ, List, [], ◌∷◌, ◌≡◌, refl, arith, some, none, true, false,
}

abbrev pub pass_all : Validations
pass_all = record {
  min_fee_per_kb_tx = 0;
  check_tx_version = λ tx. true;
  validate_sanity_data = λ tx. some true;
  validate_tx_by_itself = λ tx. some true;
  validate_tx_with_block_chain = λ tx. some true;
}

abbrev spends : ℕ → List ℕ → Tx
spends h serials = record {
  hash = h;
  kind = plain;
  tx_type = normal;
  inputs = some serials;
  staking_key = none;
  fee = h;
  actual_size = 10;
  plain_size = 10;
  is_free = false;
}

-- A token transaction whose type is not the one of token transactions.
abbrev mistyped : Tx
mistyped = record {
  hash = 9;
  kind = token (record { action = token_init; property_id = "gold"; vins = [] });
  tx_type = other_type;
  inputs = none;
  staking_key = none;
  fee = 0;
  actual_size = 10;
  plain_size = 10;
  is_free = false;
}

abbrev some_calls : List Call
some_calls =
    accepts pass_all 4 (spends 1 (100 ∷ 101 ∷ []))
    ∷ accepts pass_all 4 (spends 2 (101 ∷ []))
    ∷ accepts pass_all 4 (spends 3 (102 ∷ []))
    ∷ pre_pools 3 (7 ∷ 8 ∷ [])
    ∷ adds_candidate "a"
    ∷ []

abbrev desc : ℕ → List ℕ → TxDesc
desc h serials = record { tx = spends h serials; height = 4; desc_fee = h }

-- The second transaction spends a coin of the first and is refused.
abbrev some_pool : TxPool
some_pool = record {
  pool = (1, desc 1 (100 ∷ 101 ∷ [])) ∷ (3, desc 3 (102 ∷ [])) ∷ [];
  pool_serial_numbers = (1, 100 ∷ 101 ∷ []) ∷ (3, 102 ∷ []) ∷ [];
  tx_coin_hash_pool = (3, 7 ∷ 8 ∷ []) ∷ [];
  coin_hash_pool = [];
  candidate_list = "a" ∷ [];
  token_id_list = [];
}

some_calls-run : run init some_calls ≡ some_pool
unfolding run init maybe_accept_transaction pre_pool_tx_coin_hash add_candidate_to_list
some_calls-run = refl

some_pool-IsValid : IsValid some_pool
some_pool-IsValid = rw (← some_calls-run) (run-IsValid init some_calls init-IsValid)

run-init-unshared_example :
    share
      (λ n m. n == m)
      (list_nullifiers (spends 1 (100 ∷ 101 ∷ [])))
      (list_nullifiers (spends 3 (102 ∷ [])))
    ≡ false
run-init-unshared_example =
    run-init-unshared some_calls 1 3 (desc 1 (100 ∷ 101 ∷ [])) (desc 3 (102 ∷ []))
      (rw some_calls-run refl) (rw some_calls-run refl) (omega arith)

maybe_accept_transaction-accepted_example :
    (((q : TxPool) × (maybe_accept_transaction pass_all 4 (spends 5 (103 ∷ [])) some_pool
          ≡ accepted q))
      ↔ Acceptable pass_all (spends 5 (103 ∷ [])) some_pool)
    × ((q : TxPool)
        → maybe_accept_transaction pass_all 4 (spends 5 (103 ∷ [])) some_pool ≡ accepted q
        → Added (spends 5 (103 ∷ [])) 4 some_pool q)
maybe_accept_transaction-accepted_example =
    maybe_accept_transaction-accepted pass_all 4 (spends 5 (103 ∷ [])) some_pool

-- The transaction is accepted.
fifth_accepted :
    (q : TxPool) × (maybe_accept_transaction pass_all 4 (spends 5 (103 ∷ [])) some_pool
      ≡ accepted q)
unfolding maybe_accept_transaction
fifth_accepted = (_, refl)

mistyped_panics : maybe_accept_transaction pass_all 4 mistyped some_pool ≡ panicked
unfolding maybe_accept_transaction
mistyped_panics = refl

-- A salary transaction without a proof.
nil_panics :
    maybe_accept_transaction pass_all 4
      (record mistyped { kind = plain; tx_type = salary })
      some_pool
    ≡ panicked
unfolding maybe_accept_transaction
nil_panics = refl
