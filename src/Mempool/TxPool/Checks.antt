-- ===== src/Mempool/TxPool/Checks.antt =====
-- mempool.go: the checks of maybeAcceptTransaction, in their order.
use cash_prototype.Transaction.{
  TxKind, validate_type, is_salary_tx, validate_tx_with_current_mempool, check_transaction_fee,
}
use cash_prototype.Transaction.{plain, token, token_privacy, TxKind}
use cash_prototype.Base.{
  if◌then◌else◌, Bool, true, false, ◌≡◌, refl, ℕ, some, none, Option, Bool-cases, inl, ◌≢◌, arith,
  inr, Option-cases, not,
}
use cash_prototype.Mempool.TxPool.{
  checked, TxPool, Accept, accepted, refused, panicked, Validations, maybe_accept_transaction,
  accept_checked, Tx, is_tx_in_pool, token_pooled, new_token, add_tx, get_txs_in_mem, key_pooled,
  reject_type, wrong_type, accept_typed,
}

-- Every check passes.
pub record Passes (v : Validations) (tx : Tx) (tp : TxPool) : Type 0 where
  pub fresh : is_tx_in_pool tx.hash tp ≡ false
  pub version : v.check_tx_version tx ≡ true
  pub enough_fee : check_transaction_fee v.min_fee_per_kb_tx tx ≡ some true
  pub right_type : validate_type tx ≡ true
  pub unspent :
      validate_tx_with_current_mempool tx tp.pool_serial_numbers (get_txs_in_mem tp) ≡ true
  pub sane : v.validate_sanity_data tx ≡ some true
  pub by_itself : v.validate_tx_by_itself tx ≡ some true
  pub on_chain : v.validate_tx_with_block_chain tx ≡ some true
  pub new : token_pooled (new_token tx) tp ≡ false
  pub not_salary : is_salary_tx tx ≡ some false
  pub unstaked : key_pooled tx.staking_key tp ≡ false

accept_checked-accepted :
    (height : ℕ) (tx : Tx) (tp q : TxPool)
    → accept_checked height tx tp ≡ accepted q
    → (token_pooled (new_token tx) tp ≡ false)
      × (is_salary_tx tx ≡ some false)
      × (key_pooled tx.staking_key tp ≡ false)
      × (q ≡ add_tx tx height tx.fee tp)
unfolding accept_checked
accept_checked-accepted height tx tp q e = elim (Bool-cases (token_pooled (new_token tx) tp)) [
  | inl old ↦ absurd (ground (arith, old, e))
  | inr new ↦ elim (Option-cases (is_salary_tx tx)) [
    | inl nil ↦ absurd (ground (arith, new, nil, e))
    | inr (true, paid) ↦ absurd (ground (arith, new, paid, e))
    | inr (false, not_salary) ↦ elim (Bool-cases (key_pooled tx.staking_key tp)) [
      | inl twice ↦ absurd (ground (arith, new, not_salary, twice, e))
      | inr once ↦ (new, not_salary, once, ground (arith, new, not_salary, once, e))
    ]
  ]
]

-- A check that does not end in the outcome `t`.
pub passes :
    (b : Bool) (r x : Accept) {t : Accept}
    → r ≢ t
    → (if not b then r else x) ≡ t
    → (b ≡ true) × (x ≡ t)
passes true r x never e = (refl, e)
passes false r x never e = absurd (never e)

pub checked-passes :
    (o : Option Bool) (r x : Accept) {t : Accept}
    → panicked ≢ t
    → r ≢ t
    → checked o r x ≡ t
    → (o ≡ some true) × (x ≡ t)
checked-passes none r x stops never e = absurd (stops e)
checked-passes (some false) r x stops never e = absurd (never e)
checked-passes (some true) r x stops never e = (refl, e)

reject_type-never : (tx : Tx) (p : TxPool) → reject_type tx ≢ accepted p
reject_type-never tx p e = go tx.kind e
  where
    go :
        (k : TxKind)
        → elim k [ plain ↦ refused wrong_type | token data' ↦ panicked | token_privacy ↦ panicked ]
          ≢ accepted p
    go plain e = cc
    go (token data') e = cc
    go token_privacy e = cc

pub maybe_accept-Passes :
    (v : Validations) (height : ℕ) (tx : Tx) (tp q : TxPool)
    → maybe_accept_transaction v height tx tp ≡ accepted q
    → Passes v tx tp × (q ≡ add_tx tx height tx.fee tp)
unfolding maybe_accept_transaction
maybe_accept-Passes v height tx tp q e = elim (Bool-cases (is_tx_in_pool tx.hash tp)) [
  | inl old ↦ absurd (ground (arith, old, e))
  | inr fresh ↦
      let (version, e1) = passes (v.check_tx_version tx) _ _ (λ e. cc) (rw fresh at e) in
      let (enough, e2) =
        checked-passes (check_transaction_fee v.min_fee_per_kb_tx tx) _ _ (λ e. cc) (λ e. cc) e1 in
      let (typed, e3) = passes (validate_type tx) _ _ (reject_type-never tx q) e2 in
      let (unspent, e4) =
        passes (validate_tx_with_current_mempool tx tp.pool_serial_numbers (get_txs_in_mem tp)) _ _
          (λ e. cc) e3 in
      let (sane, e5) = checked-passes (v.validate_sanity_data tx) _ _ (λ e. cc) (λ e. cc) e4 in
      let (alone, e6) = checked-passes (v.validate_tx_by_itself tx) _ _ (λ e. cc) (λ e. cc) e5 in
      let (chained, e7) =
        checked-passes (v.validate_tx_with_block_chain tx) _ _ (λ e. cc) (λ e. cc) e6 in
      let (new, not_salary, once, done) = accept_checked-accepted height tx tp q e7 in
      (
        record {
          fresh = fresh;
          version = version;
          enough_fee = enough;
          right_type = typed;
          unspent = unspent;
          sane = sane;
          by_itself = alone;
          on_chain = chained;
          new = new;
          not_salary = not_salary;
          unstaked = once;
        },
        done,
      )
]

pub Passes-maybe_accept :
    (v : Validations) (height : ℕ) (tx : Tx) (tp : TxPool)
    → Passes v tx tp
    → maybe_accept_transaction v height tx tp ≡ accepted (add_tx tx height tx.fee tp)
unfolding maybe_accept_transaction
Passes-maybe_accept v height tx tp a =
    rw
      (
        maybe_accept_transaction, accept_typed, accept_checked, a.fresh, a.version, a.enough_fee,
        a.right_type, a.unspent, a.sane, a.by_itself, a.on_chain, a.new, a.not_salary, a.unstaked,
      )
      refl
