-- ===== src/Mempool/TxPool/Outcomes.antt =====
-- mempool.go: the outcomes that the later checks of maybeAcceptTransaction do not have.
use cash_prototype.Transaction.{
  plain, token, token_privacy, other_type, TxKind, validate_type, is_salary_tx,
  validate_tx_with_current_mempool, is_type, salary, TxType, normal, custom_token,
  custom_token_privacy, double_spends, double_spends_token,
}
use cash_prototype.Base.{
  ◌&&◌, Bool, true, false, ◌≡◌, refl, ℕ, some, none, inl, ◌≢◌, arith, inr, not, List, ◌||◌, any,
  subst, ◌⊎◌, Option,
}
use cash_prototype.Mempool.TxPool.{
  checked, TxPool, Accept, refused, panicked, TxError, Validations, accept_checked, Tx,
  get_txs_in_mem, salary_tx, accept_typed, mempool_conflict, bad_sanity, invalid_tx, chain_conflict,
}
use cash_prototype.Mempool.TxPool.Checks.{passes}

not_salary :
    (tx : Tx) (serials : List (ℕ × List ℕ)) (txs : List (ℕ × Tx))
    → validate_type tx ≡ true
    → validate_tx_with_current_mempool tx serials txs ≡ true
    → is_type tx.tx_type salary ≡ false
unfolding validate_type validate_tx_with_current_mempool
not_salary tx serials txs typed unspent = go tx.kind tx.tx_type typed unspent
  where
    go :
        (k : TxKind) (t : TxType)
        → elim k [
          | plain ↦ is_type t normal || is_type t salary
          | token data' ↦ is_type t custom_token
          | token_privacy ↦ is_type t custom_token_privacy
        ]
          ≡ true
        → elim k [
          | plain ↦ not (is_type t salary) && not (double_spends serials tx)
          | token data' ↦
              not (is_type t salary)
              && not (double_spends serials tx)
              && not (any (λ e. is_type e.1.tx_type custom_token && double_spends_token tx e.1) txs)
          | token_privacy ↦ not (double_spends serials tx)
        ]
          ≡ true
        → is_type t salary ≡ false
    go plain t a u = ground (arith, u)
    go (token data') t a u = ground (arith, u)
    go token_privacy normal a u = refl
    go token_privacy salary a u = ground (arith, a)
    go token_privacy custom_token a u = refl
    go token_privacy custom_token_privacy a u = refl
    go token_privacy other_type a u = refl

accept_checked-never :
    (height : ℕ) (tx : Tx) (tp : TxPool)
    → is_type tx.tx_type salary ≡ false
    → (accept_checked height tx tp ≢ panicked) × (accept_checked height tx tp ≢ refused salary_tx)
unfolding accept_checked is_salary_tx
accept_checked-never height tx tp other =
    (λ e. ground (arith, other, e), λ e. ground (arith, other, e))

abbrev OtherError : TxError → Type 0
OtherError salary_tx = ⊥
OtherError _ = Unit {0}

-- The validations that are not modelled return for the transaction.
pub record Returns (v : Validations) (tx : Tx) : Type 0 where
  pub sane : v.validate_sanity_data tx ≢ none
  pub by_itself : v.validate_tx_by_itself tx ≢ none
  pub on_chain : v.validate_tx_with_block_chain tx ≢ none

-- A check that returns goes on or fails.
checked-cases :
    (o : Option Bool) (r x : Accept) {t : Accept}
    → (o ≢ none) ⊎ (panicked ≢ t)
    → r ≢ t
    → checked o r x ≡ t
    → x ≡ t
checked-cases none r x (inl returns) never e = absurd (returns refl)
checked-cases none r x (inr stops) never e = absurd (stops e)
checked-cases (some false) r x returns never e = absurd (never e)
checked-cases (some true) r x returns never e = e

-- Beyond the check of the type, an outcome that is no other refusal is that of the last checks.
accept_typed-checked :
    (v : Validations) (height : ℕ) (tx : Tx) (tp : TxPool) {t : Accept}
    → validate_type tx ≡ true
    → Returns v tx ⊎ (panicked ≢ t)
    → ((r : TxError) → r ≢ salary_tx → refused r ≢ t)
    → accept_typed v height tx tp ≡ t
    → (is_type tx.tx_type salary ≡ false) × (accept_checked height tx tp ≡ t)
unfolding accept_typed
accept_typed-checked v height tx tp {t} typed returns other e =
    let serials = tp.pool_serial_numbers in
    let txs = get_txs_in_mem tp in
    let (unspent, e1) =
      passes (validate_tx_with_current_mempool tx serials txs) _ _
        (other mempool_conflict (λ e. apart mempool_conflict tt e)) e in
    let e2 =
      checked-cases (v.validate_sanity_data tx) _ _ (pick (λ r. r.sane) returns)
        (other bad_sanity (λ e. apart bad_sanity tt e)) e1 in
    let e3 =
      checked-cases (v.validate_tx_by_itself tx) _ _ (pick (λ r. r.by_itself) returns)
        (other invalid_tx (λ e. apart invalid_tx tt e)) e2 in
    let e4 =
      checked-cases (v.validate_tx_with_block_chain tx) _ _ (pick (λ r. r.on_chain) returns)
        (other chain_conflict (λ e. apart chain_conflict tt e)) e3 in
    (not_salary tx serials txs typed unspent, e4)
  where
    apart : (r : TxError) → OtherError r → r ≢ salary_tx
    apart r u e = subst OtherError e u

    pick : {P : Type 0} → (Returns v tx → P) → Returns v tx ⊎ (panicked ≢ t) → P ⊎ (panicked ≢ t)
    pick f (inl r) = inl (f r)
    pick f (inr ne) = inr ne

pub accept_typed-no_panic :
    (v : Validations) (height : ℕ) (tx : Tx) (tp : TxPool)
    → Returns v tx
    → validate_type tx ≡ true
    → accept_typed v height tx tp ≢ panicked
accept_typed-no_panic v height tx tp returns typed e =
    let (other, e1) = accept_typed-checked v height tx tp typed (inl returns) (λ r ne e. cc) e in
    (accept_checked-never height tx tp other).0 e1

pub accept_typed-no_salary :
    (v : Validations) (height : ℕ) (tx : Tx) (tp : TxPool)
    → validate_type tx ≡ true
    → accept_typed v height tx tp ≢ refused salary_tx
accept_typed-no_salary v height tx tp typed e =
    let (other, e1) =
      accept_typed-checked v height tx tp typed (inr (λ e. cc)) (λ r ne e. ne (refused-injective e))
        e in
    (accept_checked-never height tx tp other).1 e1
  where
    refused-injective : {r s : TxError} → refused r ≡ refused s → r ≡ s
    refused-injective e = cc
