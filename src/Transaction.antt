-- ===== src/Transaction.antt =====
-- transaction/: what the pool reads of a transaction, and the check against the pool's transactions.
use cash_prototype.Base.{
  ℕ, Bool, true, false, ◌&&◌, ◌||◌, Option, none, some, List, [], ◌∷◌, ◌==◌, if◌then◌else◌, String,
  any, share, not, ltb, ◌*◌, ◌%◌, u64_mod,
}

-- `tx.Type`, by the names of the constants in common/constants.go.
pub data TxType : Type 0 where
  normal salary custom_token custom_token_privacy other_type : TxType

-- The kinds of custom token transactions; `token_init` is CustomTokenInit.
pub data TokenAction : Type 0 where
  token_init token_transfer token_cross_shard : TokenAction

-- TxTokenData: the property, and the inputs by the id of their transaction and their index there.
pub record TokenData : Type 0 where
  pub action : TokenAction
  pub property_id : String
  pub vins : List (ℕ × ℕ)

-- The Go type behind the interface: Tx, TxCustomToken or TxCustomTokenPrivacy.
pub data TxKind : Type 0 where
  plain token_privacy : TxKind
  token : TokenData → TxKind

-- A serial number is its compressed form. `inputs` is `none` where the proof is nil. The staking key
-- is the encoded public key of a transaction with staking metadata. `is_free` holds of a transaction
-- with one of the metadata whose CheckTransactionFee asks for no fee. `actual_size` is what
-- GetTxActualSize of the transaction returns, and `plain_size` what it returns of the Tx that a token
-- transaction embeds, or of the Tx itself.
pub record Tx : Type 0 where
  pub hash : ℕ
  pub kind : TxKind
  pub tx_type : TxType
  pub inputs : Option (List ℕ)
  pub staking_key : Option String
  pub fee : ℕ
  pub actual_size : ℕ
  pub plain_size : ℕ
  pub is_free : Bool

abbrev pub is_type : TxType → TxType → Bool
is_type normal normal = true
is_type salary salary = true
is_type custom_token custom_token = true
is_type custom_token_privacy custom_token_privacy = true
is_type other_type other_type = true
is_type _ _ = false

unfoldable pub list_nullifiers : Tx → List ℕ
list_nullifiers tx = elim tx.inputs [ none ↦ [] | some serials ↦ serials ]

unfoldable pub validate_type : Tx → Bool
validate_type tx = elim tx.kind [
  | plain ↦ is_type tx.tx_type normal || is_type tx.tx_type salary
  | token data' ↦ is_type tx.tx_type custom_token
  | token_privacy ↦ is_type tx.tx_type custom_token_privacy
]

-- `none` where the nil proof of a salary transaction is read, which panics.
unfoldable pub is_salary_tx : Tx → Option Bool
is_salary_tx tx =
    if is_type tx.tx_type salary
    then elim tx.inputs [ none ↦ none | some [] ↦ some true | some (_ ∷ _) ↦ some false ]
    else some false

-- CheckTransactionFee, for the fee per kilobyte; `none` where IsSalaryTx panics. The metadata that
-- ask for a fee compare as a transaction without metadata does. The product wraps around.
unfoldable pub check_transaction_fee : ℕ → Tx → Option Bool
unfolding is_salary_tx
check_transaction_fee min_fee_per_kb_tx tx = elim (is_salary_tx tx) [
  | none ↦ none
  | some true ↦ some true
  | some false ↦
      some (tx.is_free || not (ltb tx.fee ((min_fee_per_kb_tx * tx.plain_size) % u64_mod)))
]

-- validateDoubleSpendTxWithCurrentMempool: whether a pooled transaction has one of the serial numbers.
unfoldable pub double_spends : List (ℕ × List ℕ) → Tx → Bool
unfolding list_nullifiers
double_spends pool_nullifiers tx =
    any (λ e. share (λ n m. n == m) (list_nullifiers tx) e.1) pool_nullifiers

unfoldable pub token_vins : Tx → List (ℕ × ℕ)
token_vins tx = elim tx.kind [ plain ↦ [] | token_privacy ↦ [] | token data' ↦ data'.vins ]

abbrev pub same_vin : ℕ × ℕ → ℕ × ℕ → Bool
same_vin v w = v.0 == w.0 && v.1 == w.1

-- validateDoubleSpendCustomTokenOnTx
unfoldable pub double_spends_token : Tx → Tx → Bool
unfolding token_vins
double_spends_token tx in_pool = share same_vin (token_vins tx) (token_vins in_pool)

-- ValidateTxWithCurrentMempool of the three types, with the pool's serial numbers and transactions:
-- whether it returns nil.
unfoldable pub validate_tx_with_current_mempool : Tx → List (ℕ × List ℕ) → List (ℕ × Tx) → Bool
unfolding double_spends double_spends_token
validate_tx_with_current_mempool tx pool_nullifiers txs = elim tx.kind [
  | plain ↦ not (is_type tx.tx_type salary) && not (double_spends pool_nullifiers tx)
  | token data' ↦
      not (is_type tx.tx_type salary)
      && not (double_spends pool_nullifiers tx)
      && not (any (λ e. is_type e.1.tx_type custom_token && double_spends_token tx e.1) txs)
  | token_privacy ↦ not (double_spends pool_nullifiers tx)
]
