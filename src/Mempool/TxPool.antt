-- ===== src/Mempool/TxPool.antt =====
-- mempool/mempool.go: the transactions that wait to be put in a block.
-- The times of a pooled transaction, its starting priority and the fee estimator are left out: no
-- check reads them.
pub mod Checks
pub mod Conditions
pub mod Singles
pub mod Outcomes
pub mod Spending
pub mod Accepting
pub mod Panicking
pub mod Calls
pub mod Coins
pub mod Queries
mod Tests
use cash_prototype.Base.{
  ℕ, Bool, true, false, ◌&&◌, not, Option, none, some, List, [], ◌∷◌, ◌++◌, ◌+◌, ◌%◌, map, ltb,
  ◌==◌, if◌then◌else◌, String, lookup, set_key, delete_key, Result, ok, err, u64_mod, length,
  str_eq, Outcome, done, panic,
}
use cash_prototype.Common.{index_of_str}
use cash_prototype.Metadata.{get_valid_staker}
use cash_prototype.Transaction.{
  Tx, TokenData, list_nullifiers, validate_type, is_salary_tx, check_transaction_fee,
  validate_tx_with_current_mempool, plain, token, token_privacy, token_init, token_transfer,
  token_cross_shard,
}

pub record TxDesc : Type 0 where
  pub tx : Tx
  pub height : ℕ
  pub desc_fee : ℕ

pub record TxPool : Type 0 where
  pub pool : List (ℕ × TxDesc)
  pub pool_serial_numbers : List (ℕ × List ℕ)
  pub tx_coin_hash_pool : List (ℕ × List ℕ)
  pub coin_hash_pool : List (ℕ × Bool)
  pub candidate_list : List String
  pub token_id_list : List String

pub data TxError : Type 0 where
  duplicate_tx bad_version low_fee wrong_type mempool_conflict bad_sanity invalid_tx chain_conflict
        duplicate_token salary_tx duplicate_stake :
      TxError

-- A failed type assertion or a nil proof panics.
pub data Accept : Type 0 where
  accepted : TxPool → Accept
  refused : TxError → Accept
  panicked : Accept

-- The fee per kilobyte of the chain, and the validations of a transaction that read the chain, or only
-- the transaction: whether they pass at the time of the call, or `none` where they panic.
pub record Validations : Type 0 where
  pub min_fee_per_kb_tx : ℕ
  pub check_tx_version : Tx → Bool
  pub validate_sanity_data : Tx → Option Bool
  pub validate_tx_by_itself : Tx → Option Bool
  pub validate_tx_with_block_chain : Tx → Option Bool

pub init : TxPool
init = record {
  pool = [];
  pool_serial_numbers = [];
  tx_coin_hash_pool = [];
  coin_hash_pool = [];
  candidate_list = [];
  token_id_list = [];
}

pub is_tx_in_pool : ℕ → TxPool → Bool
is_tx_in_pool h tp = elim (lookup h tp.pool) [ none ↦ false | some d ↦ true ]

pub get_txs_in_mem : TxPool → List (ℕ × Tx)
get_txs_in_mem tp = map (λ e. (e.0, e.1.tx)) tp.pool

pub pre_pool_tx_coin_hash : ℕ → List ℕ → TxPool → TxPool
pre_pool_tx_coin_hash h coins tp = record tp {
  tx_coin_hash_pool = set_key h coins tp.tx_coin_hash_pool;
}

-- The loops over the coins of a transaction.
pub use_coins : List ℕ → List (ℕ × Bool) → List (ℕ × Bool)
use_coins [] m = m
use_coins (c ∷ cs) m = use_coins cs (set_key c true m)

pub release_coins : List ℕ → List (ℕ × Bool) → List (ℕ × Bool)
release_coins [] m = m
release_coins (c ∷ cs) m = release_coins cs (delete_key c m)

pub add_tx_coin_hash : ℕ → TxPool → TxPool
unfolding use_coins
add_tx_coin_hash h tp = elim (lookup h tp.tx_coin_hash_pool) [
  | none ↦ tp
  | some coins ↦ record tp { coin_hash_pool = use_coins coins tp.coin_hash_pool }
]

-- Whether the coin is free.
pub validate_coin_hash : ℕ → TxPool → Bool
validate_coin_hash c tp = elim (lookup c tp.coin_hash_pool) [ none ↦ true | some b ↦ false ]

pub remove_tx_coin_hash : ℕ → TxPool → TxPool
unfolding release_coins
remove_tx_coin_hash h tp = elim (lookup h tp.tx_coin_hash_pool) [
  | none ↦ tp
  | some coins ↦ record tp {
    coin_hash_pool = release_coins coins tp.coin_hash_pool;
    tx_coin_hash_pool = delete_key h tp.tx_coin_hash_pool;
  }
]

pub add_candidate_to_list : String → TxPool → TxPool
add_candidate_to_list c tp = record tp { candidate_list = tp.candidate_list ++ c ∷ [] }

pub add_token_id_to_list : String → TxPool → TxPool
add_token_id_to_list t tp = record tp { token_id_list = tp.token_id_list ++ t ∷ [] }

-- The new list has the given candidates that the pool does not have.
pub remove_candidate_list : List String → TxPool → TxPool
unfolding get_valid_staker
remove_candidate_list cs tp = record tp { candidate_list = get_valid_staker tp.candidate_list cs }

pub remove_token_id_list : List String → TxPool → TxPool
unfolding get_valid_staker
remove_token_id_list ts tp = record tp { token_id_list = get_valid_staker tp.token_id_list ts }

-- The token that a transaction creates.
abbrev pub new_token : Tx → Option String
new_token tx = elim tx.kind [
  | plain ↦ none
  | token_privacy ↦ none
  | token data' ↦ elim data'.action [
    | token_init ↦ some data'.property_id
    | token_transfer ↦ none
    | token_cross_shard ↦ none
  ]
]

abbrev pub add_key : Option String → TxPool → TxPool
add_key none tp = tp
add_key (some key) tp = add_candidate_to_list key tp

abbrev pub add_token : Option String → TxPool → TxPool
add_token none tp = tp
add_token (some t) tp = add_token_id_to_list t tp

pub add_tx : Tx → ℕ → ℕ → TxPool → TxPool
unfolding add_tx_coin_hash add_candidate_to_list add_token_id_to_list list_nullifiers
add_tx tx height fee tp =
    let pooled = record tp {
      pool = set_key tx.hash (record { tx = tx; height = height; desc_fee = fee }) tp.pool;
      pool_serial_numbers = set_key tx.hash (list_nullifiers tx) tp.pool_serial_numbers;
    } in
    add_token (new_token tx) (add_key tx.staking_key (add_tx_coin_hash tx.hash pooled))

abbrev pub token_pooled : Option String → TxPool → Bool
token_pooled none tp = false
token_pooled (some t) tp = elim (index_of_str t tp.token_id_list) [ none ↦ false | some k ↦ true ]

abbrev pub key_pooled : Option String → TxPool → Bool
key_pooled none tp = false
key_pooled (some key) tp = elim (get_valid_staker tp.candidate_list (key ∷ [])) [
  | [] ↦ true
  | _ ∷ _ ↦ false
]

-- The checks after those on the chain.
pub accept_checked : ℕ → Tx → TxPool → Accept
unfolding add_tx is_salary_tx
accept_checked height tx tp =
    if token_pooled (new_token tx) tp then refused duplicate_token else elim (is_salary_tx tx) [
      | none ↦ panicked
      | some true ↦ refused salary_tx
      | some false ↦
          if key_pooled tx.staking_key tp
          then refused duplicate_stake
          else accepted (add_tx tx height tx.fee tp)
    ]

-- A transaction of the wrong type is printed as a `Tx`, whatever it is.
abbrev pub reject_type : Tx → Accept
reject_type tx = elim tx.kind [
  | plain ↦ refused wrong_type
  | token data' ↦ panicked
  | token_privacy ↦ panicked
]

-- One check: where it fails, the call ends with `failed`.
abbrev pub checked : Option Bool → Accept → Accept → Accept
checked none failed rest = panicked
checked (some false) failed rest = failed
checked (some true) failed rest = rest

-- The checks after the one of the type.
pub accept_typed : Validations → ℕ → Tx → TxPool → Accept
unfolding accept_checked get_txs_in_mem validate_tx_with_current_mempool
accept_typed v height tx tp =
    if not (validate_tx_with_current_mempool tx tp.pool_serial_numbers (get_txs_in_mem tp))
    then refused mempool_conflict
    else checked (v.validate_sanity_data tx) (refused bad_sanity) (
        checked (v.validate_tx_by_itself tx) (refused invalid_tx) (
          checked (v.validate_tx_with_block_chain tx) (refused chain_conflict)
            (accept_checked height tx tp)))

-- `height` is the height of the shard's best block.
pub maybe_accept_transaction : Validations → ℕ → Tx → TxPool → Accept
unfolding is_tx_in_pool accept_typed validate_type check_transaction_fee
maybe_accept_transaction v height tx tp =
    if is_tx_in_pool tx.hash tp
    then refused duplicate_tx
    else (if not (v.check_tx_version tx)
        then refused bad_version
        else checked (check_transaction_fee v.min_fee_per_kb_tx tx) (refused low_fee)
            (if not (validate_type tx) then reject_type tx else accept_typed v height tx tp))

-- removeTx, which returns an error where the transaction is not in the pool.
abbrev pub remove_pooled : ℕ → TxPool → TxPool
remove_pooled h tp = if is_tx_in_pool h tp then record tp { pool = delete_key h tp.pool } else tp

-- `false` is the error of removeTx.
pub remove_tx : ℕ → TxPool → TxPool × Bool
unfolding is_tx_in_pool remove_tx_coin_hash
remove_tx h tp = (remove_tx_coin_hash h (remove_pooled h tp), is_tx_in_pool h tp)

pub get_tx : ℕ → TxPool → Option Tx
get_tx h tp = elim (lookup h tp.pool) [ none ↦ none | some d ↦ some d.tx ]

pub count : TxPool → ℕ
count tp = length tp.pool

-- The sum wraps around.
pub size_from : ℕ → List (ℕ × TxDesc) → ℕ
size_from n [] = n
size_from n (e ∷ es) = size_from ((n + e.1.tx.actual_size) % u64_mod) es

pub size : TxPool → ℕ
unfolding size_from
size tp = size_from 0 tp.pool

pub max_fee_from : ℕ → List (ℕ × TxDesc) → ℕ
max_fee_from fee [] = fee
max_fee_from fee (e ∷ es) = max_fee_from (if ltb fee e.1.desc_fee then e.1.desc_fee else fee) es

pub max_fee : TxPool → ℕ
unfolding max_fee_from
max_fee tp = max_fee_from 0 tp.pool

pub list_txs : TxPool → List ℕ
list_txs tp = map (λ e. e.1.tx.hash) tp.pool

-- Whether everything has length 0.
pub is_empty : TxPool → Bool
is_empty tp =
    length tp.pool == 0
    && length tp.pool_serial_numbers == 0
    && length tp.tx_coin_hash_pool == 0
    && length tp.coin_hash_pool == 0
    && length tp.candidate_list == 0
    && length tp.token_id_list == 0

-- The loop over a map's keys that deletes each of them.
pub delete_keys : {V : Type 0} → List (ℕ × V) → List (ℕ × V) → List (ℕ × V)
delete_keys [] m = m
delete_keys (e ∷ es) m = delete_keys es (delete_key e.0 m)

pub empty_pool : TxPool → TxPool × Bool
unfolding is_empty delete_keys
empty_pool tp =
    if is_empty tp
    then (tp, true)
    else (let emptied : TxPool = record {
      pool = delete_keys tp.pool tp.pool;
      pool_serial_numbers = delete_keys tp.pool_serial_numbers tp.pool_serial_numbers;
      tx_coin_hash_pool = delete_keys tp.tx_coin_hash_pool tp.tx_coin_hash_pool;
      coin_hash_pool = delete_keys tp.coin_hash_pool tp.coin_hash_pool;
      candidate_list = [];
      token_id_list = [];
    } in
        (emptied, is_empty emptied))

-- The description of a transaction that was not accepted is nil, and reading it panics.
pub maybe_accept_transaction_for_block_producing : Validations → ℕ → Tx → TxPool → Outcome TxPool
unfolding maybe_accept_transaction
maybe_accept_transaction_for_block_producing v height tx tp =
    elim (maybe_accept_transaction v height tx tp) [
      | accepted q ↦ done q
      | refused e ↦ panic
      | panicked ↦ panic
    ]
