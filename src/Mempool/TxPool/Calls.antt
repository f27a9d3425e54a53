-- ===== src/Mempool/TxPool/Calls.antt =====
-- mempool.go: EmptyPool, and any sequence of calls on a new pool.
use cash_prototype.Base.{
  ℕ, true, ◌≡◌, ◌≢◌, refl, List, [], ◌∷◌, lookup, share, delete_key, ◌==◌, arith, ap, ◌∙◌, String,
  some, false, length, Bool-cases, inl, inr,
}
use cash_prototype.Transaction.{Tx, list_nullifiers}
use cash_prototype.Mempool.TxPool.{
  TxPool, TxDesc, Validations, delete_keys, init, is_empty, empty_pool, accepted, refused, panicked,
  Accept, maybe_accept_transaction, pre_pool_tx_coin_hash, add_candidate_to_list,
  add_token_id_to_list, remove_candidate_list, remove_token_id_list, add_tx_coin_hash,
  remove_tx_coin_hash, remove_tx,
}
use cash_prototype.Mempool.TxPool.Spending.{
  IsValid, Same-IsValid, maybe_accept-IsValid, init-IsValid, add_tx_coin_hash-Same,
  remove_tx_coin_hash-Same, remove_tx-IsValid,
}

module _ {V : Type 0} where
  delete_keys_nil : (es : List (ℕ × V)) → delete_keys es [] ≡ []
  unfolding delete_keys
  delete_keys_nil [] = refl
  delete_keys_nil (e ∷ es) = delete_keys_nil es

  -- Deletions commute.
  delete_key_twice :
      (j k : ℕ) (m : List (ℕ × V)) → delete_key j (delete_key k m) ≡ delete_key k (delete_key j m)
  delete_key_twice j k [] = refl
  delete_key_twice j k (e ∷ m) = ground (arith, delete_key_twice j k m)

  delete_key_idem : (k : ℕ) (m : List (ℕ × V)) → delete_key k (delete_key k m) ≡ delete_key k m
  delete_key_idem k [] = refl
  delete_key_idem k (e ∷ m) = ground (arith, delete_key_idem k m)

  delete_key-delete_keys :
      (k : ℕ) (es m : List (ℕ × V))
      → delete_keys es (delete_key k m) ≡ delete_key k (delete_keys es m)
  unfolding delete_keys
  delete_key-delete_keys k [] m = refl
  delete_key-delete_keys k (e ∷ es) m =
      ap (delete_keys es) (delete_key_twice e.0 k m)
      ∙ delete_key-delete_keys k es (delete_key e.0 m)

  delete_keys_head :
      (e : ℕ × V) (es m : List (ℕ × V))
      → delete_keys es (delete_key e.0 (e ∷ m)) ≡ delete_key e.0 (delete_keys es m)
  unfolding delete_keys
  delete_keys_head e es m =
      let same : delete_key e.0 (e ∷ m) ≡ delete_key e.0 m = ground arith in
      ap (delete_keys es) same ∙ delete_key-delete_keys e.0 es m

  -- Deleting every key of a map leaves nothing.
  delete_keys_all : (m : List (ℕ × V)) → delete_keys m m ≡ []
  unfolding delete_keys
  delete_keys_all [] = refl
  delete_keys_all (e ∷ m) = delete_keys_head e m m ∙ ap (delete_key e.0) (delete_keys_all m)

nil_of_length {ℓ} : {A : Type ℓ} (xs : List A) → (length xs == 0) ≡ true → xs ≡ []
nil_of_length [] e = refl
nil_of_length (x ∷ xs) e = absurd (ground arith)

is_empty-init : (tp : TxPool) → is_empty tp ≡ true → tp ≡ init
unfolding is_empty init
is_empty-init tp e =
    let pool = nil_of_length tp.pool (ground (arith, e)) in
    let serials = nil_of_length tp.pool_serial_numbers (ground (arith, e)) in
    let tx_coins = nil_of_length tp.tx_coin_hash_pool (ground (arith, e)) in
    let coins = nil_of_length tp.coin_hash_pool (ground (arith, e)) in
    let candidates = nil_of_length tp.candidate_list (ground (arith, e)) in
    let tokens = nil_of_length tp.token_id_list (ground (arith, e)) in cc

-- Whatever is in the pool, EmptyPool leaves it as a new pool and returns true.
empty_pool-init : (tp : TxPool) → empty_pool tp ≡ (init, true)
unfolding empty_pool init
empty_pool-init tp = elim (Bool-cases (is_empty tp)) [
  | inl empty ↦ rw (empty_pool, empty) (ap (λ p. (p, true)) (is_empty-init tp empty))
  | inr some' ↦
      rw
        (
          empty_pool,
          some',
          delete_keys_all tp.pool,
          delete_keys_all tp.pool_serial_numbers,
          delete_keys_all tp.tx_coin_hash_pool,
          delete_keys_all tp.coin_hash_pool,
        )
        refl
]

-- The exported calls that change the pool; the last two name the transaction by its hash.
pub data Call : Type 0 where
  accepts : Validations → ℕ → Tx → Call
  pre_pools : ℕ → List ℕ → Call
  adds_candidate adds_token : String → Call
  removes_candidates removes_tokens : List String → Call
  adds_coins removes_coins removes : ℕ → Call
  empties : Call

-- A transaction that is not accepted leaves the pool as it is.
abbrev after : TxPool → Accept → TxPool
after tp (accepted q) = q
after tp (refused e) = tp
after tp panicked = tp

pub step : TxPool → Call → TxPool
step tp (accepts w height tx) = after tp (maybe_accept_transaction w height tx tp)
step tp (pre_pools h cs) = pre_pool_tx_coin_hash h cs tp
step tp (adds_candidate c) = add_candidate_to_list c tp
step tp (adds_token t) = add_token_id_to_list t tp
step tp (removes_candidates cs) = remove_candidate_list cs tp
step tp (removes_tokens ts) = remove_token_id_list ts tp
step tp (adds_coins h) = add_tx_coin_hash h tp
step tp (removes_coins h) = remove_tx_coin_hash h tp
step tp (removes h) = (remove_tx h tp).0
step tp empties = (empty_pool tp).0

unfoldable pub run : TxPool → List Call → TxPool
unfolding step
run tp [] = tp
run tp (c ∷ cs) = run (step tp c) cs

after-IsValid :
    (w : Validations) (height : ℕ) (tx : Tx) (tp : TxPool) (r : Accept)
    → maybe_accept_transaction w height tx tp ≡ r
    → IsValid tp
    → IsValid (after tp r)
after-IsValid w height tx tp (accepted q) e v = maybe_accept-IsValid w height tx tp q e v
after-IsValid w height tx tp (refused _) e v = v
after-IsValid w height tx tp panicked e v = v

step-IsValid : (tp : TxPool) (c : Call) → IsValid tp → IsValid (step tp c)
unfolding step
step-IsValid tp (accepts w height tx) v = after-IsValid w height tx tp _ refl v
step-IsValid tp (pre_pools h cs) v =
    Same-IsValid tp _ (unfold pre_pool_tx_coin_hash in (refl, refl)) v
step-IsValid tp (adds_candidate c) v =
    Same-IsValid tp _ (unfold add_candidate_to_list in (refl, refl)) v
step-IsValid tp (adds_token t) v = Same-IsValid tp _ (unfold add_token_id_to_list in (refl, refl)) v
step-IsValid tp (removes_candidates cs) v =
    Same-IsValid tp _ (unfold remove_candidate_list in (refl, refl)) v
step-IsValid tp (removes_tokens ts) v =
    Same-IsValid tp _ (unfold remove_token_id_list in (refl, refl)) v
step-IsValid tp (adds_coins h) v = Same-IsValid tp _ (add_tx_coin_hash-Same h tp) v
step-IsValid tp (removes_coins h) v = Same-IsValid tp _ (remove_tx_coin_hash-Same h tp) v
step-IsValid tp (removes h) v = remove_tx-IsValid h tp v
step-IsValid tp empties v = rw (step, empty_pool-init tp) init-IsValid

pub run-IsValid : (tp : TxPool) (cs : List Call) → IsValid tp → IsValid (run tp cs)
unfolding run
run-IsValid tp [] v = v
run-IsValid tp (c ∷ cs) v = run-IsValid (step tp c) cs (step-IsValid tp c v)

-- After any calls on a new pool, no two different transactions of the pool have a serial number in
-- common: the pool holds no double spend.
pub run-init-unshared :
    (cs : List Call) (h k : ℕ) (d e : TxDesc)
    → lookup h (run init cs).pool ≡ some d
    → lookup k (run init cs).pool ≡ some e
    → h ≢ k
    → share (λ n m. n == m) (list_nullifiers d.tx) (list_nullifiers e.tx) ≡ false
run-init-unshared cs = (run-IsValid init cs init-IsValid).unshared
