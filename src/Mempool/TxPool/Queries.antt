-- ===== src/Mempool/TxPool/Queries.antt =====
-- mempool.go: the fees, the sizes and the lists of candidates and tokens.
use cash_prototype.Base.{
  not, refl, ◌&&◌, ◌==◌, ℕ, ◌+◌, ◌%◌, ◌≤◌, ◌≡◌, List, [], ◌∷◌, All, u64_mod, arith, Bool-cases, ◌⊎◌,
  ◌<◌, ltb, any, inl, inr, true, String,
}
use cash_prototype.Metadata.{get_valid_staker-contains, contains}
use cash_prototype.Mempool.TxPool.{
  TxPool, TxDesc, max_fee, max_fee_from, size, size_from, remove_candidate_list,
  remove_token_id_list,
}

max_fee_from-le : (fee : ℕ) (es : List (ℕ × TxDesc)) → fee ≤ max_fee_from fee es
unfolding max_fee_from
max_fee_from-le fee [] = omega arith
max_fee_from-le fee (e ∷ es) =
    ground (arith, max_fee_from-le fee es, max_fee_from-le e.1.desc_fee es)

max_fee_from-All :
    (m fee : ℕ) (es : List (ℕ × TxDesc)) → max_fee_from fee es ≤ m → All (λ e. e.1.desc_fee ≤ m) es
unfolding max_fee_from
max_fee_from-All m fee [] le = tt
max_fee_from-All m fee (e ∷ es) le = elim (Bool-cases (ltb fee e.1.desc_fee)) [
  | inl more ↦
      let le' = rw (max_fee_from, more) at le in
      (ground (arith, le', max_fee_from-le e.1.desc_fee es), max_fee_from-All m e.1.desc_fee es le')
  | inr less ↦
      let le' = rw (max_fee_from, less) at le in
      (ground (arith, le', less, max_fee_from-le fee es), max_fee_from-All m fee es le')
]

max_fee_from-cases :
    (fee : ℕ) (es : List (ℕ × TxDesc))
    → (max_fee_from fee es ≡ fee) ⊎ (any (λ e. e.1.desc_fee == max_fee_from fee es) es ≡ true)
unfolding max_fee_from
max_fee_from-cases fee [] = inl refl
max_fee_from-cases fee (e ∷ es) =
    ground (arith, max_fee_from-cases fee es, max_fee_from-cases e.1.desc_fee es)

-- MaxFee is at least the fee of every pooled transaction, and is the fee of one of them, or 0.
max_fee-greatest :
    (tp : TxPool)
    → All (λ e. e.1.desc_fee ≤ max_fee tp) tp.pool
      × ((max_fee tp ≡ 0) ⊎ (any (λ e. e.1.desc_fee == max_fee tp) tp.pool ≡ true))
unfolding max_fee
max_fee-greatest tp = (
  max_fee_from-All (max_fee_from 0 tp.pool) 0 tp.pool (omega arith),
  max_fee_from-cases 0 tp.pool,
)

-- The sum of the sizes.
abbrev pub total_size : List (ℕ × TxDesc) → ℕ
total_size [] = 0
total_size (e ∷ es) = e.1.tx.actual_size + total_size es

size_from-mod :
    (n : ℕ) (es : List (ℕ × TxDesc)) → size_from n es % u64_mod ≡ (n + total_size es) % u64_mod
unfolding size_from
size_from-mod n [] = omega arith
size_from-mod n (e ∷ es) = omega (arith, size_from-mod ((n + e.1.tx.actual_size) % u64_mod) es)

size_from-lt : (n : ℕ) (es : List (ℕ × TxDesc)) → n < u64_mod → size_from n es < u64_mod
unfolding size_from
size_from-lt n [] lt = lt
size_from-lt n (e ∷ es) lt = size_from-lt ((n + e.1.tx.actual_size) % u64_mod) es (omega arith)

-- Size is the sum of the sizes of the pooled transactions, modulo 2^64.
size-total : (tp : TxPool) → size tp ≡ total_size tp.pool % u64_mod
unfolding size
size-total tp = omega (arith, size_from-mod 0 tp.pool, size_from-lt 0 tp.pool)

-- RemoveCandidateList keeps just those of the given candidates that the pool did not have: a
-- candidate of the pool is gone afterwards, given or not, and the others that are given are added.
-- RemoveTokenIDList does the same with tokens.
remove_candidate_list-contains :
    (cs : List String) (tp : TxPool) (c : String)
    → (contains (remove_candidate_list cs tp).candidate_list c
        ≡ (contains cs c && not (contains tp.candidate_list c)))
      × (contains (remove_token_id_list cs tp).token_id_list c
          ≡ (contains cs c && not (contains tp.token_id_list c)))
unfolding remove_candidate_list remove_token_id_list
remove_candidate_list-contains cs tp c = (
  get_valid_staker-contains tp.candidate_list cs c,
  get_valid_staker-contains tp.token_id_list cs c,
)
