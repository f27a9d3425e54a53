-- ===== src/Mempool/TxPool/Conditions.antt =====
-- mempool.go: the checks against the pool, in terms of what the pool and the transaction hold.
use mathlib.Core.List.{Memᴰ}
use cash_prototype.Base.{
  ℕ, ◌≡◌, refl, sym, ap, ◌∙◌, ◌↔◌, inl, inr, Bool, true, false, ◌&&◌, ◌||◌, not, List, [], arith,
  ◌==◌, ==→eq, Bool-cases, any, share, subst,
}
use cash_prototype.Common.Membership.{share-apart, any-none, any-map}
use cash_prototype.Transaction.{
  Tx, TxType, TxKind, plain, token, token_privacy, normal, salary, custom_token,
  custom_token_privacy, other_type, is_type, validate_type, validate_tx_with_current_mempool,
  list_nullifiers, double_spends, double_spends_token, token_vins, same_vin,
}
use cash_prototype.Mempool.TxPool.{TxPool, TxDesc, get_txs_in_mem}

-- The transaction shares no serial number with a recorded one.
pub Unspent : List (ℕ × List ℕ) → Tx → Type 0
Unspent serials tx =
    (h : ℕ) (ns : List ℕ) (n : ℕ) → Memᴰ (h, ns) serials → Memᴰ n (list_nullifiers tx) → ¬ Memᴰ n ns

-- The transaction shares no token input with a pooled custom token transaction.
pub TokensUnspent : List (ℕ × TxDesc) → Tx → Type 0
TokensUnspent pool tx =
    (h : ℕ) (d : TxDesc) (v : ℕ × ℕ)
    → Memᴰ (h, d) pool
    → d.tx.tx_type ≡ custom_token
    → Memᴰ v (token_vins tx)
    → ¬ Memᴰ v (token_vins d.tx)

-- The type that belongs to the Go type.
abbrev pub type_of : TxKind → TxType
type_of plain = normal
type_of (token data') = custom_token
type_of token_privacy = custom_token_privacy

double_spends-Unspent :
    (serials : List (ℕ × List ℕ)) (tx : Tx)
    → (double_spends serials tx ≡ false) ↔ Unspent serials tx
unfolding double_spends Unspent
double_spends-Unspent serials tx =
    let test = λ (e : ℕ × List ℕ). share (λ n m. n == m) (list_nullifiers tx) e.1 in
    (
      λ e h ns n m in_tx in_pool.
          let none_shared = (any-none test serials).0 e (h, ns) m in
          let other =
            (share-apart (λ n m. n == m) (list_nullifiers tx) ns).0 none_shared n n in_tx in_pool in
          absurd (ground (arith, other)),
      λ f. (any-none test serials).1 (λ e m.
          (share-apart (λ n m. n == m) (list_nullifiers tx) e.1).1 (λ n k in_tx in_pool.
            elim (Bool-cases (n == k)) [
              | inl same ↦
                  absurd
                    (f e.0 e.1 n m in_tx (subst (λ x. Memᴰ x e.1) (sym (==→eq n k same)) in_pool))
              | inr other ↦ other
            ])),
    )

same_vin_iff : (v w : ℕ × ℕ) → (same_vin v w ≡ true) ↔ (v ≡ w)
same_vin_iff (a, b) (c, d) = (
  λ e.
      let left = ==→eq a c (ground (arith, e)) in
      let right = ==→eq b d (ground (arith, e)) in rw (left, right) refl,
  λ e. let left = ap (λ p. p.0) e in let right = ap (λ p. p.1) e in ground (arith, left, right),
)

pub is_type_eq : (t u : TxType) → is_type t u ≡ true → t ≡ u
is_type_eq normal normal e = refl
is_type_eq salary salary e = refl
is_type_eq custom_token custom_token e = refl
is_type_eq custom_token_privacy custom_token_privacy e = refl
is_type_eq other_type other_type e = refl
is_type_eq _ _ e = cc

-- Whether a pooled custom token transaction has one of the token inputs.
abbrev tokens_spent : Tx → TxPool → Bool
tokens_spent tx tp =
    any (λ e. is_type e.1.tx_type custom_token && double_spends_token tx e.1) (get_txs_in_mem tp)

tokens_spent-TokensUnspent :
    (tx : Tx) (tp : TxPool) → (tokens_spent tx tp ≡ false) ↔ TokensUnspent tp.pool tx
unfolding get_txs_in_mem double_spends_token TokensUnspent
tokens_spent-TokensUnspent tx tp =
    let test = λ (e : ℕ × Tx). is_type e.1.tx_type custom_token && double_spends_token tx e.1 in
    let strip = any-map (λ (e : ℕ × TxDesc). (e.0, e.1.tx)) test tp.pool in
    let all = any-none (λ (e : ℕ × TxDesc). test (e.0, e.1.tx)) tp.pool in
    (
      λ none_spent h d v m typed in_tx in_pool.
          let one = all.0 (sym strip ∙ none_spent) (h, d) m in
          let token_type : is_type d.tx.tx_type custom_token ≡ true = rw typed refl in
          let apart : share same_vin (token_vins tx) (token_vins d.tx) ≡ false =
            rw token_type at one in
          let other =
            (share-apart same_vin (token_vins tx) (token_vins d.tx)).0 apart v v in_tx in_pool in
          let same = (same_vin_iff v v).1 refl in cc,
      λ f.
          strip
          ∙ all.1 (λ e m. elim (Bool-cases (is_type e.1.tx.tx_type custom_token)) [
            | inl typed ↦ rw typed (
                (share-apart same_vin (token_vins tx) (token_vins e.1.tx)).1 (λ v w in_tx in_pool.
                  elim (Bool-cases (same_vin v w)) [
                    | inl same ↦ absurd (
                        f e.0 e.1 v m (is_type_eq _ _ typed) in_tx (
                          subst (λ x. Memᴰ x (token_vins e.1.tx)) (sym ((same_vin_iff v w).0 same))
                            in_pool))
                    | inr other ↦ other
                  ]))
            | inr untyped ↦ rw untyped refl
          ]),
    )

no_vins : (tx : Tx) (tp : TxPool) → token_vins tx ≡ [] → tokens_spent tx tp ≡ false
unfolding double_spends_token
no_vins tx tp e =
    (any-none (λ d. is_type d.1.tx_type custom_token && double_spends_token tx d.1)
        (get_txs_in_mem tp)).1
      (λ d m. rw e (ground arith))

-- The checks of the type and against the pool, together.
pub typed-Unspent :
    (tx : Tx) (tp : TxPool)
    → ((validate_type tx ≡ true)
        × (validate_tx_with_current_mempool tx tp.pool_serial_numbers (get_txs_in_mem tp) ≡ true))
      ↔ ((tx.tx_type ≡ type_of tx.kind)
          × Unspent tp.pool_serial_numbers tx
          × TokensUnspent tp.pool tx)
unfolding validate_type validate_tx_with_current_mempool token_vins
typed-Unspent tx tp = (
  λ (typed, unspent).
      let (t, s, k) = (go tx.kind refl).0 (typed, unspent) in
      (
        t,
        (double_spends-Unspent tp.pool_serial_numbers tx).0 s,
        (tokens_spent-TokensUnspent tx tp).0 k,
      ),
  λ (t, s, k). (go tx.kind refl).1 (
    t,
    (double_spends-Unspent tp.pool_serial_numbers tx).1 s,
    (tokens_spent-TokensUnspent tx tp).1 k,
  ),
)
  where
    spent : Bool
    spent = double_spends tp.pool_serial_numbers tx

    go :
        (k : TxKind)
        → tx.kind ≡ k
        → ((elim k [
          | plain ↦ is_type tx.tx_type normal || is_type tx.tx_type salary
          | token data' ↦ is_type tx.tx_type custom_token
          | token_privacy ↦ is_type tx.tx_type custom_token_privacy
        ]
              ≡ true)
            × (elim k [
              | plain ↦ not (is_type tx.tx_type salary) && not spent
              | token data' ↦
                  not (is_type tx.tx_type salary) && not spent && not (tokens_spent tx tp)
              | token_privacy ↦ not spent
            ]
                ≡ true))
          ↔ ((tx.tx_type ≡ type_of k) × (spent ≡ false) × (tokens_spent tx tp ≡ false))
    go plain at = (
      λ (a, b). (
        is_type_eq tx.tx_type normal (ground (arith, a, b)),
        ground (arith, b),
        no_vins tx tp (rw (token_vins, at) refl),
      ),
      λ (t, s, k). (rw t refl, rw (t, s) refl),
    )
    go (token data') at = (
      λ (a, b). (is_type_eq tx.tx_type custom_token a, ground (arith, b), ground (arith, b)),
      λ (t, s, k). (rw t refl, rw (t, s, k) refl),
    )
    go token_privacy at = (
      λ (a, b). (
        is_type_eq tx.tx_type custom_token_privacy a,
        ground (arith, b),
        no_vins tx tp (rw (token_vins, at) refl),
      ),
      λ (t, s, k). (rw t refl, rw s refl),
    )
