-- ===== src/Mempool/TxPool/Singles.antt =====
-- mempool.go: the fee, the new token and the staking key of a transaction, against the pool.
use mathlib.Core.List.{Memᴰ}
use cash_prototype.Base.{
  ℕ, suc, ◌≡◌, refl, sym, ◌∙◌, ◌↔◌, ◌⊎◌, inl, inr, true, false, Option, none, some, List, [], ◌∷◌,
  arith, if◌then◌else◌, Bool-cases, Option-cases, String, str_eq, str_eq_iff, some-injective, ◌≤◌,
  ◌*◌, ◌%◌, ltb, u64_mod, subst,
}
use cash_prototype.Common.{index_of_str}
use cash_prototype.Common.Membership.{any-Mem, Mem-any}
use cash_prototype.Metadata.{contains, get_valid_staker}
use cash_prototype.Transaction.{
  Tx, TxKind, plain, token, token_privacy, salary, is_type, is_salary_tx, check_transaction_fee,
}
use cash_prototype.Mempool.TxPool.{TxPool, token_pooled, key_pooled}
use cash_prototype.Mempool.TxPool.Conditions.{type_of}

-- The fee covers the size, unless the metadata ask for none.
abbrev pub Pays : ℕ → Tx → Type 0
Pays min_fee_per_kb_tx tx =
    (tx.is_free ≡ true) ⊎ ((min_fee_per_kb_tx * tx.plain_size) % u64_mod ≤ tx.fee)

-- A transaction of the right type is no salary transaction.
pub typed-is_salary_tx : (tx : Tx) → tx.tx_type ≡ type_of tx.kind → is_salary_tx tx ≡ some false
unfolding is_salary_tx
typed-is_salary_tx tx e = rw (is_salary_tx, e) (go tx.kind)
  where
    go :
        (k : TxKind)
        → (if is_type (type_of k) salary
            then elim tx.inputs [ none ↦ none | some [] ↦ some true | some (_ ∷ _) ↦ some false ]
            else some false)
          ≡ some false
    go plain = refl
    go (token data') = refl
    go token_privacy = refl

pub check_transaction_fee-Pays :
    (min_fee_per_kb_tx : ℕ) (tx : Tx)
    → is_salary_tx tx ≡ some false
    → (check_transaction_fee min_fee_per_kb_tx tx ≡ some true) ↔ Pays min_fee_per_kb_tx tx
unfolding check_transaction_fee
check_transaction_fee-Pays min_fee_per_kb_tx tx e =
    let full = (min_fee_per_kb_tx * tx.plain_size) % u64_mod in
    rw (check_transaction_fee, e)
      ((
        λ passes. elim (Bool-cases tx.is_free) [
          | inl free ↦ inl free
          | inr asks ↦ inr (ground (arith, rw asks at passes))
        ],
        λ pays. elim pays [
          | inl free ↦ rw free refl
          | inr le ↦ elim (Bool-cases tx.is_free) [
            | inl free ↦ rw free refl
            | inr asks ↦
                let enough : ltb tx.fee full ≡ false = ground (arith, le) in rw (asks, enough) refl
          ]
        ],
      ))

index_of_str-Mem : (t : String) (xs : List String) → (index_of_str t xs ≡ none) ↔ (¬ Memᴰ t xs)
unfolding index_of_str
index_of_str-Mem t [] = (λ e m. elim m [ ], λ f. refl)
index_of_str-Mem t (x ∷ xs) = elim (Bool-cases (str_eq t x)) [
  | inl same ↦
      (λ e m. ground (arith, rw same at e), λ f. absurd (f (Memᴰ.head ((str_eq_iff t x).0 same))))
  | inr other ↦ elim (Option-cases (index_of_str t xs)) [
    | inl gone ↦ (
      λ e m. elim m [
        | Memᴰ.head at ↦ let same = (str_eq_iff t x).1 at in cc
        | Memᴰ.tail n ↦ (index_of_str-Mem t xs).0 gone n
      ],
      λ f. rw (index_of_str, other, gone) refl,
    )
    | inr (k, found) ↦ (
      λ e m. absurd (let e' : some (suc k) ≡ none = rw (other, found) at e in cc),
      λ f. absurd (
          let gone = (index_of_str-Mem t xs).1 (λ n. f (Memᴰ.tail n)) in
          let e : some k ≡ none = sym found ∙ gone in cc),
    )
  ]
]

pub token_pooled-Mem :
    (o : Option String) (tp : TxPool)
    → (token_pooled o tp ≡ false) ↔ ((t : String) → o ≡ some t → ¬ Memᴰ t tp.token_id_list)
token_pooled-Mem none tp = (λ e t at. cc, λ f. refl)
token_pooled-Mem (some t) tp = elim (Option-cases (index_of_str t tp.token_id_list)) [
  | inl gone ↦
      rw (token_pooled, gone)
        (
          λ e u at m.
              (index_of_str-Mem t tp.token_id_list).0 gone
                (subst (λ x. Memᴰ x tp.token_id_list) (sym (some-injective at)) m),
          λ f. refl,
        )
  | inr (k, found) ↦
      rw (token_pooled, found)
        (
          λ e. cc,
          λ f. absurd (
              let gone = (index_of_str-Mem t tp.token_id_list).1 (f t refl) in
              let e : some k ≡ none = sym found ∙ gone in cc),
        )
]

pub key_pooled-Mem :
    (o : Option String) (tp : TxPool)
    → (key_pooled o tp ≡ false) ↔ ((k : String) → o ≡ some k → ¬ Memᴰ k tp.candidate_list)
unfolding get_valid_staker
key_pooled-Mem none tp = (λ e t at. cc, λ f. refl)
key_pooled-Mem (some k) tp = elim (Bool-cases (contains tp.candidate_list k)) [
  | inl there ↦
      let (x, m, same) = any-Mem (str_eq k) tp.candidate_list there in
      rw (key_pooled, get_valid_staker, there)
        (
          λ e. cc,
          λ f.
              absurd (
                f k refl (subst (λ y. Memᴰ y tp.candidate_list) (sym ((str_eq_iff k x).0 same)) m)),
        )
  | inr out ↦
      rw (key_pooled, get_valid_staker, out)
        (
          λ e j at m.
              let here : str_eq k j ≡ true = (str_eq_iff k j).1 (some-injective at) in
              let found = Mem-any (str_eq k) tp.candidate_list j m here in cc,
          λ f. refl,
        )
]
