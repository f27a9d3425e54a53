-- ===== src/Database/Votes/Sums.antt =====
-- The votes for a candidate: what the database holds of them after any votes.
use cash_prototype.Base.{
  ℕ, ◌+◌, ◌%◌, ◌<◌, ◌≡◌, refl, sym, ap, subst, ◌∙◌, ◌≢◌, inl, inr, none, some, List, [], ◌∷◌, arith,
  if◌then◌else◌, Bool-cases, All, Outcome, done, panic, u64_mod, add64,
}
use cash_prototype.Common.Bytes.{
  Bytes, u32_mod, uint32_to_bytes, bytes_to_uint32, uint64_to_bytes, bytes_to_uint64,
  bytes_to_uint64-uint64_to_bytes, bytes_to_uint32-uint32_to_bytes,
}
use cash_prototype.Database.VoteKeys.{
  PaymentAddress, get_key_vote_board_sum, get_key_vote_board_count, get_key_vote_board_list,
  get_value_vote_board_list, parse_value_vote_board_list,
}
use cash_prototype.Database.VoteKeys.RoundTrip.{IsPaymentAddress}
use cash_prototype.Database.Votes.Keys.{
  is_for, is_for_iff, IsBallot, absurd_for, sum_key, sum_key-injective, count_key-injective,
  sum_prefix-ne-count, sum_prefix-ne-list, count_prefix-ne-list,
}
use cash_prototype.Database.Votes.{
  Database, Written, written, failed, crashed, ◌>>=◌, Ballot, store_value, read_number, with_number,
  add_sum, add_count, add_voter, add_vote_board, add_votes,
}

-- The votes that the candidate got in all, and their number.
unfoldable pub received : ℕ → ℕ → PaymentAddress → List Ballot → ℕ
received board index c [] = 0
received board index c (v ∷ vs) =
    (if is_for board index c v then v.amount else 0) + received board index c vs

pub times : ℕ → ℕ → PaymentAddress → List Ballot → ℕ
times board index c [] = 0
times board index c (v ∷ vs) = (if is_for board index c v then 1 else 0) + times board index c vs

pub >>=-written :
    {S : Type 0} (m : Written S) (rest : S → Written S) {u : S}
    → (m >>= rest) ≡ written u
    → (t : S) × (m ≡ written t) × (rest t ≡ written u)
>>=-written (written t) rest e = (t, refl, e)
>>=-written (failed t) rest e = cc
>>=-written crashed rest e = cc

module _ (db : Database) where
  open db use {Store, get, write}

  pub store_value-written :
      (key value : Bytes) (s t : Store)
      → store_value db key value s ≡ written t
      → (get t key ≡ some value) × ((other : Bytes) → other ≢ key → get t other ≡ get s other)
  unfolding store_value
  store_value-written key value s t e = elim (Bool-cases (write key value s).1) [
    | inl fine ↦
        let same : (write key value s).0 ≡ t = ground arith in
        (
          subst (λ u. get u key ≡ some value) same (db.get-write_same key value s fine),
          λ other ne.
              subst (λ u. get u other ≡ get s other) same (db.get-write_other key other value s ne),
        )
    | inr bad ↦ absurd (ground arith)
  ]

  module _ (decode : Bytes → Outcome ℕ) (encode : ℕ → Bytes) (key : Bytes) (s t : Store) where
    bump : Outcome ℕ → Written Store
    bump o = with_number db o λ current. store_value db key (encode current) s

    bump-other :
        (o : Outcome ℕ)
        → bump o ≡ written t
        → (other : Bytes) → other ≢ key
        → get t other ≡ get s other
    unfolding bump
    bump-other (done n) e other ne = (store_value-written key (encode n) s t e).1 other ne
    bump-other panic e other ne = cc

    bump-same :
        (n m : ℕ)
        → bump (done n) ≡ written t
        → decode (encode n) ≡ done m
        → read_number db decode key t ≡ done m
    unfolding bump read_number
    bump-same n m e back = rw ((store_value-written key (encode n) s t e).0, read_number) back

  read_number_same :
      (decode : Bytes → Outcome ℕ) (key : Bytes) (s t : Store)
      → get t key ≡ get s key
      → read_number db decode key t ≡ read_number db decode key s
  unfolding read_number
  read_number_same decode key s t e = rw (e, read_number) refl

  -- One vote adds its amount to the sum of its candidate, modulo 2^64, and changes no other sum.
  add_vote_board-sum :
      (v : Ballot) (s t : Store) (board index n : ℕ) (c : PaymentAddress)
      → IsBallot v
      → index < u32_mod
      → IsPaymentAddress c
      → add_vote_board db v s ≡ written t
      → read_number db bytes_to_uint64 (sum_key board index c) s ≡ done n
      → read_number db bytes_to_uint64 (sum_key board index c) t
        ≡ done (if is_for board index c v then add64 n v.amount else n)
  unfolding add_vote_board add_sum add_count add_voter bump get_key_vote_board_sum
      get_key_vote_board_count get_key_vote_board_list
  add_vote_board-sum v s t board index n c (lt, voter, cand) lt' fits e before =
      let (s1, e1, r1) = >>=-written (add_sum db v s) _ e in
      let (s2, e2, r2) = >>=-written (add_count db v s1) _ r1 in
      let key = sum_key board index c in
      let mine = sum_key v.board v.index v.candidate in
      let count_key = get_key_vote_board_count v.board v.index v.candidate in
      let list_key = get_key_vote_board_list v.board v.index (some v.candidate) (some v.voter) in
      let keep2 =
        bump-other bytes_to_uint32 (λ k. uint32_to_bytes ((k + 1) % u32_mod)) count_key s1 s2
          (read_number db bytes_to_uint32 count_key s1) e2 key (sum_prefix-ne-count _ _) in
      let keep3 =
        bump-other parse_value_vote_board_list (λ k. get_value_vote_board_list (add64 k v.amount))
          list_key s2 t (read_number db parse_value_vote_board_list list_key s2) r2 key
          (sum_prefix-ne-list _ _) in
      let rest = read_number_same bytes_to_uint64 key s1 t (keep3 ∙ keep2) in
      elim (Bool-cases (is_for board index c v)) [
        | inl here ↦
            let (b, i, same) = (is_for_iff board index c v).0 here in
            let keys : mine ≡ key = λ j. sum_key (b j) (i j) (same j) in
            let now =
              bump-same bytes_to_uint64 (λ k. uint64_to_bytes (add64 k v.amount)) mine s s1 n
                (add64 n v.amount)
                (subst
                  (λ o.
                    with_number db o
                      (λ k. store_value db mine (uint64_to_bytes (add64 k v.amount)) s)
                    ≡ written s1)
                  (ap (λ k. read_number db bytes_to_uint64 k s) keys ∙ before) e1)
                (bytes_to_uint64-uint64_to_bytes (add64 n v.amount) (ground arith)) in
            rw here (
              rest
              ∙ subst (λ k. read_number db bytes_to_uint64 k s1 ≡ done (add64 n v.amount)) keys now)
        | inr other ↦
            let apart : key ≢ mine = λ same. absurd_for board index c v other (
              sum_key-injective v.board board v.index index v.candidate c lt lt' cand fits
                (sym same)) in
            let keep1 =
              bump-other bytes_to_uint64 (λ k. uint64_to_bytes (add64 k v.amount)) mine s s1
                (read_number db bytes_to_uint64 mine s) e1 key apart in
            rw other (rest ∙ read_number_same bytes_to_uint64 key s s1 keep1 ∙ before)
      ]

  -- One vote adds one to the number of votes of its candidate, modulo 2^32, and changes no other.
  add_vote_board-count :
      (v : Ballot) (s t : Store) (board index n : ℕ) (c : PaymentAddress)
      → IsBallot v
      → index < u32_mod
      → IsPaymentAddress c
      → add_vote_board db v s ≡ written t
      → read_number db bytes_to_uint32 (get_key_vote_board_count board index c) s ≡ done n
      → read_number db bytes_to_uint32 (get_key_vote_board_count board index c) t
        ≡ done (if is_for board index c v then (n + 1) % u32_mod else n)
  unfolding add_vote_board add_sum add_count add_voter bump get_key_vote_board_sum
      get_key_vote_board_count get_key_vote_board_list
  add_vote_board-count v s t board index n c (lt, voter, cand) lt' fits e before =
      let (s1, e1, r1) = >>=-written (add_sum db v s) _ e in
      let (s2, e2, r2) = >>=-written (add_count db v s1) _ r1 in
      let key = get_key_vote_board_count board index c in
      let mine = get_key_vote_board_count v.board v.index v.candidate in
      let other_key = sum_key v.board v.index v.candidate in
      let list_key = get_key_vote_board_list v.board v.index (some v.candidate) (some v.voter) in
      let add_one = λ (k : ℕ). uint32_to_bytes ((k + 1) % u32_mod) in
      let keep1 =
        bump-other bytes_to_uint64 (λ k. uint64_to_bytes (add64 k v.amount)) other_key s s1
          (read_number db bytes_to_uint64 other_key s) e1 key
          (λ same. sum_prefix-ne-count _ _ (sym same)) in
      let keep3 =
        bump-other parse_value_vote_board_list (λ k. get_value_vote_board_list (add64 k v.amount))
          list_key s2 t (read_number db parse_value_vote_board_list list_key s2) r2 key
          (count_prefix-ne-list _ _) in
      let first = read_number_same bytes_to_uint32 key s s1 keep1 ∙ before in
      let rest = read_number_same bytes_to_uint32 key s2 t keep3 in
      elim (Bool-cases (is_for board index c v)) [
        | inl here ↦
            let (b, i, same) = (is_for_iff board index c v).0 here in
            let keys : mine ≡ key = λ j. get_key_vote_board_count (b j) (i j) (same j) in
            let now =
              bump-same bytes_to_uint32 add_one mine s1 s2 n ((n + 1) % u32_mod)
                (subst
                  (λ o. with_number db o (λ k. store_value db mine (add_one k) s1) ≡ written s2)
                  (ap (λ k. read_number db bytes_to_uint32 k s1) keys ∙ first) e2)
                (bytes_to_uint32-uint32_to_bytes ((n + 1) % u32_mod) (omega arith)) in
            rw here (
              rest
              ∙ subst (λ k. read_number db bytes_to_uint32 k s2 ≡ done ((n + 1) % u32_mod)) keys
                  now)
        | inr other ↦
            let apart : key ≢ mine = λ same. absurd_for board index c v other (
              count_key-injective v.board board v.index index v.candidate c lt lt' cand fits
                (sym same)) in
            let keep2 =
              bump-other bytes_to_uint32 add_one mine s1 s2 (read_number db bytes_to_uint32 mine s1)
                e2 key apart in
            rw other (rest ∙ read_number_same bytes_to_uint32 key s1 s2 keep2 ∙ first)
      ]

  add_votes-from :
      (vs : List Ballot) (s t : Store) (board index n k : ℕ) (c : PaymentAddress)
      → All IsBallot vs
      → index < u32_mod
      → IsPaymentAddress c
      → n < u64_mod
      → k < u32_mod
      → add_votes db vs s ≡ written t
      → read_number db bytes_to_uint64 (sum_key board index c) s ≡ done n
      → read_number db bytes_to_uint32 (get_key_vote_board_count board index c) s ≡ done k
      → (read_number db bytes_to_uint64 (sum_key board index c) t
          ≡ done ((n + received board index c vs) % u64_mod))
        × (read_number db bytes_to_uint32 (get_key_vote_board_count board index c) t
            ≡ done ((k + times board index c vs) % u32_mod))
  unfolding add_votes received times
  add_votes-from [] s t board index n k c valid lt fits small few e sum count =
      let same : s ≡ t = cc in
      let sum_now : n ≡ (n + 0) % u64_mod = omega arith in
      let count_now : k ≡ (k + 0) % u32_mod = omega arith in
      (
        ap (read_number db bytes_to_uint64 (sum_key board index c)) (sym same)
            ∙ sum
            ∙ ap done sum_now,
        ap (read_number db bytes_to_uint32 (get_key_vote_board_count board index c)) (sym same)
            ∙ count
            ∙ ap done count_now,
      )
  add_votes-from (v ∷ vs) s t board index n k c valid lt fits small few e sum count =
      let (u, e1, rest) = >>=-written (add_vote_board db v s) _ e in
      let mine = is_for board index c v in
      let n' = if mine then add64 n v.amount else n in
      let k' = if mine then (k + 1) % u32_mod else k in
      let (sums, counts) =
        add_votes-from vs u t board index n' k' c valid.1 lt fits (ground arith) (ground arith) rest
          (add_vote_board-sum v s u board index n c valid.0 lt fits e1 sum)
          (add_vote_board-count v s u board index k c valid.0 lt fits e1 count) in
      (sums ∙ ap done (ground arith), counts ∙ ap done (ground arith))

  -- After any votes that are all written, in a database that had none for a candidate, the stored
  -- sum and number of the candidate's votes are those that the votes gave, modulo 2^64 and 2^32.
  -- The indexes are uint32 and the addresses have two 33-byte keys.
  pub add_votes-received :
      (vs : List Ballot) (s t : Store) (board index : ℕ) (c : PaymentAddress)
      → All IsBallot vs
      → index < u32_mod
      → IsPaymentAddress c
      → get s (sum_key board index c) ≡ none
      → get s (get_key_vote_board_count board index c) ≡ none
      → add_votes db vs s ≡ written t
      → (read_number db bytes_to_uint64 (sum_key board index c) t
          ≡ done (received board index c vs % u64_mod))
        × (read_number db bytes_to_uint32 (get_key_vote_board_count board index c) t
            ≡ done (times board index c vs % u32_mod))
  unfolding read_number
  add_votes-received vs s t board index c valid lt fits no_sum no_count e =
      let (sums, counts) =
        add_votes-from vs s t board index 0 0 c valid lt fits (omega arith) (omega arith) e
          (rw (no_sum, read_number) refl) (rw (no_count, read_number) refl) in
      (sums ∙ ap done (omega arith), counts ∙ ap done (omega arith))
