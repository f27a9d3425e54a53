-- ===== src/Database/Votes/Keys.antt =====
-- The keys of the votes: which are the same.
use cash_prototype.Base.{
  ℕ, ◌<◌, ◌≡◌, refl, sym, ap, ◌∙◌, ◌≢◌, ◌↔◌, Bool, true, false, ◌&&◌, some, List, [], ◌∷◌, flatten,
  arith, ◌==◌, get_elem?, or_else,
}
use cash_prototype.Common.Bytes.{Bytes, u32_mod, uint32_to_bytes, bytes_eq, bytes_eq_iff}
use cash_prototype.Database.Keys.{get_key_from_variadic}
use cash_prototype.Database.Keys.Parsing.{get_key-injective, get_key-flatten, parsed-injective}
use cash_prototype.Database.VoteKeys.{
  PaymentAddress, address_bytes, vote_board_sum_prefix, vote_board_count_prefix,
  vote_board_list_prefix, get_key_vote_board_sum, parse_key_vote_board_sum,
  get_key_vote_board_count,
}
use cash_prototype.Database.VoteKeys.RoundTrip.{
  IsPaymentAddress, length-address_bytes, length-uint32_to_bytes, parse_key_vote_board_sum-get,
}
use cash_prototype.Database.Votes.{Ballot}

-- Is the vote one for the candidate?
unfoldable pub is_for : ℕ → ℕ → PaymentAddress → Ballot → Bool
is_for board index c v =
    v.board == board
    && (v.index == index && (bytes_eq v.candidate.pk c.pk && bytes_eq v.candidate.tk c.tk))

-- A vote as the chain makes it.
abbrev pub IsBallot : Ballot → Type 0
IsBallot v = (v.index < u32_mod) × IsPaymentAddress v.voter × IsPaymentAddress v.candidate

pub is_for_iff :
    (board index : ℕ) (c : PaymentAddress) (v : Ballot)
    → (is_for board index c v ≡ true) ↔ ((v.board ≡ board) × (v.index ≡ index) × (v.candidate ≡ c))
unfolding is_for
is_for_iff board index c v =
    let pk = bytes_eq_iff v.candidate.pk c.pk in
    let tk = bytes_eq_iff v.candidate.tk c.tk in
    (λ h. ground (arith, pk.0, tk.0), λ h. ground (arith, pk.1, tk.1))

abbrev pub sum_key : ℕ → ℕ → PaymentAddress → Bytes
sum_key board index c = get_key_vote_board_sum board index (some c)

pub sum_key-injective :
    (b b' i i' : ℕ) (c c' : PaymentAddress)
    → i < u32_mod
    → i' < u32_mod
    → IsPaymentAddress c
    → IsPaymentAddress c'
    → sum_key b i c ≡ sum_key b' i' c'
    → (b ≡ b') × (i ≡ i') × (c ≡ c')
sum_key-injective b b' i i' c c' lt lt' fits fits' e =
    let same = parsed-injective (
      sym (parse_key_vote_board_sum-get b i c lt fits)
      ∙ ap parse_key_vote_board_sum e
      ∙ parse_key_vote_board_sum-get b' i' c' lt' fits') in
    (ap (λ r. r.0) same, ap (λ r. r.1) same, ap (λ r. r.2) same)

pub absurd_for :
    (board index : ℕ) (c : PaymentAddress) (v : Ballot)
    → is_for board index c v ≡ false
    → (v.board ≡ board) × (v.index ≡ index) × (v.candidate ≡ c)
    → ⊥
absurd_for board index c v other same = let here = (is_for_iff board index c v).1 same in cc

sum_key_of_parts :
    (b b' i i' : ℕ) (c c' : PaymentAddress)
    → (b ∷ []) ∷ uint32_to_bytes i ∷ address_bytes c ∷ []
      ≡ (b' ∷ []) ∷ uint32_to_bytes i' ∷ address_bytes c' ∷ []
    → sum_key b i c ≡ sum_key b' i' c'
unfolding get_key_vote_board_sum
sum_key_of_parts b b' i i' c c' e =
    ap (λ (r : List Bytes). get_key_from_variadic (vote_board_sum_prefix ∷ r)) e

pub count_key-injective :
    (b b' i i' : ℕ) (c c' : PaymentAddress)
    → i < u32_mod
    → i' < u32_mod
    → IsPaymentAddress c
    → IsPaymentAddress c'
    → get_key_vote_board_count b i c ≡ get_key_vote_board_count b' i' c'
    → (b ≡ b') × (i ≡ i') × (c ≡ c')
unfolding get_key_vote_board_count
count_key-injective b b' i i' c c' lt lt' fits fits' e =
    let args =
      λ (j : ℕ) (k : ℕ) (a : PaymentAddress). (j ∷ []) ∷ uint32_to_bytes k ∷ address_bytes a ∷ [] in
    let same =
      get_key-injective (vote_board_count_prefix ∷ args b i c)
        (vote_board_count_prefix ∷ args b' i' c')
        (rw
          (
            length-uint32_to_bytes i,
            length-uint32_to_bytes i',
            length-address_bytes c fits,
            length-address_bytes c' fits',
          )
          refl)
        e in
    sum_key-injective b b' i i' c c' lt lt' fits fits' (sum_key_of_parts b b' i i' c c' (cc))

-- Keys with the prefixes of the three families differ.
pub sum_prefix-ne-count :
    (xs ys : List Bytes)
    → get_key_from_variadic (vote_board_sum_prefix ∷ xs)
      ≢ get_key_from_variadic (vote_board_count_prefix ∷ ys)
unfolding flatten
sum_prefix-ne-count xs ys e =
    let first =
      sym (get_key-flatten (vote_board_sum_prefix ∷ xs))
      ∙ e
      ∙ get_key-flatten (vote_board_count_prefix ∷ ys) in
    let letter : ◌≡◌ {A = ℕ} b's' b'c' = ap (λ r. or_else 0 (get_elem? r 4)) first in omega arith

pub sum_prefix-ne-list :
    (xs ys : List Bytes)
    → get_key_from_variadic (vote_board_sum_prefix ∷ xs)
      ≢ get_key_from_variadic (vote_board_list_prefix ∷ ys)
unfolding flatten
sum_prefix-ne-list xs ys e =
    let first =
      sym (get_key-flatten (vote_board_sum_prefix ∷ xs))
      ∙ e
      ∙ get_key-flatten (vote_board_list_prefix ∷ ys) in
    let letter : ◌≡◌ {A = ℕ} b's' b'l' = ap (λ r. or_else 0 (get_elem? r 4)) first in omega arith

pub count_prefix-ne-list :
    (xs ys : List Bytes)
    → get_key_from_variadic (vote_board_count_prefix ∷ xs)
      ≢ get_key_from_variadic (vote_board_list_prefix ∷ ys)
unfolding flatten
count_prefix-ne-list xs ys e =
    let first =
      sym (get_key-flatten (vote_board_count_prefix ∷ xs))
      ∙ e
      ∙ get_key-flatten (vote_board_list_prefix ∷ ys) in
    let letter : ◌≡◌ {A = ℕ} b'c' b'l' = ap (λ r. or_else 0 (get_elem? r 4)) first in omega arith
