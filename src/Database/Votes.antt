-- ===== src/Database/Votes.antt =====
-- database/lvdb/vote.go: the votes for the boards.
pub mod Keys
pub mod Sums
use cash_prototype.Base.{
  ℕ, zero, suc, ◌+◌, ◌-◌, ◌*◌, ◌/◌, ◌%◌, ◌≤◌, ◌<◌, min, max, ◌≡◌, refl, sym, ap, subst, ◌∙◌, ◌≢◌,
  ◌↔◌, ◌⊎◌, inl, inr, Bool, true, false, ◌&&◌, ◌||◌, not, Option, none, some, List, [], ◌∷◌, ◌++◌,
  map, append_assoc, flatten, arith, ltb, leb, ◌==◌, if◌then◌else◌, Bool-cases, Option-cases, ==→eq,
  ==_refl, length, take, drop, get_elem?, All, Outcome, done, panic, put, or_else, u64_mod, add64,
  sub64,
}
use cash_prototype.Common.Bytes.{
  Bytes, u32_mod, uint32_to_bytes, bytes_to_uint32, uint64_to_bytes, bytes_to_uint64,
}
use cash_prototype.Database.VoteKeys.{
  PaymentAddress, get_key_vote_board_sum, get_key_vote_board_count, get_key_vote_board_list,
  get_value_vote_board_list, parse_value_vote_board_list,
}

-- What the code relies on of the key-value database: a key that was written successfully reads as
-- the value, and no other key reads otherwise.
pub record Database : Type 1 where
  pub Store : Type 0
  pub get : Store → Bytes → Option Bytes
  pub write : Bytes → Bytes → Store → Store × Bool
  pub get-write_same :
      (key value : Bytes) (s : Store)
      → (write key value s).1 ≡ true
      → get (write key value s).0 key ≡ some value
  pub get-write_other :
      (key other value : Bytes) (s : Store)
      → other ≢ key
      → get (write key value s).0 other ≡ get s other
  -- `none` is an error.
  pub has : Store → Bytes → Option Bool
  pub has-present : (key : Bytes) (s : Store) → has s key ≡ some true → get s key ≢ none
  pub has-absent : (key : Bytes) (s : Store) → has s key ≡ some false → get s key ≡ none

-- A step that writes; a failed one leaves what was written before it.
pub data Written (S : Type 0) : Type 0 where
  written : S → Written S
  failed : S → Written S
  crashed : Written S

infixl 5 ◌>>=◌
abbrev pub ◌>>=◌ : {S : Type 0} → Written S → (S → Written S) → Written S
written s >>= rest = rest s
failed s >>= rest = failed s
crashed >>= rest = crashed

pub record Ballot : Type 0 where
  pub board : ℕ
  pub index : ℕ
  pub voter : PaymentAddress
  pub candidate : PaymentAddress
  pub amount : ℕ

module _ (db : Database) where
  open db use {Store, get, write}

  -- `err = db.Put(key, value)`
  unfoldable pub store_value : Bytes → Bytes → Store → Written Store
  store_value key value s =
      let (t, fine) = write key value s in if fine then written t else failed t

  -- The number that a value stands for, 0 where the key is not there; a short value panics.
  unfoldable pub read_number : (Bytes → Outcome ℕ) → Bytes → Store → Outcome ℕ
  read_number decode key s = elim (get s key) [ none ↦ done 0 | some value ↦ decode value ]

  abbrev pub with_number : Outcome ℕ → (ℕ → Written Store) → Written Store
  with_number (done n) rest = rest n
  with_number panic rest = crashed

  -- The sum of the votes of a candidate.
  unfoldable pub add_sum : Ballot → Store → Written Store
  unfolding store_value read_number
  add_sum v s =
      let key = get_key_vote_board_sum v.board v.index (some v.candidate) in
      with_number (read_number bytes_to_uint64 key s)
        λ current. store_value key (uint64_to_bytes (add64 current v.amount)) s

  -- The number of the votes of a candidate.
  unfoldable pub add_count : Ballot → Store → Written Store
  unfolding store_value read_number
  add_count v s =
      let key = get_key_vote_board_count v.board v.index v.candidate in
      with_number (read_number bytes_to_uint32 key s)
        λ current. store_value key (uint32_to_bytes ((current + 1) % u32_mod)) s

  -- What a voter gave a candidate.
  unfoldable pub add_voter : Ballot → Store → Written Store
  unfolding store_value read_number
  add_voter v s =
      let key = get_key_vote_board_list v.board v.index (some v.candidate) (some v.voter) in
      with_number (read_number parse_value_vote_board_list key s)
        λ old. store_value key (get_value_vote_board_list (add64 old v.amount)) s

  -- AddVoteBoard
  unfoldable pub add_vote_board : Ballot → Store → Written Store
  unfolding add_sum add_count add_voter
  add_vote_board v s = do
    after_sum ← add_sum v s
    after_count ← add_count v after_sum
    add_voter v after_count

  -- The votes of a list, one after the other.
  unfoldable pub add_votes : List Ballot → Store → Written Store
  unfolding add_vote_board
  add_votes [] s = written s
  add_votes (v ∷ vs) s = add_vote_board v s >>= add_votes vs
