-- ===== src/Database/Proposals.antt =====
-- database/lvdb/vote.go: the votes for proposals, the vote tokens and the values of the encryption.
pub mod Phases
use cash_prototype.Base.{
  ℕ, zero, suc, ◌+◌, ◌-◌, ◌*◌, ◌/◌, ◌%◌, ◌≤◌, ◌<◌, min, max, ◌≡◌, refl, sym, ap, subst, ◌∙◌, ◌≢◌,
  ◌↔◌, ◌⊎◌, inl, inr, Bool, true, false, ◌&&◌, ◌||◌, not, Option, none, some, List, [], ◌∷◌, ◌++◌,
  map, append_assoc, flatten, arith, ltb, leb, ◌==◌, if◌then◌else◌, Bool-cases, Option-cases, ==→eq,
  ==_refl, length, take, drop, get_elem?, All, Outcome, done, panic, put, or_else, u64_mod, add64,
  sub64,
}
use cash_prototype.Common.Bytes.{
  Bytes, u32_mod, uint32_to_bytes, bytes_to_uint32, uint64_to_bytes, bytes_to_uint64,
}
use cash_prototype.Database.VoteKeys.{
  PaymentAddress, address_bytes, get_key_three_phrase_crypto_owner,
  get_key_three_phrase_crypto_sealer, get_key_three_phrase_vote_value, get_key_vote_token_amount,
  get_key_winning_voter, get_key_encrypt_flag, get_key_encryption_last_block_height,
}
use cash_prototype.Database.Votes.{
  Database, Written, written, failed, crashed, ◌>>=◌, with_number, store_value,
}

-- What a reader returns; a value that is too short panics.
pub data Found : Type 0 where
  found : ℕ → Found
  missing : Found
  too_short : Found

abbrev pub decoded : Outcome ℕ → Found
decoded (done n) = found n
decoded panic = too_short

module _ (db : Database) where
  open db use {Store, get, write, has}

  -- `value, err := db.Get(key)`
  abbrev pub with_value : Option Bytes → Store → (Bytes → Written Store) → Written Store
  with_value none s rest = failed s
  with_value (some value) s rest = rest value

  -- `db.Put(key, value)`, its error not looked at
  unfoldable pub put_value : Bytes → Bytes → Store → Store
  put_value key value s = (write key value s).0

  -- The key must not be there: an error of HasValue, or "duplicate txid".
  unfoldable pub refuse_duplicate : Bytes → Store → Written Store
  refuse_duplicate key s = elim (has s key) [
    | none ↦ failed s
    | some there ↦ if there then failed s else written s
  ]

  -- AddVoteLv3ProposalDB
  unfoldable pub add_vote_lv3_proposal : ℕ → ℕ → Option Bytes → Store → Written Store
  unfolding put_value refuse_duplicate
  add_vote_lv3_proposal board index tx_id s = do
    let sealer = get_key_three_phrase_crypto_sealer board index tx_id
    let owner = get_key_three_phrase_crypto_owner board index tx_id
    fresh ← refuse_duplicate sealer s
    let with_sealer = put_value sealer (uint32_to_bytes 0) fresh
    still_fresh ← refuse_duplicate owner with_sealer
    written (put_value owner (uint32_to_bytes 0) still_fresh)

  -- AddVoteLv1or2ProposalDB
  unfoldable pub add_vote_lv1or2_proposal : ℕ → ℕ → Option Bytes → Store → Written Store
  unfolding put_value refuse_duplicate
  add_vote_lv1or2_proposal board index tx_id s = do
    let sealer = get_key_three_phrase_crypto_sealer board index tx_id
    fresh ← refuse_duplicate sealer s
    with_value (get fresh sealer) fresh λ value.
        with_number db (bytes_to_uint32 value)
          λ n. written (put_value sealer (uint32_to_bytes ((n + 1) % u32_mod)) fresh)

  -- AddVoteNormalProposalFromSealerDB
  unfoldable pub add_vote_normal_from_sealer : ℕ → ℕ → Option Bytes → Bytes → Store → Written Store
  unfolding put_value add_vote_lv1or2_proposal
  add_vote_normal_from_sealer board index tx_id vote s = do
    counted ← add_vote_lv1or2_proposal board index tx_id s
    written (put_value (get_key_three_phrase_vote_value board index tx_id) vote counted)

  -- AddVoteNormalProposalFromOwnerDB
  unfoldable pub add_vote_normal_from_owner : ℕ → ℕ → Option Bytes → Bytes → Store → Written Store
  unfolding put_value refuse_duplicate
  add_vote_normal_from_owner board index tx_id vote s = do
    let owner = get_key_three_phrase_crypto_owner board index tx_id
    fresh ← refuse_duplicate owner s
    let counted = put_value owner (uint32_to_bytes 1) fresh
    written (put_value (get_key_three_phrase_vote_value board index tx_id) vote counted)

  -- A number that a reader returns.
  unfoldable pub read : (Bytes → Outcome ℕ) → Bytes → Store → Found
  read decode key s = elim (get s key) [ none ↦ missing | some value ↦ decoded (decode value) ]

  -- GetVoteTokenAmount
  unfoldable pub get_vote_token_amount : ℕ → ℕ → PaymentAddress → Store → Found
  unfolding read
  get_vote_token_amount board index address =
      read bytes_to_uint32 (get_key_vote_token_amount board index address)

  -- A key that is not there is written as 0; an error of HasValue is returned.
  unfoldable pub present_or_zero : Bytes → Store → Written Store
  unfolding put_value
  present_or_zero key s = elim (has s key) [
    | none ↦ failed s
    | some there ↦ written (if there then s else put_value key (uint32_to_bytes 0) s)
  ]

  -- SetVoteTokenAmount
  unfoldable pub set_vote_token_amount : ℕ → ℕ → PaymentAddress → ℕ → Store → Written Store
  unfolding present_or_zero store_value
  set_vote_token_amount board index address amount s = do
    let key = get_key_vote_token_amount board index address
    ready ← present_or_zero key s
    store_value db key (uint32_to_bytes amount) ready

  -- TakeVoteTokenFromWinner; the int32 amount is its 32-bit pattern.
  unfoldable pub take_vote_token_from_winner : ℕ → ℕ → PaymentAddress → ℕ → Store → Written Store
  unfolding put_value
  take_vote_token_from_winner board index voter amount s =
      let key = get_key_vote_token_amount board index voter in
      with_value (get s key) s λ value. with_number db (bytes_to_uint32 value) λ current.
        written (put_value key (uint32_to_bytes ((current + u32_mod - amount) % u32_mod)) s)

  -- SetNewProposalWinningVoter
  unfoldable pub set_new_proposal_winning_voter : ℕ → ℕ → PaymentAddress → Store → Store
  unfolding put_value
  set_new_proposal_winning_voter board index voter =
      put_value (get_key_winning_voter board index) (address_bytes voter)

  -- `value[0]` of a value of length 1; "wrong flag format" is `too_short`
  flag : Bytes → Outcome ℕ
  flag (b ∷ []) = done b
  flag (b ∷ c ∷ more) = panic
  flag [] = panic

  -- GetEncryptFlag
  unfoldable pub get_encrypt_flag : ℕ → Store → Found
  unfolding read flag
  get_encrypt_flag board = read flag (get_key_encrypt_flag board)

  -- SetEncryptFlag
  unfoldable pub set_encrypt_flag : ℕ → ℕ → Store → Store
  unfolding put_value
  set_encrypt_flag board b = put_value (get_key_encrypt_flag board) (b ∷ [])

  -- GetEncryptionLastBlockHeight
  unfoldable pub get_encryption_last_block_height : ℕ → Store → Found
  unfolding read
  get_encryption_last_block_height board =
      read bytes_to_uint64 (get_key_encryption_last_block_height board)

  -- SetEncryptionLastBlockHeight
  unfoldable pub set_encryption_last_block_height : ℕ → ℕ → Store → Store
  unfolding put_value
  set_encryption_last_block_height board height =
      put_value (get_key_encryption_last_block_height board) (uint64_to_bytes height)
