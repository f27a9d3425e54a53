-- ===== src/Database/VoteKeys.antt =====
-- database/lvdb/parsekeyvote.go: the keys of the votes.
pub mod RoundTrip
use cash_prototype.Base.{
  ℕ, zero, suc, ◌+◌, ◌-◌, ◌*◌, ◌/◌, ◌%◌, ◌≤◌, ◌<◌, min, max, ◌≡◌, refl, sym, ap, subst, ◌∙◌, ◌≢◌,
  ◌↔◌, ◌⊎◌, inl, inr, Bool, true, false, ◌&&◌, ◌||◌, not, Option, none, some, List, [], ◌∷◌, ◌++◌,
  map, append_assoc, flatten, arith, ltb, leb, ◌==◌, if◌then◌else◌, Bool-cases, Option-cases, ==→eq,
  ==_refl, length, take, drop, get_elem?, All, Outcome, done, panic, put, or_else, u64_mod, add64,
  sub64, codes,
}
use cash_prototype.Common.Bytes.{
  Bytes, uint32_to_bytes, bytes_to_uint32, uint64_to_bytes, bytes_to_uint64,
}
use cash_prototype.Database.Keys.{
  KeyError, length_mismatch, invalid_hash_length, Parsed, parsed, refused, panics, ◌>>=◌, run,
  get_key_from_variadic, parse_key_to_slice, check_length,
}

-- privacy/key.go: a payment address.
pub record PaymentAddress : Type 0 where
  pub pk : Bytes
  pub tk : Bytes

-- PaymentAddress.Bytes
unfoldable pub address_bytes : PaymentAddress → Bytes
address_bytes a = a.pk ++ a.tk

abbrev pub compressed_point_size : ℕ
compressed_point_size = 33

abbrev pub pub_key_length : ℕ
pub_key_length = 33

abbrev pub payment_address_length : ℕ
payment_address_length = 66

abbrev pub hash_size : ℕ
hash_size = 32

-- NewPaymentAddressFromByte
unfoldable pub new_payment_address_from_byte : Bytes → Parsed PaymentAddress
new_payment_address_from_byte b =
    if ltb (length b) compressed_point_size
    then panics
    else parsed (record { pk = take compressed_point_size b; tk = drop compressed_point_size b })

-- NewHash
unfoldable pub new_hash : Bytes → Parsed Bytes
new_hash b = if length b == hash_size then parsed b else refused invalid_hash_length

-- `elements[i]`
unfoldable pub element : List Bytes → ℕ → Parsed Bytes
element elements i = elim (get_elem? elements i) [ none ↦ panics | some b ↦ parsed b ]

-- `common.BoardType(b[0])`
unfoldable pub board_type : Bytes → Parsed ℕ
board_type [] = panics
board_type (b ∷ bs) = parsed b

-- The bytes of what a pointer points to, none for nil.
unfoldable pub bytes_or_none : Option PaymentAddress → Bytes
bytes_or_none none = []
bytes_or_none (some a) = address_bytes a

abbrev pub vote_board_sum_prefix : Bytes
vote_board_sum_prefix = codes "votesumboard-"

abbrev pub vote_board_count_prefix : Bytes
vote_board_count_prefix = codes "votecountboard-"

abbrev pub vote_board_list_prefix : Bytes
vote_board_list_prefix = codes "votelistboard-"

abbrev pub vote_token_amount_prefix : Bytes
vote_token_amount_prefix = codes "votetokenamount-"

abbrev pub three_phrase_crypto_owner_prefix : Bytes
three_phrase_crypto_owner_prefix = codes "threephrasecryptoownerprefix-"

abbrev pub three_phrase_crypto_sealer_prefix : Bytes
three_phrase_crypto_sealer_prefix = codes "threephrasecryptosealerprefix-"

abbrev pub three_phrase_vote_value_prefix : Bytes
three_phrase_vote_value_prefix = codes "threephrasevotevalueprefix-"

abbrev winning_voter_prefix : Bytes
winning_voter_prefix = codes "winningvoterprefix-"

abbrev encrypt_flag_prefix : Bytes
encrypt_flag_prefix = codes "encryptFlagPrefix"

abbrev encryption_last_block_height_prefix : Bytes
encryption_last_block_height_prefix = codes "encryptionlastblockheightprefix"

-- GetKeyVoteBoardSum
unfoldable pub get_key_vote_board_sum : ℕ → ℕ → Option PaymentAddress → Bytes
unfolding uint32_to_bytes
get_key_vote_board_sum board index none =
    get_key_from_variadic (vote_board_sum_prefix ∷ (board ∷ []) ∷ uint32_to_bytes index ∷ [])
get_key_vote_board_sum board index (some candidate) =
    get_key_from_variadic
      (vote_board_sum_prefix ∷ (board ∷ []) ∷ uint32_to_bytes index ∷ address_bytes candidate ∷ [])

-- ParseKeyVoteBoardSum
unfoldable pub parse_key_vote_board_sum : Bytes → Parsed (ℕ × ℕ × PaymentAddress)
unfolding element board_type
parse_key_vote_board_sum key = do
  elements ←
      parse_key_to_slice key (length vote_board_sum_prefix ∷ 1 ∷ 4 ∷ payment_address_length ∷ [])
  first ← element elements 1
  board ← board_type first
  second ← element elements 2
  index ← run (bytes_to_uint32 second)
  third ← element elements 3
  address ← new_payment_address_from_byte third
  parsed (board, index, address)

-- GetKeyVoteBoardCount
unfoldable pub get_key_vote_board_count : ℕ → ℕ → PaymentAddress → Bytes
get_key_vote_board_count board index address =
    get_key_from_variadic
      (vote_board_count_prefix ∷ (board ∷ []) ∷ uint32_to_bytes index ∷ address_bytes address ∷ [])

-- ParseKeyVoteBoardCount
unfoldable pub parse_key_vote_board_count : Bytes → Parsed (ℕ × ℕ × Bytes)
parse_key_vote_board_count key = do
  elements ← parse_key_to_slice key (length vote_board_count_prefix ∷ 1 ∷ 4 ∷ pub_key_length ∷ [])
  first ← element elements 1
  board ← board_type first
  second ← element elements 2
  index ← run (bytes_to_uint32 second)
  candidate ← element elements 3
  parsed (board, index, candidate)

-- GetKeyVoteBoardList
unfoldable pub get_key_vote_board_list :
    ℕ → ℕ → Option PaymentAddress → Option PaymentAddress → Bytes
get_key_vote_board_list board index candidate voter = get_key_from_variadic (
    vote_board_list_prefix
    ∷ (board ∷ [])
    ∷ uint32_to_bytes index
    ∷ bytes_or_none candidate
    ∷ bytes_or_none voter
    ∷ [])

-- ParseKeyVoteBoardList
unfoldable pub parse_key_vote_board_list : Bytes → Parsed (ℕ × ℕ × Bytes × PaymentAddress)
parse_key_vote_board_list key = do
  elements ←
      parse_key_to_slice key
        (length vote_board_list_prefix ∷ 1 ∷ 4 ∷ pub_key_length ∷ pub_key_length ∷ [])
  first ← element elements 1
  board ← board_type first
  second ← element elements 2
  index ← run (bytes_to_uint32 second)
  candidate ← element elements 3
  fourth ← element elements 4
  voter ← new_payment_address_from_byte fourth
  parsed (board, index, candidate, voter)

-- GetValueVoteBoardList and ParseValueVoteBoardList
unfoldable pub get_value_vote_board_list : ℕ → Bytes
get_value_vote_board_list amount = uint64_to_bytes amount

unfoldable pub parse_value_vote_board_list : Bytes → Outcome ℕ
parse_value_vote_board_list value = bytes_to_uint64 value

-- GetKeyVoteTokenAmount
unfoldable pub get_key_vote_token_amount : ℕ → ℕ → PaymentAddress → Bytes
get_key_vote_token_amount board index address =
    get_key_from_variadic
      (vote_token_amount_prefix ∷ (board ∷ []) ∷ uint32_to_bytes index ∷ address_bytes address ∷ [])

-- The keys of the three phases of a vote have the same parts behind their prefixes; nil for the
-- transaction's hash is no bytes.
unfoldable pub three_phrase_key : Bytes → ℕ → ℕ → Option Bytes → Bytes
three_phrase_key prefix board index tx_id =
    get_key_from_variadic (prefix ∷ (board ∷ []) ∷ uint32_to_bytes index ∷ or_else [] tx_id ∷ [])

-- No hash where no bytes are left.
unfoldable pub parse_tx_id : Bytes → Parsed (Option Bytes)
parse_tx_id b = if length b == 0 then parsed none else do hash ← new_hash b; parsed (some hash)

unfoldable pub parse_three_phrase_key : Bytes → Bytes → Parsed (ℕ × ℕ × Option Bytes)
parse_three_phrase_key prefix key = do
  elements ←
      parse_key_to_slice key (
        length prefix
        ∷ 1
        ∷ 4
        ∷ (if check_length key pub_key_length then 0 else pub_key_length)
        ∷ [])
  first ← element elements 1
  board ← board_type first
  second ← element elements 2
  index ← run (bytes_to_uint32 second)
  third ← element elements 3
  tx_id ← parse_tx_id third
  parsed (board, index, tx_id)

unfoldable pub get_key_three_phrase_crypto_owner : ℕ → ℕ → Option Bytes → Bytes
get_key_three_phrase_crypto_owner = three_phrase_key three_phrase_crypto_owner_prefix

unfoldable pub parse_key_three_phrase_crypto_owner : Bytes → Parsed (ℕ × ℕ × Option Bytes)
parse_key_three_phrase_crypto_owner = parse_three_phrase_key three_phrase_crypto_owner_prefix

unfoldable pub get_key_three_phrase_crypto_sealer : ℕ → ℕ → Option Bytes → Bytes
get_key_three_phrase_crypto_sealer = three_phrase_key three_phrase_crypto_sealer_prefix

unfoldable pub parse_key_three_phrase_crypto_sealer : Bytes → Parsed (ℕ × ℕ × Option Bytes)
parse_key_three_phrase_crypto_sealer = parse_three_phrase_key three_phrase_crypto_sealer_prefix

unfoldable pub get_key_three_phrase_vote_value : ℕ → ℕ → Option Bytes → Bytes
get_key_three_phrase_vote_value = three_phrase_key three_phrase_vote_value_prefix

unfoldable pub parse_key_three_phrase_vote_value : Bytes → Parsed (ℕ × ℕ × Option Bytes)
parse_key_three_phrase_vote_value = parse_three_phrase_key three_phrase_vote_value_prefix

-- ParseValueThreePhraseCryptoOwner
unfoldable pub parse_value_three_phrase_crypto_owner : Bytes → Outcome ℕ
parse_value_three_phrase_crypto_owner value = bytes_to_uint32 value

-- GetKeyWinningVoter
unfoldable pub get_key_winning_voter : ℕ → ℕ → Bytes
get_key_winning_voter board index =
    get_key_from_variadic (winning_voter_prefix ∷ (board ∷ []) ∷ uint32_to_bytes index ∷ [])

-- GetKeyEncryptFlag
unfoldable pub get_key_encrypt_flag : ℕ → Bytes
get_key_encrypt_flag board = get_key_from_variadic (encrypt_flag_prefix ∷ (board ∷ []) ∷ [])

-- GetKeyEncryptionLastBlockHeight
unfoldable pub get_key_encryption_last_block_height : ℕ → Bytes
get_key_encryption_last_block_height board =
    get_key_from_variadic (encryption_last_block_height_prefix ∷ (board ∷ []) ∷ [])
