-- ===== src/Database/VoteKeys/RoundTrip.antt =====
-- The keys of the votes: which of them their parsers read back.
use cash_prototype.Base.{
  ℕ, ◌<◌, ◌≡◌, refl, sym, ap, subst, ◌∙◌, ◌≢◌, false, none, some, List, [], ◌∷◌, ◌++◌, append_assoc,
  flatten, arith, ltb, ◌==◌, length, take, drop, length-append, take-length-append,
  drop-length-append, take_all, drop_all,
}
use cash_prototype.Common.Bytes.{Bytes, uint32_to_bytes, u32_mod, bytes_to_uint32-uint32_to_bytes}
use cash_prototype.Database.Keys.{
  length_mismatch, parsed, refused, get_key_from_variadic, check_length,
}
use cash_prototype.Database.Keys.Parsing.{
  parse_key_to_slice_iff, parse_key_to_slice-mismatch, get_key-flatten, length-get_key,
}
use cash_prototype.Database.VoteKeys.{
  PaymentAddress, address_bytes, new_payment_address_from_byte, element, board_type,
  vote_board_sum_prefix, vote_board_count_prefix, vote_board_list_prefix, get_key_vote_board_sum,
  parse_key_vote_board_sum, get_key_vote_board_count, parse_key_vote_board_count,
  get_key_vote_board_list, parse_key_vote_board_list, bytes_or_none, three_phrase_key,
  parse_three_phrase_key, parse_tx_id,
}

-- A payment address as the wallet makes it: two compressed points.
abbrev pub IsPaymentAddress : PaymentAddress → Type 0
IsPaymentAddress a = (length a.pk ≡ 33) × (length a.tk ≡ 33)

pub length-uint32_to_bytes : (v : ℕ) → length (uint32_to_bytes v) ≡ 4
unfolding uint32_to_bytes
length-uint32_to_bytes v = refl

pub length-address_bytes : (a : PaymentAddress) → IsPaymentAddress a → length (address_bytes a) ≡ 66
unfolding address_bytes
length-address_bytes a (p, t) = omega (arith, length-append {0} a.pk a.tk)

new_payment_address-address_bytes :
    (a : PaymentAddress)
    → IsPaymentAddress a
    → new_payment_address_from_byte (address_bytes a) ≡ parsed a
unfolding new_payment_address_from_byte address_bytes
new_payment_address-address_bytes a (p, t) =
    let size = length-append a.pk a.tk in
    let enough : ltb (length (a.pk ++ a.tk)) 33 ≡ false = ground (arith, size) in
    let pk : take 33 (a.pk ++ a.tk) ≡ a.pk =
      subst (λ n. take n (a.pk ++ a.tk) ≡ a.pk) p (take-length-append a.pk a.tk) in
    let tk : drop 33 (a.pk ++ a.tk) ≡ a.tk =
      subst (λ n. drop n (a.pk ++ a.tk) ≡ a.tk) p (drop-length-append a.pk a.tk) in
    rw (enough, pk, tk) refl

-- ParseKeyVoteBoardSum reads back the board, the index and the candidate of GetKeyVoteBoardSum,
-- for a uint32 index and an address of two 33-byte keys.
pub parse_key_vote_board_sum-get :
    (board index : ℕ) (a : PaymentAddress)
    → index < u32_mod
    → IsPaymentAddress a
    → parse_key_vote_board_sum (get_key_vote_board_sum board index (some a))
      ≡ parsed (board, index, a)
unfolding parse_key_vote_board_sum get_key_vote_board_sum
parse_key_vote_board_sum-get board index a lt fits =
    let args =
      vote_board_sum_prefix ∷ (board ∷ []) ∷ uint32_to_bytes index ∷ address_bytes a ∷ [] in
    let cut =
      (parse_key_to_slice_iff (get_key_from_variadic args) (13 ∷ 1 ∷ 4 ∷ 66 ∷ []) args).1
        (rw (length-uint32_to_bytes index, length-address_bytes a fits) refl, refl) in
    rw (cut, bytes_to_uint32-uint32_to_bytes index lt, new_payment_address-address_bytes a fits)
      refl

-- ParseKeyVoteBoardCount refuses every key that GetKeyVoteBoardCount makes of an address of two
-- 33-byte keys, since it expects one of them only.
parse_key_vote_board_count-get_refused :
    (board index : ℕ) (a : PaymentAddress)
    → IsPaymentAddress a
    → parse_key_vote_board_count (get_key_vote_board_count board index a) ≡ refused length_mismatch
unfolding parse_key_vote_board_count get_key_vote_board_count
parse_key_vote_board_count-get_refused board index a fits =
    let args =
      vote_board_count_prefix ∷ (board ∷ []) ∷ uint32_to_bytes index ∷ address_bytes a ∷ [] in
    let size = length-get_key args in
    rw
      (parse_key_to_slice-mismatch (get_key_from_variadic args) (15 ∷ 1 ∷ 4 ∷ 33 ∷ []) (λ e.
        absurd (
          omega (
            arith,
            length-get_key args,
            length-uint32_to_bytes index,
            length-address_bytes a fits,
          ))))
      refl

one_key :
    (b : Bytes)
    → length b ≡ 33
    → new_payment_address_from_byte b ≡ parsed (record { pk = b; tk = [] })
unfolding new_payment_address_from_byte
one_key b size =
    let enough : ltb (length b) 33 ≡ false = ground (arith, size) in
    let pk : take 33 b ≡ b = subst (λ n. take n b ≡ b) size (take_all b) in
    let tk : drop 33 b ≡ [] = subst (λ n. drop n b ≡ []) size (drop_all b) in
    rw (enough, pk, tk) refl

-- The two keys of an address lie in a key as its bytes do.
two_keys :
    (x y z : Bytes) (c : PaymentAddress)
    → flatten (x ∷ y ∷ z ∷ c.pk ∷ c.tk ∷ []) ≡ flatten (x ∷ y ∷ z ∷ address_bytes c ∷ [] ∷ [])
unfolding flatten address_bytes
two_keys x y z c = ap (λ r. x ++ (y ++ (z ++ r))) (sym (append_assoc c.pk c.tk []))

-- ParseKeyVoteBoardList refuses every key that GetKeyVoteBoardList makes of two addresses of two
-- 33-byte keys each. A key with a candidate alone is read as one with two persons: the candidate's
-- public key becomes the candidate, and its transmission key the public key of the voter.
pub parse_key_vote_board_list-get :
    (board index : ℕ) (c v : PaymentAddress)
    → index < u32_mod
    → IsPaymentAddress c
    → IsPaymentAddress v
    → (parse_key_vote_board_list (get_key_vote_board_list board index (some c) (some v))
        ≡ refused length_mismatch)
      × (parse_key_vote_board_list (get_key_vote_board_list board index (some c) none)
          ≡ parsed (board, index, c.pk, record { pk = c.tk; tk = [] }))
unfolding parse_key_vote_board_list get_key_vote_board_list bytes_or_none element board_type
parse_key_vote_board_list-get board index c v lt fits fits' =
    let start =
      λ (rest : List Bytes). vote_board_list_prefix ∷ (board ∷ []) ∷ uint32_to_bytes index ∷ rest in
    let both = start (address_bytes c ∷ address_bytes v ∷ []) in
    let alone = start (address_bytes c ∷ [] ∷ []) in
    let two = start (c.pk ∷ c.tk ∷ []) in
    let cut =
      (parse_key_to_slice_iff (get_key_from_variadic alone) (14 ∷ 1 ∷ 4 ∷ 33 ∷ 33 ∷ []) two).1 (
        rw (length-uint32_to_bytes index, fits.0, fits.1) refl,
        get_key-flatten two
            ∙ two_keys vote_board_list_prefix (board ∷ []) (uint32_to_bytes index) c
            ∙ sym (get_key-flatten alone),
      ) in
    (
      rw
          (parse_key_to_slice-mismatch (get_key_from_variadic both) (14 ∷ 1 ∷ 4 ∷ 33 ∷ 33 ∷ [])
            (λ e. absurd (
              omega (
                arith,
                length-get_key both,
                length-uint32_to_bytes index,
                length-address_bytes c fits,
                length-address_bytes v fits',
              ))))
          refl,
      rw (cut, bytes_to_uint32-uint32_to_bytes index lt, one_key c.tk fits.1) refl,
    )

-- Behind a prefix of other than 28 bytes, and all of the three prefixes are such, a key of a vote's
-- phases is read back when it has no transaction hash, for a uint32 index, and refused when it has
-- one of 32 bytes.
pub parse_three_phrase_key-get :
    (prefix : Bytes) (board index : ℕ) (hash : Bytes)
    → length prefix ≢ 28
    → index < u32_mod
    → length hash ≡ 32
    → (parse_three_phrase_key prefix (three_phrase_key prefix board index none)
        ≡ parsed (board, index, none))
      × (parse_three_phrase_key prefix (three_phrase_key prefix board index (some hash))
          ≡ refused length_mismatch)
unfolding parse_three_phrase_key three_phrase_key check_length element board_type parse_tx_id
parse_three_phrase_key-get prefix board index hash other lt size =
    let start = λ (rest : Bytes). prefix ∷ (board ∷ []) ∷ uint32_to_bytes index ∷ rest ∷ [] in
    let bare = start [] in
    let full = start hash in
    let no_hash : (length (get_key_from_variadic bare) == 33) ≡ false =
      ground (arith, length-get_key bare, length-uint32_to_bytes index) in
    let with_hash : (length (get_key_from_variadic full) == 33) ≡ false =
      ground (arith, length-get_key full, length-uint32_to_bytes index, size) in
    let cut =
      (parse_key_to_slice_iff (get_key_from_variadic bare) (length prefix ∷ 1 ∷ 4 ∷ 0 ∷ []) bare).1
        (rw (length-uint32_to_bytes index) refl, refl) in
    (
      rw (no_hash, cut, bytes_to_uint32-uint32_to_bytes index lt) refl,
      rw
          (
            with_hash,
            parse_key_to_slice-mismatch (get_key_from_variadic full)
                (length prefix ∷ 1 ∷ 4 ∷ 0 ∷ [])
                (λ e.
                  absurd (omega (arith, length-get_key full, length-uint32_to_bytes index, size))),
          )
          refl,
    )
