-- ===== src/Database/Proposals/Phases.antt =====
-- The votes for proposals, and the vote tokens: what can succeed.
use cash_prototype.Base.{
  ℕ, ◌+◌, ◌-◌, ◌%◌, ◌<◌, ◌≡◌, refl, ap, subst, ◌∙◌, ◌⊎◌, inl, inr, true, false, Option, none, some,
  arith, ltb, if◌then◌else◌, Option-cases,
}
use cash_prototype.Common.Bytes.{
  Bytes, u32_mod, uint32_to_bytes, bytes_to_uint32, bytes_to_uint32-uint32_to_bytes,
}
use cash_prototype.Database.VoteKeys.{
  PaymentAddress, get_key_vote_token_amount, get_key_three_phrase_crypto_sealer,
}
use cash_prototype.Database.Votes.{Database, written, failed, store_value}
use cash_prototype.Database.Votes.Sums.{>>=-written, store_value-written}
use cash_prototype.Database.Proposals.{
  decoded, present_or_zero, found, put_value, refuse_duplicate, read, add_vote_lv1or2_proposal,
  add_vote_normal_from_sealer, get_vote_token_amount, set_vote_token_amount,
  take_vote_token_from_winner,
}

written-injective : {S : Type 0} {s t : S} → written s ≡ written t → s ≡ t
written-injective e = cc

module _ (db : Database) where
  open db use {Store, get, write, has}

  refuse_duplicate-cases :
      (key : Bytes) (s : Store)
      → (refuse_duplicate db key s ≡ failed s)
        ⊎ ((refuse_duplicate db key s ≡ written s) × (get s key ≡ none))
  unfolding refuse_duplicate
  refuse_duplicate-cases key s = elim (Option-cases (has s key)) [
    | inl error ↦ inl (rw (error, refuse_duplicate) refl)
    | inr (true, there) ↦ inl (rw (there, refuse_duplicate) refl)
    | inr (false, fresh) ↦ inr (rw (fresh, refuse_duplicate) refl, db.has-absent key s fresh)
  ]

  lv1or2_fails :
      (board index : ℕ) (tx_id : Option Bytes) (s : Store)
      → add_vote_lv1or2_proposal db board index tx_id s ≡ failed s
  unfolding add_vote_lv1or2_proposal
  lv1or2_fails board index tx_id s =
      elim (refuse_duplicate-cases (get_key_three_phrase_crypto_sealer board index tx_id) s) [
        | inl refused ↦ rw refused refl
        | inr (fresh, absent) ↦ rw fresh (rw absent refl)
      ]

  -- AddVoteLv1or2ProposalDB always returns an error and writes nothing, whether the sealed vote
  -- exists or not; so does AddVoteNormalProposalFromSealerDB, which calls it first.
  pub add_vote_lv1or2_proposal-fails :
      (board index : ℕ) (tx_id : Option Bytes) (vote : Bytes) (s : Store)
      → (add_vote_lv1or2_proposal db board index tx_id s ≡ failed s)
        × (add_vote_normal_from_sealer db board index tx_id vote s ≡ failed s)
  unfolding add_vote_normal_from_sealer
  add_vote_lv1or2_proposal-fails board index tx_id vote s =
      let e = lv1or2_fails board index tx_id s in (e, rw e refl)

  set-writes :
      (board index amount : ℕ) (a : PaymentAddress) (s t : Store)
      → set_vote_token_amount db board index a amount s ≡ written t
      → get t (get_key_vote_token_amount board index a) ≡ some (uint32_to_bytes amount)
  unfolding set_vote_token_amount put_value
  set-writes board index amount a s t e =
      let (ready, first, last) =
        >>=-written (present_or_zero db (get_key_vote_token_amount board index a) s)
          (store_value db (get_key_vote_token_amount board index a) (uint32_to_bytes amount)) e in
      (store_value-written db (get_key_vote_token_amount board index a) (uint32_to_bytes amount)
        ready t last).0

  read_value :
      (key : Bytes) (s : Store) {value : Bytes}
      → get s key ≡ some value
      → read db bytes_to_uint32 key s ≡ decoded (bytes_to_uint32 value)
  unfolding read
  read_value key s e = rw (e, read) refl

  -- Once an amount of vote tokens is set, and x of them are taken and written, what is read is the
  -- amount less x modulo 2^32: where x exceeds the amount, it wraps around to a huge one.
  pub take_vote_token-wraps :
      (board index amount x : ℕ) (a : PaymentAddress) (s t u : Store)
      → amount < u32_mod
      → x < u32_mod
      → set_vote_token_amount db board index a amount s ≡ written t
      → (write
          (get_key_vote_token_amount board index a)
          (uint32_to_bytes ((amount + u32_mod - x) % u32_mod))
          t).1
        ≡ true
      → take_vote_token_from_winner db board index a x t ≡ written u
      → (get_vote_token_amount db board index a t ≡ found amount)
        × (get_vote_token_amount db board index a u
            ≡ found (if ltb amount x then amount + u32_mod - x else amount - x))
  unfolding take_vote_token_from_winner get_vote_token_amount put_value
  take_vote_token-wraps board index amount x a s t u lt ltx e fine taken =
      let key = get_key_vote_token_amount board index a in
      let before = set-writes board index amount a s t e in
      let decoded_amount = bytes_to_uint32-uint32_to_bytes amount lt in
      let left = (amount + u32_mod - x) % u32_mod in
      let last : (write key (uint32_to_bytes left) t).0 ≡ u =
        written-injective (rw (before, decoded_amount) at taken) in
      let after : get u key ≡ some (uint32_to_bytes left) =
        subst (λ r. get r key ≡ some (uint32_to_bytes left)) last
          (db.get-write_same key (uint32_to_bytes left) t fine) in
      (
        read_value key t before ∙ ap decoded decoded_amount,
        read_value key u after
            ∙ ap decoded (bytes_to_uint32-uint32_to_bytes left (omega arith))
            ∙ ap found (ground arith),
      )
