-- ===== src/Consensus/Signing.antt =====
-- consensus/constantbft/bftmultisig.go and utils.go: the signatures of a committee.
use cash_prototype.Base.{
  ℕ, Bool, true, false, not, Option, none, some, List, [], ◌∷◌, ◌++◌, leb, ◌==◌, if◌then◌else◌,
  get_elem?, Outcome, done, panic, or_else,
}
use cash_prototype.Base.{String, Result, ok, err}
use cash_prototype.Common.{index_of_str}
use cash_prototype.Common.Bytes.{Bytes}

-- The Base58Check encoding, which gives the payload and the version byte, and the operations of the
-- elliptic curve and of the multi-signature on it.
pub record Crypto : Type 0 where
  pub decode : String → Option (Bytes × ℕ)
  pub encode : Bytes → String
  pub is_point : Bytes → Bool
  pub add_points : List Bytes → Bytes
  pub read_signature : Bytes → Option Bytes
  pub sign_multi_sig : Bytes → List Bytes → List Bytes → Bytes
  pub verify_multi_sig : Bytes → List Bytes → Bytes → Bytes → Bytes → Bool
  pub combine_multi_sig : List Bytes → Bytes

-- An index of a committee; a negative int is `none`.
abbrev pub Index : Type 0
Index = Option ℕ

-- bftCommittedSig
pub record CommittedSig : Type 0 where
  pub validators_idx_r : List Index
  pub sig : String

-- The field `combine` of multiSigScheme, which Init leaves empty but for the committee.
pub record Combine : Type 0 where
  pub commit_sig : String
  pub r : String
  pub validators_idx_r : List Index
  pub validators_idx_agg_sig : List Index

abbrev pub no_combine : Combine
no_combine = record { commit_sig = ""; r = ""; validators_idx_r = []; validators_idx_agg_sig = [] }

-- `sort.Ints`
unfoldable pub index_leb : Index → Index → Bool
index_leb none b = true
index_leb (some a) none = false
index_leb (some a) (some b) = leb a b

unfoldable pub insert_index : Index → List Index → List Index
unfolding index_leb
insert_index i [] = i ∷ []
insert_index i (j ∷ js) = if index_leb i j then i ∷ j ∷ js else j ∷ insert_index i js

unfoldable pub sort_ints : List Index → List Index
unfolding insert_index
sort_ints [] = []
sort_ints (i ∷ is) = insert_index i (sort_ints is)

pub data SignError : Type 0 where
  undecodable not_a_point : SignError

-- What VerifyCommitSig does: it returns nil, an error, or panics.
pub data Verdict : Type 0 where
  accepted rejected crash : Verdict

module _ (c : Crypto) (committee : List String) where
  open c use {
    decode, encode, is_point, add_points, read_signature, sign_multi_sig, verify_multi_sig,
    combine_multi_sig,
  }

  -- The payload of a key of version 0; the others leave the new key empty.
  unfoldable pub key_bytes : Option (Bytes × ℕ) → Bytes
  key_bytes none = []
  key_bytes (some (payload, version)) = if version == 0 then payload else []

  -- GetPubKeysFromIdx; an index that the committee does not have panics.
  unfoldable pub get_pub_keys_from_idx : List Index → Outcome (List Bytes)
  unfolding key_bytes
  get_pub_keys_from_idx [] = done []
  get_pub_keys_from_idx (none ∷ idxs) = panic
  get_pub_keys_from_idx (some i ∷ idxs) = elim (get_elem? committee i) [
    | none ↦ panic
    | some pub_key ↦ elim (get_pub_keys_from_idx idxs) [
      | panic ↦ panic
      | done pub_keys ↦ done (key_bytes (decode pub_key) ∷ pub_keys)
    ]
  ]

  -- The loop of SignData over the map, with the keys, points and indices so far. For a version that
  -- is not 0 it returns the nil error.
  unfoldable pub sign_from :
      Bytes
      → List (String × Bytes)
      → List Bytes
      → List Bytes
      → List Index
      → Result SignError Combine
  sign_from data_to_sig [] pub_keys points idxs = ok (record no_combine {
    commit_sig = encode (sign_multi_sig data_to_sig pub_keys points);
    r = encode (add_points points);
    validators_idx_r = sort_ints idxs;
  })
  sign_from data_to_sig (e ∷ ri_list) pub_keys points idxs = elim (decode e.0) [
    | none ↦ err undecodable
    | some (pub_key, version) ↦
        let rest =
          sign_from data_to_sig ri_list (pub_keys ++ pub_key ∷ []) (points ++ e.1 ∷ [])
            (idxs ++ index_of_str e.0 committee ∷ []) in
        if not (version == 0)
        then ok (record no_combine { validators_idx_r = idxs })
        else if is_point e.1
        then rest
        else err not_a_point
  ]

  -- SignData
  unfoldable pub sign_data : Bytes → List (String × Bytes) → Result SignError Combine
  unfolding sign_from
  sign_data data_to_sig ri_list = sign_from data_to_sig ri_list [] [] []

  -- The signature of a validator over the data, once R and the keys of the signers are read.
  unfoldable pub verify_decoded : Bytes → String → String → Bytes → List Bytes → Verdict
  verify_decoded data_to_sig validator_pk commit_sig r_bytes signers = elim (decode validator_pk) [
    | none ↦ rejected
    | some (pub_key, version) ↦
        if not (version == 0)
        then accepted
        else elim (read_signature (elim (decode commit_sig) [ none ↦ [] | some (b, v) ↦ b ])) [
          | none ↦ rejected
          | some signature ↦
              if verify_multi_sig data_to_sig signers pub_key r_bytes signature
              then accepted
              else rejected
        ]
  ]

  -- VerifyCommitSig; for a version that is not 0 it returns the nil error.
  unfoldable pub verify_commit_sig : Bytes → String → String → String → List Index → Verdict
  unfolding verify_decoded get_pub_keys_from_idx
  verify_commit_sig data_to_sig validator_pk commit_sig r validators_idx = elim (decode r) [
    | none ↦ rejected
    | some (r_bytes, version) ↦
        if not (version == 0)
        then accepted
        else if not (is_point r_bytes)
        then rejected
        else elim (get_pub_keys_from_idx validators_idx) [
          | panic ↦ crash
          | done signers ↦ verify_decoded data_to_sig validator_pk commit_sig r_bytes signers
        ]
  ]

  -- The loop of CombineSigs over the map, with the signatures and indices so far and the indices of
  -- the last entry. For a version that is not 0 it returns the empty text and the nil error.
  unfoldable pub combine_from :
      Combine
      → String
      → List (String × CommittedSig)
      → List Bytes
      → List Index
      → List Index
      → Result SignError (String × Combine)
  combine_from old r [] sigs idxs last = ok (
    encode (combine_multi_sig sigs),
    record old { r = r; validators_idx_r = last; validators_idx_agg_sig = sort_ints idxs },
  )
  combine_from old r (e ∷ commit_sigs) sigs idxs last = elim (decode e.1.sig) [
    | none ↦ err undecodable
    | some (b, version) ↦
        let rest =
          combine_from old r commit_sigs (sigs ++ or_else [] (read_signature b) ∷ [])
            (idxs ++ index_of_str e.0 committee ∷ []) e.1.validators_idx_r in
        if not (version == 0) then ok ("", record old { validators_idx_agg_sig = idxs }) else rest
  ]

  -- CombineSigs
  unfoldable pub combine_sigs :
      Combine → String → List (String × CommittedSig) → Result SignError (String × Combine)
  unfolding combine_from
  combine_sigs old r commit_sigs = combine_from old r commit_sigs [] old.validators_idx_agg_sig []
