-- ===== src/Consensus/Protocol/Phases.antt =====
-- What holds in each phase of the protocol, up to the prepare phase.
use cash_prototype.Base.{
  ◌/◌, ◌≤◌, ◌<◌, ◌≡◌, refl, sym, subst, ◌∙◌, ◌⊎◌, inl, inr, Bool, true, ◌&&◌, none, some, List, [],
  ◌∷◌, ◌++◌, arith, Bool-cases, Option-cases, length, All,
}
use cash_prototype.Base.{String, ok}
use cash_prototype.Common.Bytes.{Bytes, bytes_eq, bytes_eq_iff}
use cash_prototype.Consensus.Table.{find, Distinct}
use cash_prototype.Consensus.Signing.{
  CommittedSig, Combine, accepted, verify_commit_sig, combine_sigs,
}
use cash_prototype.Consensus.Protocol.{
  Block, propose, prepare, commit, Round, Phase, listening, preparing, committing, BftProtocol,
  Event, message, Run, running, returned, stopped, crashed, enter, receive_propose, add_ri,
  is_member, receive_prepare,
}

-- A block that was proposed and passed the checks, with the Ri and the signatures that were collected
-- for it; `Sent` holds of the messages that the node received.
pub record Agreed (round : Round) (Sent : Event → Type 0) (b : Block) : Type 0 where
  pub json : Bytes
  pub proposed : Sent (message (propose json))
  pub checked : round.verify_pre_sign (round.unmarshal json) ≡ true
  pub same_content : b.content ≡ (round.unmarshal json).content
  pub ris : List (String × Bytes)
  pub half : length round.committee / 2 ≤ length ris
  pub distinct_ris : Distinct ris
  pub prepared :
      All
        (λ e.
          (e.0 ≡ round.own_key)
          ⊎ ((is_member round e.0 ≡ true)
              × Sent
                  (message (prepare e.0 e.1 (round.header_hash (round.unmarshal json).content)))))
        ris
  pub r : String
  pub sigs : List (String × CommittedSig)
  pub own_r : String
  pub majority : length round.committee / 2 < length sigs
  pub distinct_sigs : Distinct sigs
  pub verified :
      All
        (λ e.
          ((e.0 ≡ round.own_key) × (r ≡ own_r))
          ⊎ ((verify_commit_sig round.crypto round.committee
                  (round.header_hash (round.unmarshal json).content)
                  e.0
                  e.1.sig
                  r
                  e.1.validators_idx_r
                ≡ accepted)
              × Sent (message (commit e.0 e.1.sig r e.1.validators_idx_r))))
        sigs
  pub before : Combine
  pub after : Combine
  pub aggregated :
      combine_sigs round.crypto round.committee before r sigs ≡ ok (b.aggregated_sig, after)

both : (a b : Bool) → (a && b) ≡ true → (a ≡ true) × (b ≡ true)
both a b e = ground arith

module _ (round : Round) (Sent : Event → Type 0) where
  open round use {committee, own_key, crypto, verify_pre_sign, unmarshal, header_hash}

  -- The pending block is one that was proposed and passed the checks.
  abbrev pub Proposed : BftProtocol → Bytes → Type 0
  Proposed p json =
      Sent (message (propose json))
      × (verify_pre_sign (unmarshal json) ≡ true)
      × (p.pending_block ≡ some (unmarshal json))
      × (p.data_to_sig ≡ header_hash (unmarshal json).content)

  abbrev pub IsPrepared : Bytes → String × Bytes → Type 0
  IsPrepared json e =
      (e.0 ≡ own_key)
      ⊎ ((is_member round e.0 ≡ true)
          × Sent (message (prepare e.0 e.1 (header_hash (unmarshal json).content))))

  abbrev pub Prepared : Bytes → List (String × Bytes) → Type 0
  Prepared json ris = Distinct ris × All (IsPrepared json) ris

  abbrev pub IsVerified : Bytes → String → String → String × CommittedSig → Type 0
  IsVerified json own_r r e =
      ((e.0 ≡ own_key) × (r ≡ own_r))
      ⊎ ((verify_commit_sig crypto committee (header_hash (unmarshal json).content) e.0 e.1.sig r
              e.1.validators_idx_r
            ≡ accepted)
          × Sent (message (commit e.0 e.1.sig r e.1.validators_idx_r)))

  abbrev pub Verified : Bytes → String → List (String × List (String × CommittedSig)) → Type 0
  Verified json own_r sigs =
      (r : String) (entries : List (String × CommittedSig))
      → find r sigs ≡ some entries
      → Distinct entries × All (IsVerified json own_r r) entries

  abbrev pub InPhase : BftProtocol → Phase → Type 0
  InPhase p listening = Unit
  InPhase p (preparing ris) = (json : Bytes) × Proposed p json × Prepared json ris
  InPhase p (committing sigs) =
      (json : Bytes) × Proposed p json
      × ((ris : List (String × Bytes)) × (length committee / 2 ≤ length ris) × Prepared json ris)
      × Verified json p.combine.r sigs

  abbrev pub Holds : Run → Type 0
  Holds (running p) = InPhase p p.phase
  Holds (returned none) = ⊥
  Holds (returned (some b)) = Agreed round Sent b
  Holds (stopped reason) = Unit
  Holds crashed = Unit

  pub enter-Holds : (p : BftProtocol) (ph : Phase) → InPhase p ph → Holds (enter round p ph)
  unfolding enter
  enter-Holds p listening inv = elim (Bool-cases p.quit) [
    | inl gone ↦ rw gone tt
    | inr stays ↦ rw stays tt
  ]
  enter-Holds p (preparing ris) inv = elim (Bool-cases p.quit) [
    | inl gone ↦ rw gone tt
    | inr stays ↦ rw stays inv
  ]
  enter-Holds p (committing sigs) inv = elim (Bool-cases p.quit) [
    | inl gone ↦ rw gone tt
    | inr stays ↦ rw stays inv
  ]

  pub receive_propose-Holds :
      (p : BftProtocol) (json : Bytes)
      → InPhase p p.phase
      → Sent (message (propose json))
      → Holds (receive_propose round p json)
  unfolding receive_propose Distinct find
  receive_propose-Holds p json inv sent = elim (Bool-cases (verify_pre_sign (unmarshal json))) [
    | inl fine ↦ rw fine (
        enter-Holds
          (record p {
            pending_block = some (unmarshal json);
            data_to_sig = header_hash (unmarshal json).content;
            forwarded = p.forwarded ++ propose json ∷ [];
          })
          (preparing ((own_key, round.own_ri) ∷ []))
          (json, (sent, fine, refl, refl), ((refl, tt), (inl refl, tt))))
    | inr wrong ↦ rw wrong inv
  ]

  pub receive_prepare-Holds :
      (p : BftProtocol) (ris : List (String × Bytes)) (k : String) (ri hash : Bytes)
      → InPhase p p.phase
      → InPhase p (preparing ris)
      → Sent (message (prepare k ri hash))
      → Holds (receive_prepare round p ris k ri hash)
  unfolding receive_prepare add_ri Distinct
  receive_prepare-Holds p ris k ri hash same
        (json, (said, checked, pending, hashed), (distinct, all)) sent =
      elim (Bool-cases (is_member round k && bytes_eq p.data_to_sig hash)) [
        | inl fits ↦ elim (Option-cases (find k ris)) [
          | inl fresh ↦
              let (member, equal) = both (is_member round k) (bytes_eq p.data_to_sig hash) fits in
              let hash_same = sym ((bytes_eq_iff p.data_to_sig hash).0 equal) ∙ hashed in
              rw (fits, fresh)
                (
                  json,
                  (said, checked, pending, hashed),
                  (
                    (fresh, distinct),
                    (
                      inr (member, subst (λ h. Sent (message (prepare k ri h))) hash_same sent),
                      all,
                    ),
                  ),
                )
          | inr (there, e) ↦ rw (fits, e) same
        ]
        | inr other ↦ rw other same
      ]
