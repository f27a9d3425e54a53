-- ===== src/Consensus/Protocol.antt =====
-- consensus/constantbft/bft.go: the phases of the protocol.
pub mod Phases
pub mod Signatures
pub mod Agreement
pub mod Ending
pub mod Closing
pub mod Quorum
pub mod Forging
mod Tests
use cash_prototype.Base.{
  ℕ, zero, suc, ◌+◌, ◌-◌, ◌*◌, ◌/◌, ◌%◌, ◌≤◌, ◌<◌, min, max, ◌≡◌, refl, sym, ap, subst, ◌∙◌, ◌≢◌,
  ◌↔◌, ◌⊎◌, inl, inr, Bool, true, false, ◌&&◌, ◌||◌, not, Option, none, some, List, [], ◌∷◌, ◌++◌,
  map, append_assoc, flatten, arith, ltb, leb, ◌==◌, if◌then◌else◌, Bool-cases, Option-cases, ==→eq,
  ==_refl, length, take, drop, get_elem?, All, Outcome, done, panic, put, or_else, u64_mod, add64,
  sub64,
}
use cash_prototype.Base.{String, str_eq, Result, ok, err, codes}
use cash_prototype.Common.{index_of_str}
use cash_prototype.Common.Bytes.{Bytes, bytes_eq}
use cash_prototype.Consensus.Table.{find, set_at, keys}
use cash_prototype.Consensus.Signing.{
  Crypto, CommittedSig, Combine, no_combine, Index, Verdict, accepted, rejected, crash, SignError,
  sign_data, verify_commit_sig, combine_sigs,
}

-- The fields of a block that the protocol sets, and the rest of it.
pub record Block : Type 0 where
  pub content : Bytes
  pub r : String
  pub aggregated_sig : String
  pub validators_idx : List (List Index)

pub data Message : Type 0 where
  propose : (block : Bytes) → Message
  prepare : (pubkey : String) (ri blk_hash : Bytes) → Message
  commit : (pubkey : String) (commit_sig r : String) (validators_idx : List Index) → Message
  other_message : Message

-- What the protocol is started with: RoundData, the keys and R of the node, and the parts of the
-- node that it calls. `new_block` is `none` where CreateBlockMsg fails; `unmarshal` reads a block,
-- and `verify_pre_sign` stands for VerifyPreSignBeaconBlock or VerifyPreSignShardBlock.
pub record Round : Type 0 where
  pub crypto : Crypto
  pub committee : List String
  pub is_proposer : Bool
  pub own_key : String
  pub own_ri : Bytes
  pub new_block : Option Block
  pub unmarshal : Bytes → Block
  pub verify_pre_sign : Block → Bool
  pub header_hash : Bytes → Bytes

-- The phase with the data that it collects: the Ri of the members, or the signatures for each R.
pub data Phase : Type 0 where
  listening : Phase
  preparing : (collected_ri_list : List (String × Bytes)) → Phase
  committing : (sigs : List (String × List (String × CommittedSig))) → Phase

-- BFTProtocol, with the messages that it forwarded; `timed_out` is that cTimeout is closed.
pub record BftProtocol : Type 0 where
  pub phase : Phase
  pub pending_block : Option Block
  pub data_to_sig : Bytes
  pub combine : Combine
  pub timed_out : Bool
  pub quit : Bool
  pub forwarded : List Message

-- What the node waits for: a message, the end of the phase's time, or that cQuit is closed. After
-- cTimeout is closed a message may still be taken first.
pub data Event : Type 0 where
  message : Message → Event
  time_over : Event
  quit_closed : Event

pub data StopReason : Type 0 where
  consensus_quit no_block listen_timeout not_enough_ri sign_failed : StopReason
  not_enough_sigs combine_failed : StopReason

pub data Run : Type 0 where
  running : BftProtocol → Run
  returned : Option Block → Run
  stopped : StopReason → Run
  crashed : Run

module _ (round : Round) where
  open round use {
    crypto, committee, is_proposer, own_key, own_ri, new_block, unmarshal, verify_pre_sign,
    header_hash,
  }

  -- The start of a phase: the test of cQuit, and a new cTimeout.
  unfoldable pub enter : BftProtocol → Phase → Run
  enter p ph =
      if p.quit
      then stopped consensus_quit
      else running (record p { phase = ph; timed_out = false })

  -- Start. A proposer returns its own block at once.
  unfoldable pub start : Bool → Run
  unfolding enter
  start quit =
      if quit
      then stopped consensus_quit
      else if is_proposer
      then elim new_block [ none ↦ stopped no_block | some b ↦ returned (some b) ]
      else running (record {
        phase = listening;
        pending_block = none;
        data_to_sig = [];
        combine = no_combine;
        timed_out = false;
        quit = quit;
        forwarded = [];
      })

  -- A proposed block in the listen phase.
  unfoldable pub receive_propose : BftProtocol → Bytes → Run
  unfolding enter
  receive_propose p block =
      let pending = unmarshal block in
      if verify_pre_sign pending
      then enter
          (record p {
            pending_block = some pending;
            data_to_sig = header_hash pending.content;
            forwarded = p.forwarded ++ propose block ∷ [];
          })
          (preparing ((own_key, own_ri) ∷ []))
      else running p

  -- The Ri of a member in the prepare phase.
  unfoldable pub add_ri : BftProtocol → List (String × Bytes) → String → Bytes → Bytes → Run
  add_ri p ris pubkey ri blk_hash = running (record p {
    phase = preparing ((pubkey, ri) ∷ ris);
    timed_out = p.timed_out || (length ris + 1 == length committee);
    forwarded = p.forwarded ++ prepare pubkey ri blk_hash ∷ [];
  })

  unfoldable pub is_member : String → Bool
  is_member pubkey = elim (index_of_str pubkey committee) [ none ↦ false | some i ↦ true ]

  unfoldable pub receive_prepare :
      BftProtocol → List (String × Bytes) → String → Bytes → Bytes → Run
  unfolding add_ri is_member
  receive_prepare p ris pubkey ri blk_hash =
      if is_member pubkey && bytes_eq p.data_to_sig blk_hash
      then elim (find pubkey ris) [
        | some there ↦ running p
        | none ↦ add_ri p ris pubkey ri blk_hash
      ]
      else running p

  -- The commit phase starts with the signature of the node itself.
  unfoldable pub after_signing : BftProtocol → Result SignError Combine → Run
  unfolding enter
  after_signing p (err e) = stopped sign_failed
  after_signing p (ok c) =
      let own : CommittedSig = record {
        validators_idx_r = c.validators_idx_r;
        sig = c.commit_sig;
      } in
      enter (record p { combine = c }) (committing ((c.r, (own_key, own) ∷ []) ∷ []))

  -- The end of the prepare phase.
  unfoldable pub sign : BftProtocol → List (String × Bytes) → Run
  unfolding after_signing
  sign p ris =
      if ltb (length ris) (length committee / 2)
      then stopped not_enough_ri
      else after_signing p (sign_data crypto committee p.data_to_sig ris)

  -- `phaseData.Sigs[R]`, empty where R has no entry
  abbrev pub sigs_of :
      String → List (String × List (String × CommittedSig)) → List (String × CommittedSig)
  sigs_of r sigs = or_else [] (find r sigs)

  -- A verified signature in the commit phase, and the one that the node has of its key.
  unfoldable pub add_sig :
      BftProtocol
      → List (String × List (String × CommittedSig))
      → String
      → String
      → String
      → List Index
      → Option CommittedSig
      → Run
  add_sig p sigs pubkey commit_sig r validators_idx (some there) =
      running (record p { phase = committing (set_at r (sigs_of r sigs) sigs) })
  add_sig p sigs pubkey commit_sig r validators_idx none =
      let new_sig : CommittedSig = record { validators_idx_r = validators_idx; sig = commit_sig } in
      running (record p {
        phase = committing (set_at r ((pubkey, new_sig) ∷ sigs_of r sigs) sigs);
        timed_out = p.timed_out || leb (2 * length committee / 3) (length (sigs_of r sigs) + 1);
        forwarded = p.forwarded ++ commit pubkey commit_sig r validators_idx ∷ [];
      })

  unfoldable pub receive_commit :
      BftProtocol
      → List (String × List (String × CommittedSig))
      → String
      → String
      → String
      → List Index
      → Run
  unfolding add_sig
  receive_commit p sigs pubkey commit_sig r validators_idx =
      elim (verify_commit_sig crypto committee p.data_to_sig pubkey commit_sig r validators_idx) [
        | crash ↦ crashed
        | rejected ↦ running p
        | accepted ↦
            add_sig p sigs pubkey commit_sig r validators_idx (find pubkey (sigs_of r sigs))
      ]

  -- `len(szRCombined) == 1`
  abbrev pub is_unset : String → Bool
  is_unset r = length (codes r) == 1

  -- The loop over the keys of the map: the R with the most signatures, of those with more than half
  -- of the committee.
  unfoldable pub choose_r :
      List (String × List (String × CommittedSig)) → List String → String → String
  choose_r sigs [] best = best
  choose_r sigs (r ∷ rs) best = choose_r sigs rs (
      if ltb (length committee / 2) (length (sigs_of r sigs))
      then (if is_unset best
          then r
          else if ltb (length (sigs_of best sigs)) (length (sigs_of r sigs))
          then r
          else best)
      else best)

  -- The pending block with the signature; the type assertion on a block that is not there panics.
  unfoldable pub finish : Option Block → Combine → String → Run
  finish none c aggregated = crashed
  finish (some b) c aggregated = returned (
      some (record b {
        r = c.r;
        aggregated_sig = aggregated;
        validators_idx = c.validators_idx_r ∷ c.validators_idx_agg_sig ∷ [];
      }))

  unfoldable pub after_combining : BftProtocol → Result SignError (String × Combine) → Run
  unfolding finish
  after_combining p (err e) = stopped combine_failed
  after_combining p (ok (aggregated, c)) = finish p.pending_block c aggregated

  -- The end of the commit phase.
  unfoldable pub combine_with :
      BftProtocol → List (String × List (String × CommittedSig)) → String → Run
  unfolding after_combining
  combine_with p sigs r =
      if is_unset r
      then stopped not_enough_sigs
      else after_combining p (combine_sigs crypto committee p.combine r (sigs_of r sigs))

  unfoldable pub combine_all : BftProtocol → List (String × List (String × CommittedSig)) → Run
  unfolding combine_with choose_r
  combine_all p sigs = combine_with p sigs (choose_r sigs (keys sigs) "1")

  unfoldable pub receive : BftProtocol → Phase → Message → Run
  unfolding receive_propose receive_prepare receive_commit
  receive p listening (propose block) = receive_propose p block
  receive p (preparing ris) (prepare pubkey ri blk_hash) = receive_prepare p ris pubkey ri blk_hash
  receive p (committing sigs) (commit pubkey commit_sig r validators_idx) =
      receive_commit p sigs pubkey commit_sig r validators_idx
  receive p ph m = running p

  unfoldable pub end_phase : BftProtocol → Phase → Run
  unfolding sign combine_all
  end_phase p listening = stopped listen_timeout
  end_phase p (preparing ris) = sign p ris
  end_phase p (committing sigs) = combine_all p sigs

  -- One round of a loop.
  unfoldable pub step : BftProtocol → Event → Run
  unfolding receive end_phase
  step p (message m) = receive p p.phase m
  step p time_over = end_phase p p.phase
  step p quit_closed = running (record p { quit = true })

  unfoldable pub run : Run → List Event → Run
  unfolding step
  run state [] = state
  run (running p) (e ∷ events) = run (step p e) events
  run (returned b) (e ∷ events) = returned b
  run (stopped reason) (e ∷ events) = stopped reason
  run crashed (e ∷ events) = crashed
