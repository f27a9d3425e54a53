-- ===== src/Consensus/Protocol/Ending.antt =====
-- Every run of the protocol ends, and what its commit phase collects.
use cash_prototype.Base.{
  ℕ, suc, ◌+◌, ◌-◌, ◌/◌, ◌≤◌, ◌<◌, ◌≡◌, refl, ap, ◌≢◌, inl, inr, Bool, true, false, ◌&&◌, Option,
  none, some, List, [], ◌∷◌, ◌++◌, arith, ltb, Bool-cases, Option-cases, length,
}
use cash_prototype.Base.{String, Result, ok, err}
use cash_prototype.Common.Bytes.{Bytes, bytes_eq}
use cash_prototype.Consensus.Table.{find, keys}
use cash_prototype.Consensus.Signing.{
  CommittedSig, Combine, Index, accepted, rejected, crash, SignError, sign_data, verify_commit_sig,
  combine_sigs,
}
use cash_prototype.Consensus.Protocol.{
  Block, Message, propose, prepare, commit, other_message, Round, Phase, listening, preparing,
  committing, BftProtocol, Event, message, time_over, quit_closed, Run, running, returned, stopped,
  crashed, enter, start, receive_propose, add_ri, is_member, receive_prepare, sign, sigs_of,
  add_sig, receive_commit, is_unset, choose_r, finish, combine_with, after_signing, after_combining,
  combine_all, receive, end_phase, step, run,
}

-- The ends of phases among some events.
unfoldable pub ends : List Event → ℕ
ends [] = 0
ends (time_over ∷ events) = suc (ends events)
ends (message m ∷ events) = ends events
ends (quit_closed ∷ events) = ends events

-- How many more ends of phases a run can take.
abbrev left_in : Phase → ℕ
left_in listening = 2
left_in (preparing ris) = 2
left_in (committing sigs) = 1

abbrev left : Run → ℕ
left (running p) = left_in p.phase
left (returned b) = 0
left (stopped reason) = 0
left crashed = 0

module _ (round : Round) where
  open round use {committee, crypto}

  enter-left : (p : BftProtocol) (ph : Phase) → left (enter round p ph) ≤ left_in ph
  unfolding enter
  enter-left p ph = elim (Bool-cases p.quit) [
    | inl gone ↦ rw gone (omega arith)
    | inr stays ↦ rw stays (omega arith)
  ]

  receive_propose-left :
      (p : BftProtocol) (json : Bytes)
      → left_in p.phase ≡ 2
      → left (receive_propose round p json) ≤ 2
  unfolding receive_propose
  receive_propose-left p json two =
      elim (Bool-cases (round.verify_pre_sign (round.unmarshal json))) [
        | inl fine ↦ rw fine (
            enter-left
              (record p {
                pending_block = some (round.unmarshal json);
                data_to_sig = round.header_hash (round.unmarshal json).content;
                forwarded = p.forwarded ++ propose json ∷ [];
              })
              (preparing ((round.own_key, round.own_ri) ∷ [])))
        | inr wrong ↦ rw wrong (omega arith)
      ]

  receive_prepare-left :
      (p : BftProtocol) (ris : List (String × Bytes)) (k : String) (ri hash : Bytes)
      → left_in p.phase ≡ 2
      → left (receive_prepare round p ris k ri hash) ≤ 2
  unfolding receive_prepare add_ri
  receive_prepare-left p ris k ri hash two =
      elim (Bool-cases (is_member round k && bytes_eq p.data_to_sig hash)) [
        | inl fits ↦ elim (Option-cases (find k ris)) [
          | inl fresh ↦ rw (fits, fresh) (omega arith)
          | inr (there, e) ↦ rw (fits, e) (omega arith)
        ]
        | inr other ↦ rw other (omega arith)
      ]

  add_sig-left :
      (p : BftProtocol) (sigs : List (String × List (String × CommittedSig))) (k s r : String)
      (idxs : List Index) (there : Option CommittedSig)
      → left (add_sig round p sigs k s r idxs there) ≤ 1
  unfolding add_sig
  add_sig-left p sigs k s r idxs none = omega arith
  add_sig-left p sigs k s r idxs (some there) = omega arith

  receive_commit-left :
      (p : BftProtocol) (sigs : List (String × List (String × CommittedSig))) (k s r : String)
      (idxs : List Index)
      → left_in p.phase ≡ 1
      → left (receive_commit round p sigs k s r idxs) ≤ 1
  unfolding receive_commit
  receive_commit-left p sigs k s r idxs one =
      elim (verify_commit_sig crypto committee p.data_to_sig k s r idxs)
        as (λ v.
          left (elim v as (λ w. Run) [
            | crash ↦ crashed
            | rejected ↦ running p
            | accepted ↦ add_sig round p sigs k s r idxs (find k (sigs_of round r sigs))
          ])
          ≤ 1) [
            | crash ↦ omega arith
            | rejected ↦ omega arith
            | accepted ↦ add_sig-left p sigs k s r idxs (find k (sigs_of round r sigs))
          ]

  receive-left :
      (p : BftProtocol) (ph : Phase) (m : Message)
      → left_in p.phase ≡ left_in ph
      → left (receive round p ph m) ≤ left_in ph
  unfolding receive
  receive-left p listening (propose json) e = receive_propose-left p json e
  receive-left p listening (prepare k ri hash) e = omega arith
  receive-left p listening (commit k s r idxs) e = omega arith
  receive-left p listening other_message e = omega arith
  receive-left p (preparing ris) (propose json) e = omega arith
  receive-left p (preparing ris) (prepare k ri hash) e = receive_prepare-left p ris k ri hash e
  receive-left p (preparing ris) (commit k s r idxs) e = omega arith
  receive-left p (preparing ris) other_message e = omega arith
  receive-left p (committing sigs) (propose json) e = omega arith
  receive-left p (committing sigs) (prepare k ri hash) e = omega arith
  receive-left p (committing sigs) (commit k s r idxs) e = receive_commit-left p sigs k s r idxs e
  receive-left p (committing sigs) other_message e = omega arith

  after_signing-left :
      (p : BftProtocol) (result : Result SignError Combine)
      → left (after_signing round p result) ≤ 1
  unfolding after_signing
  after_signing-left p (err e) = omega arith
  after_signing-left p (ok c) = enter-left (record p { combine = c }) (committing _)

  finish-left : (b : Option Block) (c : Combine) (s : String) → left (finish round b c s) ≡ 0
  unfolding finish
  finish-left none c s = refl
  finish-left (some b) c s = refl

  after_combining-left :
      (p : BftProtocol) (result : Result SignError (String × Combine))
      → left (after_combining round p result) ≡ 0
  unfolding after_combining
  after_combining-left p (err e) = refl
  after_combining-left p (ok (s, c)) = finish-left p.pending_block c s

  end_phase-left : (p : BftProtocol) (ph : Phase) → left (end_phase round p ph) + 1 ≤ left_in ph
  unfolding end_phase sign combine_all combine_with
  end_phase-left p listening = omega arith
  end_phase-left p (preparing ris) = elim (Bool-cases (ltb (length ris) (length committee / 2))) [
    | inl few ↦ rw few (omega arith)
    | inr half ↦
        rw half (omega (arith, after_signing-left p (sign_data crypto committee p.data_to_sig ris)))
  ]
  end_phase-left p (committing sigs) =
      let r = choose_r round sigs (keys sigs) "1" in
      elim (Bool-cases (is_unset round r)) [
        | inl unset ↦ rw unset (omega arith)
        | inr chosen ↦ rw chosen (
            omega (
              arith,
              after_combining-left p
                  (combine_sigs crypto committee p.combine r (sigs_of round r sigs)),
            ))
      ]

  run-left :
      (state : Run) (events : List Event) → left (run round state events) ≤ left state - ends events
  unfolding run step ends
  run-left state [] = omega arith
  run-left (running p) (message m ∷ events) =
      omega (arith, run-left (receive round p p.phase m) events, receive-left p p.phase m refl)
  run-left (running p) (time_over ∷ events) =
      omega (arith, run-left (end_phase round p p.phase) events, end_phase-left p p.phase)
  run-left (running p) (quit_closed ∷ events) = run-left (running (record p { quit = true })) events
  run-left (returned b) (e ∷ events) = omega arith
  run-left (stopped reason) (e ∷ events) = omega arith
  run-left crashed (e ∷ events) = omega arith

  start-left : (quit : Bool) → left (start round quit) ≤ 2
  unfolding start
  start-left true = omega arith
  start-left false = elim (Bool-cases round.is_proposer) [
    | inl own ↦ elim (Option-cases round.new_block) [
      | inl failed ↦ rw (own, failed) (omega arith)
      | inr (b, made) ↦ rw (own, made) (omega arith)
    ]
    | inr listens ↦ rw listens (omega arith)
  ]

  left_in_positive : (ph : Phase) → 0 < left_in ph
  left_in_positive listening = omega arith
  left_in_positive (preparing ris) = omega arith
  left_in_positive (committing sigs) = omega arith

  -- Start ends: once two phases have run out of time, it no longer waits, whatever messages came before
  -- and between.
  pub run-ends :
      (quit : Bool) (events : List Event) (p : BftProtocol)
      → 2 ≤ ends events
      → run round (start round quit) events ≢ running p
  run-ends quit events p enough e =
      let waits : left (run round (start round quit) events) ≡ left_in p.phase = ap left e in
      absurd (
        omega (
          arith,
          waits,
          run-left (start round quit) events,
          start-left quit,
          left_in_positive p.phase,
        ))
