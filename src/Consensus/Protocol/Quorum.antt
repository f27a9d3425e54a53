-- ===== src/Consensus/Protocol/Quorum.antt =====
-- The signatures of a quorum lead to a combined signature.
use cash_prototype.Base.{
  ◌+◌, ◌*◌, ◌/◌, ◌<◌, ◌≡◌, refl, ap, ◌∙◌, Bool, true, false, ◌||◌, none, List, [], ◌∷◌, ◌++◌, arith,
  ltb, leb, length, All,
}
use cash_prototype.Base.{String, str_eq_refl, Result, ok, err}
use cash_prototype.Consensus.Table.{find, set_at, keys}
use cash_prototype.Consensus.Signing.{
  CommittedSig, Combine, accepted, SignError, verify_commit_sig, combine_sigs,
}
use cash_prototype.Consensus.Protocol.{
  Message, commit, Round, committing, BftProtocol, Event, message, time_over, running, add_sig,
  receive_commit, is_unset, choose_r, combine_with, after_combining, combine_all, receive,
  end_phase, step, run,
}

abbrev pub Votes : Type 0
Votes = List (String × CommittedSig)

-- The commit messages with the signatures for `r`, followed by further events.
unfoldable pub commits : String → Votes → List Event → List Event
commits r [] rest = rest
commits r (v ∷ votes) rest =
    message (commit v.0 v.1.sig r v.1.validators_idx_r) ∷ commits r votes rest

-- The entries with the votes put in front, one after the other.
unfoldable pub collect : Votes → Votes → Votes
collect [] entries = entries
collect (v ∷ votes) entries = collect votes (v ∷ entries)

-- Each vote is of a key that has no entry yet.
unfoldable pub Fresh : Votes → Votes → Type 0
Fresh [] entries = Unit
Fresh (v ∷ votes) entries = (find v.0 entries ≡ none) × Fresh votes (v ∷ entries)

length-collect :
    (votes entries : Votes) → length (collect votes entries) ≡ length votes + length entries
unfolding collect
length-collect [] entries = omega arith
length-collect (v ∷ votes) entries = omega (arith, length-collect votes (v ∷ entries))

module _ (round : Round) where
  open round use {committee, crypto}

  -- The protocol in its commit phase with signatures for one R.
  abbrev pub in_commit : BftProtocol → String → Votes → BftProtocol
  in_commit p r entries = record p { phase = committing ((r, entries) ∷ []) }

  step-commit :
      (p : BftProtocol) (r : String) (entries : Votes) (v : String × CommittedSig)
      → verify_commit_sig crypto committee p.data_to_sig v.0 v.1.sig r v.1.validators_idx_r
        ≡ accepted
      → find v.0 entries ≡ none
      → (t : Bool) × (f : List Message) × (step round
            (in_commit p r entries)
            (message (commit v.0 v.1.sig r v.1.validators_idx_r))
          ≡ running (in_commit (record p { timed_out = t; forwarded = f }) r (v ∷ entries)))
  unfolding step receive receive_commit set_at find add_sig
  step-commit p r entries v fine fresh =
      let here = str_eq_refl r in
      (
        p.timed_out || leb (2 * length committee / 3) (length entries + 1),
        p.forwarded ++ commit v.0 v.1.sig r v.1.validators_idx_r ∷ [],
        rw (receive_commit, fine, here, fresh) (rw (add_sig, here) refl),
      )

  run-commits :
      (p : BftProtocol) (r : String) (entries votes : Votes) (rest : List Event)
      → All
          (λ v.
            verify_commit_sig crypto committee p.data_to_sig v.0 v.1.sig r v.1.validators_idx_r
            ≡ accepted)
          votes
      → Fresh votes entries
      → (t : Bool) × (f : List Message) × (run round
            (running (in_commit p r entries))
            (commits r votes rest)
          ≡ run round
              (running
                (in_commit (record p { timed_out = t; forwarded = f }) r (collect votes entries)))
              rest)
  unfolding run commits collect Fresh
  run-commits p r entries [] rest all fresh = (p.timed_out, p.forwarded, refl)
  run-commits p r entries (v ∷ votes) rest (fine, all) (new, fresh) =
      let (t, f, e) = step-commit p r entries v fine new in
      let (t', f', e') =
        run-commits (record p { timed_out = t; forwarded = f }) r (v ∷ entries) votes rest all
          fresh in
      (t', f', ap (λ state. run round state (commits r votes rest)) e ∙ e')

  combine_all-one :
      (p : BftProtocol) (r : String) (entries : Votes)
      → is_unset round r ≡ false
      → length committee / 2 < length entries
      → combine_all round p ((r, entries) ∷ [])
        ≡ after_combining round p (combine_sigs crypto committee p.combine r entries)
  unfolding combine_all combine_with choose_r keys find
  combine_all-one p r entries set many =
      let here = str_eq_refl r in
      let enough : ltb (length committee / 2) (length entries) ≡ true = ground (arith, many) in
      rw (here, enough) (rw (set, here) refl)

  after_combining-pending :
      (p : BftProtocol) (t : Bool) (f : List Message) (r : String) (entries : Votes)
      (result : Result SignError (String × Combine))
      → after_combining round
          (in_commit (record p { timed_out = t; forwarded = f }) r entries)
          result
        ≡ after_combining round p result
  unfolding after_combining
  after_combining-pending p t f r entries (err e) = refl
  after_combining-pending p t f r entries (ok (s, c)) = refl

  -- A member in its commit phase that receives verified signatures for its R, of different keys that
  -- have no signature yet, combines all of them with its own when the phase ends, if together they are
  -- more than half of the committee's size: it returns the pending block with the combined signature,
  -- unless CombineSigs fails. The R is longer than the text that stands for none.
  pub run-quorum :
      (p : BftProtocol) (r : String) (own : String × CommittedSig) (votes : Votes)
      → is_unset round r ≡ false
      → length committee / 2 < length votes + 1
      → Fresh votes (own ∷ [])
      → All
          (λ v.
            verify_commit_sig crypto committee p.data_to_sig v.0 v.1.sig r v.1.validators_idx_r
            ≡ accepted)
          votes
      → run round (running (in_commit p r (own ∷ []))) (commits r votes (time_over ∷ []))
        ≡ after_combining round p
            (combine_sigs crypto committee p.combine r (collect votes (own ∷ [])))
  unfolding run step end_phase
  run-quorum p r own votes set many fresh all =
      let (t, f, e) = run-commits p r (own ∷ []) votes (time_over ∷ []) all fresh in
      e
      ∙ combine_all-one
          (in_commit (record p { timed_out = t; forwarded = f }) r (collect votes (own ∷ []))) r
          (collect votes (own ∷ [])) set (omega (arith, length-collect votes (own ∷ [])))
      ∙ after_combining-pending p t f r (collect votes (own ∷ []))
          (combine_sigs crypto committee p.combine r (collect votes (own ∷ [])))
