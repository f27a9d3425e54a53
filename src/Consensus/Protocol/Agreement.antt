-- ===== src/Consensus/Protocol/Agreement.antt =====
-- What a committee's members have agreed on when a member that does not propose returns a block.
use cash_prototype.Base.{
  ◌≡◌, refl, subst, Bool, true, false, Option, none, some, List, [], ◌∷◌, All,
}
use cash_prototype.Consensus.Protocol.{
  Block, Message, propose, prepare, commit, other_message, Round, Phase, listening, preparing,
  committing, BftProtocol, Event, message, time_over, quit_closed, Run, running, returned, stopped,
  crashed, start, receive, end_phase, step, run,
}
use cash_prototype.Consensus.Protocol.Phases.{
  Agreed, InPhase, Holds, receive_propose-Holds, receive_prepare-Holds,
}
use cash_prototype.Consensus.Protocol.Signatures.{
  sign-Holds, receive_commit-Holds, combine_all-Holds,
}

module _ (round : Round) (Sent : Event → Type 0) where
  open round use {committee, own_key, crypto, verify_pre_sign, unmarshal, header_hash}

  receive-Holds :
      (p : BftProtocol) (ph : Phase) (m : Message)
      → InPhase round Sent p p.phase
      → InPhase round Sent p ph
      → Sent (message m)
      → Holds round Sent (receive round p ph m)
  unfolding receive
  receive-Holds p listening (propose json) same inv sent =
      receive_propose-Holds round Sent p json same sent
  receive-Holds p listening (prepare k ri hash) same inv sent = same
  receive-Holds p listening (commit k s r idxs) same inv sent = same
  receive-Holds p listening other_message same inv sent = same
  receive-Holds p (preparing ris) (propose json) same inv sent = same
  receive-Holds p (preparing ris) (prepare k ri hash) same inv sent =
      receive_prepare-Holds round Sent p ris k ri hash same inv sent
  receive-Holds p (preparing ris) (commit k s r idxs) same inv sent = same
  receive-Holds p (preparing ris) other_message same inv sent = same
  receive-Holds p (committing sigs) (propose json) same inv sent = same
  receive-Holds p (committing sigs) (prepare k ri hash) same inv sent = same
  receive-Holds p (committing sigs) (commit k s r idxs) same inv sent =
      receive_commit-Holds round Sent p sigs k s r idxs same inv sent
  receive-Holds p (committing sigs) other_message same inv sent = same

  end_phase-Holds :
      (p : BftProtocol) (ph : Phase)
      → InPhase round Sent p ph
      → Holds round Sent (end_phase round p ph)
  unfolding end_phase
  end_phase-Holds p listening inv = tt
  end_phase-Holds p (preparing ris) inv = sign-Holds round Sent p ris inv
  end_phase-Holds p (committing sigs) inv = combine_all-Holds round Sent p sigs inv

  keep_phase :
      (p : BftProtocol) (ph : Phase)
      → InPhase round Sent p ph
      → InPhase round Sent (record p { quit = true }) ph
  keep_phase p listening inv = inv
  keep_phase p (preparing ris) inv = inv
  keep_phase p (committing sigs) inv = inv

  step-Holds :
      (p : BftProtocol) (e : Event)
      → InPhase round Sent p p.phase
      → Sent e
      → Holds round Sent (step round p e)
  unfolding step
  step-Holds p (message m) inv sent = receive-Holds p p.phase m inv inv sent
  step-Holds p time_over inv sent = end_phase-Holds p p.phase inv
  step-Holds p quit_closed inv sent = keep_phase p p.phase inv

  run-Holds :
      (state : Run) (events : List Event)
      → Holds round Sent state
      → All Sent events
      → Holds round Sent (run round state events)
  unfolding run
  run-Holds state [] inv sent = inv
  run-Holds (running p) (e ∷ events) inv sent =
      run-Holds (step round p e) events (step-Holds p e inv sent.0) sent.1
  run-Holds (returned b) (e ∷ events) inv sent = inv
  run-Holds (stopped reason) (e ∷ events) inv sent = tt
  run-Holds crashed (e ∷ events) inv sent = tt

  start-Holds : (quit : Bool) → round.is_proposer ≡ false → Holds round Sent (start round quit)
  unfolding start
  start-Holds true listens = tt
  start-Holds false listens = rw listens tt

-- When Start returns a block at a member that does not propose, after any sequence of messages, ends
-- of phases and quits: the block was proposed in a message and passed the checks before signing; Ri of
-- different keys, in number at least half of the committee's size rounded down, were collected, each
-- the member's own or sent for the block's hash with the key of a member; and its aggregated signature
-- is what CombineSigs makes of signatures of different keys for one R, in number more than half of the
-- committee's size, each accepted by VerifyCommitSig for the block's hash, or the member's own. `Sent`
-- is any property that all the events have.
pub run-Agreed :
    (round : Round) (Sent : Event → Type 0) (quit : Bool) (events : List Event) (b : Option Block)
    → round.is_proposer ≡ false
    → All Sent events
    → run round (start round quit) events ≡ returned b
    → (block : Block) × (b ≡ some block) × Agreed round Sent block
run-Agreed round Sent quit events b listens sent e = from_Holds b (
    subst (Holds round Sent) e
      (run-Holds round Sent (start round quit) events (start-Holds round Sent quit listens) sent))
  where
    from_Holds :
        (b : Option Block)
        → Holds round Sent (returned b)
        → (block : Block) × (b ≡ some block) × Agreed round Sent block
    from_Holds none h = absurd h
    from_Holds (some block) h = (block, refl, h)
