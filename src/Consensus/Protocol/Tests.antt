-- ===== src/Consensus/Protocol/Tests.antt =====
-- The protocol on small committees.
use cash_prototype.Base.{
  ◌+◌, ◌≤◌, ◌≡◌, refl, ◌≢◌, ◌↔◌, inl, true, false, none, some, List, [], ◌∷◌, arith, if◌then◌else◌,
  length, All,
}
use cash_prototype.Base.{or_else, String, str_eq, str_eq_iff, codes}
use cash_prototype.Common.{index_of_str}
use cash_prototype.Common.Bytes.{Bytes, bytes_eq}
use cash_prototype.Consensus.Table.{find, set_at, keys}
use cash_prototype.Consensus.Signing.{
  Crypto, CommittedSig, accepted, sign_data, verify_commit_sig, combine_sigs,
}
use cash_prototype.Consensus.Protocol.{
  Block, propose, prepare, commit, Round, Phase, listening, committing, BftProtocol, Event, message,
  time_over, not_enough_sigs, running, returned, stopped, crashed, enter, start, receive_propose,
  receive_prepare, sigs_of, receive_commit, is_unset, after_combining, receive, end_phase, step,
  run,
}
use cash_prototype.Consensus.Protocol.Phases.{Agreed}
use cash_prototype.Consensus.Protocol.Agreement.{run-Agreed}
use cash_prototype.Consensus.Protocol.Ending.{ends, run-ends}
use cash_prototype.Consensus.Protocol.Closing.{receive_commit-closes, receive_commit-four}
use cash_prototype.Consensus.Protocol.Quorum.{in_commit, commits, collect, Fresh, run-quorum}
use cash_prototype.Consensus.Protocol.Forging.{receive_commit-crashes, receive_commit-unchecked}
use cash_prototype.Consensus.Signing.{sort_ints}

-- A signature is the key itself, and "v1" is encoded with the version 1.
abbrev toy_crypto : Crypto
toy_crypto = record {
  decode = λ s. some (codes s, if str_eq s "v1" then 1 else 0);
  encode = λ b. "point";
  is_point = λ b. true;
  add_points = λ ps. [];
  read_signature = λ b. some b;
  sign_multi_sig = λ hash ks rs. [];
  verify_multi_sig = λ hash signers key r signature. bytes_eq key signature;
  combine_multi_sig = λ sigs. [];
}

abbrev block_of : Bytes → Block
block_of json = record { content = json; r = ""; aggregated_sig = ""; validators_idx = [] }

abbrev member_of : List String → Round
member_of committee = record {
  crypto = toy_crypto;
  committee = committee;
  is_proposer = false;
  own_key = "a";
  own_ri = 1 ∷ [];
  new_block = none;
  unmarshal = block_of;
  verify_pre_sign = λ b. true;
  header_hash = λ b. b;
}

abbrev three : Round
three = member_of ("a" ∷ "b" ∷ "c" ∷ [])

abbrev four : Round
four = member_of ("a" ∷ "b" ∷ "c" ∷ "d" ∷ [])

abbrev some_events : List Event
some_events =
    message (propose (7 ∷ []))
    ∷ message (prepare "b" (2 ∷ []) (7 ∷ []))
    ∷ time_over
    ∷ message (commit "b" "b" "point" (some 0 ∷ some 1 ∷ []))
    ∷ time_over
    ∷ []

abbrev signed_block : Block
signed_block = record {
  content = 7 ∷ [];
  r = "point";
  aggregated_sig = "point";
  validators_idx = (some 0 ∷ some 1 ∷ []) ∷ (some 0 ∷ some 1 ∷ []) ∷ [];
}

run-three : run three (start three false) some_events ≡ returned (some signed_block)
unfolding run start step receive receive_propose enter receive_prepare index_of_str bytes_eq find
    sign_data verify_commit_sig keys set_at combine_sigs sort_ints
run-three = refl

run-Agreed_example : (b : Block) × (some signed_block ≡ some b) × Agreed three (λ e. Unit) b
run-Agreed_example =
    run-Agreed three (λ e. Unit) false some_events (some signed_block) refl
      (tt, (tt, (tt, (tt, (tt, tt))))) run-three

abbrev committing_block : Phase → BftProtocol
committing_block ph = record {
  phase = ph;
  pending_block = some (block_of (7 ∷ []));
  data_to_sig = 7 ∷ [];
  combine = record {
    commit_sig = "point";
    r = "point";
    validators_idx_r = [];
    validators_idx_agg_sig = [];
  };
  timed_out = false;
  quit = false;
  forwarded = [];
}

two_ends : 2 ≤ ends some_events
unfolding ends
two_ends = omega arith

run-ends_example : run three (start three false) some_events ≢ running (committing_block listening)
run-ends_example = run-ends three false some_events (committing_block listening) two_ends

abbrev own_sig : String × CommittedSig
own_sig = ("a", record { validators_idx_r = []; sig = "point" })

abbrev own_table : List (String × List (String × CommittedSig))
own_table = ("point", own_sig ∷ []) ∷ []

verified_b :
    (committee : List String)
    → verify_commit_sig toy_crypto committee (7 ∷ []) "b" "b" "point" [] ≡ accepted
unfolding verify_commit_sig bytes_eq
verified_b committee = refl

b_is_fresh : find "b" (own_sig ∷ []) ≡ none
unfolding find
b_is_fresh = refl

b_is_fresh_there : find "b" (sigs_of three "point" own_table) ≡ none
unfolding find
b_is_fresh_there = refl

keys_set : All (λ q. is_unset three q ≡ false) (keys own_table)
unfolding keys
keys_set = (refl, tt)

a_is_not_b : own_sig.0 ≢ "b"
a_is_not_b e = differ ((str_eq_iff "a" "b").1 e)
  where
    differ : str_eq "a" "b" ≡ true → ⊥
    differ h = cc

receive_commit-closes_example :
    (after : BftProtocol) × (receive_commit three
        (committing_block (committing own_table))
        own_table
        "b"
        "b"
        "point"
        []
      ≡ running after)
    × ((after.timed_out ≡ true) ↔ (2 ≤ length (sigs_of three "point" own_table) + 1))
    × (after.timed_out ≡ true → end_phase three after after.phase ≢ stopped not_enough_sigs)
receive_commit-closes_example =
    receive_commit-closes three (committing_block (committing own_table)) own_table "b" "b" "point"
      [] (inl refl) refl keys_set refl (verified_b ("a" ∷ "b" ∷ "c" ∷ [])) b_is_fresh_there

receive_commit-four_example :
    (after : BftProtocol) × (receive_commit four
        (committing_block (committing own_table))
        own_table
        "b"
        "b"
        "point"
        []
      ≡ running after)
    × (after.timed_out ≡ true)
    × (end_phase four after after.phase ≡ stopped not_enough_sigs)
receive_commit-four_example =
    receive_commit-four four (committing_block (committing own_table)) own_sig "b" "b" "point" []
      refl (verified_b ("a" ∷ "b" ∷ "c" ∷ "d" ∷ [])) a_is_not_b

abbrev vote_b : String × CommittedSig
vote_b = ("b", record { validators_idx_r = []; sig = "b" })

vote_is_Fresh : Fresh (vote_b ∷ []) (own_sig ∷ [])
unfolding Fresh find
vote_is_Fresh = (refl, tt)

run-quorum_example :
    run three
      (running (in_commit three (committing_block listening) "point" (own_sig ∷ [])))
      (commits "point" (vote_b ∷ []) (time_over ∷ []))
    ≡ after_combining three (committing_block listening) (
        combine_sigs toy_crypto
          ("a" ∷ "b" ∷ "c" ∷ [])
          (committing_block listening).combine
          "point"
          (collect (vote_b ∷ []) (own_sig ∷ [])))
run-quorum_example =
    run-quorum three (committing_block listening) "point" own_sig (vote_b ∷ []) refl (omega arith)
      vote_is_Fresh (verified_b ("a" ∷ "b" ∷ "c" ∷ []), tt)

receive_commit-crashes_example :
    receive_commit three
      (committing_block (committing own_table))
      own_table
      "z"
      "z"
      "point"
      (some 1 ∷ some 3 ∷ [])
    ≡ crashed
receive_commit-crashes_example =
    receive_commit-crashes three (committing_block (committing own_table)) own_table "z" "z" "point"
      (codes "point") (some 1 ∷ []) [] (some 3) refl refl refl

receive_commit-unchecked_example :
    (q : BftProtocol) × (sigs_after : List (String × List (String × CommittedSig)))
    × (receive_commit three
          (committing_block (committing own_table))
          own_table
          "z"
          "nothing"
          "v1"
          []
        ≡ running q)
    × (q.phase ≡ committing sigs_after)
    × (find "z" (sigs_of three "v1" sigs_after)
        ≡ some (
            or_else
              (record { validators_idx_r = []; sig = "nothing" })
              (find "z" (sigs_of three "v1" own_table))))
    × ((other : String)
        → str_eq "z" other ≡ false
        → find other (sigs_of three "v1" sigs_after) ≡ find other (sigs_of three "v1" own_table))
    × ((other : String) → str_eq "v1" other ≡ false → find other sigs_after ≡ find other own_table)
    × (find "z" (sigs_of three "v1" own_table) ≡ none
        → length (sigs_of three "v1" sigs_after) ≡ length (sigs_of three "v1" own_table) + 1)
receive_commit-unchecked_example =
    receive_commit-unchecked three (committing_block (committing own_table)) own_table "z" "nothing"
      "v1" (codes "v1") 0 [] refl
