-- ===== src/Database/Tests.antt =====
-- Runs on small inputs, and the theorems at inputs that meet their conditions.
use cash_prototype.Base.{
  ℕ, zero, suc, ◌+◌, ◌-◌, ◌%◌, ◌≡◌, refl, ◌≢◌, ◌↔◌, Bool, true, false, Option, none, some, List, [],
  ◌∷◌, map, arith, ltb, if◌then◌else◌, length, done, u64_mod,
}
use cash_prototype.Common.Bytes.{
  Bytes, u32_mod, uint32_to_bytes, uint64_to_bytes, bytes_to_uint32, bytes_to_uint64, bytes_eq,
  bytes_eq_iff,
}
use cash_prototype.Database.Keys.{
  length_mismatch, parsed, refused, get_key_from_variadic, parse_key_to_slice,
}
use cash_prototype.Database.Keys.Parsing.{parse_key_to_slice_iff}
use cash_prototype.Database.VoteKeys.{
  PaymentAddress, bytes_or_none, address_bytes, three_phrase_crypto_owner_prefix,
  get_key_vote_board_sum, parse_key_vote_board_sum, get_key_vote_board_count,
  get_key_vote_board_list, parse_key_vote_board_list, three_phrase_key, parse_three_phrase_key,
  get_key_vote_token_amount,
}
use cash_prototype.Database.VoteKeys.RoundTrip.{
  parse_key_vote_board_sum-get, parse_key_vote_board_list-get, parse_three_phrase_key-get,
}
use cash_prototype.Database.Votes.{
  Database, Written, written, failed, Ballot, add_votes, read_number,
}
use cash_prototype.Database.Votes.Keys.{sum_key}
use cash_prototype.Database.Votes.Sums.{received, times, add_votes-received}
use cash_prototype.Database.Proposals.{
  found, add_vote_lv1or2_proposal, add_vote_normal_from_sealer, set_vote_token_amount,
  take_vote_token_from_winner, get_vote_token_amount,
}
use cash_prototype.Database.Proposals.Phases.{add_vote_lv1or2_proposal-fails, take_vote_token-wraps}
use cash_prototype.Base.{◌<◌, ◌≤◌, length}
use cash_prototype.Database.Governors.{
  Candidate, governors, not_enough_candidate, get_top_most_vote_governor,
}
use cash_prototype.Database.Governors.Election.{
  Elects, sum_entries, IsStored, get_top_most_vote_governor-Elects,
}

abbrev repeated : ℕ → ℕ → Bytes
repeated zero b = []
repeated (suc n) b = b ∷ repeated n b

abbrev alice : PaymentAddress
alice = record { pk = repeated 33 1; tk = repeated 33 2 }

abbrev bob : PaymentAddress
bob = record { pk = repeated 33 3; tk = repeated 33 4 }

parse_key_to_slice_iff_example :
    (parse_key_to_slice (7 ∷ 8 ∷ 9 ∷ []) (1 ∷ 2 ∷ []) ≡ parsed ((7 ∷ []) ∷ (8 ∷ 9 ∷ []) ∷ [])) ↔ (
      (map (length {A = ℕ}) ((7 ∷ []) ∷ (8 ∷ 9 ∷ []) ∷ []) ≡ 1 ∷ 2 ∷ [])
      × (get_key_from_variadic ((7 ∷ []) ∷ (8 ∷ 9 ∷ []) ∷ []) ≡ 7 ∷ 8 ∷ 9 ∷ []))
parse_key_to_slice_iff_example =
    parse_key_to_slice_iff (7 ∷ 8 ∷ 9 ∷ []) (1 ∷ 2 ∷ []) ((7 ∷ []) ∷ (8 ∷ 9 ∷ []) ∷ [])

parse_key_vote_board_sum-get_example :
    parse_key_vote_board_sum (get_key_vote_board_sum 1 300 (some alice)) ≡ parsed (1, 300, alice)
parse_key_vote_board_sum-get_example =
    parse_key_vote_board_sum-get 1 300 alice (omega arith) (refl, refl)

parse_key_vote_board_list-get_example :
    (parse_key_vote_board_list (get_key_vote_board_list 1 300 (some alice) (some bob))
      ≡ refused length_mismatch)
    × (parse_key_vote_board_list (get_key_vote_board_list 1 300 (some alice) none)
        ≡ parsed (1, 300, alice.pk, record { pk = alice.tk; tk = [] }))
parse_key_vote_board_list-get_example =
    parse_key_vote_board_list-get 1 300 alice bob (omega arith) (refl, refl) (refl, refl)

parse_three_phrase_key-get_example :
    (parse_three_phrase_key three_phrase_crypto_owner_prefix
        (three_phrase_key three_phrase_crypto_owner_prefix 1 300 none)
      ≡ parsed (1, 300, none))
    × (parse_three_phrase_key three_phrase_crypto_owner_prefix
          (three_phrase_key three_phrase_crypto_owner_prefix 1 300 (some (repeated 32 5)))
        ≡ refused length_mismatch)
parse_three_phrase_key-get_example =
    parse_three_phrase_key-get three_phrase_crypto_owner_prefix 1 300 (repeated 32 5) (omega arith)
      (omega arith) refl

-- A database as a function, which never fails.
abbrev is_there : Option Bytes → Bool
is_there none = false
is_there (some value) = true

abbrev overwrite : Bytes → Bytes → (Bytes → Option Bytes) → Bytes → Option Bytes
overwrite key value s k = if bytes_eq k key then some value else s k

overwrite_same :
    (key value : Bytes) (s : Bytes → Option Bytes) → overwrite key value s key ≡ some value
overwrite_same key value s = ground (arith, (bytes_eq_iff key key).1 refl)

overwrite_other :
    (key other value : Bytes) (s : Bytes → Option Bytes)
    → other ≢ key
    → overwrite key value s other ≡ s other
overwrite_other key other value s ne = ground (arith, (bytes_eq_iff other key).0)

present : (o : Option Bytes) → some (is_there o) ≡ some true → o ≢ none
present none e h = cc
present (some value) e h = cc

absent : (o : Option Bytes) → some (is_there o) ≡ some false → o ≡ none
absent none e = refl
absent (some value) e = cc

abbrev in_memory : Database
in_memory = record {
  Store = Bytes → Option Bytes;
  get = λ s k. s k;
  write = λ key value s. (overwrite key value s, true);
  get-write_same = λ key value s fine. overwrite_same key value s;
  get-write_other = λ key other value s ne. overwrite_other key other value s ne;
  has = λ s k. some (is_there (s k));
  has-present = λ key s. present (s key);
  has-absent = λ key s. absent (s key);
}

abbrev nothing_stored : Bytes → Option Bytes
nothing_stored k = none

abbrev two_votes : List Ballot
two_votes =
    record { board = 1; index = 2; voter = bob; candidate = alice; amount = 40 }
    ∷ record { board = 1; index = 2; voter = alice; candidate = alice; amount = 2 }
    ∷ []

-- The store after a step, the given one where the step panics.
abbrev stored_or : {S : Type 0} → S → Written S → S
stored_or d (written s) = s
stored_or d (failed s) = d
stored_or d other = d

abbrev after_two : Bytes → Option Bytes
unfolding add_votes
after_two = stored_or nothing_stored (add_votes in_memory two_votes nothing_stored)

two_votes_written : add_votes in_memory two_votes nothing_stored ≡ written after_two
unfolding add_votes bytes_eq get_key_vote_board_count get_key_from_variadic uint32_to_bytes
    get_key_vote_board_sum get_key_vote_board_list bytes_or_none address_bytes bytes_to_uint64
    uint64_to_bytes bytes_to_uint32
two_votes_written = refl

add_votes-received_example :
    (read_number in_memory bytes_to_uint64 (sum_key 1 2 alice) after_two
      ≡ done (received 1 2 alice two_votes % u64_mod))
    × (read_number in_memory bytes_to_uint32 (get_key_vote_board_count 1 2 alice) after_two
        ≡ done (times 1 2 alice two_votes % u32_mod))
add_votes-received_example =
    add_votes-received in_memory two_votes nothing_stored after_two 1 2 alice
      ((omega arith, (refl, refl), (refl, refl)), ((omega arith, (refl, refl), (refl, refl)), tt))
      (omega arith) (refl, refl) refl refl two_votes_written

add_vote_lv1or2_proposal-fails_example :
    (add_vote_lv1or2_proposal in_memory 1 2 none nothing_stored ≡ failed nothing_stored)
    × (add_vote_normal_from_sealer in_memory 1 2 none (9 ∷ []) nothing_stored
        ≡ failed nothing_stored)
add_vote_lv1or2_proposal-fails_example =
    add_vote_lv1or2_proposal-fails in_memory 1 2 none (9 ∷ []) nothing_stored

abbrev with_tokens : Bytes → Option Bytes
unfolding set_vote_token_amount
with_tokens = stored_or nothing_stored (set_vote_token_amount in_memory 1 2 alice 5 nothing_stored)

abbrev tokens_taken : Bytes → Option Bytes
unfolding take_vote_token_from_winner
tokens_taken =
    stored_or nothing_stored (take_vote_token_from_winner in_memory 1 2 alice 6 with_tokens)

tokens_set : set_vote_token_amount in_memory 1 2 alice 5 nothing_stored ≡ written with_tokens
unfolding set_vote_token_amount
tokens_set = refl

tokens_left : take_vote_token_from_winner in_memory 1 2 alice 6 with_tokens ≡ written tokens_taken
unfolding take_vote_token_from_winner set_vote_token_amount bytes_eq get_key_vote_token_amount
    get_key_from_variadic uint32_to_bytes address_bytes bytes_to_uint32
tokens_left = refl

take_vote_token-wraps_example :
    (get_vote_token_amount in_memory 1 2 alice with_tokens ≡ found 5)
    × (get_vote_token_amount in_memory 1 2 alice tokens_taken
        ≡ found (if ltb 5 6 then 5 + u32_mod - 6 else 5 - 6))
take_vote_token-wraps_example =
    take_vote_token-wraps in_memory 1 2 5 6 alice nothing_stored with_tokens tokens_taken
      (omega arith) (omega arith) tokens_set refl tokens_left

-- Every key has the number 2.
abbrev twos : Bytes → Option Bytes
twos k = some (uint32_to_bytes 2)

abbrev candidate : ℕ → ℕ → Candidate
candidate k amount = record {
  payment_address = record { pk = repeated 33 k; tk = repeated 33 k };
  vote_amount = amount;
  number_of_vote = 2;
}

abbrev candidates : List Candidate
candidates = candidate 1 50 ∷ candidate 2 10 ∷ candidate 3 70 ∷ candidate 4 20 ∷ []

candidate-IsStored :
    (k amount : ℕ) → amount < u64_mod → IsStored in_memory 1 7 twos (candidate k amount)
candidate-IsStored k amount lt = ((refl, refl), lt, omega arith, refl)

get_top_most_vote_governor-Elects_example :
    (length candidates < 3
      → get_top_most_vote_governor in_memory 1 7 twos (sum_entries 1 7 candidates)
        ≡ not_enough_candidate)
    × (3 ≤ length candidates
        → (chosen : List Candidate) × (get_top_most_vote_governor in_memory 1 7 twos
              (sum_entries 1 7 candidates)
            ≡ governors chosen)
          × Elects candidates 3 chosen)
get_top_most_vote_governor-Elects_example =
    get_top_most_vote_governor-Elects in_memory 1 7 twos candidates (omega arith) (
      candidate-IsStored 1 50 (omega arith),
      (
        candidate-IsStored 2 10 (omega arith),
        (candidate-IsStored 3 70 (omega arith), (candidate-IsStored 4 20 (omega arith), tt)),
      ),
    )
