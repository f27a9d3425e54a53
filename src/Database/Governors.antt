-- ===== src/Database/Governors.antt =====
-- database/lvdb/vote.go and database/candidate.go: the governors that the votes choose.
pub mod Election
use cash_prototype.Base.{
  ℕ, zero, suc, ◌+◌, ◌-◌, ◌*◌, ◌/◌, ◌%◌, ◌≤◌, ◌<◌, min, max, ◌≡◌, refl, sym, ap, subst, ◌∙◌, ◌≢◌,
  ◌↔◌, ◌⊎◌, inl, inr, Bool, true, false, ◌&&◌, ◌||◌, not, Option, none, some, List, [], ◌∷◌, ◌++◌,
  map, append_assoc, flatten, arith, ltb, leb, ◌==◌, if◌then◌else◌, Bool-cases, Option-cases, ==→eq,
  ==_refl, length, take, drop, get_elem?, All, Outcome, done, panic, put, or_else, u64_mod, add64,
  sub64,
}
use cash_prototype.Base.{Perm, length-drop, take-append-drop}
use mathlib.Core.List.Perm
use cash_prototype.Common.Bytes.{Bytes, bytes_to_uint32, bytes_to_uint64}
use cash_prototype.Database.Keys.{Parsed, parsed, refused, panics}
use cash_prototype.Database.VoteKeys.{
  PaymentAddress, address_bytes, get_key_vote_board_count, parse_key_vote_board_sum,
}
use cash_prototype.Database.Votes.{Database}

-- CandidateElement
pub record Candidate : Type 0 where
  pub payment_address : PaymentAddress
  pub vote_amount : ℕ
  pub number_of_vote : ℕ

-- `bytes.Compare(a, b) == -1`
unfoldable pub bytes_less : Bytes → Bytes → Bool
bytes_less a [] = false
bytes_less [] (y ∷ ys) = true
bytes_less (x ∷ xs) (y ∷ ys) = let rest = bytes_less xs ys in ltb x y || (x == y && rest)

-- Less
unfoldable pub less : Candidate → Candidate → Bool
unfolding bytes_less
less a b =
    ltb a.vote_amount b.vote_amount
    || (a.vote_amount == b.vote_amount && ltb a.number_of_vote b.number_of_vote)
    || (a.vote_amount == b.vote_amount
        && a.number_of_vote == b.number_of_vote
        && bytes_less (address_bytes a.payment_address) (address_bytes b.payment_address))

-- `sort.Sort` of a CandidateList
unfoldable pub insert_candidate : Candidate → List Candidate → List Candidate
unfolding less
insert_candidate c [] = c ∷ []
insert_candidate c (d ∷ ds) = if less c d then c ∷ d ∷ ds else d ∷ insert_candidate c ds

unfoldable pub sort_candidates : List Candidate → List Candidate
unfolding insert_candidate
sort_candidates [] = []
sort_candidates (c ∷ cs) = insert_candidate c (sort_candidates cs)

-- GetNumberOfGovernor: both numbers are 3.
abbrev pub number_of_dcb_governors : ℕ
number_of_dcb_governors = 3

abbrev pub number_of_gov_governors : ℕ
number_of_gov_governors = 3

unfoldable pub get_number_of_governor : ℕ → ℕ
get_number_of_governor board =
    if board == 1 then number_of_gov_governors else number_of_dcb_governors

-- What GetTopMostVoteGovernor returns: candidates, or an error; a nil address or a value that is too
-- short panics.
pub data Chosen : Type 0 where
  governors : List Candidate → Chosen
  not_enough_candidate : Chosen
  no_count : Chosen
  failed_read : Chosen

module _ (db : Database) where
  open db use {Store, get}

  -- One entry of the iteration. The address is read before the error of the key is looked at.
  unfoldable pub read_candidate :
      ℕ → ℕ → Store → PaymentAddress → Bytes → Outcome (Option Candidate)
  read_candidate board index s address value =
      elim (get s (get_key_vote_board_count board index address)) [
        | none ↦ done none
        | some count ↦ elim (bytes_to_uint64 value) [
          | panic ↦ panic
          | done amount ↦ elim (bytes_to_uint32 count) [
            | panic ↦ panic
            | done number ↦ done (
                some (record {
                  payment_address = address;
                  vote_amount = amount;
                  number_of_vote = number;
                }))
          ]
        ]
      ]

  -- The loop over the entries whose keys have the prefix.
  unfoldable pub read_candidates :
      ℕ → ℕ → Store → List (Bytes × Bytes) → Outcome (Option (List Candidate))
  unfolding read_candidate
  read_candidates board index s [] = done (some [])
  read_candidates board index s (e ∷ entries) =
      let rest = read_candidates board index s entries in
      elim (parse_key_vote_board_sum e.0) [
        | panics ↦ panic
        | refused reason ↦ panic
        | parsed key ↦ elim (read_candidate board index s key.2 e.1) [
          | panic ↦ panic
          | done none ↦ done none
          | done (some c) ↦ elim rest [
            | panic ↦ panic
            | done none ↦ done none
            | done (some cs) ↦ done (some (c ∷ cs))
          ]
        ]
      ]

-- The end of GetTopMostVoteGovernor, for the candidates of the loop.
unfoldable pub choose_governors : ℕ → List Candidate → Chosen
unfolding sort_candidates get_number_of_governor
choose_governors board cs =
    if ltb (length (sort_candidates cs)) (get_number_of_governor board)
    then not_enough_candidate
    else governors
        (drop (length (sort_candidates cs) - get_number_of_governor board) (sort_candidates cs))

-- GetTopMostVoteGovernor, for the entries that the iteration over the prefix gives
unfoldable pub get_top_most_vote_governor :
    (db : Database) → ℕ → ℕ → db.Store → List (Bytes × Bytes) → Chosen
unfolding read_candidates choose_governors
get_top_most_vote_governor db board index s entries =
    elim (read_candidates db board index s entries) [
      | panic ↦ failed_read
      | done none ↦ no_count
      | done (some cs) ↦ choose_governors board cs
    ]
