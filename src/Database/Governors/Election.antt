-- ===== src/Database/Governors/Election.antt =====
-- The governors are candidates with the most votes.
use cash_prototype.Base.{
  ℕ, zero, suc, ◌+◌, ◌-◌, ◌≤◌, ◌<◌, ◌≡◌, refl, sym, subst, inl, inr, true, false, some, List, [],
  ◌∷◌, ◌++◌, arith, ltb, ◌==◌, Bool-cases, length, take, drop, All, done, u64_mod,
}
use cash_prototype.Base.{Perm, length-drop, take-append-drop}
use mathlib.Core.List.Perm
use cash_prototype.Common.Bytes.{
  Bytes, u32_mod, uint32_to_bytes, uint64_to_bytes, bytes_to_uint64-uint64_to_bytes,
  bytes_to_uint32-uint32_to_bytes,
}
use cash_prototype.Database.VoteKeys.{get_key_vote_board_sum, get_key_vote_board_count}
use cash_prototype.Database.VoteKeys.RoundTrip.{IsPaymentAddress, parse_key_vote_board_sum-get}
use cash_prototype.Database.Votes.{Database}
use cash_prototype.Database.Governors.{
  Candidate, less, insert_candidate, sort_candidates, get_number_of_governor, governors,
  not_enough_candidate, read_candidate, read_candidates, choose_governors,
  get_top_most_vote_governor,
}

-- The chosen candidates of some: their number, the others, and that none of the others has more votes.
pub record Elects (cs : List Candidate) (n : ℕ) (chosen : List Candidate) : Type 0 where
  pub others : List Candidate
  pub number : length chosen ≡ n
  pub everyone : Perm (others ++ chosen) cs
  pub most : All (λ c. All (λ d. c.vote_amount ≤ d.vote_amount) chosen) others

abbrev IsSorted : List Candidate → Type 0
IsSorted [] = Unit
IsSorted (c ∷ cs) = All (λ d. c.vote_amount ≤ d.vote_amount) cs × IsSorted cs

insert_candidate-Perm :
    (c : Candidate) (cs : List Candidate) → Perm (insert_candidate c cs) (c ∷ cs)
unfolding insert_candidate
insert_candidate-Perm c [] = Perm.refl _
insert_candidate-Perm c (d ∷ ds) = elim (Bool-cases (less c d)) [
  | inl e ↦ rw e (Perm.refl _)
  | inr e ↦ rw e (Perm.trans (Perm.cons d (insert_candidate-Perm c ds)) (Perm.swap c d ds))
]

sort_candidates-Perm : (cs : List Candidate) → Perm (sort_candidates cs) cs
unfolding sort_candidates
sort_candidates-Perm [] = Perm.refl _
sort_candidates-Perm (c ∷ cs) =
    Perm.trans (insert_candidate-Perm c (sort_candidates cs))
      (Perm.cons c (sort_candidates-Perm cs))

less-amount : (c d : Candidate) → less c d ≡ true → c.vote_amount ≤ d.vote_amount
unfolding less
less-amount c d e = elim (Bool-cases (ltb c.vote_amount d.vote_amount)) [
  | inl more ↦ ground (arith, more)
  | inr no_more ↦ elim (Bool-cases (c.vote_amount == d.vote_amount)) [
    | inl same ↦ ground (arith, same)
    | inr other ↦ absurd (neither (rw (less, no_more, other) at e))
  ]
]
  where
    neither : false ≡ true → ⊥
    neither h = cc

less-amount_false : (c d : Candidate) → less c d ≡ false → d.vote_amount ≤ c.vote_amount
unfolding less
less-amount_false c d e = elim (Bool-cases (ltb c.vote_amount d.vote_amount)) [
  | inl more ↦ absurd (neither (rw (less, more) at e))
  | inr no_more ↦ ground (arith, no_more)
]
  where
    neither : true ≡ false → ⊥
    neither h = cc

insert_candidate-All :
    (P : Candidate → Type 0) (c : Candidate) (cs : List Candidate)
    → P c
    → All P cs
    → All P (insert_candidate c cs)
unfolding insert_candidate
insert_candidate-All P c [] p all = (p, tt)
insert_candidate-All P c (d ∷ ds) p all = elim (Bool-cases (less c d)) [
  | inl e ↦ rw e (p, all)
  | inr e ↦ rw e (all.0, insert_candidate-All P c ds p all.1)
]

from_least :
    (c d : Candidate) (ds : List Candidate)
    → c.vote_amount ≤ d.vote_amount
    → All (λ e. d.vote_amount ≤ e.vote_amount) ds
    → All (λ e. c.vote_amount ≤ e.vote_amount) ds
from_least c d [] le all = tt
from_least c d (e ∷ ds) le all = (omega (arith, all.0), from_least c d ds le all.1)

insert_candidate-IsSorted :
    (c : Candidate) (cs : List Candidate) → IsSorted cs → IsSorted (insert_candidate c cs)
unfolding insert_candidate
insert_candidate-IsSorted c [] sorted = (tt, tt)
insert_candidate-IsSorted c (d ∷ ds) sorted = elim (Bool-cases (less c d)) [
  | inl e ↦ let le = less-amount c d e in rw e ((le, from_least c d ds le sorted.0), sorted)
  | inr e ↦ rw e (
    insert_candidate-All (λ x. d.vote_amount ≤ x.vote_amount) c ds (less-amount_false c d e)
        sorted.0,
    insert_candidate-IsSorted c ds sorted.1,
  )
]

sort_candidates-IsSorted : (cs : List Candidate) → IsSorted (sort_candidates cs)
unfolding sort_candidates
sort_candidates-IsSorted [] = tt
sort_candidates-IsSorted (c ∷ cs) =
    insert_candidate-IsSorted c (sort_candidates cs) (sort_candidates-IsSorted cs)

drop-All : (P : Candidate → Type 0) (n : ℕ) (cs : List Candidate) → All P cs → All P (drop n cs)
drop-All P zero cs all = all
drop-All P (suc n) [] all = tt
drop-All P (suc n) (c ∷ cs) all = drop-All P n cs all.1

split-most :
    (n : ℕ) (cs : List Candidate)
    → IsSorted cs
    → All (λ c. All (λ d. c.vote_amount ≤ d.vote_amount) (drop n cs)) (take n cs)
split-most zero cs sorted = tt
split-most (suc n) [] sorted = tt
split-most (suc n) (c ∷ cs) sorted =
    (drop-All (λ d. c.vote_amount ≤ d.vote_amount) n cs sorted.0, split-most n cs sorted.1)

length-insert_candidate :
    (c : Candidate) (cs : List Candidate) → length (insert_candidate c cs) ≡ length cs + 1
unfolding insert_candidate
length-insert_candidate c [] = omega arith
length-insert_candidate c (d ∷ ds) = elim (Bool-cases (less c d)) [
  | inl e ↦ rw e (omega arith)
  | inr e ↦ rw e (omega (arith, length-insert_candidate c ds))
]

length-sort_candidates : (cs : List Candidate) → length (sort_candidates cs) ≡ length cs
unfolding sort_candidates
length-sort_candidates [] = refl
length-sort_candidates (c ∷ cs) =
    omega (arith, length-insert_candidate c (sort_candidates cs), length-sort_candidates cs)

three_governors : (board : ℕ) → get_number_of_governor board ≡ 3
unfolding get_number_of_governor
three_governors board = elim (Bool-cases (board == 1)) [ inl e ↦ rw e refl | inr e ↦ rw e refl ]

sorted-Elects :
    (cs : List Candidate) → 3 ≤ length cs → Elects cs 3 (drop (length cs - 3) (sort_candidates cs))
sorted-Elects cs le =
    let sorted = sort_candidates cs in
    let n = length cs - 3 in
    record {
      others = take n sorted;
      number = omega (arith, length-drop n sorted, length-sort_candidates cs);
      everyone = subst (λ l. Perm l cs) (sym (take-append-drop n sorted)) (sort_candidates-Perm cs);
      most = split-most n sorted (sort_candidates-IsSorted cs);
    }

choose_governors-Elects :
    (board : ℕ) (cs : List Candidate)
    → (length cs < 3 → choose_governors board cs ≡ not_enough_candidate)
      × (3 ≤ length cs
          → (chosen : List Candidate) × (choose_governors board cs ≡ governors chosen)
            × Elects cs 3 chosen)
unfolding choose_governors
choose_governors-Elects board cs =
    let three = three_governors board in
    let size = length-sort_candidates cs in
    (
      λ few.
          let less_than : ltb (length cs) 3 ≡ true = ground (arith, few) in
          rw (choose_governors, three, size, less_than) refl,
      λ enough.
          let not_less : ltb (length cs) 3 ≡ false = ground (arith, enough) in
          (
            drop (length cs - 3) (sort_candidates cs),
            rw (choose_governors, three, size, not_less) refl,
            sorted-Elects cs enough,
          ),
    )

-- The entry of a candidate under the prefix of the sums.
unfoldable pub sum_entries : ℕ → ℕ → List Candidate → List (Bytes × Bytes)
sum_entries board index [] = []
sum_entries board index (c ∷ cs) =
    (get_key_vote_board_sum board index (some c.payment_address), uint64_to_bytes c.vote_amount)
    ∷ sum_entries board index cs

-- The candidate's numbers fit into their encodings, and its number of votes is stored.
abbrev pub IsStored : (db : Database) → ℕ → ℕ → db.Store → Candidate → Type 0
IsStored db board index s c =
    IsPaymentAddress c.payment_address
    × (c.vote_amount < u64_mod)
    × (c.number_of_vote < u32_mod)
    × (db.get s (get_key_vote_board_count board index c.payment_address)
        ≡ some (uint32_to_bytes c.number_of_vote))

module _ (db : Database) (board index : ℕ) (s : db.Store) where
  read_candidate-stored :
      (c : Candidate)
      → IsStored db board index s c
      → read_candidate db board index s c.payment_address (uint64_to_bytes c.vote_amount)
        ≡ done (some c)
  unfolding read_candidate
  read_candidate-stored c (address, amount, number, stored) =
      rw
        (
          read_candidate,
          stored,
          bytes_to_uint64-uint64_to_bytes c.vote_amount amount,
          bytes_to_uint32-uint32_to_bytes c.number_of_vote number,
        )
        refl

  read_candidates-stored :
      (cs : List Candidate)
      → index < u32_mod
      → All (IsStored db board index s) cs
      → read_candidates db board index s (sum_entries board index cs) ≡ done (some cs)
  unfolding read_candidates sum_entries
  read_candidates-stored [] lt all = refl
  read_candidates-stored (c ∷ cs) lt (stored, all) =
      rw
        (
          read_candidates,
          parse_key_vote_board_sum-get board index c.payment_address lt stored.0,
          read_candidate-stored c stored,
          read_candidates-stored cs lt all,
        )
        refl

  -- When the iteration gives the entries of the candidates, whose numbers of votes are stored:
  -- GetTopMostVoteGovernor reports that there are not enough for fewer candidates than the three governors
  -- of a board; otherwise it returns three of them, and none of the others has more votes than one of the
  -- three.
  pub get_top_most_vote_governor-Elects :
      (cs : List Candidate)
      → index < u32_mod
      → All (IsStored db board index s) cs
      → (length cs < 3
          → get_top_most_vote_governor db board index s (sum_entries board index cs)
            ≡ not_enough_candidate)
        × (3 ≤ length cs
            → (chosen : List Candidate) × (get_top_most_vote_governor db board index s
                  (sum_entries board index cs)
                ≡ governors chosen)
              × Elects cs 3 chosen)
  unfolding get_top_most_vote_governor
  get_top_most_vote_governor-Elects cs lt all =
      rw (get_top_most_vote_governor, read_candidates-stored cs lt all)
        (choose_governors-Elects board cs)
