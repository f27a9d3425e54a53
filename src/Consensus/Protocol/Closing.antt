-- ===== src/Consensus/Protocol/Closing.antt =====
-- When the commit phase is closed before its time, and whether it then has enough signatures.
use cash_prototype.Base.{
  ℕ, ◌+◌, ◌*◌, ◌/◌, ◌≤◌, ◌<◌, ◌≡◌, refl, sym, ap, subst, ◌≢◌, ◌↔◌, ◌⊎◌, inl, inr, Bool, true, false,
  ◌||◌, Option, none, some, List, [], ◌∷◌, ◌++◌, arith, ltb, leb, Bool-cases, length, All, or_else,
}
use cash_prototype.Base.{String, str_eq, str_eq_iff, str_eq_refl, Result, ok, err}
use cash_prototype.Consensus.Table.{find, set_at, keys, find_set_same}
use cash_prototype.Consensus.Signing.{
  CommittedSig, Combine, Index, accepted, SignError, verify_commit_sig, combine_sigs,
}
use cash_prototype.Consensus.Protocol.{
  Block, commit, Round, committing, BftProtocol, not_enough_sigs, running, stopped, sigs_of,
  add_sig, receive_commit, is_unset, choose_r, finish, combine_with, after_combining, combine_all,
  end_phase,
}

abbrev Table : Type 0
Table = List (String × List (String × CommittedSig))

module _ (round : Round) where
  open round use {committee, crypto}

  -- One of the keys has more than half of the signatures.
  abbrev HasMajority : Table → List String → Type 0
  HasMajority sigs [] = ⊥
  HasMajority sigs (r ∷ rs) =
      (length committee / 2 < length (sigs_of round r sigs)) ⊎ HasMajority sigs rs

  choose_r-set :
      (sigs : Table) (rs : List String) (best : String)
      → All (λ r. is_unset round r ≡ false) rs
      → (is_unset round best ≡ false) ⊎ HasMajority sigs rs
      → is_unset round (choose_r round sigs rs best) ≡ false
  unfolding choose_r
  choose_r-set sigs [] best all (inl set) = set
  choose_r-set sigs [] best all (inr none_there) = absurd none_there
  choose_r-set sigs (r ∷ rs) best (set_r, all) found =
      elim (Bool-cases (ltb (length committee / 2) (length (sigs_of round r sigs)))) [
        | inl enough ↦ elim (Bool-cases (is_unset round best)) [
          | inl unset ↦ rw (enough, unset) (choose_r-set sigs rs r all (inl set_r))
          | inr set ↦
              elim (Bool-cases
                (ltb (length (sigs_of round best sigs)) (length (sigs_of round r sigs)))) [
                  | inl more ↦ rw (enough, set, more) (choose_r-set sigs rs r all (inl set_r))
                  | inr less ↦ rw (enough, set, less) (choose_r-set sigs rs best all (inl set))
                ]
        ]
        | inr few ↦ rw few (choose_r-set sigs rs best all (later few found))
      ]
    where
      later :
          ltb (length committee / 2) (length (sigs_of round r sigs)) ≡ false
          → (is_unset round best ≡ false) ⊎ HasMajority sigs (r ∷ rs)
          → (is_unset round best ≡ false) ⊎ HasMajority sigs rs
      later few (inl set) = inl set
      later few (inr (inl many)) = absurd (ground (arith, few, many))
      later few (inr (inr rest)) = inr rest

  set_at-majority :
      (whole : Table) (r : String) (entries : List (String × CommittedSig)) (sigs : Table)
      → length committee / 2 < length (sigs_of round r whole)
      → HasMajority whole (keys (set_at r entries sigs))
  unfolding set_at keys
  set_at-majority whole r entries [] many = inl many
  set_at-majority whole r entries (e ∷ sigs) many = elim (Bool-cases (str_eq e.0 r)) [
    | inl same ↦ rw same (inl many)
    | inr other ↦ rw other (inr (set_at-majority whole r entries sigs many))
  ]

  set_at-set :
      (r : String) (entries : List (String × CommittedSig)) (sigs : Table)
      → is_unset round r ≡ false
      → All (λ q. is_unset round q ≡ false) (keys sigs)
      → All (λ q. is_unset round q ≡ false) (keys (set_at r entries sigs))
  unfolding set_at keys
  set_at-set r entries [] set all = (set, tt)
  set_at-set r entries (e ∷ sigs) set (first, all) = elim (Bool-cases (str_eq e.0 r)) [
    | inl same ↦ rw same (set, all)
    | inr other ↦ rw other (first, set_at-set r entries sigs set all)
  ]

  finish-enough :
      (b : Option Block) (c : Combine) (s : String) → finish round b c s ≢ stopped not_enough_sigs
  unfolding finish
  finish-enough none c s h = cc
  finish-enough (some b) c s h = cc

  after_combining-enough :
      (p : BftProtocol) (result : Result SignError (String × Combine))
      → after_combining round p result ≢ stopped not_enough_sigs
  unfolding after_combining
  after_combining-enough p (err e) h = cc
  after_combining-enough p (ok (s, c)) h = finish-enough p.pending_block c s h

  combine_all-enough :
      (p : BftProtocol) (sigs : Table)
      → All (λ q. is_unset round q ≡ false) (keys sigs)
      → HasMajority sigs (keys sigs)
      → combine_all round p sigs ≢ stopped not_enough_sigs
  unfolding combine_all combine_with
  combine_all-enough p sigs all many h =
      let set = choose_r-set sigs (keys sigs) "1" all (inr many) in
      after_combining-enough p
        (combine_sigs crypto committee p.combine (choose_r round sigs (keys sigs) "1")
          (sigs_of round (choose_r round sigs (keys sigs) "1") sigs))
        (rw set at h)

  -- In a committee of three, or of five and more, a member that closes the commit phase for a verified
  -- signature, the first of its key, then has enough signatures to combine: the end of the phase does not
  -- fail for their number. Each R is longer than the text that stands for none.
  pub receive_commit-closes :
      (p : BftProtocol) (sigs : Table) (k s r : String) (idxs : List Index)
      → (length committee ≡ 3) ⊎ (5 ≤ length committee)
      → p.timed_out ≡ false
      → All (λ q. is_unset round q ≡ false) (keys sigs)
      → is_unset round r ≡ false
      → verify_commit_sig crypto committee p.data_to_sig k s r idxs ≡ accepted
      → find k (sigs_of round r sigs) ≡ none
      → (after : BftProtocol) × (receive_commit round p sigs k s r idxs ≡ running after)
        × ((after.timed_out ≡ true)
            ↔ (2 * length committee / 3 ≤ length (sigs_of round r sigs) + 1))
        × (after.timed_out ≡ true → end_phase round after after.phase ≢ stopped not_enough_sigs)
  unfolding receive_commit add_sig end_phase
  receive_commit-closes p sigs k s r idxs size open_yet all set fine fresh =
      let own : CommittedSig = record { validators_idx_r = idxs; sig = s } in
      let entries = (k, own) ∷ sigs_of round r sigs in
      let after : BftProtocol = record p {
        phase = committing (set_at r entries sigs);
        timed_out =
            p.timed_out || leb (2 * length committee / 3) (length (sigs_of round r sigs) + 1);
        forwarded = p.forwarded ++ commit k s r idxs ∷ [];
      } in
      let found : sigs_of round r (set_at r entries sigs) ≡ entries =
        ap (or_else []) (find_set_same r entries sigs) in
      let closed : (after.timed_out ≡ true)
          ↔ (2 * length committee / 3 ≤ length (sigs_of round r sigs) + 1) =
        rw open_yet (λ h. ground (arith, h), λ h. ground (arith, h)) in
      (
        after,
        rw (receive_commit, fine, fresh) refl,
        closed,
        λ h. combine_all-enough after (set_at r entries sigs) (set_at-set r entries sigs set all) (
            set_at-majority (set_at r entries sigs) r entries sigs (
              subst (λ l. length committee / 2 < length l) (sym found)
                (omega (
                  arith,
                  many (length committee) (length (sigs_of round r sigs)) size (closed.0 h),
                )))),
      )
    where
      many : (n m : ℕ) → (n ≡ 3) ⊎ (5 ≤ n) → 2 * n / 3 ≤ m + 1 → n / 2 < m + 1
      many n m (inl three) le = omega arith
      many n m (inr five) le = omega arith

  -- In a committee of four, the second signature for the member's R closes the commit phase, whose end
  -- then fails: there are not enough signatures to combine.
  pub receive_commit-four :
      (p : BftProtocol) (own : String × CommittedSig) (k s r : String) (idxs : List Index)
      → length committee ≡ 4
      → verify_commit_sig crypto committee p.data_to_sig k s r idxs ≡ accepted
      → own.0 ≢ k
      → (after : BftProtocol) × (receive_commit round p ((r, own ∷ []) ∷ []) k s r idxs
          ≡ running after)
        × (after.timed_out ≡ true)
        × (end_phase round after after.phase ≡ stopped not_enough_sigs)
  unfolding receive_commit add_sig end_phase combine_all combine_with choose_r set_at keys find
  receive_commit-four p own k s r idxs four fine other =
      let new_sig : CommittedSig = record { validators_idx_r = idxs; sig = s } in
      let entries = (k, new_sig) ∷ own ∷ [] in
      let apart : str_eq own.0 k ≡ false = differ (Bool-cases (str_eq own.0 k)) in
      let here : str_eq r r ≡ true = str_eq_refl r in
      (
        record p {
          phase = committing ((r, entries) ∷ []);
          timed_out = p.timed_out || leb (2 * length committee / 3) (length (own ∷ []) + 1);
          forwarded = p.forwarded ++ commit k s r idxs ∷ [];
        },
        rw (receive_commit, fine, here, apart) (rw (add_sig, here) refl),
        rw four (either p.timed_out),
        rw (here, four) refl,
      )
    where
      differ : (str_eq own.0 k ≡ true) ⊎ (str_eq own.0 k ≡ false) → str_eq own.0 k ≡ false
      differ (inl same) = absurd (other ((str_eq_iff own.0 k).0 same))
      differ (inr apart) = apart

      either : (b : Bool) → (b || true) ≡ true
      either true = refl
      either false = refl
