-- ===== src/Consensus/Protocol/Forging.antt =====
-- Commit messages that are not verified, and those that make a member panic.
use cash_prototype.Base.{
  ℕ, suc, ◌≡◌, refl, inl, inr, true, false, none, some, List, [], ◌∷◌, ◌++◌, arith, ◌==◌,
  Option-cases, get_elem?, panic,
}
use cash_prototype.Base.{
  String, str_eq, str_eq_refl, or_else, length, leb, ◌||◌, ◌+◌, ◌*◌, ◌/◌, false, ◌≡◌,
}
use cash_prototype.Common.Bytes.{Bytes}
use cash_prototype.Consensus.Table.{find, set_at, find_set_same, find_set_other}
use cash_prototype.Consensus.Signing.{Crypto, CommittedSig, Index, verify_commit_sig}
use cash_prototype.Consensus.Protocol.{
  Round, BftProtocol, crashed, running, committing, commit, sigs_of, add_sig, receive_commit,
}
use cash_prototype.Consensus.Signing.{get_pub_keys_from_idx}

abbrev IsOutside : List String → Index → Type 0
IsOutside committee none = Unit
IsOutside committee (some i) = get_elem? committee i ≡ none

get_pub_keys-panics :
    (c : Crypto) (committee : List String) (before after : List Index) (bad : Index)
    → IsOutside committee bad
    → get_pub_keys_from_idx c committee (before ++ bad ∷ after) ≡ panic
unfolding get_pub_keys_from_idx
get_pub_keys-panics c committee [] after none outside = refl
get_pub_keys-panics c committee [] after (some i) outside = rw (get_pub_keys_from_idx, outside) refl
get_pub_keys-panics c committee (none ∷ before) after bad outside = refl
get_pub_keys-panics c committee (some i ∷ before) after bad outside =
    elim (Option-cases (get_elem? committee i)) [
      | inl gone ↦ rw (get_pub_keys_from_idx, gone) refl
      | inr (key, there) ↦
          rw
            (get_pub_keys_from_idx, there, get_pub_keys-panics c committee before after bad outside)
            refl
    ]

module _ (round : Round) where
  open round use {committee, crypto}

  -- A commit message whose R encodes a point makes a member panic when one of its indices is not one
  -- of the committee, whoever sent it and whatever else it has.
  pub receive_commit-crashes :
      (p : BftProtocol) (sigs : List (String × List (String × CommittedSig))) (k s r : String)
      (r_bytes : Bytes) (before after : List Index) (bad : Index)
      → crypto.decode r ≡ some (r_bytes, 0)
      → crypto.is_point r_bytes ≡ true
      → IsOutside committee bad
      → receive_commit round p sigs k s r (before ++ bad ∷ after) ≡ crashed
  unfolding receive_commit verify_commit_sig
  receive_commit-crashes p sigs k s r r_bytes before after bad decoded point outside =
      rw
        (
          receive_commit,
          verify_commit_sig,
          decoded,
          point,
          get_pub_keys-panics crypto committee before after bad outside,
        )
        refl

  -- A commit message in the commit phase whose R decodes with a version that is not 0 is counted
  -- without any check of its text, its indices or its sender: the member stays in the commit phase,
  -- and for that R the text and the indices are then the signature of the key, of the committee or
  -- not, unless one of the key was there; the signatures of other keys and of other Rs stay, and the
  -- number for that R grows by one when the key had none.
  pub receive_commit-unchecked :
      (p : BftProtocol) (sigs : List (String × List (String × CommittedSig))) (k s r : String)
      (r_bytes : Bytes) (version : ℕ) (idxs : List Index)
      → crypto.decode r ≡ some (r_bytes, suc version)
      → (q : BftProtocol) × (sigs_after : List (String × List (String × CommittedSig)))
        × (receive_commit round p sigs k s r idxs ≡ running q)
        × (q.phase ≡ committing sigs_after)
        × (find k (sigs_of round r sigs_after)
            ≡ some (
                or_else
                  (record { validators_idx_r = idxs; sig = s })
                  (find k (sigs_of round r sigs))))
        × ((other : String)
            → str_eq k other ≡ false
            → find other (sigs_of round r sigs_after) ≡ find other (sigs_of round r sigs))
        × ((other : String) → str_eq r other ≡ false → find other sigs_after ≡ find other sigs)
        × (find k (sigs_of round r sigs) ≡ none
            → length (sigs_of round r sigs_after) ≡ length (sigs_of round r sigs) + 1)
  unfolding receive_commit verify_commit_sig add_sig find
  receive_commit-unchecked p sigs k s r r_bytes version idxs decoded =
      let other_version : (suc version == 0) ≡ false = ground arith in
      elim (Option-cases (find k (sigs_of round r sigs))) [
        | inl fresh ↦
            let new_sig : CommittedSig = record { validators_idx_r = idxs; sig = s } in
            let listed = (k, new_sig) ∷ sigs_of round r sigs in
            (
              record p {
                phase = committing (set_at r listed sigs);
                timed_out =
                    p.timed_out
                    || leb (2 * length committee / 3) (length (sigs_of round r sigs) + 1);
                forwarded = p.forwarded ++ commit k s r idxs ∷ [];
              },
              set_at r listed sigs,
              rw (receive_commit, verify_commit_sig, decoded, other_version, fresh) refl,
              refl,
              rw (find_set_same r listed sigs, fresh, str_eq_refl k) refl,
              λ other apart. rw (find_set_same r listed sigs, apart) refl,
              λ other apart. find_set_other r other listed sigs apart,
              λ e. rw (find_set_same r listed sigs) (omega arith),
            )
        | inr (there, found) ↦
            let listed = sigs_of round r sigs in
            (
              record p { phase = committing (set_at r listed sigs) },
              set_at r listed sigs,
              rw (receive_commit, verify_commit_sig, decoded, other_version, found) refl,
              refl,
              rw (find_set_same r listed sigs, found) refl,
              λ other apart. rw (find_set_same r listed sigs) refl,
              λ other apart. find_set_other r other listed sigs apart,
              λ e. cc,
            )
      ]
