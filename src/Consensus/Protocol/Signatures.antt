-- ===== src/Consensus/Protocol/Signatures.antt =====
-- What holds of the signatures that are collected, and of a block that they are put into.
use cash_prototype.Base.{
  ◌/◌, ◌≤◌, ◌<◌, ◌≡◌, refl, sym, subst, ◌∙◌, ◌⊎◌, inl, inr, Bool, true, false, Option, none, some,
  List, [], ◌∷◌, arith, ltb, Bool-cases, Option-cases, length, All,
}
use cash_prototype.Base.{String, str_eq, str_eq_iff, some-injective, ltb→lt, Result, ok, err}
use cash_prototype.Common.Bytes.{Bytes}
use cash_prototype.Consensus.Table.{find, set_at, keys, Distinct, find_set-cases}
use cash_prototype.Consensus.Signing.{
  CommittedSig, Combine, Index, Verdict, accepted, rejected, crash, SignError, sign_data,
  verify_commit_sig, combine_sigs,
}
use cash_prototype.Consensus.Protocol.{
  commit, Round, preparing, committing, BftProtocol, Event, message, Run, running, crashed, sign,
  sigs_of, add_sig, receive_commit, is_unset, choose_r, finish, combine_with, after_signing,
  after_combining, combine_all,
}
use cash_prototype.Consensus.Protocol.Phases.{IsVerified, Verified, InPhase, Holds, enter-Holds}

module _ (round : Round) (Sent : Event → Type 0) where
  open round use {committee, own_key, crypto, verify_pre_sign, unmarshal, header_hash}

  -- A table of one R with the signature of the node itself.
  own-Verified :
      (json : Bytes) (own_r : String) (own : CommittedSig)
      → Verified round Sent json own_r ((own_r, (own_key, own) ∷ []) ∷ [])
  unfolding find Distinct
  own-Verified json own_r own r entries e = elim (Bool-cases (str_eq own_r r)) [
    | inl same ↦
        let r_same : r ≡ own_r = sym ((str_eq_iff own_r r).0 same) in
        let found : (own_key, own) ∷ [] ≡ entries = some-injective (sym (rw same refl) ∙ e) in
        subst (λ l. Distinct l × All (IsVerified round Sent json own_r r) l) found
          ((refl, tt), (inl (refl, r_same), tt))
    | inr other ↦ absurd (nothing (rw other at e))
  ]
    where
      nothing : none ≡ some entries → ⊥
      nothing h = cc

  after_signing-Holds :
      (p : BftProtocol) (ris : List (String × Bytes)) (result : Result SignError Combine)
      → length committee / 2 ≤ length ris
      → InPhase round Sent p (preparing ris)
      → Holds round Sent (after_signing round p result)
  unfolding after_signing
  after_signing-Holds p ris (err e) le inv = tt
  after_signing-Holds p ris (ok c) le (json, proposed, prepared) =
      let own : CommittedSig = record {
        validators_idx_r = c.validators_idx_r;
        sig = c.commit_sig;
      } in
      enter-Holds round Sent (record p { combine = c })
        (committing ((c.r, (own_key, own) ∷ []) ∷ []))
        (json, proposed, (ris, le, prepared), own-Verified json c.r own)

  pub sign-Holds :
      (p : BftProtocol) (ris : List (String × Bytes))
      → InPhase round Sent p (preparing ris)
      → Holds round Sent (sign round p ris)
  unfolding sign
  sign-Holds p ris inv = elim (Bool-cases (ltb (length ris) (length committee / 2))) [
    | inl few ↦ rw few tt
    | inr half ↦ rw half (
        after_signing-Holds p ris (sign_data crypto committee p.data_to_sig ris)
          (ground (arith, half)) inv)
  ]

  -- The entries of one R are set to entries that are distinct and verified.
  set_at-Verified :
      (json : Bytes) (own_r r : String) (entries : List (String × CommittedSig))
      (sigs : List (String × List (String × CommittedSig)))
      → Distinct entries × All (IsVerified round Sent json own_r r) entries
      → Verified round Sent json own_r sigs
      → Verified round Sent json own_r (set_at r entries sigs)
  set_at-Verified json own_r r entries sigs good all q found e =
      elim (find_set-cases r q entries found sigs e) [
        | inl (same, new) ↦
            subst (λ l. Distinct l × All (IsVerified round Sent json own_r q) l) (sym new)
              (subst (λ t. Distinct entries × All (IsVerified round Sent json own_r t) entries)
                (sym same) good)
        | inr old ↦ all q found old
      ]

  sigs_of-Verified :
      (json : Bytes) (own_r r : String) (sigs : List (String × List (String × CommittedSig)))
      → Verified round Sent json own_r sigs
      → Distinct (sigs_of round r sigs)
        × All (IsVerified round Sent json own_r r) (sigs_of round r sigs)
  unfolding Distinct
  sigs_of-Verified json own_r r sigs all = elim (Option-cases (find r sigs)) [
    | inl empty ↦ rw empty (tt, tt)
    | inr (entries, e) ↦ rw e (all r entries e)
  ]

  add_sig-Holds :
      (p : BftProtocol) (sigs : List (String × List (String × CommittedSig))) (k s r : String)
      (idxs : List Index) (there : Option CommittedSig)
      → InPhase round Sent p (committing sigs)
      → find k (sigs_of round r sigs) ≡ there
      → verify_commit_sig crypto committee p.data_to_sig k s r idxs ≡ accepted
      → Sent (message (commit k s r idxs))
      → Holds round Sent (add_sig round p sigs k s r idxs there)
  unfolding add_sig Distinct
  add_sig-Holds p sigs k s r idxs (some old) (json, proposed, prepared, all) e fine sent = (
    json,
    proposed,
    prepared,
    set_at-Verified json p.combine.r r (sigs_of round r sigs) sigs
        (sigs_of-Verified json p.combine.r r sigs all) all,
  )
  add_sig-Holds p sigs k s r idxs none (json, (said, checked, pending, hashed), prepared, all) e
        fine sent =
      let new_sig : CommittedSig = record { validators_idx_r = idxs; sig = s } in
      let (distinct, verified) = sigs_of-Verified json p.combine.r r sigs all in
      let accepted_here =
        subst (λ d. verify_commit_sig crypto committee d k s r idxs ≡ accepted) hashed fine in
      (
        json,
        (said, checked, pending, hashed),
        prepared,
        set_at-Verified json p.combine.r r ((k, new_sig) ∷ sigs_of round r sigs) sigs
            ((e, distinct), (inr (accepted_here, sent), verified)) all,
      )

  pub receive_commit-Holds :
      (p : BftProtocol) (sigs : List (String × List (String × CommittedSig))) (k s r : String)
      (idxs : List Index)
      → InPhase round Sent p p.phase
      → InPhase round Sent p (committing sigs)
      → Sent (message (commit k s r idxs))
      → Holds round Sent (receive_commit round p sigs k s r idxs)
  unfolding receive_commit
  receive_commit-Holds p sigs k s r idxs same inv sent =
      by_verdict (verify_commit_sig crypto committee p.data_to_sig k s r idxs) refl
    where
      by_verdict :
          (verdict : Verdict)
          → verify_commit_sig crypto committee p.data_to_sig k s r idxs ≡ verdict
          → Holds round Sent (elim verdict as (λ v. Run) [
            | crash ↦ crashed
            | rejected ↦ running p
            | accepted ↦ add_sig round p sigs k s r idxs (find k (sigs_of round r sigs))
          ])
      by_verdict crash e = tt
      by_verdict rejected e = same
      by_verdict accepted e =
          add_sig-Holds p sigs k s r idxs (find k (sigs_of round r sigs)) inv refl e sent

  -- An R that is chosen has more than half of the signatures.
  choose_r-majority :
      (sigs : List (String × List (String × CommittedSig))) (rs : List String) (best : String)
      → (is_unset round best ≡ true) ⊎ (length committee / 2 < length (sigs_of round best sigs))
      → (is_unset round (choose_r round sigs rs best) ≡ true)
        ⊎ (length committee / 2 < length (sigs_of round (choose_r round sigs rs best) sigs))
  unfolding choose_r
  choose_r-majority sigs [] best so_far = so_far
  choose_r-majority sigs (r ∷ rs) best so_far =
      elim (Bool-cases (ltb (length committee / 2) (length (sigs_of round r sigs)))) [
        | inl enough ↦
            let majority = ltb→lt (length committee / 2) (length (sigs_of round r sigs)) enough in
            elim (Bool-cases (is_unset round best)) [
              | inl unset ↦ rw (enough, unset) (choose_r-majority sigs rs r (inr majority))
              | inr set ↦
                  elim (Bool-cases
                    (ltb (length (sigs_of round best sigs)) (length (sigs_of round r sigs)))) [
                      | inl more ↦
                          rw (enough, set, more) (choose_r-majority sigs rs r (inr majority))
                      | inr less ↦ rw (enough, set, less) (choose_r-majority sigs rs best so_far)
                    ]
            ]
        | inr few ↦ rw few (choose_r-majority sigs rs best so_far)
      ]

  after_combining-Holds :
      (p : BftProtocol) (sigs : List (String × List (String × CommittedSig))) (r : String)
      (result : Result SignError (String × Combine))
      → InPhase round Sent p (committing sigs)
      → length committee / 2 < length (sigs_of round r sigs)
      → combine_sigs crypto committee p.combine r (sigs_of round r sigs) ≡ result
      → Holds round Sent (after_combining round p result)
  unfolding after_combining finish
  after_combining-Holds p sigs r (err reason) inv majority e = tt
  after_combining-Holds p sigs r (ok (aggregated, c)) inv majority e =
      let (json, (said, checked, pending, hashed), (ris, half, (distinct, prepared)), all) = inv in
      let (distinct_sigs, verified) = sigs_of-Verified json p.combine.r r sigs all in
      rw pending (record {
        json = json;
        proposed = said;
        checked = checked;
        same_content = refl;
        ris = ris;
        half = half;
        distinct_ris = distinct;
        prepared = prepared;
        r = r;
        sigs = sigs_of round r sigs;
        own_r = p.combine.r;
        majority = majority;
        distinct_sigs = distinct_sigs;
        verified = verified;
        before = p.combine;
        after = c;
        aggregated = e;
      })

  pub combine_all-Holds :
      (p : BftProtocol) (sigs : List (String × List (String × CommittedSig)))
      → InPhase round Sent p (committing sigs)
      → Holds round Sent (combine_all round p sigs)
  unfolding combine_all combine_with
  combine_all-Holds p sigs inv =
      let r = choose_r round sigs (keys sigs) "1" in
      elim (Bool-cases (is_unset round r)) [
        | inl unset ↦ rw unset tt
        | inr chosen ↦ elim (choose_r-majority sigs (keys sigs) "1" (inl refl)) [
          | inl unset ↦ absurd (both_values chosen unset)
          | inr majority ↦ rw chosen (
              after_combining-Holds p sigs r
                (combine_sigs crypto committee p.combine r (sigs_of round r sigs)) inv majority
                refl)
        ]
      ]
    where
      both_values : {b : Bool} → b ≡ false → b ≡ true → ⊥
      both_values first second = cc
