-- ===== src/Blockchain/Validators/Assigning.antt =====
-- beaconprocess.go: AssignValidator, AssignValidatorShard, VerifyValidator and
-- calculateCandidateShardID.
use cash_prototype.Base.{
  ℕ, ◌%◌, ◌<◌, ◌≡◌, ◌≢◌, ◌↔◌, ◌∙◌, refl, sym, inl, inr, true, false, List, [], ◌∷◌, ◌++◌, arith,
  Bool-cases, ◌==◌, retain, put, codes, itoa, done, panic, String, ℤ, All,
}
use mathlib.Core.Logic.{∥∥₁_map}
use native.Mathlib.Decide.{ℕ_discrete}
use native.Mathlib.Nat.{mod-lt}
use mathlib.Core.List.{append_assoc, append-nil, Mem, Memᴰ}
use cash_prototype.Blockchain.Validators.{
  calculate_candidate_shard_id, assign_validator_shard, assign_validator, verify_validator,
}

module _ (sha256_last : List ℕ → ℕ) where
  -- The shard of a candidate where the number of active shards is not 0.
  abbrev pub shard_of : ℤ → ℕ → String → ℕ
  shard_of rand active_shards candidate =
      sha256_last (codes candidate ++ itoa rand) % active_shards % 256

  calculate_candidate_shard_id-done :
      (c : String) (rand : ℤ) (n : ℕ)
      → n ≢ 0
      → calculate_candidate_shard_id sha256_last c rand n ≡ done (shard_of rand n c)
  unfolding calculate_candidate_shard_id
  calculate_candidate_shard_id-done c rand n h =
      let some_shard : (n == 0) ≡ false = ground arith in rw some_shard refl

  -- The candidates of one shard, in the order in which they come.
  abbrev pub of_shard : ℤ → ℕ → List String → ℕ → List String
  of_shard rand n candidates s = retain (λ c. s == shard_of rand n c) candidates

  assign_validator_shard-put :
      (current : ℕ → List String) (c : String) (rand : ℤ) (n : ℕ) (cs : List String) (s : ℕ)
      → put (shard_of rand n c) (current (shard_of rand n c) ++ c ∷ []) current s
          ++ of_shard rand n cs s
        ≡ current s ++ of_shard rand n (c ∷ cs) s
  assign_validator_shard-put current c rand n cs s = elim (Bool-cases (s == shard_of rand n c)) [
    | inl here ↦
        let e : s ≡ shard_of rand n c = ground (arith, here) in
        rw here (rw (sym e) (append_assoc (current s) (c ∷ []) (of_shard rand n cs s)))
    | inr other ↦ rw other refl
  ]

  -- With an active shard, AssignValidatorShard appends to each shard's list the candidates whose
  -- hash with the random number selects that shard, in their order, and keeps what was there.
  pub assign_validator_shard-lists :
      (current : ℕ → List String) (candidates : List String) (rand : ℤ) (active_shards : ℕ)
      → active_shards ≢ 0
      → (assigned : ℕ → List String) × (assign_validator_shard sha256_last current candidates rand
            active_shards
          ≡ done assigned)
        × ((s : ℕ) → assigned s ≡ current s ++ of_shard rand active_shards candidates s)
  unfolding assign_validator_shard
  assign_validator_shard-lists current [] rand n h =
      (current, refl, λ s. sym (append-nil (current s)))
  assign_validator_shard-lists current (c ∷ cs) rand n h =
      let current' = put (shard_of rand n c) (current (shard_of rand n c) ++ c ∷ []) current in
      let (assigned, ok, lists) = assign_validator_shard-lists current' cs rand n h in
      (
        assigned,
        rw (assign_validator_shard, calculate_candidate_shard_id-done c rand n h) ok,
        λ s. lists s ∙ assign_validator_shard-put current c rand n cs s,
      )

  of_shard-verified :
      (candidates : List String) (rand : ℤ) (n s : ℕ)
      → n ≢ 0
      → All
          (λ c. verify_validator sha256_last c rand s n ≡ done true)
          (of_shard rand n candidates s)
  unfolding verify_validator
  of_shard-verified [] rand n s h = tt
  of_shard-verified (c ∷ cs) rand n s h = elim (Bool-cases (s == shard_of rand n c)) [
    | inl here ↦ rw here (
      rw (verify_validator, calculate_candidate_shard_id-done c rand n h, here) refl,
      of_shard-verified cs rand n s h,
    )
    | inr other ↦ rw other (of_shard-verified cs rand n s h)
  ]

  shard_of-lt : (rand : ℤ) (n : ℕ) (c : String) → n ≢ 0 → shard_of rand n c < n
  shard_of-lt rand n c h =
      let lt = mod-lt (sha256_last (codes c ++ itoa rand)) {m = n} (omega arith) in
      omega (arith, lt)

  of_shard-Mem :
      (candidates : List String) (rand : ℤ) (n : ℕ) (c : String)
      → Memᴰ c candidates
      → Memᴰ c (of_shard rand n candidates (shard_of rand n c))
  of_shard-Mem [] rand n c m = elim m [ ]
  of_shard-Mem (b ∷ cs) rand n c (Memᴰ.head e) =
      let here : (shard_of rand n c == shard_of rand n b) ≡ true = ground (arith, e) in
      rw here (Memᴰ.head e)
  of_shard-Mem (b ∷ cs) rand n c (Memᴰ.tail m) =
      let rest = of_shard-Mem cs rand n c m in
      elim (Bool-cases (shard_of rand n c == shard_of rand n b)) [
        | inl here ↦ rw here (Memᴰ.tail rest)
        | inr other ↦ rw other rest
      ]

  -- With an active shard, a candidate that AssignValidator puts on a shard's list is one that
  -- VerifyValidator confirms for that shard, and every candidate that it is given is on the list of
  -- a shard below the number of active shards.
  pub assign_validator-verified :
      (candidates : List String) (rand : ℤ) (active_shards : ℕ)
      → active_shards ≢ 0
      → (assigned : ℕ → List String) × (assign_validator sha256_last candidates rand active_shards
          ≡ done assigned)
        × ((s : ℕ)
            → All
                (λ c. verify_validator sha256_last c rand s active_shards ≡ done true)
                (assigned s))
        × ((c : String) → Mem c candidates → (s : ℕ) × (s < active_shards) × Mem c (assigned s))
  unfolding assign_validator verify_validator
  assign_validator-verified candidates rand n h =
      let (assigned, ok, lists) = assign_validator_shard-lists (λ s. []) candidates rand n h in
      (
        assigned,
        ok,
        λ s. rw (lists s) (of_shard-verified candidates rand n s h),
        λ c m. (
          shard_of rand n c,
          shard_of-lt rand n c h,
          rw (lists (shard_of rand n c)) (∥∥₁_map m (λ d. of_shard-Mem candidates rand n c d)),
        ),
      )

  -- AssignValidatorShard panics just when there is no active shard and it is given a candidate.
  assign_validator_shard-panics :
      (current : ℕ → List String) (candidates : List String) (rand : ℤ) (active_shards : ℕ)
      → (assign_validator_shard sha256_last current candidates rand active_shards ≡ panic)
        ↔ ((active_shards ≡ 0) × (candidates ≢ []))
  unfolding assign_validator_shard calculate_candidate_shard_id
  assign_validator_shard-panics current [] rand n = (λ h. cc, λ (h, ne). absurd (ne refl))
  assign_validator_shard-panics current (c ∷ cs) rand n = elim (ℕ_discrete n 0) [
    | yes zero' ↦
        let no_shard : (n == 0) ≡ true = ground arith in
        (λ h. (zero', λ e. cc), λ h. rw (assign_validator_shard, no_shard) refl)
    | no some_shard ↦ (
      λ h.
          let (assigned, ok, lists) =
            assign_validator_shard-lists current (c ∷ cs) rand n some_shard in
          absurd (cc),
      λ (zero', ne). absurd (some_shard zero'),
    )
  ]
