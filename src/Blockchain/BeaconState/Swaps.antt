-- ===== src/Blockchain/BeaconState/Swaps.antt =====
-- beaconprocess.go: a swap instruction of a shard does to the beacon state what SwapValidator does.
use cash_prototype.Base.{
  ◌∙◌, length-append, ℕ, ◌≡◌, ◌<◌, ◌%◌, refl, ap, List, [], ◌∷◌, ◌++◌, String, some, none, pos,
  done, length, put, put_same, arith,
}
use cash_prototype.Blockchain.Validators.{Swap, swap_validator, remove_validator}
use cash_prototype.Blockchain.Validators.Removing.{remove_validator_iff}
use cash_prototype.Blockchain.BeaconState.{
  removing, BestStateBeacon, Reading, going, swap_shard, process_instruction, enter_shard,
  leave_shard,
}

remove_first :
    (p : String) (ps : List String) → remove_validator (p ∷ ps) (p ∷ []) ≡ done (ps, none)
remove_first p ps = (remove_validator_iff (p ∷ ps) (p ∷ []) ps).1 ((refl, tt), refl)

removing-done :
    (validators removed rest : List String) (store : List String → BestStateBeacon)
    (follow : BestStateBeacon → BestStateBeacon)
    → remove_validator validators removed ≡ done (rest, none)
    → removing validators removed store follow ≡ going (follow (store rest))
removing-done validators removed rest store follow e = rw (removing, e) refl

enter_shard-first :
    (p : String) (ps : List String) (s : ℕ) (b : BestStateBeacon)
    → b.shard_pending_validator s ≡ p ∷ ps
    → enter_shard (p ∷ []) s b
      ≡ going (record b {
        shard_pending_validator = put s ps b.shard_pending_validator;
        shard_committee = put s (b.shard_committee s ++ p ∷ []) b.shard_committee;
      })
unfolding enter_shard
enter_shard-first p ps s b e =
    let first : remove_validator (b.shard_pending_validator s) (p ∷ []) ≡ done (ps, none) =
      rw e (remove_first p ps) in
    removing-done (b.shard_pending_validator s) (p ∷ []) ps
      (λ rest. record b { shard_pending_validator = put s rest b.shard_pending_validator })
      (λ c. record c { shard_committee = put s (c.shard_committee s ++ p ∷ []) c.shard_committee })
      first

leave_shard-first :
    (c : String) (cs : List String) (s : ℕ) (b : BestStateBeacon)
    → b.shard_committee s ≡ c ∷ cs
    → leave_shard (c ∷ []) s b ≡ going (record b { shard_committee = put s cs b.shard_committee })
unfolding leave_shard
leave_shard-first c cs s b e =
    let first : remove_validator (b.shard_committee s) (c ∷ []) ≡ done (cs, none) =
      rw e (remove_first c cs) in
    removing-done (b.shard_committee s) (c ∷ []) cs
      (λ rest. record b { shard_committee = put s rest b.shard_committee }) (λ d. d) first

swap_validator-one :
    (p c : String) (ps cs : List String)
    → swap_validator (p ∷ ps) (c ∷ cs) (pos (length (c ∷ cs))) (pos 1)
      ≡ done (
        record { pending = ps; current = cs ++ p ∷ []; swapped = c ∷ []; incoming = p ∷ [] },
        none,
      )
unfolding swap_validator
swap_validator-one p c ps cs = ground (arith, length-append cs (p ∷ []))

-- A swap instruction with the first pending validator of a shard, numbered below 256, and the first
-- of its committee goes through, and leaves in the beacon state the pending list and the committee that
-- SwapValidator makes of them with the offset 1 and a full committee.
pub process_instruction-swap_validator :
    (r : Reading) (s : ℕ) (p c : String) (ps cs : List String)
    → s < 256
    → r.best.shard_pending_validator s ≡ p ∷ ps
    → r.best.shard_committee s ≡ c ∷ cs
    → (q : Reading) × (t : Swap) × (process_instruction (swap_shard (p ∷ []) (c ∷ []) (some s)) r
        ≡ going q)
      × (swap_validator
            (r.best.shard_pending_validator s)
            (r.best.shard_committee s)
            (pos (length (r.best.shard_committee s)))
            (pos 1)
          ≡ done (t, none))
      × (t.incoming ≡ p ∷ [])
      × (t.swapped ≡ c ∷ [])
      × (q.best.shard_pending_validator s ≡ t.pending)
      × (q.best.shard_committee s ≡ t.current)
unfolding process_instruction
process_instruction-swap_validator r s p c ps cs lt hp hc =
    let b = r.best in
    let entered : BestStateBeacon = record b {
      shard_pending_validator = put s ps b.shard_pending_validator;
      shard_committee = put s (b.shard_committee s ++ p ∷ []) b.shard_committee;
    } in
    let left : BestStateBeacon = record entered {
      shard_committee = put s (cs ++ p ∷ []) entered.shard_committee;
    } in
    let byte : s % 256 ≡ s = omega arith in
    let committee : entered.shard_committee s ≡ c ∷ (cs ++ p ∷ []) =
      put_same s (b.shard_committee s ++ p ∷ []) b.shard_committee ∙ ap (λ xs. xs ++ p ∷ []) hc in
    (
      record r { best = left },
      record { pending = ps; current = cs ++ p ∷ []; swapped = c ∷ []; incoming = p ∷ [] },
      rw
          (
            process_instruction,
            byte,
            enter_shard-first p ps s b hp,
            leave_shard-first c (cs ++ p ∷ []) s entered committee,
          )
          refl,
      rw (hp, hc) (swap_validator-one p c ps cs),
      refl,
      refl,
      put_same s ps b.shard_pending_validator,
      put_same s (cs ++ p ∷ []) entered.shard_committee,
    )
