-- ===== src/Mempool/CrossShardPool/Slices.antt =====
-- cross_shard_pool_v2.go: a shard has at most one valid block.
use mathlib.Core.Option
use native.Mathlib.Decide.{ℕ_discrete}
use cash_prototype.Base.{
  ℕ, ◌≤◌, ◌≡◌, ◌∙◌, ap, refl, sym, ◌⊎◌, inl, inr, Option, none, some, List, [], ◌∷◌, ◌++◌, arith,
  Bool-cases, or_else, leb,
}
use cash_prototype.Mempool.Heights.{Block, height, Above, Lacks, drop_up_to}
use cash_prototype.Mempool.Heights.Runs.{Above-Lacks}
use cash_prototype.Mempool.Heights.Sorting.{drop_up_to-Lacks, Above-mono, drop_up_to-Above}
use cash_prototype.Mempool.CrossShardPool.{
  CrossShardPool, Database, valid_blocks, pending_blocks, promote, update_pool,
  get_next_cross_shard_height,
}
use cash_prototype.Mempool.CrossShardPool.Update.{promote_sorted, removed, promote_nil}

-- The state stays, or moves on past the awaited block.
abbrev pub MovesOn : ℕ → ℕ → ℕ → Type 0
MovesOn state wait state' = (state' ≡ state) ⊎ ((state ≤ state') × (wait ≤ state'))

module _ {B : Type 0} ⦃b : Block B⦄ where
  -- A shard's slices: the pending blocks are sorted above the state, and there is at most one valid
  -- block, which has the awaited height and is not pending too.
  abbrev pub SliceOk : ℕ → ℕ → List B → List B → Type 0
  SliceOk state wait valid pending =
      Above state pending
      × ((valid ≡ []) ⊎ ((x : B) × (valid ≡ x ∷ []) × (height x ≡ wait) × Lacks (height x) pending))

  unpromoted :
      (state wait : ℕ) (valid pending : Option (List B))
      → SliceOk state wait (or_else [] valid) (or_else [] pending)
      → promote wait valid pending ≡ (valid, pending)
      → SliceOk state wait
          (or_else [] (promote wait valid pending).0)
          (or_else [] (promote wait valid pending).1)
  unpromoted state wait valid pending good e = rw e good

  promote-SliceOk :
      (state wait : ℕ) (valid pending : Option (List B))
      → SliceOk state wait (or_else [] valid) (or_else [] pending)
      → SliceOk state wait
          (or_else [] (promote wait valid pending).0)
          (or_else [] (promote wait valid pending).1)
  promote-SliceOk state wait valid none good =
      unpromoted state wait valid none good (unfold promote in refl)
  promote-SliceOk state wait valid (some []) good =
      unpromoted state wait valid (some []) good (promote_nil wait valid)
  promote-SliceOk state wait valid (some (y ∷ ys)) good = elim (ℕ_discrete wait (height y)) [
    | yes e ↦ rw ((promote_sorted state wait valid y ys good.0).0 e) (found e good.1)
    | no ne ↦
        unpromoted state wait valid (some (y ∷ ys)) good
          ((promote_sorted state wait valid y ys good.0).1 ne)
  ]
    where
      found :
          wait ≡ height y
          → (or_else [] valid ≡ [])
            ⊎ ((x : B) × (or_else [] valid ≡ x ∷ [])
                × (height x ≡ wait)
                × Lacks (height x) (y ∷ ys))
          → SliceOk state wait (or_else [] valid ++ y ∷ []) ys
      found e (inl empty) = (
        Above-mono state (height y) ys (omega arith) good.0.2,
        inr (y, rw empty refl, sym e, Above-Lacks (height y) (height y) ys (omega arith) good.0.2),
      )
      found e (inr (x, one, at, l)) = absurd (l.0 (sym e ∙ sym at))

  -- The same between the calls, while the state, a map that the pool shares with the shard's best
  -- state, may have moved on: the valid block then need not be above it.
  abbrev pub LooseSlice : ℕ → ℕ → List B → List B → Type 0
  LooseSlice state wait valid pending =
      Above 0 pending
      × ((valid ≡ [])
          ⊎ ((x : B) × (valid ≡ x ∷ [])
              × ((height x ≡ wait) ⊎ (height x ≤ state))
              × Lacks (height x) pending))

  loosen :
      (state wait : ℕ) (valid pending : List B)
      → SliceOk state wait valid pending
      → LooseSlice state wait valid pending
  loosen state wait valid pending (a, inl empty) =
      (Above-mono 0 state pending (omega arith) a, inl empty)
  loosen state wait valid pending (a, inr (x, one, at, l)) =
      (Above-mono 0 state pending (omega arith) a, inr (x, one, inl at, l))

  drop-SliceOk :
      (state wait state' wait' : ℕ) (valid pending : List B)
      → LooseSlice state wait valid pending
      → ((state' ≡ state) × (wait' ≡ wait)) ⊎ ((state ≤ state') × (wait ≤ state'))
      → SliceOk state' wait' (drop_up_to state' valid) (drop_up_to state' pending)
  drop-SliceOk state wait state' wait' valid pending good move =
      (drop_up_to-Above state' 0 pending good.0, kept good.1)
    where
      kept :
          (valid ≡ [])
            ⊎ ((x : B) × (valid ≡ x ∷ [])
                × ((height x ≡ wait) ⊎ (height x ≤ state))
                × Lacks (height x) pending)
          → (drop_up_to state' valid ≡ [])
            ⊎ ((x : B) × (drop_up_to state' valid ≡ x ∷ [])
                × (height x ≡ wait')
                × Lacks (height x) (drop_up_to state' pending))
      kept (inl empty) = inl (rw empty (unfold drop_up_to in refl))
      kept (inr (x, one, at, l)) = elim (Bool-cases (leb (height x) state')) [
        | inl gone ↦ inl (rw one (unfold drop_up_to in rw gone refl))
        | inr stays ↦ inr (
          x,
          rw one (unfold drop_up_to in rw stays refl),
          ground (arith, at, move, stays),
          drop_up_to-Lacks state' (height x) pending l,
        )
      ]

  -- What the pool awaits from a shard.
  abbrev pub awaited : Database → CrossShardPool B → ℕ → ℕ
  awaited db p s = get_next_cross_shard_height db s p.shard_id (p.cross_shard_state s)

  abbrev pub IsValid : Database → CrossShardPool B → Type 0
  IsValid db p =
      (s : ℕ)
      → LooseSlice (p.cross_shard_state s) (awaited db p s) (valid_blocks p s) (pending_blocks p s)

  -- For every shard the state stays, or moves on past the awaited block.
  abbrev pub Follows : Database → (ℕ → ℕ) → CrossShardPool B → Type 0
  Follows db best p = (s : ℕ) → MovesOn (p.cross_shard_state s) (awaited db p s) (best s)

  pub update_pool-IsValid :
      (db : Database) (best : ℕ → ℕ) (p : CrossShardPool B)
      → IsValid db p
      → Follows db best p
      → IsValid db (update_pool db best p).0
  unfolding update_pool
  update_pool-IsValid db best p v f s = loosen (best s) _ _ _ (
      promote-SliceOk (best s) (wait s) (Option.map (drop_up_to (best s)) (p.valid_pool s))
        (Option.map (drop_up_to (best s)) (p.pending_pool s))
        (rw (removed (best s) (p.valid_pool s), removed (best s) (p.pending_pool s))
          (drop-SliceOk (p.cross_shard_state s) (awaited db p s) (best s) (wait s)
            (valid_blocks p s) (pending_blocks p s) (v s) (moves (f s)))))
    where
      wait : ℕ → ℕ
      wait s = get_next_cross_shard_height db s p.shard_id (best s)

      moves :
          MovesOn (p.cross_shard_state s) (awaited db p s) (best s)
          → ((best s ≡ p.cross_shard_state s) × (wait s ≡ awaited db p s))
            ⊎ ((p.cross_shard_state s ≤ best s) × (awaited db p s ≤ best s))
      moves (inl e) = inl (e, ap (get_next_cross_shard_height db s p.shard_id) e)
      moves (inr le) = inr le

  -- The best state's map changes in place.
  pub moved-IsValid :
      (db : Database) (best : ℕ → ℕ) (p : CrossShardPool B)
      → IsValid db p
      → Follows db best p
      → IsValid db (record p { cross_shard_state = best })
  moved-IsValid db best p v f s = go (v s) (f s)
    where
      go :
          LooseSlice
            (p.cross_shard_state s)
            (awaited db p s)
            (valid_blocks p s)
            (pending_blocks p s)
          → MovesOn (p.cross_shard_state s) (awaited db p s) (best s)
          → LooseSlice
              (best s)
              (get_next_cross_shard_height db s p.shard_id (best s))
              (valid_blocks p s)
              (pending_blocks p s)
      go good (inl e) = rw e good
      go (a, inl empty) (inr le) = (a, inl empty)
      go (a, inr (x, one, at, l)) (inr le) = (a, inr (x, one, inr (ground (arith, at, le)), l))
