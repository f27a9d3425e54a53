-- ===== src/Mempool/CrossShardPool/Update.antt =====
-- cross_shard_pool_v2.go: updatePool.
use mathlib.Core.Option
use mathlib.Core.Path.{ap₂}
use mathlib.Core.List.{append_assoc}
use cash_prototype.Base.{
  ℕ, ◌≡◌, ◌≢◌, ◌∙◌, ap, refl, inl, inr, Option, none, some, List, [], ◌∷◌, ◌++◌, arith, Bool-cases,
  or_else, take-append-drop, ltb,
}
use cash_prototype.Mempool.Heights.{Block, height, Above, drop_up_to}
use cash_prototype.Mempool.CrossShardPool.{
  CrossShardPool, Database, valid_blocks, pending_blocks, count_ready, promote, update_pool,
}

module _ {B : Type 0} ⦃b : Block B⦄ where
  -- The two slices together, the valid blocks first.
  abbrev pub all_blocks : CrossShardPool B → ℕ → List B
  all_blocks p s = valid_blocks p s ++ pending_blocks p s

  promote-append :
      (wait : ℕ) (valid pending : Option (List B))
      → or_else [] (promote wait valid pending).0 ++ or_else [] (promote wait valid pending).1
        ≡ or_else [] valid ++ or_else [] pending
  unfolding promote
  promote-append wait valid none = refl
  promote-append wait valid (some blks) = elim (Bool-cases (ltb 0 (count_ready wait blks).0)) [
    | inl e ↦ rw e (
        append_assoc (or_else [] valid) _ _
        ∙ ap (◌++◌ (or_else [] valid)) (take-append-drop (count_ready wait blks).0 blks))
    | inr e ↦ rw e refl
  ]

  pub removed :
      (h : ℕ) (slice : Option (List B))
      → or_else [] (Option.map (drop_up_to h) slice) ≡ drop_up_to h (or_else [] slice)
  unfolding drop_up_to
  removed h none = refl
  removed h (some xs) = refl

  -- updatePool loses no block but those at the head of a shard's slices that are not above the
  -- shard's new state, and keeps the order.
  update_pool-all_blocks :
      (db : Database) (best : ℕ → ℕ) (p : CrossShardPool B) (s : ℕ)
      → all_blocks (update_pool db best p).0 s
        ≡ drop_up_to (best s) (valid_blocks p s) ++ drop_up_to (best s) (pending_blocks p s)
  unfolding update_pool
  update_pool-all_blocks db best p s =
      promote-append _ (Option.map (drop_up_to (best s)) (p.valid_pool s))
        (Option.map (drop_up_to (best s)) (p.pending_pool s))
      ∙ ap₂ ◌++◌ (removed (best s) (p.valid_pool s)) (removed (best s) (p.pending_pool s))

  pub promote_nil :
      (wait : ℕ) (valid : Option (List B)) → promote wait valid (some []) ≡ (valid, some [])
  unfolding promote
  promote_nil wait valid = refl

  -- Heights differ, so the one height that is awaited is found once at most.
  count_ready_head :
      (n wait : ℕ) (x : B) (xs : List B)
      → Above n (x ∷ xs)
      → wait ≡ height x
      → (count_ready wait (x ∷ xs)).0 ≡ 1
  unfolding count_ready
  count_ready_head n wait x [] a e = ground arith
  count_ready_head n wait x (y ∷ ys) a e = ground arith

  count_ready_other :
      (wait : ℕ) (x : B) (xs : List B)
      → wait ≢ height x
      → count_ready wait (x ∷ xs) ≡ (0, some wait)
  unfolding count_ready
  count_ready_other wait x xs ne = ground arith

  -- On a sorted pending slice, one round of updatePool moves its first block where that has the
  -- awaited height, and nothing else.
  pub promote_sorted :
      (n wait : ℕ) (valid : Option (List B)) (x : B) (xs : List B)
      → Above n (x ∷ xs)
      → (wait ≡ height x
          → (promote wait valid (some (x ∷ xs)) ≡ (some (or_else [] valid ++ x ∷ []), some xs)))
        × (wait ≢ height x → promote wait valid (some (x ∷ xs)) ≡ (valid, some (x ∷ xs)))
  unfolding promote
  promote_sorted n wait valid x xs a = (
    λ e. rw (count_ready_head n wait x xs a e) refl,
    λ ne. rw (ap (λ r. r.0) (count_ready_other wait x xs ne)) refl,
  )
