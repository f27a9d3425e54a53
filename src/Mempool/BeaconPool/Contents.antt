-- ===== src/Mempool/BeaconPool/Contents.antt =====
-- beacon_pool.go: what a successful AddBeaconBlock does to the pool, and which calls it refuses.
use cash_prototype.Base.{
  ◌↔◌, >>=-eq-err, ℕ, ◌+◌, ◌≤◌, ◌<◌, ◌≡◌, ◌⊎◌, inl, inr, refl, ap, List, [], ◌∷◌, Perm, ok, err,
  arith, u64_mod, All, length, leb, Bool-cases, true, false,
}
use cash_prototype.Mempool.Heights.{
  Block, height, PoolError, old_block, duplicate_block, has_height, take_up_to, last_height, last,
  exceed_invalid, exceed_valid,
}
use cash_prototype.Mempool.Heights.Runs.{RunsTo, Chain, Chain-le}
use cash_prototype.Mempool.Heights.Room.{
  Leaves, make_room-Leaves, make_room-length, make_room-errors, make_room-gap,
}
use cash_prototype.Mempool.Heights.Adding.{added-perm, le-advance-added, length-added}
use cash_prototype.Mempool.BeaconPool.{
  BeaconPool, add_beacon_block, update_latest_beacon_state, get_latest_valid_block_height,
  get_valid_block,
}
use cash_prototype.Mempool.BeaconPool.Invariant.{IsValid, add_beacon_block-ok, room}

module _ {B : Type 0} ⦃b : Block B⦄ where
  -- In a valid pool, a successful AddBeaconBlock of a uint64 height takes the block in and loses no
  -- other, but for the last one where that has a greater height; the latest valid height does not
  -- fall.
  pub add_beacon_block-contents :
      (blk : B) (p : BeaconPool B) (q : BeaconPool B)
      → IsValid p
      → height blk < u64_mod
      → add_beacon_block blk p ≡ ok q
      → (kept : List B) × Leaves (height blk) p.pool kept
        × Perm q.pool (blk ∷ kept)
        × (p.latest_valid_height ≤ q.latest_valid_height)
  unfolding update_latest_beacon_state
  add_beacon_block-contents blk p q v lt e =
      let (kept, made, fresh, absent, done) = add_beacon_block-ok blk p e in
      let left = make_room-Leaves _ _ _ _ _ made in
      (
        kept,
        left,
        rw (ap (λ r. r.pool) done) (added-perm blk p.pool kept left v.sorted absent lt),
        rw (ap (λ r. r.latest_valid_height) done)
            (le-advance-added blk p.pool kept left v.sorted absent lt _ fresh v.runs),
      )

  -- With heights below 2^62 a valid pool of at most 1201 blocks keeps to that number after a
  -- successful AddBeaconBlock.
  add_beacon_block-length :
      (blk : B) (p : BeaconPool B) (q : BeaconPool B)
      → IsValid p
      → height blk < 0x4000000000000000
      → p.latest_valid_height < 0x4000000000000000
      → All (λ x. height x < 0x4000000000000000) p.pool
      → length p.pool ≤ 1201
      → add_beacon_block blk p ≡ ok q
      → length q.pool ≤ 1201
  unfolding update_latest_beacon_state
  add_beacon_block-length blk p q v lt small low short e =
      let (kept, made, fresh, absent, done) = add_beacon_block-ok blk p e in
      let left = make_room-Leaves _ _ _ _ _ made in
      let size = length-added blk p.pool kept left v.sorted absent (omega arith) in
      let most =
        make_room-length p.latest_valid_height (height blk) p.pool made v.runs low small short in
      rw done (omega (arith, size, most))

  -- A block is refused as old exactly when it is not above the latest valid height, and as a
  -- duplicate exactly when it is above and the pool has a block of its height.
  add_beacon_block-refusals :
      (blk : B) (p : BeaconPool B)
      → ((height blk ≤ p.latest_valid_height) ↔ (add_beacon_block blk p ≡ err old_block))
        × (((p.latest_valid_height < height blk) × (has_height (height blk) p.pool ≡ true))
            ↔ (add_beacon_block blk p ≡ err duplicate_block))
  unfolding add_beacon_block
  add_beacon_block-refusals blk p = (
    (λ h. ground arith, λ e. ground (arith, other old_block e)),
    (λ h. ground arith, λ e. ground (arith, other duplicate_block e)),
  )
    where
      other :
          (e : PoolError)
          → add_beacon_block blk p ≡ err e
          → (height blk ≤ p.latest_valid_height)
            ⊎ (has_height (height blk) p.pool ≡ true)
            ⊎ (e ≡ exceed_valid)
            ⊎ (e ≡ exceed_invalid)
      other e eq = elim (Bool-cases (leb (height blk) p.latest_valid_height)) [
        | inl old ↦ inl (ground arith)
        | inr new ↦ elim (Bool-cases (has_height (height blk) p.pool)) [
          | inl twice ↦ inr (inl twice)
          | inr once ↦ inr (
              inr (make_room-errors _ _ _ _ _ e (>>=-eq-err (room blk p) _ (rw (new, once) at eq))))
        ]
      ]

  -- The limit on pending blocks also counts the heights missing below the first one: where the
  -- first block is more than 200 above the latest valid height (and below 2^62), and fewer than 2^32
  -- others follow it, a block above the last one and the latest valid height, with no block of its
  -- height in the pool, is refused, however few blocks the pool holds.
  add_beacon_block-gap :
      (blk : B) (p : BeaconPool B) (x : B) (rest : List B)
      → p.pool ≡ x ∷ rest
      → p.latest_valid_height + 200 < height x
      → height x < 0x4000000000000000
      → length rest < 0x100000000
      → height (last x rest) < height blk
      → p.latest_valid_height < height blk
      → has_height (height blk) p.pool ≡ false
      → add_beacon_block blk p ≡ err exceed_invalid
  unfolding add_beacon_block
  add_beacon_block-gap blk p x rest e far small short above new once =
      let full : room blk p ≡ err exceed_invalid =
        rw e
          (make_room-gap p.latest_valid_height (height blk) x rest far small short (omega arith)) in
      ground (arith, full)

  last_height-Chain : (n l : ℕ) (xs : List B) → Chain n l xs → last_height n (take_up_to l xs) ≡ l
  unfolding last_height take_up_to
  last_height-Chain n l [] c = c
  last_height-Chain n l (x ∷ xs) c =
      ground (arith, last_height-Chain (height x) l xs, Chain-le (height x) l xs)

  -- In a valid pool, GetLatestValidBlockHeight is the latest valid height, or 0 where no valid block
  -- is left in the pool.
  get_latest_valid_block_height-cases :
      (p : BeaconPool B)
      → IsValid p
      → (get_latest_valid_block_height p ≡ p.latest_valid_height)
        ⊎ ((get_valid_block p ≡ []) × (get_latest_valid_block_height p ≡ 0))
  unfolding get_latest_valid_block_height get_valid_block
  get_latest_valid_block_height-cases p v = go p.pool v.runs
    where
      go :
          (xs : List B)
          → RunsTo p.latest_valid_height xs
          → (last_height 0 (take_up_to p.latest_valid_height xs) ≡ p.latest_valid_height)
            ⊎ ((take_up_to p.latest_valid_height xs ≡ [])
                × (last_height 0 (take_up_to p.latest_valid_height xs) ≡ 0))
      go [] r = inr (refl, refl)
      go (x ∷ xs) r = ground (arith, last_height-Chain (height x) p.latest_valid_height xs)
