-- ===== src/Mempool/CrossShardPool/Stores.antt =====
-- beaconprocess.go: how the next heights change that cross_shard_pool_v2.go reads.
use cash_prototype.Base.{
  ℕ, ◌≤◌, ◌≡◌, refl, ◌∙◌, ◌⊎◌, inl, inr, ◌&&◌, List, arith, ◌==◌, ==→eq, if◌then◌else◌, Bool-cases,
  put,
}
use cash_prototype.Mempool.Heights.{Block}
use cash_prototype.Mempool.CrossShardPool.{
  CrossShardPool, Database, BeaconChain, store_cross_shard, store_cross_shard_next_height,
  get_next_cross_shard_height, valid_blocks, pending_blocks,
}
use cash_prototype.Mempool.CrossShardPool.Slices.{LooseSlice, IsValid, awaited}

-- Nothing follows the last height, or a higher one.
abbrev pub IsInOrder : BeaconChain → Type 0
IsInOrder c =
    (from to h : ℕ)
    → c.last_cross_shard_state from to ≤ h
    → get_next_cross_shard_height c.database from to h ≡ 0

stored :
    (from to cur next : ℕ) (db : Database) (f t h : ℕ)
    → get_next_cross_shard_height (store_cross_shard_next_height from to cur next db) f t h
      ≡ (if f == from && t == to && h == cur then next else get_next_cross_shard_height db f t h)
unfolding store_cross_shard_next_height get_next_cross_shard_height
stored from to cur next db f t h = elim (Bool-cases (f == from && t == to && h == cur)) [
  | inl here ↦ rw here refl
  | inr other ↦ rw other refl
]

-- What a beacon block stores in the order of the heights keeps the order, and changes no next height
-- but one that was 0.
pub store_cross_shard-IsInOrder :
    (from to wait : ℕ) (c : BeaconChain)
    → c.last_cross_shard_state from to ≤ wait
    → IsInOrder c
    → IsInOrder (store_cross_shard from to wait c)
      × ((f t h : ℕ)
          → (get_next_cross_shard_height (store_cross_shard from to wait c).database f t h
              ≡ get_next_cross_shard_height c.database f t h)
            ⊎ (get_next_cross_shard_height c.database f t h ≡ 0))
unfolding store_cross_shard
store_cross_shard-IsInOrder from to wait c le ordered = elim (Bool-cases (from == to)) [
  | inl own ↦ rw own (ordered, λ f t h. inl refl)
  | inr other ↦ rw other (
    λ f t h at. later f t h at,
    λ f t h. elim (Bool-cases (f == from && t == to)) [
      | inl here ↦
          let from_here : f ≡ from = ==→eq f from (ground (arith, here)) in
          let to_here : t ≡ to = ==→eq t to (ground (arith, here)) in
          elim (Bool-cases (h == last)) [
            | inl at_last ↦
                let at : h ≡ last = ==→eq h last at_last in
                inr (rw (from_here, to_here, at) (ordered from to last (omega arith)))
            | inr not_last ↦ elim (Bool-cases (h == wait)) [
              | inl at_wait ↦
                  let at : h ≡ wait = ==→eq h wait at_wait in
                  inr (rw (from_here, to_here, at) (ordered from to wait le))
              | inr not_wait ↦ inl (entry f t h ∙ ground (arith, here, not_last, not_wait))
            ]
          ]
      | inr elsewhere ↦ inl (entry f t h ∙ ground (arith, elsewhere))
    ],
  )
]
  where
    last : ℕ
    last = c.last_cross_shard_state from to

    entry :
        (f t h : ℕ)
        → get_next_cross_shard_height
            (store_cross_shard_next_height from to wait 0
              (store_cross_shard_next_height from to last wait c.database))
            f
            t
            h
          ≡ (if f == from && t == to && h == wait
              then 0
              else if f == from && t == to && h == last
              then wait
              else get_next_cross_shard_height c.database f t h)
    entry f t h =
        stored from to wait 0 (store_cross_shard_next_height from to last wait c.database) f t h
        ∙ rw (stored from to last wait c.database f t h) refl

    later :
        (f t h : ℕ)
        → put from (put to wait (c.last_cross_shard_state from)) c.last_cross_shard_state f t ≤ h
        → get_next_cross_shard_height
            (store_cross_shard_next_height from to wait 0
              (store_cross_shard_next_height from to last wait c.database))
            f
            t
            h
          ≡ 0
    later f t h at = entry f t h ∙ elim (Bool-cases (f == from)) [
      | inl from_here ↦
          let same_from : f ≡ from = ==→eq f from from_here in
          elim (Bool-cases (t == to)) [
            | inl to_here ↦
                let same_to : t ≡ to = ==→eq t to to_here in
                let above : wait ≤ h = rw (from_here, to_here) at at in
                let was : get_next_cross_shard_height c.database f t h ≡ 0 =
                  rw (same_from, same_to) (ordered from to h (omega arith)) in
                ground (arith, from_here, to_here, above, was, le)
            | inr to_other ↦
                let above : c.last_cross_shard_state from t ≤ h = rw (from_here, to_other) at at in
                let was : get_next_cross_shard_height c.database f t h ≡ 0 =
                  rw same_from (ordered from t h above) in
                ground (arith, from_here, to_other, was)
          ]
      | inr from_other ↦
          let above : c.last_cross_shard_state f t ≤ h = rw from_other at at in
          let was = ordered f t h above in ground (arith, from_other, was)
    ]

module _ {B : Type 0} ⦃b : Block B⦄ where
  -- A valid block that had the height 0 is not above the state.
  rewait :
      (state wait wait' : ℕ) (valid pending : List B)
      → (wait' ≡ wait) ⊎ (wait ≡ 0)
      → LooseSlice state wait valid pending
      → LooseSlice state wait' valid pending
  rewait state wait wait' valid pending (inl e) good = rw e good
  rewait state wait wait' valid pending (inr zero_wait) (a, inl empty) = (a, inl empty)
  rewait state wait wait' valid pending (inr zero_wait) (a, inr (x, one, at, l)) =
      (a, inr (x, one, inr (ground (arith, at, zero_wait)), l))

  pub stored-IsValid :
      (from to wait : ℕ) (c : BeaconChain) (p : CrossShardPool B)
      → c.last_cross_shard_state from to ≤ wait
      → IsInOrder c
      → IsValid c.database p
      → IsValid (store_cross_shard from to wait c).database p
  stored-IsValid from to wait c p le ordered v s =
      rewait (p.cross_shard_state s) (awaited c.database p s)
        (awaited (store_cross_shard from to wait c).database p s) (valid_blocks p s)
        (pending_blocks p s)
        ((store_cross_shard-IsInOrder from to wait c le ordered).1 s p.shard_id
          (p.cross_shard_state s))
        (v s)
