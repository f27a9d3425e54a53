-- ===== src/Mempool/ShardToBeaconPool/Invariant.antt =====
-- shard_to_beacon_pool_v2.go: every shard's slice stays sorted, and its valid blocks consecutive.
use cash_prototype.Base.{ℕ, ◌+◌, ◌<◌, Option, none, some, List, arith, u64_mod, or_else}
use cash_prototype.Mempool.Heights.{Block, Above, Lacks}
use cash_prototype.Mempool.Heights.Sorting.{Above-drop_up_to, drop_up_to-Lacks}
use cash_prototype.Mempool.Heights.Runs.{
  RunsTo, advance-RunsTo, advance-Lacks, advance-lt, advance-pos, drop_up_to-RunsTo,
}
use cash_prototype.Mempool.ShardToBeaconPool.{
  ShardToBeaconPool, at_least_one, advance_shard, remove_shard, update_latest_shard_state,
  remove_pending_block, raised, set_shard_state,
}

pub at_least_one_bounds : (l : ℕ) → l < u64_mod → (0 < at_least_one l) × (at_least_one l < u64_mod)
at_least_one_bounds l lt = ground arith

-- Heights in the argument are uint64 values.
abbrev pub HeightsInRange : (ℕ → Option ℕ) → Type 0
HeightsInRange state = (s : ℕ) → or_else 0 (state s) < u64_mod

raised_lt :
    (item : Option ℕ) (l : ℕ)
    → or_else 0 item < u64_mod
    → l < u64_mod
    → or_else l (raised (λ s. item) 0) < u64_mod
raised_lt none l lt small = small
raised_lt (some h) l lt small = ground arith

module _ {B : Type 0} ⦃b : Block B⦄ where
  -- A shard's slice is sorted, its valid blocks run up to its latest valid height, and the block
  -- after that is missing.
  abbrev pub Fits : Option (List B) → ℕ → Type 0
  Fits none l = l < u64_mod
  Fits (some xs) l = Above 0 xs × RunsTo l xs × Lacks (l + 1) xs × (0 < l) × (l < u64_mod)

  abbrev pub IsValid : ShardToBeaconPool B → Type 0
  IsValid p = (s : ℕ) → Fits (p.pool s) (p.latest_valid_height s)

  abbrev pub SortedSlice : Option (List B) → Type 0
  SortedSlice none = Unit {0}
  SortedSlice (some xs) = Above 0 xs

  pub Fits-sorted : (slice : Option (List B)) (l : ℕ) → Fits slice l → SortedSlice slice
  Fits-sorted none l f = tt
  Fits-sorted (some xs) l f = f.0

  pub Fits-lt : (slice : Option (List B)) (l : ℕ) → Fits slice l → l < u64_mod
  Fits-lt none l f = f
  Fits-lt (some xs) l f = f.4

  advance_shard-Fits :
      (slice : Option (List B)) (l : ℕ)
      → SortedSlice slice
      → l < u64_mod
      → Fits slice (advance_shard slice l)
  advance_shard-Fits none l a lt = lt
  advance_shard-Fits (some xs) l a lt =
      let (pos, small) = at_least_one_bounds l lt in
      (
        a,
        advance-RunsTo 0 (at_least_one l) xs small a,
        advance-Lacks 0 (at_least_one l) xs small a,
        advance-pos (at_least_one l) xs pos small a,
        advance-lt 0 (at_least_one l) xs small a,
      )

  pub update-IsValid :
      (p : ShardToBeaconPool B)
      → ((s : ℕ) → SortedSlice (p.pool s))
      → ((s : ℕ) → p.latest_valid_height s < u64_mod)
      → IsValid (update_latest_shard_state p)
  unfolding update_latest_shard_state
  update-IsValid p a lt s = advance_shard-Fits (p.pool s) (p.latest_valid_height s) (a s) (lt s)

  remove_shard-Fits :
      (item : Option ℕ) (slice : Option (List B)) (l : ℕ)
      → Fits slice l
      → Fits (remove_shard item slice) l
  remove_shard-Fits none slice l f = f
  remove_shard-Fits (some h) none l f = f
  remove_shard-Fits (some h) (some xs) l f = (
    Above-drop_up_to h 0 xs f.0,
    drop_up_to-RunsTo h 0 l xs f.0 f.1,
    drop_up_to-Lacks h (l + 1) xs f.2,
    f.3,
    f.4,
  )

  pub remove_pending_block-IsValid :
      (items : ℕ → Option ℕ) (p : ShardToBeaconPool B)
      → IsValid p
      → IsValid (remove_pending_block items p)
  unfolding remove_pending_block
  remove_pending_block-IsValid items p v s = remove_shard-Fits (items s) (p.pool s) _ (v s)

  remove_shard-sorted :
      (item : Option ℕ) (slice : Option (List B))
      → SortedSlice slice
      → SortedSlice (remove_shard item slice)
  remove_shard-sorted none slice a = a
  remove_shard-sorted (some h) none a = a
  remove_shard-sorted (some h) (some xs) a = Above-drop_up_to h 0 xs a

  pub set_shard_state-IsValid :
      (state : ℕ → Option ℕ) (p : ShardToBeaconPool B)
      → IsValid p
      → HeightsInRange state
      → IsValid (set_shard_state state p)
  unfolding set_shard_state remove_pending_block
  set_shard_state-IsValid state p v lt =
      update-IsValid _
        (λ s. remove_shard-sorted (raised state s) (p.pool s) (Fits-sorted (p.pool s) _ (v s)))
        (λ s. raised_lt (state s) (p.latest_valid_height s) (lt s) (Fits-lt (p.pool s) _ (v s)))
