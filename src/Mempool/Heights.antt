-- ===== src/Mempool/Heights.antt =====
-- What the block pools of mempool/ have in common: slices of blocks that are kept sorted by height.
pub mod Sorting
pub mod Runs
pub mod Room
pub mod Adding
use cash_prototype.Base.{
  ℕ, zero, suc, ◌<◌, ◌≤◌, ◌≡◌, ◌≢◌, ◌⊎◌, Bool, true, false, ◌&&◌, ◌||◌, not, List, [], ◌∷◌, ◌++◌,
  ltb, leb, ◌==◌, if◌then◌else◌, length, add64, sub64, int_gt, u64_mod, Result, ok, err, map,
}

-- A block with a header; `blk.Header.Height` is a uint64.
pub record Block (A : Type 0) : Type 0 where
  pub block_height : A → ℕ
  pub block_hash : A → ℕ

pub data PoolError : Type 0 where
  old_block duplicate_block exceed_valid exceed_invalid : PoolError

module _ {A : Type 0} ⦃b : Block A⦄ where
  abbrev pub height : A → ℕ
  height = b.block_height

  -- `sort.Slice(pool, func(i, j) bool { return pool[i].Height < pool[j].Height })`
  unfoldable pub insert : A → List A → List A
  insert x [] = x ∷ []
  insert x (y ∷ ys) = if ltb (height y) (height x) then y ∷ insert x ys else x ∷ y ∷ ys

  unfoldable pub sort : List A → List A
  unfolding insert
  sort [] = []
  sort (x ∷ xs) = insert x (sort xs)

  -- The search for a duplicate.
  unfoldable pub has_height : ℕ → List A → Bool
  has_height h [] = false
  has_height h (x ∷ xs) = height x == h || has_height h xs

  -- `pool[len(pool)-1]` and `pool[:len(pool)-1]`
  unfoldable pub last : A → List A → A
  last x [] = x
  last x (y ∷ ys) = last y ys

  unfoldable pub drop_last : A → List A → List A
  drop_last x [] = []
  drop_last x (y ∷ ys) = x ∷ drop_last y ys

  -- The check of the pool's capacity, with the two limits; `latest - first` wraps around as the code's does.
  unfoldable pub make_room : ℕ → ℕ → ℕ → ℕ → List A → Result PoolError (List A)
  unfolding last drop_last
  make_room max_valid max_invalid latest h [] = ok []
  make_room max_valid max_invalid latest h (x ∷ xs) =
      let num_valid = sub64 latest (height x) in
      let num_invalid = sub64 (length (x ∷ xs)) num_valid in
      if int_gt num_valid max_valid
      then err exceed_valid
      else (if int_gt num_invalid max_invalid
          then (if ltb h (height (last x xs)) then ok (drop_last x xs) else err exceed_invalid)
          else ok (x ∷ xs))

  -- The loop of UpdateLatestShardState and UpdateLatestBeaconState.
  unfoldable pub advance : ℕ → List A → ℕ
  advance last [] = last
  advance last (x ∷ xs) =
      if ltb last (height x) && not (add64 last 1 == height x) then last else advance (height x) xs

  -- The loop of RemoveBlock and RemovePendingBlock.
  unfoldable pub drop_up_to : ℕ → List A → List A
  drop_up_to h [] = []
  drop_up_to h (x ∷ xs) = if leb (height x) h then drop_up_to h xs else x ∷ xs

  -- The loop of GetValidBlock.
  unfoldable pub take_up_to : ℕ → List A → List A
  take_up_to h [] = []
  take_up_to h (x ∷ xs) = if ltb h (height x) then [] else x ∷ take_up_to h xs

  -- The loop of GetLatestValidBlockHeight.
  unfoldable pub last_height : ℕ → List A → ℕ
  last_height h [] = h
  last_height h (x ∷ xs) = last_height (height x) xs

  -- Heights rise strictly, from above `n`, and are uint64 values.
  abbrev pub Above : ℕ → List A → Type 0
  Above n [] = Unit {0}
  Above n (x ∷ xs) = (n < height x) × (height x < u64_mod) × Above (height x) xs

  -- No block has height `h`.
  abbrev pub Lacks : ℕ → List A → Type 0
  Lacks h [] = Unit {0}
  Lacks h (x ∷ xs) = (height x ≢ h) × Lacks h xs
