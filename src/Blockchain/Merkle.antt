-- ===== src/Blockchain/Merkle.antt =====
-- blockchain/merkle.go: the Merkle trees of transactions and of hashes, as arrays. A hash is its
-- bytes; the entry of a node that is not there is `none`.
pub mod Rounds
pub mod Root
use cash_prototype.Base.{
  ℕ, zero, suc, ◌+◌, ◌-◌, ◌*◌, ◌/◌, ◌%◌, ◌≤◌, ◌<◌, min, max, ◌≡◌, refl, sym, ap, subst, ◌∙◌, ◌≢◌,
  ◌↔◌, ◌⊎◌, inl, inr, Bool, true, false, ◌&&◌, ◌||◌, not, Option, none, some, List, [], ◌∷◌, ◌++◌,
  map, append_assoc, flatten, arith, ltb, leb, ◌==◌, if◌then◌else◌, Bool-cases, Option-cases, ==→eq,
  ==_refl, length, take, drop, get_elem?, All, Outcome, done, panic, put, or_else, u64_mod, add64,
  sub64,
}
use cash_prototype.Common.Bytes.{Bytes, bytes_eq}

abbrev pub Node : Type 0
Node = Option Bytes

abbrev pub max_shard_number : ℕ
max_shard_number = 4

-- `merkles[i]`, for an index in the array
abbrev pub node_at : List Node → ℕ → Node
node_at merkles i = or_else none (get_elem? merkles i)

-- `merkles[i] = node`
pub set : List Node → ℕ → Node → List Node
set [] i v = []
set (x ∷ xs) zero v = v ∷ xs
set (x ∷ xs) (suc i) v = x ∷ set xs i v

pub blanks : ℕ → List Node
blanks zero = []
blanks (suc n) = none ∷ blanks n

-- `copy(merkles, nodes)` onto an array of the given size
pub copy_nodes : ℕ → List Bytes → List Node
copy_nodes zero hashes = []
copy_nodes (suc n) [] = none ∷ copy_nodes n []
copy_nodes (suc n) (h ∷ hashes) = some h ∷ copy_nodes n hashes

-- The last entry of an array.
abbrev pub last_node : List Node → Node
last_node [] = none
last_node (x ∷ []) = x
last_node (x ∷ y ∷ ys) = last_node (y ∷ ys)

-- The smallest power of two from `p` on that is not below `n`, doubling `p` at most `fuel` times.
power_from : ℕ → ℕ → ℕ → ℕ
power_from zero n p = p
power_from (suc fuel) n p = let more = power_from fuel n (p + p) in if leb n p then p else more

-- nextPowerOfTwo: `n & (n - 1)` is 0 for 0 and the powers of two. The logarithm of the code is one
-- of floating point numbers, exact enough for the number of a block's transactions.
unfoldable pub next_power_of_two : ℕ → ℕ
unfolding power_from
next_power_of_two n = if n == 0 then 0 else power_from n n 1

pub zero_hash : ℕ → Bytes
zero_hash zero = []
zero_hash (suc n) = 0 ∷ zero_hash n

module _ (double_hash : Bytes → Bytes) where
  -- hashMerkleBranches
  pub hash_merkle_branches : Bytes → Bytes → Bytes
  hash_merkle_branches left right = double_hash (left ++ right)

  -- The cases of the `switch`.
  pub parent : Node → Node → Node
  unfolding hash_merkle_branches
  parent none right = none
  parent (some left) none = some (hash_merkle_branches left left)
  parent (some left) (some right) = some (hash_merkle_branches left right)

  -- `for i := 0; i < arraySize-1; i += 2`, from `i` and `offset` on, by the rounds left
  pub fill_parents : ℕ → ℕ → ℕ → List Node → List Node
  unfolding parent set
  fill_parents zero i offset merkles = merkles
  fill_parents (suc rounds) i offset merkles =
      fill_parents rounds (i + 2) (offset + 1)
        (set merkles offset (parent (node_at merkles i) (node_at merkles (i + 1))))

  -- The array for a power of two, with the hashes in front, and the parents filled in.
  unfoldable pub filled : ℕ → List Bytes → List Node
  unfolding fill_parents copy_nodes
  filled next_pot hashes =
      fill_parents (next_pot - 1) 0 next_pot (copy_nodes (next_pot * 2 - 1) hashes)

  -- BuildMerkleTreeStore, of the transactions' hashes
  unfoldable pub build_merkle_tree_store : List Bytes → List Node
  build_merkle_tree_store [] = []
  build_merkle_tree_store (h ∷ hashes) =
      filled (next_power_of_two (length (h ∷ hashes))) (h ∷ hashes)

  -- BuildMerkleTreeOfHashs
  unfoldable pub build_merkle_tree_of_hashes : List Bytes → List Node
  build_merkle_tree_of_hashes hashes = filled (next_power_of_two max_shard_number) hashes

  -- VerifyMerkleRootOfHashs; reading a root that is nil panics.
  unfoldable pub verify_merkle_root_of_hashes : List Bytes → Bytes → Outcome Bool
  verify_merkle_root_of_hashes hashes root = elim (last_node (build_merkle_tree_of_hashes hashes)) [
    | none ↦ panic
    | some computed ↦ done (bytes_eq computed root)
  ]

  -- CalcMerkleRoot; `common.Hash{}` is 32 zeros.
  unfoldable pub calc_merkle_root : List Bytes → Outcome Bytes
  calc_merkle_root [] = done (zero_hash 32)
  calc_merkle_root (h ∷ hashes) = elim (last_node (build_merkle_tree_store (h ∷ hashes))) [
    | none ↦ panic
    | some root ↦ done root
  ]
