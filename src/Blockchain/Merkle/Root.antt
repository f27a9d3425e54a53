-- ===== src/Blockchain/Merkle/Root.antt =====
-- The roots of the Merkle trees.
use cash_prototype.Base.{
  ℕ, zero, suc, ◌+◌, ◌-◌, ◌*◌, ◌≤◌, ◌<◌, ◌≡◌, refl, sym, ap, ◌∙◌, inl, inr, false, none, some, List,
  [], ◌∷◌, ◌++◌, map, append_assoc, arith, leb, ◌==◌, Bool-cases, length, done, length-append,
}
use cash_prototype.Common.Bytes.{Bytes}
use cash_prototype.Blockchain.Merkle.{
  Node, set, blanks, last_node, copy_nodes, power_from, next_power_of_two, parent,
  hash_merkle_branches, fill_parents, filled, build_merkle_tree_store, build_merkle_tree_of_hashes,
  calc_merkle_root,
}
use cash_prototype.Blockchain.Merkle.Rounds.{
  two_to, two_to_pos, pairs, tree, length-pairs, fill_parents-reduce, reduce-tree,
}

-- With enough doublings the power is the first that is not below the number.
power_from_two :
    (fuel n j : ℕ)
    → n < two_to j + fuel
    → two_to j < n + n
    → (k : ℕ) × (power_from fuel n (two_to j) ≡ two_to k) × (n ≤ two_to k) × (two_to k < n + n)
unfolding power_from
power_from_two zero n j enough low = (j, refl, omega arith, low)
power_from_two (suc fuel) n j enough low = elim (Bool-cases (leb n (two_to j))) [
  | inl reached ↦ (j, rw reached refl, ground arith, low)
  | inr more ↦
      let (k, e, le, lt) =
        power_from_two fuel n (suc j) (omega (arith, two_to_pos j)) (ground arith) in
      (k, rw more e, le, lt)
]

pub next_power_of_two-two_to :
    (n : ℕ)
    → 0 < n
    → (k : ℕ) × (next_power_of_two n ≡ two_to k) × (n ≤ two_to k) × (two_to k < n + n)
unfolding next_power_of_two
next_power_of_two-two_to n pos =
    let (k, e, le, lt) = power_from_two n n 0 (omega arith) (omega arith) in
    let other : (n == 0) ≡ false = ground arith in (k, rw other e, le, lt)

blanks-append : (m n : ℕ) → blanks (m + n) ≡ blanks m ++ blanks n
unfolding blanks
blanks-append zero n = let e : 0 + n ≡ n = omega arith in rw e refl
blanks-append (suc m) n =
    let e : suc m + n ≡ suc (m + n) = omega arith in rw e (ap (λ r. none ∷ r) (blanks-append m n))

length-blanks : (n : ℕ) → length (blanks n) ≡ n
unfolding blanks
length-blanks zero = refl
length-blanks (suc n) = omega (arith, length-blanks n)

copy_nodes-nil : (n : ℕ) → copy_nodes n [] ≡ blanks n
unfolding copy_nodes blanks
copy_nodes-nil zero = refl
copy_nodes-nil (suc n) = ap (λ r. none ∷ r) (copy_nodes-nil n)

-- The hashes at the front of an array, and nothing behind them.
copy_nodes-map :
    (size : ℕ) (hashes : List Bytes)
    → length hashes ≤ size
    → copy_nodes size hashes ≡ map some hashes ++ blanks (size - length hashes)
unfolding copy_nodes blanks
copy_nodes-map size [] le = copy_nodes-nil size ∙ ap blanks (omega arith)
copy_nodes-map zero (h ∷ hashes) le = absurd (omega arith)
copy_nodes-map (suc n) (h ∷ hashes) le =
    let e : suc n - suc (length hashes) ≡ n - length hashes = omega arith in
    rw e (ap (λ r. some h ∷ r) (copy_nodes-map n hashes (omega arith)))

length-map-some : (hashes : List Bytes) → length (map {B = Node} some hashes) ≡ length hashes
length-map-some [] = refl
length-map-some (h ∷ hashes) = omega (arith, length-map-some hashes)

-- The leaves of a tree: the hashes, filled up with missing ones.
pub leaves : ℕ → List Bytes → List Node
leaves k hashes = map some hashes ++ blanks (two_to k - length hashes)

length-leaves :
    (k : ℕ) (hashes : List Bytes) → length hashes ≤ two_to k → length (leaves k hashes) ≡ two_to k
unfolding leaves
length-leaves k hashes le = omega (
  arith,
  length-blanks (two_to k - length hashes),
  length-append (map {B = Node} some hashes) (blanks (two_to k - length hashes)),
  length-map-some hashes,
)

module _ (double_hash : Bytes → Bytes) where
  -- A root is there when the first leaf is.
  tree_there :
      (k : ℕ) (h : Bytes) (q : List Node)
      → length q + 1 ≡ two_to k
      → (root : Bytes) × (tree double_hash k (some h ∷ q) ≡ some root)
  unfolding tree pairs parent
  tree_there zero h [] size = (h, refl)
  tree_there zero h (x ∷ q) size = absurd (omega arith)
  tree_there (suc k) h [] size = absurd (omega (arith, two_to_pos k))
  tree_there (suc k) h (none ∷ q) size =
      tree_there k (hash_merkle_branches double_hash h h) (pairs double_hash q) (
        omega (
          arith,
          two_to_pos k,
          length-pairs double_hash (two_to k - 1) q (omega (arith, two_to_pos k)),
        ))
  tree_there (suc k) h (some g ∷ q) size =
      tree_there k (hash_merkle_branches double_hash h g) (pairs double_hash q) (
        omega (
          arith,
          two_to_pos k,
          length-pairs double_hash (two_to k - 1) q (omega (arith, two_to_pos k)),
        ))

  filled-tree :
      (k : ℕ) (hashes : List Bytes)
      → length hashes ≤ two_to k
      → last_node (filled double_hash (two_to k) hashes) ≡ tree double_hash k (leaves k hashes)
  unfolding filled leaves
  filled-tree k hashes le =
      let n = length hashes in
      let rounds = two_to k - 1 in
      let some_left = two_to_pos k in
      let full = length-leaves k hashes le in
      let behind : two_to k * 2 - 1 - n ≡ two_to k - n + rounds = omega arith in
      let array : copy_nodes (two_to k * 2 - 1) hashes ≡ leaves k hashes ++ blanks rounds =
        copy_nodes-map (two_to k * 2 - 1) hashes (omega arith)
        ∙ ap (λ r. map some hashes ++ r) (ap blanks behind ∙ blanks-append (two_to k - n) rounds)
        ∙ sym (append_assoc (map some hashes) (blanks (two_to k - n)) (blanks rounds)) in
      ap (λ r. last_node (fill_parents double_hash rounds 0 (two_to k) r)) array
      ∙ fill_parents-reduce double_hash rounds [] (leaves k hashes) 0 (two_to k) refl
          (omega (arith, full)) (omega (arith, full))
      ∙ reduce-tree double_hash k rounds (leaves k hashes) (omega arith) full

  -- CalcMerkleRoot of some transactions does not panic, and is the root of the tree whose leaves are
  -- their hashes, filled up with missing ones to the next power of two, in which each level pairs
  -- up the neighbours of the one below it.
  pub calc_merkle_root-tree :
      (h : Bytes) (hashes : List Bytes)
      → (root : Bytes) × (k : ℕ) × (calc_merkle_root double_hash (h ∷ hashes) ≡ done root)
        × (length (h ∷ hashes) ≤ two_to k)
        × (two_to k < 2 * length (h ∷ hashes))
        × (tree double_hash k (leaves k (h ∷ hashes)) ≡ some root)
  unfolding calc_merkle_root build_merkle_tree_store leaves
  calc_merkle_root-tree h hashes =
      let n = length (h ∷ hashes) in
      let (k, e, le, lt) = next_power_of_two-two_to n (omega arith) in
      let (root, there) =
        tree_there k h (map some hashes ++ blanks (two_to k - n))
          (omega (arith, length-leaves k (h ∷ hashes) le)) in
      let last : last_node (filled double_hash (next_power_of_two n) (h ∷ hashes)) ≡ some root =
        ap (λ p. last_node (filled double_hash p (h ∷ hashes))) e
        ∙ filled-tree k (h ∷ hashes) le
        ∙ there in
      (root, k, rw (last, calc_merkle_root) refl, le, omega arith, there)

  -- The root that BuildMerkleTreeOfHashs makes of more than three hashes is that of the first four:
  -- the others do not count.
  pub build_merkle_tree_of_hashes-four :
      (a b c d : Bytes) (rest : List Bytes)
      → last_node (build_merkle_tree_of_hashes double_hash (a ∷ b ∷ c ∷ d ∷ rest))
        ≡ some (
            hash_merkle_branches double_hash
              (hash_merkle_branches double_hash a b)
              (hash_merkle_branches double_hash c d))
  unfolding build_merkle_tree_of_hashes filled copy_nodes fill_parents set parent next_power_of_two
      power_from
  build_merkle_tree_of_hashes-four a b c d [] = refl
  build_merkle_tree_of_hashes-four a b c d (e ∷ []) = refl
  build_merkle_tree_of_hashes-four a b c d (e ∷ f ∷ []) = refl
  build_merkle_tree_of_hashes-four a b c d (e ∷ f ∷ g ∷ rest) = refl
