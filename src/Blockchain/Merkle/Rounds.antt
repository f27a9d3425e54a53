-- ===== src/Blockchain/Merkle/Rounds.antt =====
-- The rounds that fill a Merkle tree's array: they take two nodes from the front of a queue and put
-- their parent at its end.
use cash_prototype.Base.{
  ℕ, zero, suc, ◌+◌, ◌-◌, ◌<◌, ◌≡◌, refl, sym, ap, ◌∙◌, none, List, [], ◌∷◌, ◌++◌, append_assoc,
  arith, length, length-append,
}
use mathlib.Core.List.{append-nil}
use cash_prototype.Common.Bytes.{Bytes}
use cash_prototype.Blockchain.Merkle.{Node, node_at, set, blanks, last_node, parent, fill_parents}

node_at-append : (xs ys : List Node) (y : Node) → node_at (xs ++ y ∷ ys) (length xs) ≡ y
node_at-append [] ys y = refl
node_at-append (x ∷ xs) ys y = node_at-append xs ys y

set-append : (xs ys : List Node) (y v : Node) → set (xs ++ y ∷ ys) (length xs) v ≡ xs ++ v ∷ ys
unfolding set
set-append [] ys y v = refl
set-append (x ∷ xs) ys y v = ap (λ r. x ∷ r) (set-append xs ys y v)

node_at_place :
    (arr xs ys : List Node) (y : Node) (i : ℕ)
    → arr ≡ xs ++ y ∷ ys
    → i ≡ length xs
    → node_at arr i ≡ y
node_at_place arr xs ys y i e ei = rw (e, ei) (node_at-append xs ys y)

set_place :
    (arr xs ys : List Node) (y v : Node) (i : ℕ)
    → arr ≡ xs ++ y ∷ ys
    → i ≡ length xs
    → set arr i v ≡ xs ++ v ∷ ys
set_place arr xs ys y v i e ei = rw (e, ei) (set-append xs ys y v)

last_node-append :
    (xs : List Node) (y : Node) (ys : List Node) → last_node (xs ++ y ∷ ys) ≡ last_node (y ∷ ys)
last_node-append [] y ys = refl
last_node-append (x ∷ []) y ys = refl
last_node-append (x ∷ z ∷ xs) y ys = last_node-append (z ∷ xs) y ys

-- A power of two.
abbrev pub two_to : ℕ → ℕ
two_to zero = 1
two_to (suc k) = two_to k + two_to k

pub two_to_pos : (k : ℕ) → 0 < two_to k
two_to_pos zero = omega arith
two_to_pos (suc k) = omega (arith, two_to_pos k)

module _ (double_hash : Bytes → Bytes) where
  abbrev pub up : Node → Node → Node
  up = parent double_hash

  -- What is left when that many rounds have gone over the queue.
  pub reduce : ℕ → List Node → Node
  reduce zero q = last_node q
  reduce (suc rounds) [] = none
  reduce (suc rounds) (a ∷ []) = none
  reduce (suc rounds) (a ∷ b ∷ q) = reduce rounds (q ++ up a b ∷ [])

  -- The next level: the parents of each two neighbours.
  unfoldable pub pairs : List Node → List Node
  pairs [] = []
  pairs (a ∷ []) = []
  pairs (a ∷ b ∷ q) = up a b ∷ pairs q

  -- The root of a tree of the given depth, level by level.
  unfoldable pub tree : ℕ → List Node → Node
  unfolding pairs
  tree zero q = last_node q
  tree (suc k) q = tree k (pairs q)

  one_round :
      (front q bl : List Node) (a b : Node) (i offset : ℕ)
      → i ≡ length front
      → offset ≡ length front + 2 + length q
      → set (front ++ (a ∷ b ∷ (q ++ none ∷ bl))) offset (
          up
            (node_at (front ++ (a ∷ b ∷ (q ++ none ∷ bl))) i)
            (node_at (front ++ (a ∷ b ∷ (q ++ none ∷ bl))) (i + 1)))
        ≡ (front ++ a ∷ b ∷ []) ++ ((q ++ up a b ∷ []) ++ bl)
  one_round front q bl a b i offset ei eo =
      let arr = front ++ (a ∷ b ∷ (q ++ none ∷ bl)) in
      let left = node_at_place arr front (b ∷ (q ++ none ∷ bl)) a i refl ei in
      let right =
        node_at_place arr (front ++ a ∷ []) (q ++ none ∷ bl) b (i + 1) (simp append_assoc)
          (omega (arith, length-append front (a ∷ []))) in
      let at_end =
        set_place arr (front ++ a ∷ b ∷ q) bl none (up a b) offset (simp append_assoc)
          (omega (arith, length-append front (a ∷ b ∷ q))) in
      rw (left, right) (at_end ∙ simp append_assoc)

  pub fill_parents-reduce :
      (rounds : ℕ) (front q : List Node) (i offset : ℕ)
      → i ≡ length front
      → offset ≡ length front + length q
      → length q ≡ rounds + 1
      → last_node (fill_parents double_hash rounds i offset (front ++ (q ++ blanks rounds)))
        ≡ reduce rounds q
  unfolding fill_parents reduce blanks
  fill_parents-reduce zero front [] i offset ei eo size = absurd (omega arith)
  fill_parents-reduce zero front (x ∷ []) i offset ei eo size = last_node-append front x []
  fill_parents-reduce zero front (x ∷ y ∷ q) i offset ei eo size = absurd (omega arith)
  fill_parents-reduce (suc rounds) front [] i offset ei eo size = absurd (omega arith)
  fill_parents-reduce (suc rounds) front (a ∷ []) i offset ei eo size = absurd (omega arith)
  fill_parents-reduce (suc rounds) front (a ∷ b ∷ q) i offset ei eo size =
      rw (one_round front q (blanks rounds) a b i offset ei (omega arith)) (
        fill_parents-reduce rounds (front ++ a ∷ b ∷ []) (q ++ up a b ∷ []) (i + 2) (offset + 1)
          (omega (arith, length-append front (a ∷ b ∷ [])))
          (omega (arith, length-append front (a ∷ b ∷ []), length-append q (up a b ∷ [])))
          (omega (arith, length-append q (up a b ∷ []))))

  reduce-level :
      (n rounds : ℕ) (ys zs : List Node)
      → length ys ≡ n + n
      → reduce (n + rounds) (ys ++ zs) ≡ reduce rounds (zs ++ pairs ys)
  unfolding reduce pairs
  reduce-level zero rounds [] zs size =
      let same : 0 + rounds ≡ rounds = omega arith in rw (same, append-nil zs) refl
  reduce-level zero rounds (a ∷ ys) zs size = absurd (omega arith)
  reduce-level (suc n) rounds [] zs size = absurd (omega arith)
  reduce-level (suc n) rounds (a ∷ []) zs size = absurd (omega arith)
  reduce-level (suc n) rounds (a ∷ b ∷ ys) zs size =
      let count : suc n + rounds ≡ suc (n + rounds) = omega arith in
      rw count (
        ap (reduce (n + rounds)) (append_assoc ys zs (up a b ∷ []))
        ∙ reduce-level n rounds ys (zs ++ up a b ∷ []) (omega arith)
        ∙ ap (reduce rounds) (append_assoc zs (up a b ∷ []) (pairs ys)))

  pub length-pairs : (n : ℕ) (q : List Node) → length q ≡ n + n → length (pairs q) ≡ n
  unfolding pairs
  length-pairs zero [] size = refl
  length-pairs zero (a ∷ q) size = absurd (omega arith)
  length-pairs (suc n) [] size = absurd (omega arith)
  length-pairs (suc n) (a ∷ []) size = absurd (omega arith)
  length-pairs (suc n) (a ∷ b ∷ q) size = omega (arith, length-pairs n q)

  pub reduce-tree :
      (k rounds : ℕ) (q : List Node)
      → rounds + 1 ≡ two_to k
      → length q ≡ two_to k
      → reduce rounds q ≡ tree k q
  unfolding reduce tree
  reduce-tree zero rounds q er size = let none_left : rounds ≡ 0 = omega arith in rw none_left refl
  reduce-tree (suc k) rounds q er size =
      let some_left = two_to_pos k in
      let count : rounds ≡ two_to k + (two_to k - 1) = omega arith in
      rw count (
        ap (reduce (two_to k + (two_to k - 1))) (sym (append-nil q))
        ∙ reduce-level (two_to k) (two_to k - 1) q [] size
        ∙ reduce-tree k (two_to k - 1) (pairs q) (omega arith) (length-pairs (two_to k) q size))
