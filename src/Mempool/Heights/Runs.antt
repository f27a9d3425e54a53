-- ===== src/Mempool/Heights/Runs.antt =====
-- The run of valid blocks at the head of a pool, and how far `advance` follows it.
use cash_prototype.Base.{
  ltb, leb, Bool-cases, inl, inr, map, ℕ, zero, suc, ◌+◌, ◌-◌, ◌<◌, ◌≤◌, ◌≡◌, ◌⊎◌, inl, inr, refl,
  List, [], ◌∷◌, map, arith, u64_mod,
}
use cash_prototype.Mempool.Heights.{
  Block, height, advance, insert, Above, Lacks, take_up_to, drop_up_to, last, drop_last,
}

-- The `k` heights from `n` on.
abbrev pub up_from : ℕ → ℕ → List ℕ
up_from n zero = []
up_from n (suc k) = n ∷ up_from (suc n) k

module _ {A : Type 0} ⦃b : Block A⦄ where
  -- After a block of height `n` the heights go up by one as far as `l`; the others are above `l`.
  abbrev pub Chain : ℕ → ℕ → List A → Type 0
  Chain n l [] = n ≡ l
  Chain n l (x ∷ xs) = ((height x ≡ n + 1) × Chain (height x) l xs) ⊎ ((n ≡ l) × (n < height x))

  -- A pool whose valid blocks run up to `l`.
  abbrev pub RunsTo : ℕ → List A → Type 0
  RunsTo l [] = Unit {0}
  RunsTo l (x ∷ xs) = ((height x ≤ l) × Chain (height x) l xs) ⊎ (l < height x)

  pub Chain-le : (n l : ℕ) (xs : List A) → Chain n l xs → n ≤ l
  Chain-le n l [] c = omega arith
  Chain-le n l (x ∷ xs) c = ground (arith, Chain-le (height x) l xs)

  pub advance-Chain : (n : ℕ) (xs : List A) → n < u64_mod → Above n xs → Chain n (advance n xs) xs
  unfolding advance
  advance-Chain n [] lt a = refl
  advance-Chain n (x ∷ xs) lt a = ground (arith, advance-Chain (height x) xs)

  pub le-advance : (n : ℕ) (xs : List A) → n < u64_mod → Above n xs → n ≤ advance n xs
  le-advance n xs lt a = Chain-le n (advance n xs) xs (advance-Chain n xs lt a)

  pub advance-RunsTo : (n l : ℕ) (xs : List A) → l < u64_mod → Above n xs → RunsTo (advance l xs) xs
  unfolding advance
  advance-RunsTo n l [] lt a = tt
  advance-RunsTo n l (x ∷ xs) lt a =
      ground (arith, advance-Chain (height x) xs, le-advance (height x) xs)

  pub Above-Lacks : (h n : ℕ) (xs : List A) → h ≤ n → Above n xs → Lacks h xs
  Above-Lacks h n [] le a = tt
  Above-Lacks h n (x ∷ xs) le a = (omega arith, Above-Lacks h (height x) xs (omega arith) a.2)

  -- Where the update stops, the next block is missing.
  pub advance-Lacks :
      (n l : ℕ) (xs : List A) → l < u64_mod → Above n xs → Lacks (advance l xs + 1) xs
  unfolding advance
  advance-Lacks n l [] lt a = tt
  advance-Lacks n l (x ∷ xs) lt a = ground (
    arith,
    advance-Lacks (height x) (height x) xs,
    le-advance (height x) xs,
    Above-Lacks (l + 1) (height x) xs,
  )

  -- The heights stay uint64 values.
  pub advance-lt : (n l : ℕ) (xs : List A) → l < u64_mod → Above n xs → advance l xs < u64_mod
  unfolding advance
  advance-lt n l [] lt a = lt
  advance-lt n l (x ∷ xs) lt a = ground (arith, advance-lt (height x) (height x) xs)

  advance-insert_le :
      (n : ℕ) (x : A) (xs : List A)
      → n < height x
      → height x < u64_mod
      → Above n xs
      → n ≤ advance n (insert x xs)
  unfolding insert advance
  advance-insert_le n x [] lt bound a = ground arith
  advance-insert_le n x (y ∷ ys) lt bound a = elim (Bool-cases (ltb (height y) (height x))) [
    | inl e ↦ rw e (ground (arith, advance-insert_le (height y) x ys))
    | inr e ↦ rw e (ground (arith, le-advance (height y) ys))
  ]

  -- A new block above the run lets it grow only.
  Chain-insert_le :
      (n l : ℕ) (x : A) (xs : List A)
      → l < height x
      → height x < u64_mod
      → Above n xs
      → Chain n l xs
      → l ≤ advance n (insert x xs)
  unfolding insert advance
  Chain-insert_le n l x [] lt bound a c = ground arith
  Chain-insert_le n l x (y ∷ ys) lt bound a c = elim (Bool-cases (ltb (height y) (height x))) [
    | inl e ↦
        rw e (ground (arith, Chain-insert_le (height y) l x ys, advance-insert_le (height y) x ys))
    | inr e ↦ rw e (ground (arith, Chain-le (height y) l ys, le-advance (height y) ys))
  ]

  pub RunsTo-insert_le :
      (n l : ℕ) (x : A) (xs : List A)
      → l < height x
      → height x < u64_mod
      → Above n xs
      → RunsTo l xs
      → l ≤ advance l (insert x xs)
  unfolding insert advance
  RunsTo-insert_le n l x [] lt bound a r = ground arith
  RunsTo-insert_le n l x (y ∷ ys) lt bound a r = elim (Bool-cases (ltb (height y) (height x))) [
    | inl e ↦
        rw e (ground (arith, Chain-insert_le (height y) l x ys, advance-insert_le (height y) x ys))
    | inr e ↦ rw e (ground (arith, le-advance (height y) ys, le-advance (height x) (y ∷ ys)))
  ]

  Chain-insert :
      (n l : ℕ) (x : A) (xs : List A) → l < height x → Chain n l xs → Chain n l (insert x xs)
  unfolding insert
  Chain-insert n l x [] lt c = ground arith
  Chain-insert n l x (y ∷ ys) lt c =
      ground (arith, Chain-insert (height y) l x ys, Chain-le (height y) l ys)

  pub insert-RunsTo :
      (l : ℕ) (x : A) (xs : List A) → l < height x → RunsTo l xs → RunsTo l (insert x xs)
  unfolding insert
  insert-RunsTo l x [] lt r = inr lt
  insert-RunsTo l x (y ∷ ys) lt r = ground (arith, Chain-insert (height y) l x ys)

  -- The blocks up to `l` have consecutive heights, and the last of them is at `l`.
  take_up_to-Chain :
      (k n l : ℕ) (xs : List A)
      → l ≡ n + k
      → Chain n l xs
      → map height (take_up_to l xs) ≡ up_from (suc n) k
  unfolding take_up_to
  take_up_to-Chain zero n l [] e c = refl
  take_up_to-Chain (suc k) n l [] e c = absurd (omega arith)
  take_up_to-Chain zero n l (x ∷ xs) e c = ground (arith, Chain-le (height x) l xs)
  take_up_to-Chain (suc k) n l (x ∷ xs) e c =
      ground (arith, take_up_to-Chain k (height x) l xs, take_up_to-Chain k (suc n) l xs)

  drop_up_to-Above_le : (h n l : ℕ) (xs : List A) → l ≤ n → Above n xs → RunsTo l (drop_up_to h xs)
  unfolding drop_up_to
  drop_up_to-Above_le h n l [] le a = tt
  drop_up_to-Above_le h n l (x ∷ xs) le a = elim (Bool-cases (leb (height x) h)) [
    | inl e ↦ rw e (drop_up_to-Above_le h (height x) l xs (omega arith) a.2)
    | inr e ↦ rw e (inr (omega arith))
  ]

  drop_up_to-Chain :
      (h n l : ℕ) (xs : List A) → Above n xs → Chain n l xs → RunsTo l (drop_up_to h xs)
  unfolding drop_up_to
  drop_up_to-Chain h n l [] a c = tt
  drop_up_to-Chain h n l (x ∷ xs) a (inl c) = elim (Bool-cases (leb (height x) h)) [
    | inl e ↦ rw e (drop_up_to-Chain h (height x) l xs a.2 c.1)
    | inr e ↦ rw e (inl (Chain-le (height x) l xs c.1, c.1))
  ]
  drop_up_to-Chain h n l (x ∷ xs) a (inr c) = elim (Bool-cases (leb (height x) h)) [
    | inl e ↦ rw e (drop_up_to-Above_le h (height x) l xs (omega arith) a.2)
    | inr e ↦ rw e (inr (omega arith))
  ]

  -- Removing blocks leaves a run.
  pub drop_up_to-RunsTo :
      (h n l : ℕ) (xs : List A) → Above n xs → RunsTo l xs → RunsTo l (drop_up_to h xs)
  unfolding drop_up_to
  drop_up_to-RunsTo h n l [] a r = tt
  drop_up_to-RunsTo h n l (x ∷ xs) a r = elim (Bool-cases (leb (height x) h)) [
    | inl e ↦ rw e (go r)
    | inr e ↦ rw e r
  ]
    where
      go : RunsTo l (x ∷ xs) → RunsTo l (drop_up_to h xs)
      go (inl c) = drop_up_to-Chain h (height x) l xs a.2 c.1
      go (inr lt) = drop_up_to-Above_le h (height x) l xs (omega arith) a.2

  -- The valid blocks have consecutive heights, the last of which is `l`.
  pub take_up_to-RunsTo :
      (l : ℕ) (xs : List A)
      → RunsTo l xs
      → (k : ℕ) × (k ≤ l + 1) × (map height (take_up_to l xs) ≡ up_from (l + 1 - k) k)
  unfolding take_up_to
  take_up_to-RunsTo l [] r = (0, omega arith, refl)
  take_up_to-RunsTo l (x ∷ xs) (inl c) =
      let from : l + 1 - suc (l - height x) ≡ height x = omega arith in
      let rest = take_up_to-Chain (l - height x) (height x) l xs (omega arith) c.1 in
      (suc (l - height x), omega arith, ground (arith, from, rest))
  take_up_to-RunsTo l (x ∷ xs) (inr lt) = (0, omega arith, ground arith)

  drop_last-Chain :
      (n l : ℕ) (x : A) (xs : List A)
      → l < height (last x xs)
      → Chain n l (x ∷ xs)
      → Chain n l (drop_last x xs)
  unfolding drop_last last
  drop_last-Chain n l x [] lt c = ground arith
  drop_last-Chain n l x (y ∷ ys) lt c = ground (arith, drop_last-Chain (height x) l y ys)

  pub drop_last-RunsTo :
      (l : ℕ) (x : A) (xs : List A)
      → l < height (last x xs)
      → RunsTo l (x ∷ xs)
      → RunsTo l (drop_last x xs)
  unfolding drop_last last
  drop_last-RunsTo l x [] lt r = tt
  drop_last-RunsTo l x (y ∷ ys) lt r = ground (arith, drop_last-Chain (height x) l y ys)

  advance-Chain_fix :
      (n l : ℕ) (xs : List A)
      → l < u64_mod
      → Above n xs
      → Chain n l xs
      → Lacks (l + 1) xs
      → advance n xs ≡ l
  unfolding advance
  advance-Chain_fix n l [] lt a c m = c
  advance-Chain_fix n l (x ∷ xs) lt a c m = ground (arith, advance-Chain_fix (height x) l xs)

  -- An update that finds nothing new changes nothing.
  pub advance_fix :
      (n l : ℕ) (xs : List A)
      → l < u64_mod
      → Above n xs
      → RunsTo l xs
      → Lacks (l + 1) xs
      → advance l xs ≡ l
  unfolding advance
  advance_fix n l [] lt a r m = refl
  advance_fix n l (x ∷ xs) lt a r m = ground (arith, advance-Chain_fix (height x) l xs)

  pub advance-pos : (l : ℕ) (xs : List A) → 0 < l → l < u64_mod → Above 0 xs → 0 < advance l xs
  unfolding advance
  advance-pos l [] pos lt a = pos
  advance-pos l (x ∷ xs) pos lt a = ground (arith, le-advance (height x) xs)
