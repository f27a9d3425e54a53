-- ===== src/Mempool/Heights/Room.antt =====
-- The capacity check: what it leaves of the pool, and what it bounds.
use cash_prototype.Base.{
  All, ℕ, suc, ◌-◌, ◌<◌, ◌≤◌, ◌≡◌, ◌⊎◌, inl, inr, ap, refl, List, [], ◌∷◌, arith, length, ok, ◌+◌,
  err,
}
use cash_prototype.Mempool.Heights.{
  Block, height, make_room, Above, Lacks, last, drop_last, PoolError, exceed_valid, exceed_invalid,
}
use cash_prototype.Mempool.Heights.Sorting.{drop_last-Above, drop_last-Lacks}
use cash_prototype.Mempool.Heights.Runs.{RunsTo, Chain, drop_last-RunsTo}

module _ {A : Type 0} ⦃b : Block A⦄ where
  -- The pool stays, or loses its last block, which stood above `h`.
  abbrev pub Leaves : ℕ → List A → List A → Type 0
  Leaves h [] ys = ys ≡ []
  Leaves h (x ∷ rest) ys = (ys ≡ x ∷ rest) ⊎ ((ys ≡ drop_last x rest) × (h < height (last x rest)))

  pub make_room-Leaves :
      (mv mi l h : ℕ) (xs : List A) {ys : List A} → make_room mv mi l h xs ≡ ok ys → Leaves h xs ys
  unfolding make_room
  make_room-Leaves mv mi l h [] e = ground arith
  make_room-Leaves mv mi l h (x ∷ rest) e = ground arith

  pub Leaves-Above : (h n : ℕ) (xs ys : List A) → Leaves h xs ys → Above n xs → Above n ys
  Leaves-Above h n [] ys e a = rw e tt
  Leaves-Above h n (x ∷ rest) ys (inl e) a = rw e a
  Leaves-Above h n (x ∷ rest) ys (inr e) a = rw (e.0) (drop_last-Above n x rest a)

  pub Leaves-Lacks : (h : ℕ) (xs ys : List A) → Leaves h xs ys → Lacks h xs → Lacks h ys
  Leaves-Lacks h [] ys e a = rw e tt
  Leaves-Lacks h (x ∷ rest) ys (inl e) a = rw e a
  Leaves-Lacks h (x ∷ rest) ys (inr e) a = rw (e.0) (drop_last-Lacks h x rest a)

  pub Leaves-RunsTo :
      (h l : ℕ) (xs ys : List A) → Leaves h xs ys → l < h → RunsTo l xs → RunsTo l ys
  Leaves-RunsTo h l [] ys e lt a = rw e tt
  Leaves-RunsTo h l (x ∷ rest) ys (inl e) lt a = rw e a
  Leaves-RunsTo h l (x ∷ rest) ys (inr e) lt a =
      rw (e.0) (drop_last-RunsTo l x rest (omega arith) a)

  length-drop_last : (x : A) (xs : List A) → length (drop_last x xs) ≡ length xs
  unfolding drop_last
  length-drop_last x [] = refl
  length-drop_last x (y ∷ ys) = ap suc (length-drop_last y ys)

  Chain-length : (n l : ℕ) (xs : List A) → Chain n l xs → l - n ≤ length xs
  Chain-length n l [] c = omega arith
  Chain-length n l (x ∷ xs) c = ground (arith, Chain-length (height x) l xs)

  -- With heights below 2^62 a pool of at most 1201 blocks has at most 1200 after the check.
  pub make_room-length :
      (l h : ℕ) (xs : List A) {ys : List A}
      → make_room 1000 200 l h xs ≡ ok ys
      → RunsTo l xs
      → All (λ x. height x < 0x4000000000000000) xs
      → l < 0x4000000000000000
      → length xs ≤ 1201
      → length ys ≤ 1200
  unfolding make_room
  make_room-length l h [] e r a lb s = ground arith
  make_room-length l h (x ∷ rest) e r a lb s =
      ground (arith, Chain-length (height x) l rest, length-drop_last x rest)

  -- The check fails with its own two errors only.
  pub make_room-errors :
      (mv mi l h : ℕ) (xs : List A) (e : PoolError)
      → make_room mv mi l h xs ≡ err e
      → (e ≡ exceed_valid) ⊎ (e ≡ exceed_invalid)
  unfolding make_room
  make_room-errors mv mi l h [] e eq = cc
  make_room-errors mv mi l h (x ∷ rest) e eq = ground arith

  -- The distance from the valid blocks to the first pending one counts like pending blocks.
  pub make_room-gap :
      (l h : ℕ) (x : A) (rest : List A)
      → l + 200 < height x
      → height x < 0x4000000000000000
      → length rest < 0x100000000
      → height (last x rest) ≤ h
      → make_room 1000 200 l h (x ∷ rest) ≡ err exceed_invalid
  unfolding make_room
  make_room-gap l h x rest far small short lower = ground arith
