-- ===== src/Mempool/Heights/Sorting.antt =====
-- Sorting a pool by height: what an insertion adds, and that a sorted pool only takes the new block in.
use mathlib.Core.List.Perm
use cash_prototype.Base.{
  ◌≢◌, ℕ, ◌+◌, ◌<◌, ◌≤◌, ◌≡◌, ◌∙◌, ap, refl, false, List, [], ◌∷◌, ◌++◌, Perm, arith, ltb, ltb→lt,
  length, u64_mod, Bool-cases, inl, inr,
}
use cash_prototype.Mempool.Heights.{
  Block, height, insert, sort, has_height, Above, Lacks, drop_up_to, last, drop_last,
}

module _ {A : Type 0} ⦃b : Block A⦄ where
  pub insert-perm : (x : A) (xs : List A) → Perm (insert x xs) (x ∷ xs)
  unfolding insert
  insert-perm x [] = Perm.refl _
  insert-perm x (y ∷ ys) = elim (Bool-cases (ltb (height y) (height x))) [
    | inl e ↦ rw e (Perm.trans (Perm.cons y (insert-perm x ys)) (Perm.swap x y ys))
    | inr e ↦ rw e (Perm.refl _)
  ]

  pub length-insert : (x : A) (xs : List A) → length (insert x xs) ≡ length xs + 1
  unfolding insert
  length-insert x [] = omega arith
  length-insert x (y ∷ ys) = ground (arith, length-insert x ys)

  pub has_height-Lacks : (h : ℕ) (xs : List A) → has_height h xs ≡ false → Lacks h xs
  unfolding has_height
  has_height-Lacks h [] e = tt
  has_height-Lacks h (x ∷ xs) e = ground (arith, has_height-Lacks h xs)

  pub Above-mono : (m n : ℕ) (xs : List A) → m ≤ n → Above n xs → Above m xs
  Above-mono m n [] h a = tt
  Above-mono m n (x ∷ xs) h a = (omega arith, a.1, a.2)

  pub insert-Above :
      (n : ℕ) (x : A) (xs : List A)
      → n < height x
      → height x < u64_mod
      → Above n xs
      → Lacks (height x) xs
      → Above n (insert x xs)
  unfolding insert
  insert-Above n x [] lt bound a l = (lt, bound, tt)
  insert-Above n x (y ∷ ys) lt bound a l = ground (arith, insert-Above (height y) x ys)

  pub insert-Lacks :
      (h : ℕ) (x : A) (xs : List A) → height x ≢ h → Lacks h xs → Lacks h (insert x xs)
  unfolding insert
  insert-Lacks h x [] ne l = (ne, tt)
  insert-Lacks h x (y ∷ ys) ne l = ground (arith, insert-Lacks h x ys)

  insert-Above_le : (n : ℕ) (x : A) (xs : List A) → height x ≤ n → Above n xs → insert x xs ≡ x ∷ xs
  unfolding insert
  insert-Above_le n x [] le a = refl
  insert-Above_le n x (y ∷ ys) le a = ground arith

  pub insert_below :
      (x y : A) (ys : List A) → height x < height y → insert y (x ∷ ys) ≡ x ∷ insert y ys
  unfolding insert
  insert_below x y ys lt = ground arith

  insert_swap :
      (y : A) (ys : List A) (x : A)
      → height x < u64_mod
      → Above (height y) ys
      → Lacks (height x) (y ∷ ys)
      → insert y (insert x ys) ≡ insert x (y ∷ ys)
  unfolding insert
  insert_swap y ys x bound a l = elim (Bool-cases (ltb (height y) (height x))) [
    | inl e ↦ rw e (
        insert-Above_le (height y) y (insert x ys) (omega arith)
          (insert-Above (height y) x ys (ltb→lt _ _ e) bound a l.1))
    | inr e ↦
        let lt : height x < height y = ground arith in
        rw e (
          ap (insert y) (insert-Above_le (height y) x ys (omega arith) a)
          ∙ insert_below x y ys lt
          ∙ ap (◌∷◌ x) (insert-Above_le (height y) y ys (omega arith) a))
  ]

  -- Appending a block to a sorted pool and sorting puts it in its place.
  pub sort-append :
      (n : ℕ) (xs : List A) (x : A)
      → height x < u64_mod
      → Above n xs
      → Lacks (height x) xs
      → sort (xs ++ x ∷ []) ≡ insert x xs
  unfolding sort
  sort-append n [] x bound a l = refl
  sort-append n (y ∷ ys) x bound a l =
      rw (sort-append (height y) ys x bound a.2 l.1) (insert_swap y ys x bound a.2 l)

  -- The part of a sorted pool above a height.
  pub drop_up_to-Above : (h n : ℕ) (xs : List A) → Above n xs → Above h (drop_up_to h xs)
  unfolding drop_up_to
  drop_up_to-Above h n [] a = tt
  drop_up_to-Above h n (x ∷ xs) a = ground (arith, drop_up_to-Above h (height x) xs)

  pub Above-drop_up_to : (h n : ℕ) (xs : List A) → Above n xs → Above n (drop_up_to h xs)
  unfolding drop_up_to
  Above-drop_up_to h n [] a = tt
  Above-drop_up_to h n (x ∷ xs) a =
      ground (arith, Above-mono n (height x) xs, Above-drop_up_to h n xs)

  pub drop_up_to-Lacks : (h k : ℕ) (xs : List A) → Lacks k xs → Lacks k (drop_up_to h xs)
  unfolding drop_up_to
  drop_up_to-Lacks h k [] l = tt
  drop_up_to-Lacks h k (x ∷ xs) l = ground (arith, drop_up_to-Lacks h k xs)

  -- Without its last block a pool is as sorted as before.
  pub drop_last-Above : (n : ℕ) (x : A) (xs : List A) → Above n (x ∷ xs) → Above n (drop_last x xs)
  unfolding drop_last
  drop_last-Above n x [] a = tt
  drop_last-Above n x (y ∷ ys) a = (a.0, a.1, drop_last-Above (height x) y ys a.2)

  pub drop_last-Lacks : (h : ℕ) (x : A) (xs : List A) → Lacks h (x ∷ xs) → Lacks h (drop_last x xs)
  unfolding drop_last
  drop_last-Lacks h x [] l = tt
  drop_last-Lacks h x (y ∷ ys) l = (l.0, drop_last-Lacks h y ys l.1)

  pub drop_last-append : (x : A) (xs : List A) → drop_last x xs ++ last x xs ∷ [] ≡ x ∷ xs
  unfolding drop_last last
  drop_last-append x [] = refl
  drop_last-append x (y ∷ ys) = ap (◌∷◌ x) (drop_last-append y ys)
