-- ===== src/Mempool/Heights/Adding.antt =====
-- A block that passed the checks is appended to what the capacity check left, and the pool is sorted.

use cash_prototype.Base.{ℕ, ◌+◌, ◌≤◌, ◌<◌, ◌≡◌, ◌∙◌, ap, List, [], ◌∷◌, ◌++◌, Perm, length, u64_mod}
use cash_prototype.Mempool.Heights.{Block, height, sort, insert, Above, Lacks, advance}
use cash_prototype.Mempool.Heights.Sorting.{insert-perm, length-insert, insert-Above, sort-append}
use cash_prototype.Mempool.Heights.Runs.{RunsTo, RunsTo-insert_le, insert-RunsTo}
use cash_prototype.Mempool.Heights.Room.{Leaves, Leaves-Above, Leaves-Lacks, Leaves-RunsTo}

module _ {A : Type 0} ⦃b : Block A⦄ (x : A) (xs kept : List A) (left : Leaves (height x) xs kept)
    (sorted : Above 0 xs) (absent : Lacks (height x) xs) (bound : height x < u64_mod) where
  pub added-eq-insert : sort (kept ++ x ∷ []) ≡ insert x kept
  added-eq-insert =
      sort-append 0 kept x bound (Leaves-Above (height x) 0 xs kept left sorted)
        (Leaves-Lacks (height x) xs kept left absent)

  pub added-Above : 0 < height x → Above 0 (sort (kept ++ x ∷ []))
  added-Above pos = rw added-eq-insert (
      insert-Above 0 x kept pos bound (Leaves-Above (height x) 0 xs kept left sorted)
        (Leaves-Lacks (height x) xs kept left absent))

  pub le-advance-added :
      (l : ℕ) → l < height x → RunsTo l xs → l ≤ advance l (sort (kept ++ x ∷ []))
  le-advance-added l lt r = rw added-eq-insert (
      RunsTo-insert_le 0 l x kept lt bound (Leaves-Above (height x) 0 xs kept left sorted)
        (Leaves-RunsTo (height x) l xs kept left lt r))

  pub added-RunsTo : (l : ℕ) → l < height x → RunsTo l xs → RunsTo l (sort (kept ++ x ∷ []))
  added-RunsTo l lt r =
      rw added-eq-insert (insert-RunsTo l x kept lt (Leaves-RunsTo (height x) l xs kept left lt r))

  pub added-perm : Perm (sort (kept ++ x ∷ [])) (x ∷ kept)
  added-perm = rw added-eq-insert (insert-perm x kept)

  pub length-added : length (sort (kept ++ x ∷ [])) ≡ length kept + 1
  length-added = ap length added-eq-insert ∙ length-insert x kept
