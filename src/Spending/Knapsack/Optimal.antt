-- ===== src/Spending/Knapsack/Optimal.antt =====
-- Knapsack: the chosen coins fit, and no choice that fits has more.
use cash_prototype.Base.{
  ℕ, zero, suc, ◌+◌, ◌-◌, ◌≤◌, ◌<◌, max, ◌≡◌, refl, sym, ap, subst, ◌∙◌, ◌≢◌, Bool, true, false,
  ◌||◌, List, [], ◌∷◌, ◌++◌, arith, leb, ◌==◌, if◌then◌else◌, length, All, u64_mod, sub64,
  length-append,
}
use native.Mathlib.Decide.{ℕ_discrete}
use mathlib.Core.List.{reverse, reverse-append, reverse-reverse}
use cash_prototype.Spending.Knapsack.{
  at, cell, cells, zero_row, first_row, table, backtrack, rows_above, knapsack, chosen_sum,
  chosen_count,
}

-- The most coins of a sum of at most `w`, by recursion.
pub best : List ℕ → ℕ → ℕ
best [] w = 0
best (v ∷ vs) w =
    if w == 0 then 0 else if leb v w then max (1 + best vs (w - v)) (best vs w) else best vs w

zero_row-at : (n w : ℕ) → at (zero_row n) w ≡ 0
unfolding zero_row
zero_row-at zero w = refl
zero_row-at (suc n) zero = refl
zero_row-at (suc n) (suc w) = zero_row-at n w

length-zero_row : (n : ℕ) → length (zero_row n) ≡ n
unfolding zero_row
length-zero_row zero = refl
length-zero_row (suc n) = omega (arith, length-zero_row n)

length-cells :
    (v : ℕ) (prev : List ℕ) (w : ℕ) (ks : List ℕ) → length (cells v prev w ks) ≡ length ks
unfolding cells
length-cells v prev w [] = refl
length-cells v prev w (k ∷ ks) = omega (arith, length-cells v prev (w + 1) ks)

cells-at :
    (v : ℕ) (prev : List ℕ) (w : ℕ) (ks : List ℕ) (j : ℕ)
    → j < length ks
    → at (cells v prev w ks) j ≡ cell v prev (w + j) (at ks j)
unfolding cells
cells-at v prev w [] j lt = absurd (omega arith)
cells-at v prev w (k ∷ ks) zero lt = let e : w + 0 ≡ w = omega arith in rw e refl
cells-at v prev w (k ∷ ks) (suc j) lt =
    let e : w + suc j ≡ w + 1 + j = omega arith in rw e (cells-at v prev (w + 1) ks j (omega arith))

length-first_row : (vs : List ℕ) (target : ℕ) → length (first_row (table vs target)) ≡ target + 1
unfolding table
length-first_row [] target = length-zero_row (target + 1)
length-first_row (v ∷ vs) target =
    length-cells v (first_row (table vs target)) 0 (first_row (table vs target))
    ∙ length-first_row vs target

-- The table holds the recursive optimum.
table-best :
    (vs : List ℕ) (target w : ℕ) → w ≤ target → at (first_row (table vs target)) w ≡ best vs w
unfolding table best
table-best [] target w le = zero_row-at (target + 1) w
table-best (v ∷ vs) target w le =
    let row = first_row (table vs target) in
    let e : 0 + w ≡ w = omega arith in
    cells-at v row 0 row w (omega (arith, length-first_row vs target))
    ∙ rw (e, table-best vs target w le, table-best vs target (w - v) (omega arith)) refl

best-zero : (vs : List ℕ) → best vs 0 ≡ 0
unfolding best
best-zero [] = refl
best-zero (v ∷ vs) = refl

table-cons :
    (vs : List ℕ) (target : ℕ)
    → table vs target ≡ first_row (table vs target) ∷ rows_above (table vs target)
unfolding table
table-cons [] target = refl
table-cons (v ∷ vs) target = refl

best-nil : (w : ℕ) → best [] w ≡ 0
unfolding best
best-nil w = refl

best-le : (v : ℕ) (vs : List ℕ) (w : ℕ) → best vs w ≤ best (v ∷ vs) w
unfolding best
best-le v vs w = ground (arith, best-zero vs)

-- Where the last coin counts, it fits, and the others are chosen for what is left.
best-counted :
    (v : ℕ) (vs : List ℕ) (w : ℕ)
    → best (v ∷ vs) w ≢ best vs w
    → (best (v ∷ vs) w ≡ 1 + best vs (w - v)) × (v ≤ w)
unfolding best
best-counted v vs w ne = ground (arith, best-zero vs)

-- What a choice is to be: it fits, it has that many coins, and it decides on each.
abbrev Chooses : List ℕ → List Bool → ℕ → ℕ → Type 0
Chooses vs bs w n = (chosen_sum vs bs ≤ w) × (chosen_count bs ≡ n) × (length bs ≡ length vs)

Chooses-skip :
    (v : ℕ) (vs : List ℕ) (bs : List Bool) (w n : ℕ)
    → Chooses vs bs w n
    → Chooses (v ∷ vs) (false ∷ bs) w n
unfolding chosen_sum chosen_count
Chooses-skip v vs bs w n c = (omega arith, omega arith, omega arith)

Chooses-take :
    (v : ℕ) (vs : List ℕ) (bs : List Bool) (w n : ℕ)
    → v ≤ w
    → Chooses vs bs (w - v) n
    → Chooses (v ∷ vs) (true ∷ bs) w (1 + n)
unfolding chosen_sum chosen_count
Chooses-take v vs bs w n le c = (omega arith, omega arith, omega arith)

backtrack-best :
    (vs : List ℕ) (target w : ℕ)
    → w ≤ target
    → target < u64_mod
    → Chooses vs (backtrack vs (rows_above (table vs target)) (best vs w) w) w (best vs w)
unfolding backtrack chosen_sum chosen_count table
backtrack-best [] target w le small = (omega arith, sym (best-nil w), refl)
backtrack-best (v ∷ vs) target w le small =
    let rows = rows_above (table vs target) in
    let row = first_row (table vs target) in
    let r = best (v ∷ vs) w in
    subst (λ t. Chooses (v ∷ vs) (backtrack (v ∷ vs) t r w) w r) (sym (table-cons vs target))
      (elim (ℕ_discrete r (best vs w)) [
        | yes same ↦
            let skip : (r == 0 || r == at row w) ≡ true =
              ground (arith, table-best vs target w le) in
            rw skip (
              subst (λ n. Chooses (v ∷ vs) (false ∷ backtrack vs rows n w) w n) (sym same)
                (Chooses-skip v vs _ w (best vs w) (backtrack-best vs target w le small)))
        | no differs ↦
            let (counted, fits) = best-counted v vs w differs in
            let take : (r == 0 || r == at row w) ≡ false =
              ground (arith, table-best vs target w le) in
            let left : sub64 w v ≡ w - v = omega arith in
            let fewer : r - 1 ≡ best vs (w - v) = omega arith in
            rw (take, left, fewer)
              (subst
                (λ n. Chooses (v ∷ vs) (true ∷ backtrack vs rows (best vs (w - v)) (w - v)) w n)
                (sym counted)
                (Chooses-take v vs _ w (best vs (w - v)) fits
                  (backtrack-best vs target (w - v) (omega arith) small)))
      ])

best-most :
    (vs : List ℕ) (bs : List Bool) (w : ℕ)
    → All (λ v. 0 < v) vs
    → length bs ≡ length vs
    → chosen_sum vs bs ≤ w
    → chosen_count bs ≤ best vs w
unfolding best chosen_sum chosen_count
best-most [] [] w pos size le = omega arith
best-most [] (b ∷ bs) w pos size le = absurd (omega arith)
best-most (v ∷ vs) [] w pos size le = absurd (omega arith)
best-most (v ∷ vs) (true ∷ bs) w pos size le = ground (arith, best-most vs bs (w - v) pos.1)
best-most (v ∷ vs) (false ∷ bs) w pos size le =
    ground (arith, best-most vs bs w pos.1, best-zero vs)

length-reverse {ℓ} : {A : Type ℓ} (xs : List A) → length (reverse xs) ≡ length xs
length-reverse [] = refl
length-reverse (x ∷ xs) =
    ap length (reverse-append (x ∷ []) xs)
    ∙ length-append (reverse xs) (x ∷ [])
    ∙ omega (arith, length-reverse xs)

chosen_sum-append :
    (vs : List ℕ) (bs : List Bool) (v : ℕ) (b : Bool)
    → length bs ≡ length vs
    → chosen_sum (vs ++ v ∷ []) (bs ++ b ∷ []) ≡ chosen_sum vs bs + (if b then v else 0)
unfolding chosen_sum
chosen_sum-append [] [] v b size = omega arith
chosen_sum-append [] (c ∷ bs) v b size = absurd (omega arith)
chosen_sum-append (u ∷ vs) [] v b size = absurd (omega arith)
chosen_sum-append (u ∷ vs) (c ∷ bs) v b size =
    omega (arith, chosen_sum-append vs bs v b (omega arith))

chosen_count-append :
    (bs : List Bool) (b : Bool)
    → chosen_count (bs ++ b ∷ []) ≡ chosen_count bs + (if b then 1 else 0)
unfolding chosen_count
chosen_count-append [] b = omega arith
chosen_count-append (c ∷ bs) b = omega (arith, chosen_count-append bs b)

chosen_sum-reverse :
    (vs : List ℕ) (bs : List Bool)
    → length bs ≡ length vs
    → chosen_sum (reverse vs) (reverse bs) ≡ chosen_sum vs bs
unfolding chosen_sum
chosen_sum-reverse [] [] size = refl
chosen_sum-reverse [] (c ∷ bs) size = absurd (omega arith)
chosen_sum-reverse (u ∷ vs) [] size = absurd (omega arith)
chosen_sum-reverse (v ∷ vs) (b ∷ bs) size =
    rw (reverse-append (v ∷ []) vs, reverse-append (b ∷ []) bs)
      (chosen_sum-append (reverse vs) (reverse bs) v b
          (length-reverse bs ∙ omega arith ∙ sym (length-reverse vs))
        ∙ omega (arith, chosen_sum-reverse vs bs (omega arith)))

chosen_count-reverse : (bs : List Bool) → chosen_count (reverse bs) ≡ chosen_count bs
unfolding chosen_count
chosen_count-reverse [] = refl
chosen_count-reverse (b ∷ bs) =
    rw (reverse-append (b ∷ []) bs)
      (chosen_count-append (reverse bs) b ∙ omega (arith, chosen_count-reverse bs))

All-snoc : (xs : List ℕ) (x : ℕ) → All (λ v. 0 < v) xs → 0 < x → All (λ v. 0 < v) (xs ++ x ∷ [])
All-snoc [] x a pos = (pos, tt)
All-snoc (y ∷ xs) x a pos = (a.0, All-snoc xs x a.1 pos)

All-reverse : (xs : List ℕ) → All (λ v. 0 < v) xs → All (λ v. 0 < v) (reverse xs)
All-reverse [] a = tt
All-reverse (x ∷ xs) a =
    subst (All (λ v. 0 < v)) (sym (reverse-append (x ∷ []) xs))
      (All-snoc (reverse xs) x (All-reverse xs a.1) a.0)

-- For a target below 2^64 - 1, Knapsack decides on each coin, the chosen ones have a sum of at most the
-- target, and no choice of coins with at most that sum has more coins, if none of the values is 0.
pub knapsack-most :
    (values : List ℕ) (target : ℕ)
    → target + 1 < u64_mod
    → (chosen_sum values (knapsack values target) ≤ target)
      × (length (knapsack values target) ≡ length values)
      × ((others : List Bool)
          → All (λ v. 0 < v) values
          → length others ≡ length values
          → chosen_sum values others ≤ target
          → chosen_count others ≤ chosen_count (knapsack values target))
unfolding knapsack
knapsack-most values target small =
    let vs = reverse values in
    let bs = backtrack vs (rows_above (table vs target)) (best vs target) target in
    let (fits, most, size) = backtrack-best vs target target (omega arith) (omega arith) in
    let chosen : knapsack values target ≡ reverse bs =
      ap (λ n. reverse (backtrack vs (rows_above (table vs target)) n target))
        (table-best vs target target (omega arith)) in
    let sums : chosen_sum values (reverse bs) ≡ chosen_sum vs bs =
      ap (λ us. chosen_sum us (reverse bs)) (sym (reverse-reverse values))
      ∙ chosen_sum-reverse vs bs size in
    (
      omega (arith, ap (chosen_sum values) chosen, sums),
      ap length chosen ∙ length-reverse bs ∙ size ∙ length-reverse values,
      λ others pos same le.
          let bound =
            best-most vs (reverse others) target (All-reverse values pos)
              (length-reverse others ∙ same ∙ sym (length-reverse values))
              (omega (arith, chosen_sum-reverse values others same)) in
          omega (
            arith,
            bound,
            chosen_count-reverse others,
            chosen_count-reverse bs,
            ap chosen_count chosen,
          ),
    )
