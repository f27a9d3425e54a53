-- ===== src/Spending/Knapsack.antt =====
-- privacy/knapsack.go: the choice of as many coins as fit into a target, by dynamic programming.
pub mod Optimal
use cash_prototype.Base.{
  ℕ, zero, suc, ◌+◌, ◌-◌, ◌*◌, ◌/◌, ◌%◌, ◌≤◌, ◌<◌, min, max, ◌≡◌, refl, sym, ap, subst, ◌∙◌, ◌≢◌,
  ◌↔◌, ◌⊎◌, inl, inr, Bool, true, false, ◌&&◌, ◌||◌, not, Option, none, some, List, [], ◌∷◌, ◌++◌,
  map, append_assoc, flatten, arith, ltb, leb, ◌==◌, if◌then◌else◌, Bool-cases, Option-cases, ==→eq,
  ==_refl, length, take, drop, get_elem?, All, Outcome, done, panic, put, or_else, u64_mod, add64,
  sub64,
}
use mathlib.Core.List.{reverse}

-- `row[w]`, for a `w` in the row
abbrev pub at : List ℕ → ℕ → ℕ
at row w = or_else 0 (get_elem? row w)

abbrev pub cell : ℕ → List ℕ → ℕ → ℕ → ℕ
cell v prev w above =
    if w == 0 then 0 else if leb v w then max (1 + at prev (w - v)) above else above

-- The cells of a row from `w` on, under those of the row above.
pub cells : ℕ → List ℕ → ℕ → List ℕ → List ℕ
cells v prev w [] = []
cells v prev w (k ∷ ks) = cell v prev w k ∷ cells v prev (w + 1) ks

pub zero_row : ℕ → List ℕ
zero_row zero = []
zero_row (suc n) = 0 ∷ zero_row n

abbrev pub first_row : List (List ℕ) → List ℕ
first_row [] = []
first_row (row ∷ rows) = row

-- The rows of `K` for the values, which are listed from the last to the first as the rows are.
pub table : List ℕ → ℕ → List (List ℕ)
unfolding cells zero_row
table [] target = zero_row (target + 1) ∷ []
table (v ∷ vs) target =
    let rest = table vs target in cells v (first_row rest) 0 (first_row rest) ∷ rest

-- The loop from the last coin to the first, over the rows above the current one; once the result is
-- 0 it ends, and the coins that are left are not chosen.
pub backtrack : List ℕ → List (List ℕ) → ℕ → ℕ → List Bool
backtrack [] rows result w = []
backtrack (v ∷ vs) [] result w = false ∷ backtrack vs [] result w
backtrack (v ∷ vs) (row ∷ rows) result w =
    let skip = result == 0 || result == at row w in
    not skip
    ∷ backtrack vs rows (if skip then result else result - 1) (if skip then w else sub64 w v)

abbrev pub rows_above : List (List ℕ) → List (List ℕ)
rows_above [] = []
rows_above (row ∷ rows) = rows

-- Knapsack
unfoldable pub knapsack : List ℕ → ℕ → List Bool
unfolding table backtrack
knapsack values target =
    let vs = reverse values in
    let k = table vs target in
    reverse (backtrack vs (rows_above k) (at (first_row k) target) target)

-- The sum of the chosen values, and their number.
unfoldable pub chosen_sum : List ℕ → List Bool → ℕ
chosen_sum [] bs = 0
chosen_sum (v ∷ vs) [] = 0
chosen_sum (v ∷ vs) (b ∷ bs) = (if b then v else 0) + chosen_sum vs bs

unfoldable pub chosen_count : List Bool → ℕ
chosen_count [] = 0
chosen_count (b ∷ bs) = (if b then 1 else 0) + chosen_count bs
