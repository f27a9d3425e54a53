-- ===== src/Spending/Tests.antt =====
-- The coin choices on small inputs.
use cash_prototype.Base.{◌≤◌, ◌<◌, ◌≡◌, Bool, List, [], ◌∷◌, arith, length, All}
use cash_prototype.Base.{ok, err}
use cash_prototype.Spending.Knapsack.{knapsack, chosen_sum, chosen_count}
use cash_prototype.Spending.Knapsack.Optimal.{knapsack-most}
use cash_prototype.Spending.Choosing.{Coin, not_enough_coin, Choice, choose_best_out_coins_to_spent}
use cash_prototype.Spending.Worth.{worth}
use cash_prototype.Spending.Enough.{Covers, choose_best_out_coins-Covers}

-- Of the coins 2, 1 and 3, two fit into 4.
knapsack-most_example :
    (chosen_sum (2 ∷ 1 ∷ 3 ∷ []) (knapsack (2 ∷ 1 ∷ 3 ∷ []) 4) ≤ 4)
    × (length (knapsack (2 ∷ 1 ∷ 3 ∷ []) 4) ≡ 3)
    × ((others : List Bool)
        → All (λ v. 0 < v) (2 ∷ 1 ∷ 3 ∷ [])
        → length others ≡ 3
        → chosen_sum (2 ∷ 1 ∷ 3 ∷ []) others ≤ 4
        → chosen_count others ≤ chosen_count (knapsack (2 ∷ 1 ∷ 3 ∷ []) 4))
knapsack-most_example = knapsack-most (2 ∷ 1 ∷ 3 ∷ []) 4 (omega arith)

abbrev coins : List Coin
coins =
    record { value = 3; id = 1 } ∷ record { value = 9; id = 2 } ∷ record { value = 4; id = 3 } ∷ []

choose_best_out_coins-Covers_example :
    (worth coins < 8 → choose_best_out_coins_to_spent coins 8 ≡ err not_enough_coin)
    × (8 ≤ worth coins
        → (c : Choice) × (choose_best_out_coins_to_spent coins 8 ≡ ok c) × Covers coins 8 c)
choose_best_out_coins-Covers_example =
    choose_best_out_coins-Covers coins 8 (omega arith, omega arith)
