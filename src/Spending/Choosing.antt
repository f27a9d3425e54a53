-- ===== src/Spending/Choosing.antt =====
-- privacy/knapsack.go and rpcserver/common.go: which coins are spent for an amount.
use cash_prototype.Base.{
  ℕ, Bool, true, false, not, List, [], ◌∷◌, ◌++◌, map, ltb, leb, ◌==◌, if◌then◌else◌, add64, sub64,
}
use cash_prototype.Base.{int_gt, Result, ok, err}
use cash_prototype.Spending.Knapsack.{knapsack}

-- An output coin: its value, and what else it is.
pub record Coin : Type 0 where
  pub value : ℕ
  pub id : ℕ

pub data ChoiceError : Type 0 where
  not_enough_coin : ChoiceError

-- `sort.Slice` by value, which may leave coins of one value in another order
unfoldable pub insert : Coin → List Coin → List Coin
insert c [] = c ∷ []
insert c (d ∷ ds) = if ltb d.value c.value then d ∷ insert c ds else c ∷ d ∷ ds

unfoldable pub sort : List Coin → List Coin
unfolding insert
sort [] = []
sort (c ∷ cs) = insert c (sort cs)

-- The choices of Greedy over the sorted coins: those up to the one that reaches the amount.
unfoldable pub greedy_from : ℕ → ℕ → List Coin → List Bool
greedy_from sum amount [] = []
greedy_from sum amount (c ∷ cs) =
    true
    ∷ (if leb amount (add64 sum c.value)
        then map (λ d. false) cs
        else greedy_from (add64 sum c.value) amount cs)

-- Greedy sorts the given slice in place; the choices are about the sorted one.
unfoldable pub greedy : List Coin → ℕ → List Bool
unfolding greedy_from sort
greedy coins amount = greedy_from 0 amount (sort coins)

-- The coins whose choice is `b`.
unfoldable pub with_choice : Bool → List Coin → List Bool → List Coin
with_choice b [] choices = []
with_choice b (c ∷ cs) [] = []
with_choice b (c ∷ cs) (true ∷ choices) =
    let rest = with_choice b cs choices in if b then c ∷ rest else rest
with_choice b (c ∷ cs) (false ∷ choices) =
    let rest = with_choice b cs choices in if b then rest else c ∷ rest

-- The sum of the values, as the code adds them up.
unfoldable pub sum64 : ℕ → List Coin → ℕ
sum64 sum [] = sum
sum64 sum (c ∷ cs) = sum64 (add64 sum c.value) cs

unfoldable pub values : List Coin → List ℕ
values [] = []
values (c ∷ cs) = c.value ∷ values cs

-- The coins above the amount, and the others.
unfoldable pub large : ℕ → List Coin → List Coin
large amount [] = []
large amount (c ∷ cs) = if ltb amount c.value then c ∷ large amount cs else large amount cs

unfoldable pub small : ℕ → List Coin → List Coin
small amount [] = []
small amount (c ∷ cs) = if ltb amount c.value then small amount cs else c ∷ small amount cs

pub record Choice : Type 0 where
  pub result : List Coin
  pub remain : List Coin
  pub total : ℕ

-- `resultOutputCoins` are the coins with that choice, and the others remain.
unfoldable pub chosen : Bool → List Coin → List Bool → Choice
unfolding with_choice sum64
chosen b coins choices = record {
  result = with_choice b coins choices;
  remain = with_choice (not b) coins choices;
  total = sum64 0 (with_choice b coins choices);
}

-- The coin of the smallest value above the amount.
unfoldable pub one_large : List Coin → List Coin → Result ChoiceError Choice
one_large [] knapsack_coins = err not_enough_coin
one_large (c ∷ cs) knapsack_coins =
    ok (record { result = c ∷ []; remain = cs ++ knapsack_coins; total = c.value })

-- The four cases, by the sum of the coins that are not above the amount and by the target, the
-- bit pattern of an int64.
unfoldable pub by_target : List Coin → ℕ → ℕ → ℕ → Result ChoiceError Choice
unfolding greedy chosen sort
by_target coins amount sum target =
    let knapsack_coins = small amount coins in
    let unknapsack_coins = large amount coins in
    if int_gt target 1000
    then ok (chosen true (sort coins) (greedy coins amount))
    else if int_gt target 0
    then (let c = chosen false knapsack_coins (knapsack (values knapsack_coins) target) in
        ok (record c { remain = c.remain ++ unknapsack_coins }))
    else if target == 0
    then ok (record { result = knapsack_coins; remain = unknapsack_coins; total = sum })
    else one_large (sort unknapsack_coins) knapsack_coins

-- chooseBestOutCoinsToSpent
unfoldable pub choose_best_out_coins_to_spent : List Coin → ℕ → Result ChoiceError Choice
choose_best_out_coins_to_spent coins amount =
    let sum = sum64 0 (small amount coins) in by_target coins amount sum (sub64 sum amount)
