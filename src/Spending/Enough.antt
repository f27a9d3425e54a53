-- ===== src/Spending/Enough.antt =====
-- The chosen coins cover the amount, and no coin is lost.
use cash_prototype.Base.{
  ℕ, ◌+◌, ◌-◌, ◌≤◌, ◌<◌, ◌≡◌, refl, subst, ◌∙◌, inl, inr, Bool, true, false, not, List, [], ◌∷◌,
  ◌++◌, append_assoc, arith, ltb, leb, ◌==◌, Bool-cases, length, All, u64_mod, sub64, Perm, int_gt,
  i64_min, ltb→lt, ok, err,
}
use mathlib.Core.List.Perm
use mathlib.Core.List.{perm_append_comm}
use cash_prototype.Spending.Knapsack.{knapsack}
use cash_prototype.Spending.Knapsack.Optimal.{knapsack-most}
use cash_prototype.Spending.Worth.{
  worth, sum64-worth, sort-perm, sort-worth, split-perm, split-worth, with_choice-perm,
  with_choice-worth, length-greedy_from, greedy_from-enough, length-values,
}
use cash_prototype.Spending.Choosing.{
  Coin, not_enough_coin, insert, sort, greedy_from, greedy, with_choice, sum64, values, large,
  small, Choice, chosen, one_large, by_target, choose_best_out_coins_to_spent,
}

-- A choice that covers the amount with coins of the given ones.
pub record Covers (coins : List Coin) (amount : ℕ) (c : Choice) : Type 0 where
  pub enough : amount ≤ c.total
  pub counted : c.total ≡ worth c.result
  pub kept : Perm (c.result ++ c.remain) coins

le-worth :
    (b : Bool) (cs : List Coin) (bs : List Bool)
    → length bs ≡ length cs
    → worth cs < u64_mod
    → 0 + worth (with_choice b cs bs) < u64_mod
le-worth true cs bs size lt = omega (arith, (with_choice-worth cs bs size).1)
le-worth false cs bs size lt = omega (arith, (with_choice-worth cs bs size).1)

both_choices :
    (b : Bool) (cs : List Coin) (bs : List Bool)
    → length bs ≡ length cs
    → Perm (with_choice b cs bs ++ with_choice (not b) cs bs) cs
both_choices true cs bs size = with_choice-perm cs bs size
both_choices false cs bs size =
    Perm.trans (perm_append_comm (with_choice false cs bs) (with_choice true cs bs))
      (with_choice-perm cs bs size)

chosen-Covers :
    (b : Bool) (cs : List Coin) (bs : List Bool) (amount : ℕ)
    → length bs ≡ length cs
    → worth cs < u64_mod
    → amount ≤ worth (with_choice b cs bs)
    → Covers cs amount (chosen b cs bs)
unfolding chosen
chosen-Covers b cs bs amount size lt le =
    let (sum, all) = with_choice-worth cs bs size in
    let taken : sum64 0 (with_choice b cs bs) ≡ worth (with_choice b cs bs) =
      sum64-worth 0 (with_choice b cs bs) (le-worth b cs bs size lt) ∙ omega arith in
    record { enough = omega arith; counted = taken; kept = both_choices b cs bs size }

-- The coins fit into an int64 when added up, and so does the amount.
abbrev pub Fits : List Coin → ℕ → Type 0
Fits coins amount = (worth coins < i64_min) × (amount < i64_min)

greedy-Covers :
    (coins : List Coin) (amount : ℕ)
    → Fits coins amount
    → amount ≤ worth coins
    → Covers coins amount (chosen true (sort coins) (greedy coins amount))
unfolding greedy
greedy-Covers coins amount (lt, lt') le =
    let cs = sort coins in
    let c =
      chosen-Covers true cs (greedy_from 0 amount cs) amount (length-greedy_from 0 amount cs)
        (omega (arith, sort-worth coins))
        (omega (
          arith,
          greedy_from-enough 0 amount cs (omega (arith, sort-worth coins))
              (omega (arith, sort-worth coins)),
        )) in
    record { enough = c.enough; counted = c.counted; kept = Perm.trans c.kept (sort-perm coins) }

knapsack-Covers :
    (cs : List Coin) (amount : ℕ)
    → worth cs < i64_min
    → amount ≤ worth cs
    → Covers cs amount (chosen false cs (knapsack (values cs) (worth cs - amount)))
knapsack-Covers cs amount lt le =
    let target = worth cs - amount in
    let (fits, size, most) = knapsack-most (values cs) target (omega arith) in
    let same = size ∙ length-values cs in
    let (sum, all) = with_choice-worth cs (knapsack (values cs) target) same in
    chosen-Covers false cs (knapsack (values cs) target) amount same (omega arith) (omega arith)

large-Above : (amount : ℕ) (cs : List Coin) → All (λ c. amount < c.value) (large amount cs)
unfolding large
large-Above amount [] = tt
large-Above amount (c ∷ cs) = elim (Bool-cases (ltb amount c.value)) [
  | inl e ↦ rw e (ltb→lt amount c.value e, large-Above amount cs)
  | inr e ↦ rw e (large-Above amount cs)
]

-- The cases where the coins that are not above the amount suffice.
small_enough :
    (coins : List Coin) (amount : ℕ)
    → Fits coins amount
    → amount ≤ worth (small amount coins)
    → let sum = worth (small amount coins) in
      (c : Choice) × (by_target coins amount sum (sum - amount) ≡ ok c) × Covers coins amount c
unfolding by_target
small_enough coins amount fits le =
    let ks = small amount coins in
    let all = split-worth amount coins in
    let target = worth ks - amount in
    elim (Bool-cases (ltb 1000 target)) [
      | inl far ↦
          let big : int_gt target 1000 ≡ true = ground (arith, far) in
          (
            chosen true (sort coins) (greedy coins amount),
            rw big refl,
            greedy-Covers coins amount fits (omega arith),
          )
      | inr near ↦
          let not_big : int_gt target 1000 ≡ false = ground (arith, near) in
          elim (Bool-cases (ltb 0 target)) [
            | inl some_left ↦
                let positive : int_gt target 0 ≡ true = ground (arith, some_left) in
                let c = chosen false ks (knapsack (values ks) target) in
                let covers = knapsack-Covers ks amount (omega arith) le in
                (
                  record c { remain = c.remain ++ large amount coins },
                  rw (not_big, positive) refl,
                  record {
                    enough = covers.enough;
                    counted = covers.counted;
                    kept =
                        subst (λ l. Perm l coins)
                          (append_assoc c.result c.remain (large amount coins))
                          (Perm.trans (Perm.append_right (large amount coins) covers.kept)
                            (split-perm amount coins));
                  },
                )
            | inr exact ↦
                let not_positive : int_gt target 0 ≡ false = ground (arith, exact) in
                let zero_left : (target == 0) ≡ true = ground (arith, exact) in
                (
                  record { result = ks; remain = large amount coins; total = worth ks },
                  rw (not_big, not_positive, zero_left) refl,
                  record { enough = le; counted = refl; kept = split-perm amount coins },
                )
          ]
    ]

-- For a negative target one large coin is taken.
by_target_negative :
    (coins : List Coin) (amount sum target : ℕ)
    → i64_min ≤ target
    → by_target coins amount sum target ≡ one_large (sort (large amount coins)) (small amount coins)
unfolding by_target
by_target_negative coins amount sum target le =
    let not_big : int_gt target 1000 ≡ false = ground arith in
    let not_positive : int_gt target 0 ≡ false = ground arith in
    let nonzero : (target == 0) ≡ false = ground arith in rw (not_big, not_positive, nonzero) refl

All-insert : (P : Coin → Type 0) (c : Coin) (cs : List Coin) → P c → All P cs → All P (insert c cs)
unfolding insert
All-insert P c [] p all = (p, tt)
All-insert P c (d ∷ ds) p all = elim (Bool-cases (ltb d.value c.value)) [
  | inl e ↦ rw e (all.0, All-insert P c ds p all.1)
  | inr e ↦ rw e (p, all)
]

All-sort : (P : Coin → Type 0) (cs : List Coin) → All P cs → All P (sort cs)
unfolding sort
All-sort P [] all = tt
All-sort P (c ∷ cs) all = All-insert P c (sort cs) all.0 (All-sort P cs all.1)

one_large-Covers :
    (larges smalls coins : List Coin) (amount : ℕ)
    → 0 < worth larges
    → All (λ c. amount < c.value) larges
    → Perm (larges ++ smalls) coins
    → (c : Choice) × (one_large larges smalls ≡ ok c) × Covers coins amount c
unfolding one_large
one_large-Covers [] smalls coins amount pos above kept = absurd (omega arith)
one_large-Covers (c ∷ cs) smalls coins amount pos above kept = (
  record { result = c ∷ []; remain = cs ++ smalls; total = c.value },
  refl,
  record { enough = omega arith; counted = omega arith; kept = kept },
)

large_none : (amount : ℕ) (cs : List Coin) → worth cs < amount → large amount cs ≡ []
unfolding large
large_none amount [] lt = refl
large_none amount (c ∷ cs) lt =
    let small_one : ltb amount c.value ≡ false = ground arith in
    rw small_one (large_none amount cs (omega arith))

no_large :
    (amount : ℕ) (cs : List Coin)
    → worth cs < amount
    → one_large (sort (large amount cs)) (small amount cs) ≡ err not_enough_coin
unfolding one_large sort
no_large amount cs lt = rw (large_none amount cs lt) refl

-- When the coins and the amount fit into an int64: chooseBestOutCoinsToSpent reports an error if all
-- the coins are worth less than the amount; otherwise the coins that it chooses are worth at least
-- the amount, the total that it returns is what they are worth, and the chosen and the remaining
-- coins together are the given ones.
pub choose_best_out_coins-Covers :
    (coins : List Coin) (amount : ℕ)
    → Fits coins amount
    → (worth coins < amount → choose_best_out_coins_to_spent coins amount ≡ err not_enough_coin)
      × (amount ≤ worth coins
          → (c : Choice) × (choose_best_out_coins_to_spent coins amount ≡ ok c)
            × Covers coins amount c)
unfolding choose_best_out_coins_to_spent
choose_best_out_coins-Covers coins amount fits =
    let ks = small amount coins in
    let larges = sort (large amount coins) in
    let all = split-worth amount coins in
    let sum : sum64 0 ks ≡ worth ks = sum64-worth 0 ks (omega arith) ∙ omega arith in
    let negative = λ (lt : worth ks < amount).
      by_target_negative coins amount (worth ks) (sub64 (worth ks) amount) (omega arith) in
    (
      λ lt. rw sum (negative (omega arith) ∙ no_large amount coins lt),
      λ le. elim (Bool-cases (leb amount (worth ks))) [
        | inl enough ↦
            let target : sub64 (worth ks) amount ≡ worth ks - amount = ground arith in
            rw (sum, target) (small_enough coins amount fits (ground arith))
        | inr less ↦
            let below : worth ks < amount = ground arith in
            let (c, e, covers) =
              one_large-Covers larges ks coins amount
                (omega (arith, sort-worth (large amount coins)))
                (All-sort (λ d. amount < d.value) (large amount coins) (large-Above amount coins))
                (Perm.trans (Perm.append_right ks (sort-perm (large amount coins))) (
                  Perm.trans (perm_append_comm (large amount coins) ks)
                    (split-perm amount coins))) in
            rw sum (c, negative below ∙ e, covers)
      ],
    )
