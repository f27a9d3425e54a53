-- ===== src/Spending/Worth.antt =====
-- What coins are worth, and where the choices put them.
use cash_prototype.Base.{
  ℕ, ◌+◌, ◌≤◌, ◌<◌, ◌≡◌, refl, ◌∙◌, inl, inr, Bool, true, false, List, [], ◌∷◌, ◌++◌, map, arith,
  ltb, leb, Bool-cases, length, u64_mod, add64, Perm,
}
use mathlib.Core.List.Perm
use mathlib.Core.List.{perm_middle}
use cash_prototype.Spending.Knapsack.{chosen_sum}
use cash_prototype.Spending.Choosing.{
  Coin, insert, sort, greedy_from, with_choice, sum64, values, large, small,
}

-- What some coins are worth.
abbrev pub worth : List Coin → ℕ
worth [] = 0
worth (c ∷ cs) = c.value + worth cs

pub sum64-worth :
    (sum : ℕ) (cs : List Coin) → sum + worth cs < u64_mod → sum64 sum cs ≡ sum + worth cs
unfolding sum64
sum64-worth sum [] lt = omega arith
sum64-worth sum (c ∷ cs) lt =
    let e : add64 sum c.value ≡ sum + c.value = omega arith in
    rw e (sum64-worth (sum + c.value) cs (omega arith) ∙ omega arith)

pub insert-perm : (c : Coin) (cs : List Coin) → Perm (insert c cs) (c ∷ cs)
unfolding insert
insert-perm c [] = Perm.refl _
insert-perm c (d ∷ ds) = elim (Bool-cases (ltb d.value c.value)) [
  | inl e ↦ rw e (Perm.trans (Perm.cons d (insert-perm c ds)) (Perm.swap c d ds))
  | inr e ↦ rw e (Perm.refl _)
]

pub sort-perm : (cs : List Coin) → Perm (sort cs) cs
unfolding sort
sort-perm [] = Perm.refl _
sort-perm (c ∷ cs) = Perm.trans (insert-perm c (sort cs)) (Perm.cons c (sort-perm cs))

pub insert-worth : (c : Coin) (cs : List Coin) → worth (insert c cs) ≡ c.value + worth cs
unfolding insert
insert-worth c [] = refl
insert-worth c (d ∷ ds) = ground (arith, insert-worth c ds)

pub sort-worth : (cs : List Coin) → worth (sort cs) ≡ worth cs
unfolding sort
sort-worth [] = refl
sort-worth (c ∷ cs) = omega (arith, insert-worth c (sort cs), sort-worth cs)

pub length-insert : (c : Coin) (cs : List Coin) → length (insert c cs) ≡ length cs + 1
unfolding insert
length-insert c [] = omega arith
length-insert c (d ∷ ds) = ground (arith, length-insert c ds)

pub split-perm : (amount : ℕ) (cs : List Coin) → Perm (small amount cs ++ large amount cs) cs
unfolding small large
split-perm amount [] = Perm.refl _
split-perm amount (c ∷ cs) = elim (Bool-cases (ltb amount c.value)) [
  | inl e ↦ rw e (
      Perm.trans (perm_middle (small amount cs) (large amount cs))
        (Perm.cons c (split-perm amount cs)))
  | inr e ↦ rw e (Perm.cons c (split-perm amount cs))
]

pub split-worth :
    (amount : ℕ) (cs : List Coin) → worth (small amount cs) + worth (large amount cs) ≡ worth cs
unfolding small large
split-worth amount [] = refl
split-worth amount (c ∷ cs) = ground (arith, split-worth amount cs)

pub with_choice-perm :
    (cs : List Coin) (bs : List Bool)
    → length bs ≡ length cs
    → Perm (with_choice true cs bs ++ with_choice false cs bs) cs
unfolding with_choice
with_choice-perm [] bs size = Perm.refl _
with_choice-perm (c ∷ cs) [] size = absurd (omega arith)
with_choice-perm (c ∷ cs) (true ∷ bs) size = Perm.cons c (with_choice-perm cs bs (omega arith))
with_choice-perm (c ∷ cs) (false ∷ bs) size =
    Perm.trans (perm_middle (with_choice true cs bs) (with_choice false cs bs))
      (Perm.cons c (with_choice-perm cs bs (omega arith)))

pub with_choice-worth :
    (cs : List Coin) (bs : List Bool)
    → length bs ≡ length cs
    → (worth (with_choice true cs bs) ≡ chosen_sum (values cs) bs)
      × (worth (with_choice true cs bs) + worth (with_choice false cs bs) ≡ worth cs)
unfolding with_choice values chosen_sum
with_choice-worth [] bs size = (refl, refl)
with_choice-worth (c ∷ cs) [] size = absurd (omega arith)
with_choice-worth (c ∷ cs) (true ∷ bs) size =
    let (sum, all) = with_choice-worth cs bs (omega arith) in (omega arith, omega arith)
with_choice-worth (c ∷ cs) (false ∷ bs) size =
    let (sum, all) = with_choice-worth cs bs (omega arith) in (omega arith, omega arith)

pub length-map : (cs : List Coin) → length (map (λ c. false) cs) ≡ length cs
length-map [] = refl
length-map (c ∷ cs) = omega (arith, length-map cs)

pub length-greedy_from :
    (sum amount : ℕ) (cs : List Coin) → length (greedy_from sum amount cs) ≡ length cs
unfolding greedy_from
length-greedy_from sum amount [] = refl
length-greedy_from sum amount (c ∷ cs) =
    ground (arith, length-map cs, length-greedy_from (add64 sum c.value) amount cs)

pub greedy_from-enough :
    (sum amount : ℕ) (cs : List Coin)
    → amount ≤ sum + worth cs
    → sum + worth cs < u64_mod
    → amount ≤ sum + worth (with_choice true cs (greedy_from sum amount cs))
unfolding greedy_from with_choice
greedy_from-enough sum amount [] le lt = le
greedy_from-enough sum amount (c ∷ cs) le lt =
    let e : add64 sum c.value ≡ sum + c.value = omega arith in
    elim (Bool-cases (leb amount (sum + c.value))) [
      | inl reached ↦ rw (e, reached) (ground arith)
      | inr more ↦
          rw (e, more)
            (omega
              (arith, greedy_from-enough (sum + c.value) amount cs (omega arith) (omega arith)))
    ]

pub length-values : (cs : List Coin) → length (values cs) ≡ length cs
unfolding values
length-values [] = refl
length-values (c ∷ cs) = omega (arith, length-values cs)
