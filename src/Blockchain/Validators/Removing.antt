-- ===== src/Blockchain/Validators/Removing.antt =====
-- beaconprocess.go: RemoveValidator.
use cash_prototype.Base.{
  ℕ, zero, suc, ◌+◌, ◌≤◌, ◌<◌, ◌≡◌, ◌≢◌, ◌↔◌, ◌∙◌, ap, refl, sym, inl, inr, none, some, List, [],
  ◌∷◌, ◌++◌, arith, Bool-cases, ltb, length, drop, get_elem?, done, String, str_eq, str_eq_iff,
  str_eq_refl, Option-cases, subst, false,
}
use cash_prototype.Blockchain.Validators.{remove_from, remove_validator}

-- The removed validators stand at every second place of the list from `index` on.
abbrev pub EveryOther : ℕ → List String → List String → Type 0
EveryOther index validators [] = Unit
EveryOther index validators (r ∷ removed) =
    (get_elem? validators index ≡ some r) × EveryOther (suc (suc index)) validators removed

get_elem?-drop : (i : ℕ) (xs : List String) → get_elem? (drop 1 xs) i ≡ get_elem? xs (suc i)
get_elem?-drop i [] = refl
get_elem?-drop i (x ∷ xs) = refl

drop-drop : (n : ℕ) (xs : List String) → drop n (drop 1 xs) ≡ drop (suc n) xs
drop-drop zero [] = refl
drop-drop (suc n) [] = refl
drop-drop n (x ∷ xs) = refl

EveryOther-drop :
    (index : ℕ) (validators removed : List String)
    → EveryOther index (drop 1 validators) removed ≡ EveryOther (suc index) validators removed
EveryOther-drop index validators [] = refl
EveryOther-drop index validators (r ∷ removed) =
    rw (get_elem?-drop index validators, EveryOther-drop (suc (suc index)) validators removed) refl

get_elem?-length : (xs : List String) (i : ℕ) (x : String) → get_elem? xs i ≡ some x → i < length xs
get_elem?-length [] i x h = cc
get_elem?-length (y ∷ ys) zero x h = omega arith
get_elem?-length (y ∷ ys) (suc i) x h = omega (arith, get_elem?-length ys i x h)

EveryOther-length :
    (index : ℕ) (validators : List String) (r : String) (removed : List String)
    → EveryOther index validators (r ∷ removed)
    → index + suc (length removed) ≤ length validators
EveryOther-length index validators r [] (h, hs) =
    omega (arith, get_elem?-length validators index r h)
EveryOther-length index validators r (r2 ∷ removed) (h, hs) =
    omega (arith, EveryOther-length (suc (suc index)) validators r2 removed hs)

-- A removal that went through, from the place `index` on.
remove_from-eq-done :
    (index : ℕ) (validators removed rest : List String)
    → remove_from index validators removed ≡ done (rest, none)
    → EveryOther index validators removed × (rest ≡ drop (length removed) validators)
unfolding remove_from
remove_from-eq-done index validators [] rest h = (tt, ground arith)
remove_from-eq-done index validators (r ∷ removed) rest h =
    elim (Option-cases (get_elem? validators index)) [
      | inl out ↦ absurd (ground (arith, out, h))
      | inr (v, at) ↦ elim (Bool-cases (str_eq v r)) [
        | inr other ↦ absurd (ground (arith, at, other, h))
        | inl same ↦
            let (hs, hr) =
              remove_from-eq-done (suc index) (drop 1 validators) removed rest
                (ground (arith, at, same, h)) in
            (
              (
                at ∙ ap some ((str_eq_iff v r).0 same),
                subst (λ T. T) (EveryOther-drop (suc index) validators removed) hs,
              ),
              hr ∙ drop-drop (length removed) validators,
            )
      ]
    ]

remove_from-EveryOther :
    (index : ℕ) (validators removed : List String)
    → EveryOther index validators removed
    → remove_from index validators removed ≡ done (drop (length removed) validators, none)
unfolding remove_from
remove_from-EveryOther index validators [] h = refl
remove_from-EveryOther index validators (r ∷ removed) (h, hs) =
    let hs' : EveryOther (suc index) (drop 1 validators) removed =
      subst (λ T. T) (sym (EveryOther-drop (suc index) validators removed)) hs in
    rw (remove_from, h, str_eq_refl r)
      (remove_from-EveryOther (suc index) (drop 1 validators) removed hs'
        ∙ ap (λ xs. done (xs, none)) (drop-drop (length removed) validators))

short_enough :
    (validators removed : List String)
    → EveryOther 0 validators removed
    → ltb (length validators) (length removed) ≡ false
short_enough validators [] h = ground arith
short_enough validators (r ∷ removed) h =
    let le = EveryOther-length 0 validators r removed h in ground (arith, le)

-- RemoveValidator succeeds just when the validators to remove are those at the even places of the
-- list, in order, and then returns the list without as many of its first entries: it checks the
-- list that it shortens at an index that rises.
pub remove_validator_iff :
    (validators removed rest : List String)
    → (remove_validator validators removed ≡ done (rest, none))
      ↔ (EveryOther 0 validators removed × (rest ≡ drop (length removed) validators))
unfolding remove_validator
remove_validator_iff validators removed rest = (
  λ h. elim (Bool-cases (ltb (length validators) (length removed))) [
    | inl long ↦ absurd (ground (arith, long, h))
    | inr short ↦ remove_from-eq-done 0 validators removed rest (ground (arith, short, h))
  ],
  λ (h, hr).
      rw (remove_validator, short_enough validators removed h)
        (remove_from-EveryOther 0 validators removed h ∙ ap (λ xs. done (xs, none)) (sym hr)),
)

-- Is not in the list.
abbrev pub Absent : String → List String → Type 0
Absent x [] = Unit
Absent x (y ∷ ys) = (x ≢ y) × Absent x ys

abbrev pub NoRepeats : List String → Type 0
NoRepeats [] = Unit
NoRepeats (x ∷ xs) = Absent x xs × NoRepeats xs

first-Absent : (x : String) (xs : List String) → Absent x xs → get_elem? xs 0 ≢ some x
first-Absent x [] a h = cc
first-Absent x (y ∷ ys) (ne, a) h = ne (ground (arith, h))

-- To remove two or more validators that stand at the front of a list without repetitions never
-- succeeds, though these are the lists that the code's comment asks for; to remove the first one
-- does.
remove_validator-front :
    (r : String) (removed others : List String)
    → NoRepeats (r ∷ (removed ++ others))
    → ((rest : List String) × (remove_validator (r ∷ (removed ++ others)) (r ∷ removed)
          ≡ done (rest, none)))
      ↔ (removed ≡ [])
remove_validator-front r [] others n = (
  λ h. refl,
  λ e. (others, (remove_validator_iff (r ∷ others) (r ∷ []) others).1 ((refl, tt), refl)),
)
remove_validator-front r (r2 ∷ removed) others (a, (a2, n)) = (
  λ (rest, h).
      let (at, (at2, more)) =
        ((remove_validator_iff (r ∷ r2 ∷ (removed ++ others)) (r ∷ r2 ∷ removed) rest).0 h).0 in
      absurd (first-Absent r2 (removed ++ others) a2 at2),
  λ e. absurd (ground (arith, e)),
)
