-- ===== src/Base/Lists.antt =====
-- Lists measured and indexed by native numbers, under the library's names.
use Prim.Native.Nat.{ℕ, zero, suc, ◌+◌, ◌-◌, ◌≤◌}
use mathlib.Core.Path.{◌≡◌, refl, sym, ap, ◌∙◌}
use mathlib.Core.List.{List, [], ◌∷◌, ◌++◌, append_assoc}
use mathlib.Core.Option.{Option, none, some}
use mathlib.Core.Bool.{Bool, false, ◌||◌}
use native.Mathlib.Omega.{arith}
use cash_prototype.Base.Tests.{if◌then◌else◌}

module _ {ℓ} {A : Type ℓ} where
  abbrev pub length : List A → ℕ
  length [] = 0
  length (x ∷ xs) = suc (length xs)

  abbrev pub get_elem? : List A → ℕ → Option A
  get_elem? [] i = none
  get_elem? (x ∷ xs) zero = some x
  get_elem? (x ∷ xs) (suc i) = get_elem? xs i

  abbrev pub take : ℕ → List A → List A
  take zero xs = []
  take (suc n) [] = []
  take (suc n) (x ∷ xs) = x ∷ take n xs

  abbrev pub drop : ℕ → List A → List A
  drop zero xs = xs
  drop (suc n) [] = []
  drop (suc n) (x ∷ xs) = drop n xs

  -- Every entry satisfies the predicate.
  abbrev pub All {κ} : (A → Type κ) → List A → Type κ
  All P [] = Unit
  All P (x ∷ xs) = P x × All P xs

  pub length-append : (xs ys : List A) → length (xs ++ ys) ≡ length xs + length ys
  length-append [] ys = omega arith
  length-append (x ∷ xs) ys = omega (arith, length-append xs ys)

  pub take-append-drop : (n : ℕ) (xs : List A) → take n xs ++ drop n xs ≡ xs
  take-append-drop zero xs = refl
  take-append-drop (suc n) [] = refl
  take-append-drop (suc n) (x ∷ xs) = ap (◌∷◌ x) (take-append-drop n xs)

  pub split_append : (n : ℕ) (xs ys : List A) → take n xs ++ (drop n xs ++ ys) ≡ xs ++ ys
  split_append n xs ys =
      sym (append_assoc (take n xs) (drop n xs) ys) ∙ ap (λ zs. zs ++ ys) (take-append-drop n xs)

  pub take-length-append : (xs ys : List A) → take (length xs) (xs ++ ys) ≡ xs
  take-length-append [] ys = refl
  take-length-append (x ∷ xs) ys = ap (◌∷◌ x) (take-length-append xs ys)

  pub append-injective :
      (xs ys zs ws : List A) → length xs ≡ length ys → xs ++ zs ≡ ys ++ ws → (xs ≡ ys) × (zs ≡ ws)
  append-injective [] [] zs ws size e = (refl, e)
  append-injective [] (y ∷ ys) zs ws size e = absurd (omega arith)
  append-injective (x ∷ xs) [] zs ws size e = absurd (omega arith)
  append-injective (x ∷ xs) (y ∷ ys) zs ws size e =
      let (front, back) = append-injective xs ys zs ws (omega arith) (cc) in (cc, back)

  pub take_all : (xs : List A) → take (length xs) xs ≡ xs
  take_all [] = refl
  take_all (x ∷ xs) = ap (◌∷◌ x) (take_all xs)

  pub drop_all : (xs : List A) → drop (length xs) xs ≡ []
  drop_all [] = refl
  drop_all (x ∷ xs) = drop_all xs

  pub drop-length-append : (xs ys : List A) → drop (length xs) (xs ++ ys) ≡ ys
  drop-length-append [] ys = refl
  drop-length-append (x ∷ xs) ys = drop-length-append xs ys

  drop_nil : (n : ℕ) → drop n [] ≡ []
  drop_nil zero = refl
  drop_nil (suc n) = refl

  pub drop-drop : (m n : ℕ) (xs : List A) → drop n (drop m xs) ≡ drop (m + n) xs
  drop-drop zero n xs = ground arith
  drop-drop (suc m) n [] = drop_nil n ∙ sym (drop_nil (suc m + n))
  drop-drop (suc m) n (x ∷ xs) =
      let e : suc m + n ≡ suc (m + n) = omega arith in rw e (drop-drop m n xs)

  pub length-drop : (n : ℕ) (xs : List A) → length (drop n xs) ≡ length xs - n
  length-drop zero xs = omega arith
  length-drop (suc n) [] = omega arith
  length-drop (suc n) (x ∷ xs) = omega (arith, length-drop n xs)

  pub length-take_of_le : (n : ℕ) (xs : List A) → n ≤ length xs → length (take n xs) ≡ n
  length-take_of_le zero xs h = refl
  length-take_of_le (suc n) [] h = absurd (omega arith)
  length-take_of_le (suc n) (x ∷ xs) h = omega (arith, length-take_of_le n xs)

  -- The entries that pass the test, in order.
  abbrev pub retain : (A → Bool) → List A → List A
  retain test [] = []
  retain test (x ∷ xs) = if test x then x ∷ retain test xs else retain test xs

  -- Some entry passes the test.
  abbrev pub any : (A → Bool) → List A → Bool
  any test [] = false
  any test (x ∷ xs) = test x || any test xs

  -- Two lists have entries that match.
  abbrev pub share : (A → A → Bool) → List A → List A → Bool
  share match [] ys = false
  share match (x ∷ xs) ys = any (match x) ys || share match xs ys

  share_nil : (match : A → A → Bool) (xs : List A) → share match xs [] ≡ false
  share_nil match [] = refl
  share_nil match (x ∷ xs) = share_nil match xs

  share_cons :
      (match : A → A → Bool) (xs : List A) (y : A) (ys : List A)
      → share match xs (y ∷ ys) ≡ (any (λ x. match x y) xs || share match xs ys)
  share_cons match [] y ys = refl
  share_cons match (x ∷ xs) y ys = ground (arith, share_cons match xs y ys)

  any-ext : (s t : A → Bool) (xs : List A) → ((x : A) → s x ≡ t x) → any s xs ≡ any t xs
  any-ext s t [] e = refl
  any-ext s t (x ∷ xs) e = ground (arith, e x, any-ext s t xs e)

  pub share_comm :
      (match : A → A → Bool) (xs ys : List A)
      → ((x y : A) → match x y ≡ match y x)
      → share match xs ys ≡ share match ys xs
  share_comm match [] ys e = sym (share_nil match ys)
  share_comm match (x ∷ xs) ys e =
      rw (share_comm match xs ys e, any-ext (match x) (λ y. match y x) ys (e x))
        (sym (share_cons match ys x xs))
