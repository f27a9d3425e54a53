-- ===== src/Common/Membership.antt =====
-- Membership in a list, for the tests on lists and the appended lists of the code.
use mathlib.Core.List.{Memᴰ}
use cash_prototype.Base.{
  map, ◌||◌, share, Bool, ◌≡◌, refl, ap, ◌∙◌, sym, ◌⊎◌, ◌↔◌, inl, inr, true, false, List, [], ◌∷◌,
  ◌++◌, arith, Bool-cases, any, retain,
}

module _ {A : Type 0} where
  pub any-Mem :
      (test : A → Bool) (xs : List A) → any test xs ≡ true → (x : A) × Memᴰ x xs × (test x ≡ true)
  any-Mem test [] e = cc
  any-Mem test (x ∷ xs) e = elim (Bool-cases (test x)) [
    | inl here ↦ (x, Memᴰ.head refl, here)
    | inr other ↦ let (y, m, t) = any-Mem test xs (rw other at e) in (y, Memᴰ.tail m, t)
  ]

  pub Mem-any :
      (test : A → Bool) (xs : List A) (x : A) → Memᴰ x xs → test x ≡ true → any test xs ≡ true
  Mem-any test [] x m t = elim m [ ]
  Mem-any test (y ∷ xs) x (Memᴰ.head e) t = rw (ap test (sym e), t) refl
  Mem-any test (y ∷ xs) x (Memᴰ.tail m) t = ground (arith, Mem-any test xs x m t)

  pub Mem-retain :
      (test : A → Bool) (xs : List A) (x : A)
      → Memᴰ x (retain test xs) ↔ (Memᴰ x xs × (test x ≡ true))
  Mem-retain test [] x = (λ m. elim m [ ], λ (m, _). elim m [ ])
  Mem-retain test (y ∷ xs) x = elim (Bool-cases (test y)) [
    | inl stays ↦ rw stays (
      λ m. elim m [
        | Memᴰ.head e ↦ (Memᴰ.head e, ap test e ∙ stays)
        | Memᴰ.tail n ↦ let (there, t) = (Mem-retain test xs x).0 n in (Memᴰ.tail there, t)
      ],
      λ (m, t). elim m [
        | Memᴰ.head e ↦ Memᴰ.head e
        | Memᴰ.tail n ↦ Memᴰ.tail ((Mem-retain test xs x).1 (n, t))
      ],
    )
    | inr goes ↦ rw goes (
      λ m. let (there, t) = (Mem-retain test xs x).0 m in (Memᴰ.tail there, t),
      λ (m, t). elim m [
        | Memᴰ.head e ↦ absurd (let u = ap test e ∙ goes in cc)
        | Memᴰ.tail n ↦ (Mem-retain test xs x).1 (n, t)
      ],
    )
  ]

  pub Mem-append-left : (x : A) (xs ys : List A) → Memᴰ x xs → Memᴰ x (xs ++ ys)
  Mem-append-left x [] ys m = elim m [ ]
  Mem-append-left x (y ∷ xs) ys (Memᴰ.head e) = Memᴰ.head e
  Mem-append-left x (y ∷ xs) ys (Memᴰ.tail m) = Memᴰ.tail (Mem-append-left x xs ys m)

  pub Mem-append-last : (x : A) (xs : List A) → Memᴰ x (xs ++ x ∷ [])
  Mem-append-last x [] = Memᴰ.head refl
  Mem-append-last x (y ∷ xs) = Memᴰ.tail (Mem-append-last x xs)

  pub Mem-append-cases : (x : A) (xs ys : List A) → Memᴰ x (xs ++ ys) → Memᴰ x xs ⊎ Memᴰ x ys
  Mem-append-cases x [] ys m = inr m
  Mem-append-cases x (y ∷ xs) ys (Memᴰ.head e) = inl (Memᴰ.head e)
  Mem-append-cases x (y ∷ xs) ys (Memᴰ.tail m) = elim (Mem-append-cases x xs ys m) [
    | inl left ↦ inl (Memᴰ.tail left)
    | inr right ↦ inr right
  ]

  -- No entry of the one list matches one of the other.
  pub share-apart :
      (match : A → A → Bool) (xs ys : List A)
      → (share match xs ys ≡ false) ↔ ((x y : A) → Memᴰ x xs → Memᴰ y ys → match x y ≡ false)
  share-apart match xs ys = (apart xs, matched xs)
    where
      apart :
          (xs : List A)
          → share match xs ys ≡ false
          → (x y : A) → Memᴰ x xs
          → Memᴰ y ys
          → match x y ≡ false
      apart [] e x y m n = elim m [ ]
      apart (z ∷ xs) e x y (Memᴰ.head at) n = elim (Bool-cases (match x y)) [
        | inl same ↦
            let found = Mem-any (match z) ys y n (ap (λ w. match w y) (sym at) ∙ same) in
            absurd (ground (arith, e, found))
        | inr other ↦ other
      ]
      apart (z ∷ xs) e x y (Memᴰ.tail m) n = apart xs (ground (arith, e)) x y m n

      matched :
          (xs : List A)
          → ((x y : A) → Memᴰ x xs → Memᴰ y ys → match x y ≡ false)
          → share match xs ys ≡ false
      matched [] f = refl
      matched (z ∷ xs) f = elim (Bool-cases (any (match z) ys)) [
        | inl found ↦
            let (y, n, same) = any-Mem (match z) ys found in
            absurd (let other = f z y (Memᴰ.head refl) n in cc)
        | inr none_here ↦ rw none_here (matched xs (λ x y m n. f x y (Memᴰ.tail m) n))
      ]

  pub any-none :
      (test : A → Bool) (xs : List A)
      → (any test xs ≡ false) ↔ ((x : A) → Memᴰ x xs → test x ≡ false)
  any-none test xs = (
    λ e x m. elim (Bool-cases (test x)) [
      | inl t ↦ absurd (let found = Mem-any test xs x m t in cc)
      | inr f ↦ f
    ],
    λ all. elim (Bool-cases (any test xs)) [
      | inl found ↦ let (x, m, t) = any-Mem test xs found in absurd (let f = all x m in cc)
      | inr e ↦ e
    ],
  )

pub any-map :
    {A B : Type 0} (f : A → B) (test : B → Bool) (xs : List A)
    → any test (map f xs) ≡ any (λ x. test (f x)) xs
any-map f test [] = refl
any-map f test (x ∷ xs) = ap (λ b. test (f x) || b) (any-map f test xs)
