-- ===== src/Consensus/PoolStates.antt =====
-- consensus/constantbft/utils.go: the pool state that a proposer builds its block on.
use cash_prototype.Base.{
  ℕ, max, ◌≡◌, refl, sym, ap, subst, ◌∙◌, ◌≢◌, inl, inr, true, false, Option, none, some, List, [],
  ◌∷◌, ◌++◌, arith, ltb, ◌==◌, if◌then◌else◌, Bool-cases, Option-cases, put,
}
use cash_prototype.Base.{put_same, put_other, ltb→lt}
use native.Mathlib.Decide.{ℕ_discrete}

-- The heights of the shards that one member reports, in the order of an iteration over its map.
abbrev pub PoolState : Type 0
PoolState = List (ℕ × ℕ)

-- One entry of a pool state.
unfoldable pub take_entry : ℕ × ℕ → (ℕ → Option ℕ) → ℕ → Option ℕ
take_entry (s, height) closest = elim (closest s) [
  | none ↦ put s (some height) closest
  | some h ↦ if ltb h height then put s (some height) closest else closest
]

unfoldable pub take_state : PoolState → (ℕ → Option ℕ) → ℕ → Option ℕ
unfolding take_entry
take_state [] closest = closest
take_state (e ∷ state) closest = take_state state (take_entry e closest)

unfoldable pub take_states : List PoolState → (ℕ → Option ℕ) → ℕ → Option ℕ
unfolding take_state
take_states [] closest = closest
take_states (state ∷ states) closest = take_states states (take_state state closest)

-- GetClosestPoolState
unfoldable pub get_closest_pool_state : List PoolState → ℕ → Option ℕ
unfolding take_states
get_closest_pool_state states = take_states states (λ s. none)

-- What the states report of a shard.
unfoldable pub heights_of : ℕ → PoolState → List ℕ
heights_of s [] = []
heights_of s (e ∷ state) = let rest = heights_of s state in if e.0 == s then e.1 ∷ rest else rest

unfoldable pub reported : ℕ → List PoolState → List ℕ
unfolding heights_of
reported s [] = []
reported s (state ∷ states) = heights_of s state ++ reported s states

abbrev pub greater : Option ℕ → Option ℕ → Option ℕ
greater none b = b
greater (some a) none = some a
greater (some a) (some b) = some (max a b)

-- The greatest of some numbers.
unfoldable pub greatest : List ℕ → Option ℕ
greatest [] = none
greatest (x ∷ xs) = greater (some x) (greatest xs)

greater_assoc : (a b c : Option ℕ) → greater (greater a b) c ≡ greater a (greater b c)
greater_assoc none b c = refl
greater_assoc (some a) none c = refl
greater_assoc (some a) (some b) none = refl
greater_assoc (some a) (some b) (some c) = ap some (omega arith)

greatest-append : (xs ys : List ℕ) → greatest (xs ++ ys) ≡ greater (greatest xs) (greatest ys)
unfolding greatest
greatest-append [] ys = refl
greatest-append (x ∷ xs) ys =
    ap (greater (some x)) (greatest-append xs ys)
    ∙ sym (greater_assoc (some x) (greatest xs) (greatest ys))

take_entry-here :
    (s height : ℕ) (closest : ℕ → Option ℕ)
    → take_entry (s, height) closest s ≡ greater (closest s) (some height)
unfolding take_entry
take_entry-here s height closest = elim (Option-cases (closest s)) [
  | inl none_yet ↦ rw (take_entry, none_yet) (put_same s (some height) closest)
  | inr (h, there) ↦ elim (Bool-cases (ltb h height)) [
    | inl more ↦
        let larger : max h height ≡ height = omega (arith, ltb→lt h height more) in
        rw (take_entry, there, more, larger) (put_same s (some height) closest)
    | inr less ↦
        let larger : max h height ≡ h = ground arith in rw (take_entry, there, less, larger) there
  ]
]

take_entry-there :
    (s t height : ℕ) (closest : ℕ → Option ℕ) → s ≢ t → take_entry (t, height) closest s ≡ closest s
unfolding take_entry
take_entry-there s t height closest other = elim (Option-cases (closest t)) [
  | inl none_yet ↦ rw (take_entry, none_yet) (put_other t s (some height) closest other)
  | inr (h, there) ↦ elim (Bool-cases (ltb h height)) [
    | inl more ↦ rw (take_entry, there, more) (put_other t s (some height) closest other)
    | inr less ↦ rw (take_entry, there, less) refl
  ]
]

greater-none : (a : Option ℕ) → greater a none ≡ a
greater-none none = refl
greater-none (some a) = refl

take_state-greatest :
    (s : ℕ) (state : PoolState) (closest : ℕ → Option ℕ)
    → take_state state closest s ≡ greater (closest s) (greatest (heights_of s state))
unfolding take_state heights_of greatest
take_state-greatest s [] closest = sym (greater-none (closest s))
take_state-greatest s (e ∷ state) closest = elim (ℕ_discrete e.0 s) [
  | yes same ↦
      let here : (e.0 == s) ≡ true = ground arith in
      rw here (
        take_state-greatest s state (take_entry e closest)
        ∙ ap (λ a. greater a (greatest (heights_of s state)))
            (subst (λ t. take_entry (t, e.1) closest s ≡ greater (closest s) (some e.1)) (sym same)
              (take_entry-here s e.1 closest))
        ∙ greater_assoc (closest s) (some e.1) (greatest (heights_of s state)))
  | no other ↦
      let there : (e.0 == s) ≡ false = ground arith in
      rw there (
        take_state-greatest s state (take_entry e closest)
        ∙ ap (λ a. greater a (greatest (heights_of s state)))
            (take_entry-there s e.0 e.1 closest (λ same. other (sym same))))
]

take_states-greatest :
    (s : ℕ) (states : List PoolState) (closest : ℕ → Option ℕ)
    → take_states states closest s ≡ greater (closest s) (greatest (reported s states))
unfolding take_states reported greatest
take_states-greatest s [] closest = sym (greater-none (closest s))
take_states-greatest s (state ∷ states) closest =
    take_states-greatest s states (take_state state closest)
    ∙ ap (λ a. greater a (greatest (reported s states))) (take_state-greatest s state closest)
    ∙ greater_assoc (closest s) (greatest (heights_of s state)) (greatest (reported s states))
    ∙ ap (greater (closest s)) (sym (greatest-append (heights_of s state) (reported s states)))

-- For each shard, GetClosestPoolState has the greatest of all heights that the states report of it,
-- and nothing for a shard that none of them has.
pub get_closest_pool_state-greatest :
    (states : List PoolState) (s : ℕ)
    → get_closest_pool_state states s ≡ greatest (reported s states)
unfolding get_closest_pool_state
get_closest_pool_state-greatest states s = take_states-greatest s states (λ t. none)
