-- ===== src/Blockchain/Validators/Tests.antt =====
-- beaconprocess.go: the validator functions at concrete inputs, and their theorems.
use cash_prototype.Blockchain.Validators.Assigning.{assign_validator-verified}
use cash_prototype.Blockchain.Validators.Removing.{EveryOther, remove_validator_iff, NoRepeats}
use cash_prototype.Blockchain.Validators.Swapping.{Swaps, Rotates, swap_validator-Swaps}
use cash_prototype.Blockchain.Validators.{
  Swap, swap_validator, remove_validator, assign_validator, wrong_format, SwapError,
  verify_validator,
}
use mathlib.Core.List.{Mem}
use cash_prototype.Base.{
  ℕ, List, [], ◌∷◌, ◌≡◌, refl, arith, some, none, done, pos, Outcome, String, Option, drop, ◌↔◌,
  All, min, length, true, ◌≢◌, ◌<◌, str_eq, false, str_eq_iff,
}

-- A free place and an exchange: b enters the free place, c replaces a.
abbrev swapped_two : Outcome (Swap × Option SwapError)
swapped_two = done (
  record { pending = "d" ∷ []; current = "b" ∷ "c" ∷ []; swapped = "a" ∷ []; incoming = "c" ∷ [] },
  none,
)

abbrev pending : List String
pending = "b" ∷ "c" ∷ "d" ∷ []

two_enter : swap_validator pending ("a" ∷ []) (pos 2) (pos 2) ≡ swapped_two
unfolding swap_validator
two_enter = refl

swap_validator-Swaps_example :
    Swaps
      (Rotates pending ("a" ∷ []) 2 (min 2 (length pending)))
      (swap_validator pending ("a" ∷ []) (pos 2) (pos 2))
swap_validator-Swaps_example =
    swap_validator-Swaps pending ("a" ∷ []) 2 2 (omega arith) (omega arith) (omega arith)

two_not_removed :
    remove_validator ("a" ∷ pending) ("a" ∷ "b" ∷ [])
    ≡ done ("b" ∷ "c" ∷ "d" ∷ [], some wrong_format)
unfolding remove_validator
two_not_removed = refl

every_other_removed :
    remove_validator ("a" ∷ pending) ("a" ∷ "c" ∷ []) ≡ done ("c" ∷ "d" ∷ [], none)
unfolding remove_validator
every_other_removed = refl

abbrev a_and_c : List String
a_and_c = "a" ∷ "c" ∷ []

remove_validator_iff_example :
    (remove_validator ("a" ∷ pending) ("a" ∷ "c" ∷ []) ≡ done ("c" ∷ "d" ∷ [], none)) ↔ (
      EveryOther 0 ("a" ∷ pending) ("a" ∷ "c" ∷ [])
      × ("c" ∷ "d" ∷ [] ≡ drop (length a_and_c) ("a" ∷ pending)))
remove_validator_iff_example =
    remove_validator_iff ("a" ∷ pending) ("a" ∷ "c" ∷ []) ("c" ∷ "d" ∷ [])

abbrev just_b : List String
just_b = "b" ∷ []

all_differ : NoRepeats ("a" ∷ "b" ∷ "c" ∷ [])
all_differ = (
  ((λ e. differ "a" "b" refl e), ((λ e. differ "a" "c" refl e), tt)),
  (((λ e. differ "b" "c" refl e), tt), (tt, tt)),
)
  where
    differ : (s t : String) → str_eq s t ≡ false → s ≢ t
    differ s t ne e = let same = (str_eq_iff s t).1 e in absurd (cc)

-- A stand-in for the last byte of the hash.
abbrev first_byte : List ℕ → ℕ
first_byte [] = 0
first_byte (n ∷ ns) = n

assign_validator-verified_example :
    (assigned : ℕ → List String) × (assign_validator first_byte pending (pos 7) 2 ≡ done assigned)
    × ((s : ℕ) → All (λ c. verify_validator first_byte c (pos 7) s 2 ≡ done true) (assigned s))
    × ((c : String) → Mem c pending → (s : ℕ) × (s < 2) × Mem c (assigned s))
assign_validator-verified_example =
    assign_validator-verified first_byte pending (pos 7) 2 (omega arith)

abbrev no_shards : ℕ
no_shards = 0
