-- ===== src/Database/Keys/Parsing.antt =====
-- Keys made of parts: what ParseKeyToSlice accepts.
use cash_prototype.Base.{
  ℕ, zero, suc, ◌+◌, ◌-◌, min, ◌≡◌, refl, sym, ap, ◌∙◌, ◌≢◌, ◌↔◌, Bool, true, false, List, [], ◌∷◌,
  ◌++◌, map, append_assoc, flatten, arith, ◌==◌, if◌then◌else◌, ==→eq, ==_refl, length, take, drop,
  take-append-drop, length-take_of_le, take_all, length-drop, length-append, drop-drop,
  drop-length-append, take-length-append,
}
use cash_prototype.Database.Keys.{
  length_mismatch, refused, positions_from, zeros, write_parts, parts, parse_key_to_slice,
  get_key_from_variadic, final, copy_into, parsed, refused, length_mismatch,
}
use cash_prototype.Common.Bytes.{Bytes}

-- The sum of the lengths.
abbrev pub total : List ℕ → ℕ
total [] = 0
total (l ∷ ls) = l + total ls

-- One key cut into parts of the given lengths.
split : List ℕ → Bytes → List Bytes
split [] key = []
split (l ∷ ls) key = take l key ∷ split ls (drop l key)

pub final-positions_from : (p : ℕ) (ls : List ℕ) → final p (positions_from p ls) ≡ p + total ls
unfolding final positions_from
final-positions_from p [] = omega arith
final-positions_from p (l ∷ ls) = omega (arith, final-positions_from (p + l) ls)

pub length-flatten : (args : List Bytes) → length (flatten args) ≡ total (map length args)
unfolding flatten
length-flatten [] = refl
length-flatten (a ∷ args) = omega (arith, length-append {0} a (flatten args), length-flatten args)

zeros-length : (n : ℕ) → length (zeros n) ≡ n
unfolding zeros
zeros-length zero = refl
zeros-length (suc n) = omega (arith, zeros-length n)

nothing_left : (rest : Bytes) → length rest ≡ 0 → rest ≡ []
nothing_left [] e = refl
nothing_left (x ∷ rest) e = absurd (omega arith)

-- Where a part's place is, writing it puts it behind what is already written.
copy_into-append :
    (key arg rest : Bytes)
    → copy_into (length key) (length key + length arg) arg (key ++ rest)
      ≡ (key ++ arg) ++ drop (length arg) rest
unfolding copy_into
copy_into-append key arg rest =
    let room : length key + length arg - length key ≡ length arg = omega arith in
    let whole : min (length arg) (length arg) ≡ length arg = omega arith in
    let tail =
      sym (drop-drop (length key) (length arg) (key ++ rest))
      ∙ ap (drop (length arg)) (drop-length-append key rest) in
    rw (room, whole, tail, take-length-append key rest, take_all arg) refl

write_parts-append :
    (args : List Bytes) (p : ℕ) (key rest : Bytes)
    → p ≡ length key
    → length rest ≡ total (map length args)
    → write_parts p (positions_from p (map length args)) args (key ++ rest) ≡ key ++ flatten args
unfolding write_parts positions_from flatten
write_parts-append [] p key rest e le = ap (λ r. key ++ r) (nothing_left rest le)
write_parts-append (a ∷ args) p key rest e le =
    rw (e, copy_into-append key a rest)
      (write_parts-append args (length key + length a) (key ++ a) (drop (length a) rest)
          (sym (length-append key a)) (omega (arith, length-drop (length a) rest))
        ∙ append_assoc key a (flatten args))

-- GetKeyFromVariadic puts its arguments one behind the other.
pub get_key-flatten : (args : List Bytes) → get_key_from_variadic args ≡ flatten args
unfolding get_key_from_variadic
get_key-flatten args =
    let n = final 0 (positions_from 0 (map length args)) in
    write_parts-append args 0 [] (zeros n) refl
      (zeros-length n ∙ final-positions_from 0 (map length args) ∙ omega arith)

parts-split :
    (p : ℕ) (ls : List ℕ) (key : Bytes) → parts p (positions_from p ls) key ≡ split ls (drop p key)
unfolding parts positions_from split
parts-split p [] key = refl
parts-split p (l ∷ ls) key =
    let size : p + l - p ≡ l = omega arith in
    rw (size, parts-split (p + l) ls key, drop-drop p l key) refl

split-flatten : (args : List Bytes) → split (map length args) (flatten args) ≡ args
unfolding split flatten
split-flatten [] = refl
split-flatten (a ∷ args) =
    rw
      (take-length-append a (flatten args), drop-length-append a (flatten args), split-flatten args)
      refl

flatten-split :
    (ls : List ℕ) (key : Bytes)
    → total ls ≡ length key
    → (map length (split ls key) ≡ ls) × (flatten (split ls key) ≡ key)
unfolding split flatten
flatten-split [] key e = (refl, sym (nothing_left key (sym e)))
flatten-split (l ∷ ls) key e =
    let (lengths, same) = flatten-split ls (drop l key) (omega (arith, length-drop l key)) in
    (rw (length-take_of_le l key (omega arith), lengths) refl, rw same (take-append-drop l key))

parsed_parts :
    {A : Type 0} (fits : Bool) (a : A) {b : A}
    → (if fits then parsed a else refused length_mismatch) ≡ parsed b
    → (fits ≡ true) × (a ≡ b)
parsed_parts true a h = (refl, ground arith)
parsed_parts false a h = cc

-- ParseKeyToSlice returns just those parts that have the given lengths and of which
-- GetKeyFromVariadic makes the key.
pub parse_key_to_slice_iff :
    (key : Bytes) (lengths : List ℕ) (args : List Bytes)
    → (parse_key_to_slice key lengths ≡ parsed args)
      ↔ ((map length args ≡ lengths) × (get_key_from_variadic args ≡ key))
unfolding parse_key_to_slice
parse_key_to_slice_iff key lengths args = (
  λ h.
      let (fits, same) = parsed_parts (final 0 (positions_from 0 lengths) == length key) _ h in
      let size : total lengths ≡ length key =
        omega (arith, final-positions_from 0 lengths, ==→eq _ _ fits) in
      let (ls, whole) = flatten-split lengths key size in
      let cut = sym (parts-split 0 lengths key) ∙ same in
      (sym (ap (map length) cut) ∙ ls, get_key-flatten args ∙ sym (ap flatten cut) ∙ whole),
  λ (e, made).
      let whole = sym (get_key-flatten args) ∙ made in
      let size : final 0 (positions_from 0 lengths) ≡ length key =
        final-positions_from 0 lengths
        ∙ omega (arith, ap total e, length-flatten args, ap length whole) in
      let cut : parts 0 (positions_from 0 lengths) key ≡ args =
        parts-split 0 lengths key ∙ rw (← e, ← whole) (split-flatten args) in
      rw (size, cut) (rw (==_refl (length key)) refl),
)

-- Lengths that do not add up to that of the key are refused.
pub parse_key_to_slice-mismatch :
    (key : Bytes) (lengths : List ℕ)
    → total lengths ≢ length key
    → parse_key_to_slice key lengths ≡ refused length_mismatch
unfolding parse_key_to_slice
parse_key_to_slice-mismatch key lengths ne =
    let other : final 0 (positions_from 0 lengths) ≢ length key =
      λ e. ne (omega (arith, final-positions_from 0 lengths)) in
    ground arith

pub length-get_key :
    (args : List Bytes) → length (get_key_from_variadic args) ≡ total (map length args)
length-get_key args = ap length (get_key-flatten args) ∙ length-flatten args

pub parsed-injective : {A : Type 0} {a b : A} → parsed a ≡ parsed b → a ≡ b
parsed-injective e = cc

-- Different parts of the same lengths make different keys.
pub get_key-injective :
    (args others : List Bytes)
    → map length args ≡ map length others
    → get_key_from_variadic args ≡ get_key_from_variadic others
    → args ≡ others
get_key-injective args others lengths same =
    let cut =
      (parse_key_to_slice_iff (get_key_from_variadic others) (map length others) args).1
        (lengths, same) in
    let whole =
      (parse_key_to_slice_iff (get_key_from_variadic others) (map length others) others).1
        (refl, refl) in
    parsed-injective (sym cut ∙ whole)
