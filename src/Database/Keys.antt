-- ===== src/Database/Keys.antt =====
-- database/lvdb/parsekeyvote.go: keys made of parts, and their parts back.
pub mod Parsing
use cash_prototype.Base.{
  panic, zero, length, ltb, if◌then◌else◌, ◌++◌, Outcome, done, ℕ, List, ◌∷◌, Bool, take, [], map,
  ◌==◌, ◌+◌, not, ◌-◌, suc, drop, min,
}
use cash_prototype.Common.Bytes.{Bytes}

pub data KeyError : Type 0 where
  length_mismatch : KeyError
  invalid_hash_length : KeyError

-- What a parser returns; a slice out of range panics.
pub data Parsed (A : Type 0) : Type 0 where
  parsed : A → Parsed A
  refused : KeyError → Parsed A
  panics : Parsed A

infixl 5 ◌>>=◌
abbrev pub ◌>>=◌ : {A B : Type 0} → Parsed A → (A → Parsed B) → Parsed B
parsed a >>= rest = rest a
refused e >>= rest = refused e
panics >>= rest = panics

-- A value that may panic.
abbrev pub run : {A : Type 0} → Outcome A → Parsed A
run (done a) = parsed a
run panic = panics

-- GetPosFromLength, without the 0 in front.
pub positions_from : ℕ → List ℕ → List ℕ
positions_from p [] = []
positions_from p (l ∷ ls) = (p + l) ∷ positions_from (p + l) ls

-- The last position.
pub final : ℕ → List ℕ → ℕ
final p [] = p
final p (q ∷ qs) = final q qs

-- CheckLength
unfoldable pub check_length : Bytes → ℕ → Bool
check_length key last_length = not (length key == last_length)

-- `copy(key[p:q], arg)`
pub copy_into : ℕ → ℕ → Bytes → Bytes → Bytes
copy_into p q arg key = take p key ++ take (q - p) arg ++ drop (p + min (q - p) (length arg)) key

pub write_parts : ℕ → List ℕ → List Bytes → Bytes → Bytes
write_parts p [] args key = key
write_parts p (q ∷ qs) [] key = key
write_parts p (q ∷ qs) (a ∷ args) key = write_parts q qs args (copy_into p q a key)

pub zeros : ℕ → Bytes
zeros zero = []
zeros (suc n) = 0 ∷ zeros n

-- GetKeyFromVariadic
unfoldable pub get_key_from_variadic : List Bytes → Bytes
unfolding positions_from final write_parts copy_into zeros
get_key_from_variadic args =
    let ends = positions_from 0 (map length args) in write_parts 0 ends args (zeros (final 0 ends))

-- `key[p:q]` for each two positions
pub parts : ℕ → List ℕ → Bytes → List Bytes
parts p [] key = []
parts p (q ∷ qs) key = take (q - p) (drop p key) ∷ parts q qs key

-- ParseKeyToSlice
unfoldable pub parse_key_to_slice : Bytes → List ℕ → Parsed (List Bytes)
unfolding positions_from final parts
parse_key_to_slice key lengths =
    let ends = positions_from 0 lengths in
    if final 0 ends == length key then parsed (parts 0 ends key) else refused length_mismatch
