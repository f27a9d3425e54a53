-- ===== src/Common/Bytes.antt =====
-- common/common.go: numbers as little-endian bytes.
use cash_prototype.Base.{
  ℕ, ◌+◌, ◌*◌, ◌/◌, ◌%◌, ◌<◌, ◌≡◌, refl, ap, ◌↔◌, Bool, true, false, ◌&&◌, List, [], ◌∷◌, ◌++◌,
  arith, ◌==◌, Outcome, done, panic, u64_mod,
}

abbrev pub Bytes : Type 0
Bytes = List ℕ

abbrev pub u32_mod : ℕ
u32_mod = 0x100000000

-- Uint32ToBytes
unfoldable pub uint32_to_bytes : ℕ → Bytes
uint32_to_bytes v = (v % 256) ∷ (v / 256 % 256) ∷ (v / 65536 % 256) ∷ (v / 16777216 % 256) ∷ []

-- BytesToUint32: `binary.LittleEndian` panics where the slice has fewer than four bytes.
unfoldable pub bytes_to_uint32 : Bytes → Outcome ℕ
bytes_to_uint32 (a ∷ b ∷ c ∷ d ∷ rest) = done (a + 256 * b + 65536 * c + 16777216 * d)
bytes_to_uint32 (a ∷ b ∷ c ∷ []) = panic
bytes_to_uint32 (a ∷ b ∷ []) = panic
bytes_to_uint32 (a ∷ []) = panic
bytes_to_uint32 [] = panic

-- Uint64ToBytes
unfoldable pub uint64_to_bytes : ℕ → Bytes
unfolding uint32_to_bytes
uint64_to_bytes v = uint32_to_bytes (v % u32_mod) ++ uint32_to_bytes (v / u32_mod)

-- BytesToUint64, and `binary.LittleEndian.Uint64`
unfoldable pub bytes_to_uint64 : Bytes → Outcome ℕ
bytes_to_uint64 (a ∷ b ∷ c ∷ d ∷ e ∷ f ∷ g ∷ h ∷ rest) = done (
    a + 256 * b + 65536 * c + 16777216 * d + 0x100000000 * (e + 256 * f + 65536 * g + 16777216 * h))
bytes_to_uint64 short = panic

pub bytes_to_uint32-uint32_to_bytes :
    (v : ℕ) → v < u32_mod → bytes_to_uint32 (uint32_to_bytes v) ≡ done v
unfolding bytes_to_uint32 uint32_to_bytes
bytes_to_uint32-uint32_to_bytes v lt = ap done (omega arith)

pub bytes_to_uint64-uint64_to_bytes :
    (v : ℕ) → v < u64_mod → bytes_to_uint64 (uint64_to_bytes v) ≡ done v
unfolding bytes_to_uint64 uint64_to_bytes
bytes_to_uint64-uint64_to_bytes v lt = ap done (omega arith)

-- Equality of byte slices.
unfoldable pub bytes_eq : Bytes → Bytes → Bool
bytes_eq [] [] = true
bytes_eq [] (b ∷ bs) = false
bytes_eq (a ∷ as') [] = false
bytes_eq (a ∷ as') (b ∷ bs) = a == b && bytes_eq as' bs

pub bytes_eq_iff : (a b : Bytes) → (bytes_eq a b ≡ true) ↔ (a ≡ b)
unfolding bytes_eq
bytes_eq_iff [] [] = (λ h. refl, λ h. refl)
bytes_eq_iff [] (b ∷ bs) = (λ h. cc, λ h. cc)
bytes_eq_iff (a ∷ as') [] = (λ h. cc, λ h. cc)
bytes_eq_iff (a ∷ as') (b ∷ bs) =
    (λ h. ground (arith, (bytes_eq_iff as' bs).0), λ h. ground (arith, (bytes_eq_iff as' bs).1))
