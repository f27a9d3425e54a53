-- ===== src/Blockchain/CrossShard/Paths.antt =====
-- The paths of a block's Merkle tree: each verifies, and no other leaf does.
use cash_prototype.Base.{
  ℕ, zero, suc, ◌/◌, ◌%◌, ◌≡◌, refl, sym, ◌∙◌, ◌≢◌, ◌⊎◌, inl, inr, true, false, some, List, [], ◌∷◌,
  ◌++◌, arith, ◌==◌, Bool-cases, length, get_elem?, All, done, append-injective,
}
use cash_prototype.Common.Bytes.{Bytes, bytes_eq, bytes_eq_iff}
use cash_prototype.Blockchain.CrossShard.Tree.{
  climb, verify_merkle_tree, append_parents, create_shard_tx_root, path_from,
  get_merkle_path_cross_shard,
}

bytes_ne : (x y : Bytes) → bytes_eq x y ≡ false → x ≢ y
bytes_ne x y other same = let equal = (bytes_eq_iff x y).1 same in cc

module _ (hash_h : Bytes → Bytes) where
  -- The tree of four hashes.
  abbrev pub root_of : Bytes → Bytes → Bytes → Bytes → Bytes
  root_of a b c d = hash_h (hash_h (a ++ b) ++ hash_h (c ++ d))

  -- For the hashes of the four shards and any of these, the two loops end without a panic, and
  -- VerifyMerkleTree accepts the path of a shard for its hash, with the root.
  pub get_merkle_path-verifies :
      (a b c d h : Bytes) (shard_id : ℕ)
      → get_elem? (a ∷ b ∷ c ∷ d ∷ []) shard_id ≡ some h
      → (path : List Bytes) × (get_merkle_path_cross_shard hash_h (a ∷ b ∷ c ∷ d ∷ []) shard_id
          ≡ some (done (path, root_of a b c d)))
        × (verify_merkle_tree hash_h h path (root_of a b c d) shard_id ≡ true)
        × (length path ≡ 2)
  unfolding get_merkle_path_cross_shard create_shard_tx_root append_parents path_from
      verify_merkle_tree climb
  get_merkle_path-verifies a b c d h zero e =
      (b ∷ hash_h (c ++ d) ∷ [], refl, (bytes_eq_iff _ _).1 (cc), refl)
  get_merkle_path-verifies a b c d h (suc zero) e =
      (a ∷ hash_h (c ++ d) ∷ [], refl, (bytes_eq_iff _ _).1 (cc), refl)
  get_merkle_path-verifies a b c d h (suc (suc zero)) e =
      (d ∷ hash_h (a ++ b) ∷ [], refl, (bytes_eq_iff _ _).1 (cc), refl)
  get_merkle_path-verifies a b c d h (suc (suc (suc zero))) e =
      (c ∷ hash_h (a ++ b) ∷ [], refl, (bytes_eq_iff _ _).1 (cc), refl)
  get_merkle_path-verifies a b c d h (suc (suc (suc (suc n)))) e = cc

  -- Two texts with one hash.
  abbrev pub Collision : Type 0
  Collision = (x : Bytes) × (y : Bytes) × (x ≢ y) × (hash_h x ≡ hash_h y)

  same_or_collision : (x y : Bytes) → hash_h x ≡ hash_h y → (x ≡ y) ⊎ Collision
  same_or_collision x y e = elim (Bool-cases (bytes_eq x y)) [
    | inl same ↦ inl ((bytes_eq_iff x y).0 same)
    | inr other ↦ inr (x, y, λ same. bytes_ne x y other same, e)
  ]

  climb-injective :
      ((x : Bytes) → length (hash_h x) ≡ 32)
      → (path path' : List Bytes) (i : ℕ) (h h' : Bytes) → length h ≡ 32
      → length h' ≡ 32
      → All (λ p. length p ≡ 32) path
      → All (λ p. length p ≡ 32) path'
      → length path ≡ length path'
      → climb hash_h i h path ≡ climb hash_h i h' path'
      → (h ≡ h') ⊎ Collision
  unfolding climb
  climb-injective size [] [] i h h' sh sh' sp sp' len e = inl e
  climb-injective size [] (q ∷ qs) i h h' sh sh' sp sp' len e = absurd (omega arith)
  climb-injective size (p ∷ ps) [] i h h' sh sh' sp sp' len e = absurd (omega arith)
  climb-injective size (p ∷ ps) (q ∷ qs) i h h' sh sh' sp sp' len e =
      elim (Bool-cases (i % 2 == 0)) [
        | inl left ↦
            elim (climb-injective size ps qs (i / 2) (hash_h (h ++ p)) (hash_h (h' ++ q)) (size _)
              (size _) sp.1 sp'.1 (omega arith) (rw left at e)) [
                | inr found ↦ inr found
                | inl same ↦ elim (same_or_collision (h ++ p) (h' ++ q) same) [
                  | inr found ↦ inr found
                  | inl joined ↦ inl (append-injective h h' p q (sh ∙ sym sh') joined).0
                ]
              ]
        | inr right ↦
            elim (climb-injective size ps qs (i / 2) (hash_h (p ++ h)) (hash_h (q ++ h')) (size _)
              (size _) sp.1 sp'.1 (omega arith) (rw right at e)) [
                | inr found ↦ inr found
                | inl same ↦ elim (same_or_collision (p ++ h) (q ++ h') same) [
                  | inr found ↦ inr found
                  | inl joined ↦ inl (append-injective p q h h' (sp.0 ∙ sym sp'.0) joined).1
                ]
              ]
      ]

  -- Two hashes that VerifyMerkleTree accepts for one shard and root, with paths of one length, are the
  -- same, unless two texts with one hash are found. All the hashes have 32 bytes.
  pub verify_merkle_tree_unique :
      ((x : Bytes) → length (hash_h x) ≡ 32)
      → (path path' : List Bytes) (i : ℕ) (h h' root : Bytes) → length h ≡ 32
      → length h' ≡ 32
      → All (λ p. length p ≡ 32) path
      → All (λ p. length p ≡ 32) path'
      → length path ≡ length path'
      → verify_merkle_tree hash_h h path root i ≡ true
      → verify_merkle_tree hash_h h' path' root i ≡ true
      → (h ≡ h') ⊎ Collision
  unfolding verify_merkle_tree
  verify_merkle_tree_unique size path path' i h h' root sh sh' sp sp' len e e' =
      climb-injective size path path' i h h' sh sh' sp sp' len
        ((bytes_eq_iff _ root).0 e ∙ sym ((bytes_eq_iff _ root).0 e'))
