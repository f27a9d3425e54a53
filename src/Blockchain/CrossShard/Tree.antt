-- ===== src/Blockchain/CrossShard/Tree.antt =====
-- blockchain/shardutils.go: the Merkle tree of what a block sends to each shard, the path of a shard
-- in it, and the check of a path.
use cash_prototype.Base.{
  ℕ, zero, suc, ◌+◌, ◌-◌, ◌/◌, ◌%◌, Bool, Option, none, some, List, [], ◌∷◌, ◌++◌, leb, ◌==◌,
  if◌then◌else◌, length, get_elem?, Outcome, done, panic,
}
use cash_prototype.Common.Bytes.{Bytes, bytes_eq}

module _ (hash_h : Bytes → Bytes) where
  -- The loop of CreateShardTxRoot, with fuel for its rounds; `none` where it runs out, and a panic
  -- where the second of two entries is not there.
  unfoldable pub append_parents : ℕ → ℕ → List Bytes → Option (Outcome (List Bytes))
  append_parents zero cursor entries = none
  append_parents (suc fuel) cursor entries = elim (get_elem? entries cursor) [
    | none ↦ some panic
    | some v1 ↦ elim (get_elem? entries (cursor + 1)) [
      | none ↦ some panic
      | some v2 ↦
          let longer = entries ++ hash_h (v1 ++ v2) ∷ [] in
          let rest = append_parents fuel (cursor + 2) longer in
          if leb (length longer - 1) (cursor + 2) then some (done longer) else rest
    ]
  ]

  -- CreateShardTxRoot, of the hashes that getCrossShardDataHash returns; a tree has fewer rounds than
  -- leaves.
  unfoldable pub create_shard_tx_root : List Bytes → Option (Outcome (List Bytes))
  unfolding append_parents
  create_shard_tx_root hashes = append_parents (length hashes) 0 hashes

  -- VerifyMerkleTree
  unfoldable pub climb : ℕ → Bytes → List Bytes → Bytes
  climb i h [] = h
  climb i h (p ∷ path) =
      climb (i / 2) (if i % 2 == 0 then hash_h (h ++ p) else hash_h (p ++ h)) path

  unfoldable pub verify_merkle_tree : Bytes → List Bytes → Bytes → ℕ → Bool
  unfolding climb
  verify_merkle_tree final_hash path root receiver = bytes_eq (climb receiver final_hash path) root

-- The loop of GetMerklePathCrossShard, with fuel for its rounds.
unfoldable pub path_from :
    ℕ
    → (leaves : ℕ) (entries : List Bytes) (i cursor last_cursor time : ℕ)
    → Option (Outcome (List Bytes))
path_from zero leaves entries i cursor last_cursor time = none
path_from (suc fuel) leaves entries i cursor last_cursor time =
    let next = if time == 0 then cursor + leaves else cursor + (cursor - last_cursor) / 2 in
    let rest =
      path_from fuel leaves entries (i / 2) next (if time == 0 then last_cursor else cursor)
        (time + 1) in
    if leb (length entries - 2) cursor
    then some (done [])
    else elim (get_elem? entries (if i % 2 == 0 then cursor + i + 1 else cursor + i - 1)) [
      | none ↦ some panic
      | some p ↦ elim rest [
        | none ↦ none
        | some panic ↦ some panic
        | some (done path) ↦ some (done (p ∷ path))
      ]
    ]

-- The last entry; an empty slice has none.
abbrev pub last_entry : List Bytes → Bytes
last_entry [] = []
last_entry (x ∷ []) = x
last_entry (x ∷ y ∷ ys) = last_entry (y ∷ ys)

module _ (hash_h : Bytes → Bytes) where
  -- GetMerklePathCrossShard, of the hashes that getCrossShardDataHash returns: the path and the root.
  unfoldable pub get_merkle_path_cross_shard :
      List Bytes → ℕ → Option (Outcome (List Bytes × Bytes))
  unfolding create_shard_tx_root path_from
  get_merkle_path_cross_shard hashes shard_id = elim (create_shard_tx_root hash_h hashes) [
    | none ↦ none
    | some panic ↦ some panic
    | some (done entries) ↦
        elim (path_from (length entries) (length hashes) entries shard_id 0 0 0) [
          | none ↦ none
          | some panic ↦ some panic
          | some (done path) ↦ some (done (path, last_entry entries))
        ]
  ]
