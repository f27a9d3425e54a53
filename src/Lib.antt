-- ===== src/Lib.antt =====
-- The pools, the validators, the agreement of a committee, the cross-shard blocks, the votes and the
-- choice of coins of a node of the cash prototype's sharded chain.
--
-- Blocks and transactions that a node receives wait in the pools of mempool/ until they are put in
-- a chain. The beacon chain's processing, blockchain/beaconprocess.go, swaps the validators of the
-- committees, removes them from the pending lists and assigns candidates to shards. A shard block
-- sends coins and tokens to the other shards in cross-shard blocks, with a path in the Merkle tree
-- whose root the shard block's header has. The database keeps the votes for the boards under keys
-- that are made of texts, numbers and addresses. A committee agrees on a block in phases: a member
-- listens for a block, collects the others' points, and then their signatures.
--
-- What models what:
-- - Mempool.Heights: the slices of blocks sorted by height that the block pools have in common,
--   with the capacity check and the loops over them; its children have the lemmas: Sorting, Runs
--   (consecutive heights), Room (the capacity check) and Adding (a block that passed the checks).
-- - Mempool.BeaconPool: mempool/beacon_pool.go.
-- - Mempool.ShardPool: mempool/shard_pool.go.
-- - Mempool.ShardToBeaconPool: mempool/shard_to_beacon_pool_v2.go.
-- - Mempool.CrossShardPool: mempool/cross_shard_pool_v2.go, with ValidateAggSignature of
--   blockchain/multisigs.go, and the next heights that InsertBeaconBlock of
--   blockchain/beaconprocess.go stores for it (Stores).
-- - Mempool.TxPool: mempool/mempool.go; its children are about the checks of
--   maybeAcceptTransaction (Checks, Conditions, Singles), their outcomes (Outcomes, Panicking), what
--   the pool holds then (Accepting), serial numbers (Spending), coins (Coins) and calls (Calls).
-- - Transaction: what the transaction pool reads of a transaction, from transaction/txprivacy.go,
--   transaction/txcustomtoken.go and transaction/txcustomtokenprivacy.go.
-- - Metadata: GetValidStaker of metadata/staking.go. Common: IndexOfStr of common/common.go.
-- - Common.Membership: membership in the lists that the code loops over.
-- - Blockchain.Validators: the utilities of blockchain/beaconprocess.go for validators, with
--   SwapValidator, RemoveValidator, AssignValidator, AssignValidatorShard, VerifyValidator and
--   calculateCandidateShardID.
-- - Blockchain.BeaconState: the best beacon state of blockchain/beaconbeststate.go with
--   GetPubkeyRole, GetValidStakers of blockchain/beaconproducer.go, and Update of
--   blockchain/beaconprocess.go as far as it reads and writes the validators and candidates; its
--   children are about the places of an epoch (Epochs), swap instructions (Swaps) and roles
--   (Stakers).
-- - Blockchain.Merkle: blockchain/merkle.go; Rounds has the lemmas about the array, Root those about
--   its last entry.
-- - Blockchain.CrossShard: the functions of blockchain/shardutils.go for what a shard block sends to
--   the others (Tree: the Merkle tree and its paths; Block: the hashes and the cross-shard blocks),
--   with CreateCrossShardBlock and CreateAllCrossShardBlock of blockchain/shardblock.go; its other
--   children are about the grouping by shard (Grouping), the paths (Paths), the blocks that are sent
--   (Sending), the shards that a transaction reaches (Reaching) and those that are marked (Marking).
-- - Database.Keys and Database.VoteKeys: database/lvdb/parsekeyvote.go, with the payment addresses of
--   privacy/key.go. Database.Votes, Database.Proposals and Database.Governors: database/lvdb/vote.go,
--   with the order of the candidates of database/candidate.go.
-- - Spending: Knapsack and Greedy of privacy/knapsack.go, and chooseBestOutCoinsToSpent of
--   rpcserver/common.go.
-- - Consensus.PoolStates: GetClosestPoolState of consensus/constantbft/utils.go. Consensus.Signing:
--   consensus/constantbft/bftmultisig.go and GetPubKeysFromIdx. Consensus.Protocol: Start of
--   consensus/constantbft/bft.go as a state machine, which messages and ends of time drive; its
--   children are about what holds in its phases (Phases, Signatures), the block that it returns
--   (Agreement), its end (Ending), the early end of the commit phase (Closing), the signatures of a
--   quorum (Quorum) and messages that are not checked (Forging). Consensus.Table: maps with strings
--   as keys.
-- - Common.Bytes: the encodings of uint32 and uint64 of common/common.go.
-- - Base: numbers, lists, maps, results and texts that all of them share.
--
-- How the code is read:
-- - A definition has the name of its Go function. A method takes the pool and returns the pool that
--   it leaves; an error is an `err`, a panic an outcome of its own. The singletons are values, and
--   the locks are left out: each method is one step, and sequences of steps are lists of calls or,
--   for the cross-shard pool, a relation.
-- - A uint64 is a number, with its wrap-around written out; its theorems ask for heights below 2^64.
--   An int that is made from a uint64 is its 64-bit pattern. Conditions `below 2^62` keep the
--   difference of two heights from being read with the wrong sign.
-- - A Go map is its lookup function, or an association list where the code counts or lists its
--   entries. A loop over a map whose rounds do not depend on each other is one round for each key.
-- - Recursion is on the lists that the code loops over. Computed with fuel are the decimal digits of a
--   number, with one more than the number, which has no more digits than that; the next power of two
--   of a number, with as many doublings as the number; and the loops over the Merkle tree of a block,
--   which return `none` when the fuel runs out: the number of leaves is enough for the tree, and that
--   of its entries for a path.
-- - Parameters: the last byte of the hash of a text, the order of ShuffleCandidate (that of
--   an iteration over a Go map), the committees that the cross-shard pool reads,
--   the validations of a transaction that read the chain or the proofs, which may panic, the hashes of bytes and of token data, the operations of the
--   multi-signatures and the checks of a block before it is signed, and the key-value database with the laws that
--   a successful write is read again and leaves the other keys. The theorems hold for any of them.
--
-- Not modelled: the network, the handlers of the RPC server, what the database keeps but the votes, the
-- privacy proofs, the engine of the consensus with the messages that it sends, the checks and the
-- production of blocks, the wallet and the start-up of the node; the fee estimator and the times of
-- pooled transactions.
mod Base
pub mod Spending
pub mod Consensus
pub mod Database
pub mod Common
pub mod Metadata
pub mod Transaction
pub mod Mempool
pub mod Blockchain
