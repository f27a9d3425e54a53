-- ===== src/Blockchain.antt =====
-- The chain logic of blockchain/.
pub mod Validators
pub mod Merkle
pub mod CrossShard
pub mod BeaconState
