-- ===== src/Consensus.antt =====
-- consensus/constantbft: the protocol by which a committee agrees on a block.
pub mod Table
pub mod PoolStates
pub mod Signing
pub mod Protocol
mod Tests
