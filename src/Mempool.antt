-- ===== src/Mempool.antt =====
-- The pools of mempool/.
pub mod Heights
pub mod BeaconPool
pub mod ShardPool
pub mod ShardToBeaconPool
pub mod CrossShardPool
pub mod TxPool
