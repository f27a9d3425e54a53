-- ===== src/Spending.antt =====
-- privacy/knapsack.go and rpcserver/common.go: choosing the coins that a transaction spends.
pub mod Knapsack
pub mod Choosing
pub mod Worth
pub mod Enough
mod Tests
