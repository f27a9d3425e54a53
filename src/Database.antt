-- ===== src/Database.antt =====
-- database/lvdb: the keys and values that the node stores, and the votes for the boards.
pub mod Keys
pub mod VoteKeys
pub mod Votes
pub mod Proposals
pub mod Governors
mod Tests
