-- ===== src/Pbft.antt =====
-- The consensus of one shard: consensus_shard/pbft_all.
pub mod Messages
pub mod Node
pub mod Interface
pub mod Handlers
pub mod Safety
pub mod Votes
pub mod CatchUp
pub mod ViewChange
pub mod Removal
pub mod Monitor
pub mod Runs
pub mod Marks
pub mod Once
pub mod Committed
