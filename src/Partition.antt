-- ===== src/Partition.antt =====
-- The partition of the accounts into shards by their transactions (partition/).
pub mod Graph
pub mod Undirected
pub mod State
pub mod Setup
pub mod Propagation
pub mod Totals
pub mod Moves
pub mod Result
pub mod Counted
pub mod Occupied
pub mod Aero
