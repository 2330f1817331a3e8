-- ===== src/Supervisor/Committee.antt =====
-- supervisor/committee: how the supervisor feeds the shards with transactions, and when it goes on
-- to the next epoch.
pub mod Sending
pub mod Relay
pub mod Epochs
pub mod Clpa
pub mod Delivered
pub mod Reports
pub mod Advance
