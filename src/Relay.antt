-- ===== src/Relay.antt =====
-- The message module that moves transactions between shards by relaying them, and what a node does
-- with the transactions that other shards and the supervisor send to it.
pub mod Inside
pub mod Outside
pub mod Sorting
pub mod Module
pub mod Messages
pub mod Skipping
pub mod Credit
