-- ===== src/Broker.antt =====
-- The Broker modes: brokers stand between two shards, so that a transaction across shards becomes
-- two, one to a broker and one from it.
pub mod State
pub mod Desk
pub mod Inside
pub mod Reported
pub mod Behind
pub mod Outside
pub mod Transfer
pub mod Epoch
pub mod Committee
pub mod Regraph
pub mod Moved
pub mod Placed
pub mod Leaving
pub mod Repartitioned
pub mod Parts
pub mod Settled
pub mod Confirmed
pub mod Remembered
pub mod Dealt
pub mod Protocol
