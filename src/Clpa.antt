-- ===== src/Clpa.antt =====
-- The message module of the CLPA mode (consensus_shard/pbft_all): blocks and relaying as in the
-- Relay mode, and the exchange of accounts and transactions between shards when accounts are
-- moved to other shards.
pub mod State
pub mod Send
pub mod Transfer
pub mod Inside
pub mod Outside
pub mod Queue
pub mod Accounts
pub mod Install
pub mod Missing
