-- ===== src/Chain.antt =====
-- chain/blockchain.go and storage/storage.go: the blockchain of one node.
pub mod Backend
pub mod Storage
pub mod State
pub mod Ledger
pub mod Conservation
pub mod Execution
pub mod Blocks
pub mod Growth
pub mod Leader
pub mod Proof
pub mod Merkle
pub mod Money
