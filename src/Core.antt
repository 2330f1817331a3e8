-- ===== src/Core.antt =====
-- The data of the emulator: core/transaction.go, core/block.go, core/account.go and the
-- transaction pool of core/txpool.go.
pub mod Transaction
pub mod Account
pub mod Block
pub mod Txpool
