-- ===== src/Core/Block.antt =====
-- core/block.go: headers and blocks. The bloom filter is the list of its bits.
use blockchain_sharding.Base.{ℕ, Bytes, List, []}
use blockchain_sharding.Core.Transaction.{Transaction}

pub record BlockHeader : Type 0 where
  pub parent_block_hash : Bytes
  pub state_root : Bytes
  pub tx_root : Bytes
  pub bloom : List ℕ
  pub number : ℕ
  pub time : ℕ
  pub miner : ℕ

pub record Block : Type 0 where
  pub header : BlockHeader
  pub body : List Transaction
  pub hash : Bytes

-- The hash is filled in later.
unfoldable pub new_block : BlockHeader → List Transaction → Block
new_block bh bb = record { header = bh; body = bb; hash = [] }
