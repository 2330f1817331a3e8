-- ===== src/Chain/Blocks.antt =====
-- Making, checking and adding blocks: `GetTxTreeRoot`, `GetBloomFilter`, `GenerateBlock`,
-- `IsValidBlock`, `AddBlock`, `NewGenisisBlock`, `AddGenisisBlock`, `AddAccounts`,
-- `NewBlockChain`. `none` is a panic.
use blockchain_sharding.Base.{
  ℕ, ◌+◌, not, Option, none, some, List, [], ◌∷◌, Bytes, nat_beq, bytes_beq, if◌then◌else◌, ◌>>=◌,
  u64,
}
use blockchain_sharding.Params.{ChainConfig, GlobalConfig}
use blockchain_sharding.Utils.{mod_bytes}
use blockchain_sharding.Core.Account.{AccountState}
use blockchain_sharding.Core.Block.{BlockHeader, Block, new_block}
use blockchain_sharding.Core.Transaction.{Transaction}
use blockchain_sharding.Core.Txpool.{new_tx_pool, pack_txs, pack_txs_with_bytes, add_txs_to_pool}
use blockchain_sharding.Chain.Backend.{Backend}
use blockchain_sharding.Chain.Storage
use blockchain_sharding.Chain.State.{BlockChain, get_update_status_trie, put_accounts}

-- A set of bits as the list of the bits that were set.
unfoldable pub bloom_bits : List Transaction → List ℕ
bloom_bits [] = []
bloom_bits (tx ∷ txs) = mod_bytes tx.tx_hash 2048 ∷ bloom_bits txs

unfoldable pub get_bloom_filter : List Transaction → List ℕ
unfolding bloom_bits
get_bloom_filter txs = bloom_bits txs

module _ (be : Backend) where
  open be use {tries, buckets, codec}
  open tries use {Trie, TrieDb, empty_trie, get, update, root, open_trie, commit}
  open codec use {header_digest}

  unfoldable pub hash_tree : Trie → List Transaction → Trie
  hash_tree t [] = t
  hash_tree t (tx ∷ txs) = hash_tree (update t tx.tx_hash (0 ∷ [])) txs

  unfoldable pub get_tx_tree_root : List Transaction → Bytes
  unfolding hash_tree
  get_tx_tree_root txs = root (hash_tree empty_trie txs)

  -- `SendTx2Pool`
  unfoldable pub send_tx_to_pool : (ℕ → ℕ) → BlockChain be → List Transaction → BlockChain be
  send_tx_to_pool now bc txs = record bc { txpool = add_txs_to_pool now bc.txpool txs }

  -- A block's hash is the digest of its header.
  abbrev pub sealed : BlockHeader → List Transaction → Block
  sealed bh txs = record (new_block bh txs) { hash = header_digest bh }

  -- The block that `GenerateBlock` puts together from the packed transactions and their root.
  unfoldable pub mined_block : BlockChain be → ℕ → ℕ → Bytes → List Transaction → Block
  mined_block bc now miner rt txs =
      sealed
        (record {
          parent_block_hash = bc.current_block.hash;
          state_root = rt;
          tx_root = get_tx_tree_root txs;
          bloom = get_bloom_filter txs;
          number = u64 (bc.current_block.header.number + 1);
          time = now;
          miner = miner;
        })
        txs

  -- The size of one transaction is what `unsafe.Sizeof` says of the struct.
  unfoldable pub generate_block : ℕ → ℕ → BlockChain be → ℕ → Option (BlockChain be × Block)
  generate_block size_of now bc miner = do
    let (pool, txs) =
        if nat_beq bc.globals.use_blocksize_in_bytes 1
        then pack_txs_with_bytes size_of bc.txpool bc.globals.blocksize_in_bytes
        else pack_txs bc.txpool bc.chain_config.block_size
    (bc', rt) ← get_update_status_trie be (record bc { txpool = pool }) txs
    some (bc', mined_block bc now miner rt txs)

  pub data BlockError : Type 0 where
    wrong_parent_hash wrong_tx_root : BlockError

  -- `none` is the nil error: the block is valid.
  unfoldable pub is_valid_block : BlockChain be → Block → Option BlockError
  is_valid_block bc b =
      if not (bytes_beq b.header.parent_block_hash bc.current_block.hash)
      then some wrong_parent_hash
      else if not (bytes_beq (get_tx_tree_root b.body) b.header.tx_root)
      then some wrong_tx_root
      else none

  -- The transactions are executed only if the trie of the block is not known yet.
  unfoldable pub execute_unknown : BlockChain be → Block → Option (BlockChain be)
  execute_unknown bc b = elim (open_trie bc.triedb b.header.state_root) [
    | some _ ↦ some bc
    | none ↦ elim (get_update_status_trie be bc b.body) [ none ↦ none | some (bc', _) ↦ some bc' ]
  ]

  -- What `AddBlock` does with a block that passes its two checks.
  unfoldable pub append_block : BlockChain be → Block → Option (BlockChain be)
  append_block bc b = do
    bc' ← execute_unknown bc b
    some (record bc' { current_block = b; storage = Storage.add_block buckets codec bc'.storage b })

  unfoldable pub add_block : BlockChain be → Block → Option (BlockChain be)
  add_block bc b =
      if not (nat_beq b.header.number (u64 (bc.current_block.header.number + 1)))
      then some bc
      else if not (bytes_beq b.header.parent_block_hash bc.current_block.hash)
      then some bc
      else append_block bc b

  unfoldable pub new_genesis_block : Block
  new_genesis_block =
      sealed
        (record {
          parent_block_hash = [];
          state_root = root empty_trie;
          tx_root = get_tx_tree_root [];
          bloom = get_bloom_filter [];
          number = 0;
          time = 0;
          miner = 0;
        })
        []

  -- The stored block is read back as the current one.
  unfoldable pub add_genesis_block : BlockChain be → Block → Option (BlockChain be)
  add_genesis_block bc gb = do
    let storage = Storage.add_block buckets codec bc.storage gb
    newest ← Storage.get_newest_block_hash buckets codec storage
    cur ← Storage.get_block buckets codec storage newest
    some (record bc { storage = storage; current_block = cur })

  -- `NewBlockChain` over a storage that may hold a chain and over its trie database.
  unfoldable pub new_block_chain :
      ChainConfig → GlobalConfig → TrieDb → Storage.Storage buckets codec → Option (BlockChain be)
  new_block_chain cc globals db storage =
      let bc : BlockChain be = record {
        triedb = db;
        chain_config = cc;
        globals = globals;
        current_block = new_genesis_block;
        storage = storage;
        txpool = new_tx_pool;
        partition_map = [];
      } in
      elim (Storage.get_newest_block_hash buckets codec storage) [
        | none ↦ add_genesis_block bc new_genesis_block
        | some newest ↦ (do
          curb ← Storage.get_block buckets codec storage newest
          st ← open_trie db curb.header.state_root
          some (record bc { current_block = curb }))
      ]

  -- The trie with the accounts of this shard put in, and its root.
  unfoldable pub store_accounts :
      BlockChain be → List (Bytes × AccountState) → Option (TrieDb × Bytes)
  store_accounts bc [] = some (bc.triedb, bc.current_block.header.state_root)
  store_accounts bc (a ∷ rest) = do
    st ← open_trie bc.triedb bc.current_block.header.state_root
    st' ← put_accounts be bc (a ∷ rest) st
    some (commit bc.triedb st', root st')

  -- The empty block of that state root, on top of the chain.
  unfoldable pub append_accounts : BlockChain be → TrieDb → Bytes → BlockChain be
  append_accounts bc db rt =
      let b =
        sealed
          (record {
            parent_block_hash = bc.current_block.hash;
            state_root = rt;
            tx_root = get_tx_tree_root [];
            bloom = get_bloom_filter [];
            number = u64 (bc.current_block.header.number + 1);
            time = 0;
            miner = 0;
          })
          [] in
      record bc {
        triedb = db;
        current_block = b;
        storage = Storage.add_block buckets codec bc.storage b;
      }

  -- `AddAccounts`; the addresses and the states come in pairs.
  unfoldable pub add_accounts : BlockChain be → List (Bytes × AccountState) → Option (BlockChain be)
  unfolding store_accounts append_accounts
  add_accounts bc accounts = do
    (db, rt) ← store_accounts bc accounts
    some (append_accounts bc db rt)
