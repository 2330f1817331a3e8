-- ===== src/Chain/Growth.antt =====
-- The growth of the chain and its storage (chain/blockchain.go: AddBlock, AddAccounts,
-- AddGenisisBlock, NewBlockChain).
use blockchain_sharding.Base.{
  ◌+◌, ◌≡◌, ◌⊎◌, refl, sym, ap, inl, inr, Option, none, some, List, [], ◌∷◌, Bytes, nat_beq_iff,
  bytes_beq_iff, u64, arith, subst,
}
use blockchain_sharding.Core.Account.{AccountState}
use blockchain_sharding.Core.Block.{Block, new_block}
use blockchain_sharding.Core.Transaction.{Transaction}
use blockchain_sharding.Core.Txpool.{new_tx_pool}
use blockchain_sharding.Chain.Backend.{Backend}
use blockchain_sharding.Chain.Storage
use blockchain_sharding.Chain.State.{BlockChain, get_update_status_trie}
use blockchain_sharding.Chain.Blocks.{
  add_block, append_block, execute_unknown, add_accounts, store_accounts, append_accounts,
  add_genesis_block, new_block_chain,
}

module _ (be : Backend) where
  open be use {tries, buckets, codec}
  open tries use {TrieDb, open_trie}

  -- The current block is the one that the storage names as the newest, and holds.
  pub record IsStored (bc : BlockChain be) : Type 0 where
    pub newest : Storage.get_newest_block_hash buckets codec bc.storage ≡ some bc.current_block.hash
    pub held :
        Storage.get_block buckets codec bc.storage bc.current_block.hash ≡ some bc.current_block

  append-IsStored :
      (bc : BlockChain be) (b : Block)
      → IsStored
          (record bc { current_block = b; storage = Storage.add_block buckets codec bc.storage b })
  append-IsStored bc b =
      let (n, h, _, _) = Storage.add_block_lem buckets codec bc.storage b [] in
      record { newest = n; held = h }

  -- A block that extends the chain: the next height, on top of the current block.
  abbrev pub Extends : BlockChain be → Block → Type 0
  Extends bc b =
      (b.header.number ≡ u64 (bc.current_block.header.number + 1))
      × (b.header.parent_block_hash ≡ bc.current_block.hash)

  append_block-IsStored :
      (bc : BlockChain be) (b : Block) (bc' : BlockChain be)
      → append_block be bc b ≡ some bc'
      → (bc'.current_block ≡ b) × IsStored bc'
  unfolding append_block
  append_block-IsStored bc b bc' h = go (execute_unknown be bc b) refl
    where
      go :
          (r : Option (BlockChain be))
          → execute_unknown be bc b ≡ r
          → (bc'.current_block ≡ b) × IsStored bc'
      go none e = ground arith
      go (some bc1) e =
          let stored : BlockChain be = record bc1 {
            current_block = b;
            storage = Storage.add_block buckets codec bc1.storage b;
          } in
          let same : stored ≡ bc' = ground arith in
          (
            ap (λ (c : BlockChain be). c.current_block) (sym same),
            subst IsStored same (append-IsStored bc1 b),
          )

  -- What an attempt to add a block leads to.
  abbrev pub Adds : BlockChain be → Block → BlockChain be → Type 0
  Adds bc b bc' = (bc' ≡ bc) ⊎ (Extends bc b × (bc'.current_block ≡ b) × IsStored bc')

  -- Adding a block either changes nothing at all, or the block extends the chain and is now the
  -- current block, and the storage names it as the newest and holds it.
  pub add_block-Adds :
      (bc : BlockChain be) (b : Block) (bc' : BlockChain be)
      → add_block be bc b ≡ some bc'
      → Adds bc b bc'
  unfolding add_block
  add_block-Adds bc b bc' h = ground (
    arith,
    append_block-IsStored bc b bc',
    bytes_beq_iff b.header.parent_block_hash bc.current_block.hash,
    nat_beq_iff b.header.number (u64 (bc.current_block.header.number + 1)),
  )

  -- A block that does not extend the chain is refused, and nothing changes.
  add_block_refused :
      (bc : BlockChain be) (b : Block) → ¬ Extends bc b → add_block be bc b ≡ some bc
  unfolding add_block
  add_block_refused bc b h = ground (
    arith,
    bytes_beq_iff b.header.parent_block_hash bc.current_block.hash,
    nat_beq_iff b.header.number (u64 (bc.current_block.header.number + 1)),
  )

  add_accounts-IsStored :
      (bc : BlockChain be) (accounts : List (Bytes × AccountState)) (bc' : BlockChain be)
      → add_accounts be bc accounts ≡ some bc'
      → Extends bc bc'.current_block × IsStored bc'
  unfolding add_accounts append_accounts new_block
  add_accounts-IsStored bc accounts bc' h = go (store_accounts be bc accounts) refl
    where
      go :
          (r : Option (TrieDb × Bytes))
          → store_accounts be bc accounts ≡ r
          → Extends bc bc'.current_block × IsStored bc'
      go none e = ground arith
      go (some (db, rt)) e =
          let same : append_accounts be bc db rt ≡ bc' = ground arith in
          subst (λ c. Extends bc c.current_block × IsStored c) same
            ((refl, refl), append-IsStored (record bc { triedb = db }) _)

  -- The genesis block starts the chain.
  add_genesis_block-IsStored :
      (bc : BlockChain be) (gb : Block)
      → (bc' : BlockChain be) × (add_genesis_block be bc gb ≡ some bc')
        × (bc'.current_block ≡ gb)
        × IsStored bc'
  unfolding add_genesis_block
  add_genesis_block-IsStored bc gb =
      let (n, h, _, _) = Storage.add_block_lem buckets codec bc.storage gb [] in
      (
        record bc { storage = Storage.add_block buckets codec bc.storage gb; current_block = gb },
        rw (n, h) refl,
        refl,
        append-IsStored bc gb,
      )

  -- How a chain grows: by an attempt to add a block, or by the accounts of a re-partition.
  pub data Step (bc bc' : BlockChain be) : Type 0 where
    adds : (b : Block) → add_block be bc b ≡ some bc' → Step bc bc'
    transfers :
        (accounts : List (Bytes × AccountState))
        → add_accounts be bc accounts ≡ some bc'
        → Step bc bc'

  pub data Reach (bc : BlockChain be) : BlockChain be → Type 0 where
    here : Reach bc bc
    next : {c d : BlockChain be} → Reach bc c → Step c d → Reach bc d

  Step-IsStored : (bc bc' : BlockChain be) → Step bc bc' → IsStored bc → IsStored bc'
  Step-IsStored bc bc' (adds b e) h = go (add_block-Adds bc b bc' e)
    where
      go : Adds bc b bc' → IsStored bc'
      go (inl same) = subst IsStored (sym same) h
      go (inr (_, _, stored)) = stored
  Step-IsStored bc bc' (transfers accounts e) h = (add_accounts-IsStored bc accounts bc' e).1

  Reach-IsStored : {bc bc' : BlockChain be} → Reach bc bc' → IsStored bc → IsStored bc'
  Reach-IsStored here h = h
  Reach-IsStored (next {c} {d} r s) h = Step-IsStored c d s (Reach-IsStored r h)

  -- From a chain whose storage holds its current block, for instance after the genesis block,
  -- whatever blocks and accounts were added since: a node that restarts over the same storage and
  -- trie database comes up with the same current block, if the trie of that block can be opened.
  pub restart_after_growth :
      (bc bc' : BlockChain be) {st : tries.Trie}
      → IsStored bc
      → Reach bc bc'
      → open_trie bc'.triedb bc'.current_block.header.state_root ≡ some st
      → (r : BlockChain be) × (new_block_chain be bc'.chain_config bc'.globals bc'.triedb
            bc'.storage
          ≡ some r)
        × (r.current_block ≡ bc'.current_block)
        × (r.storage ≡ bc'.storage)
  unfolding new_block_chain
  restart_after_growth bc bc' stored reach opens =
      let s = Reach-IsStored reach stored in
      (
        record {
          triedb = bc'.triedb;
          chain_config = bc'.chain_config;
          globals = bc'.globals;
          current_block = bc'.current_block;
          storage = bc'.storage;
          txpool = new_tx_pool;
          partition_map = [];
        },
        rw (s.newest, s.held, opens, new_block_chain) refl,
        refl,
        refl,
      )

  -- The state root of a block is not checked: where the trie that it names cannot be opened even
  -- after its transactions were executed, the block is added all the same, and the next update of
  -- the status trie for a transaction panics.
  pub add_block_unknown_root :
      (bc bc1 : BlockChain be) (b : Block) (tx : Transaction) (txs : List Transaction)
      → Extends bc b
      → execute_unknown be bc b ≡ some bc1
      → open_trie bc1.triedb b.header.state_root ≡ none
      → (bc' : BlockChain be) × (add_block be bc b ≡ some bc')
        × (bc'.current_block ≡ b)
        × (get_update_status_trie be bc' (tx ∷ txs) ≡ none)
  unfolding add_block append_block get_update_status_trie
  add_block_unknown_root bc bc1 b tx txs (height, parent) run unknown = (
    record bc1 { current_block = b; storage = Storage.add_block buckets codec bc1.storage b },
    ground (
      arith,
      bytes_beq_iff b.header.parent_block_hash bc.current_block.hash,
      nat_beq_iff b.header.number (u64 (bc.current_block.header.number + 1)),
    ),
    refl,
    rw unknown refl,
  )
