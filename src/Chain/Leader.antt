-- ===== src/Chain/Leader.antt =====
-- The leader's block: `GenerateBlock` with `IsValidBlock` and `AddBlock` (chain/blockchain.go).
use blockchain_sharding.Base.{
  ℕ, ◌+◌, ◌≡◌, refl, sym, Bool, none, some, List, [], ◌∷◌, ◌++◌, Bytes, nat_beq, if◌then◌else◌, u64,
  arith, All, subst, bytes_beq_refl, nat_beq_refl,
}
use blockchain_sharding.Core.Block.{Block, new_block}
use blockchain_sharding.Core.Transaction.{Transaction}
use blockchain_sharding.Core.Txpool.{TxPool, pack_txs, pack_txs_with_bytes}
use blockchain_sharding.Core.Txpool.Packing.{pack_txs_lem, pack_txs_with_bytes_lem}
use blockchain_sharding.Chain.Backend.{Backend}
use blockchain_sharding.Chain.Storage
use blockchain_sharding.Chain.State.{BlockChain, sender_in, recipient_in}
use blockchain_sharding.Chain.Ledger.{IsRouted, transfers, balance_in}
use blockchain_sharding.Chain.Execution.{HasState, get_update_status_trie-transfers}
use blockchain_sharding.Chain.Blocks.{
  generate_block, mined_block, add_block, append_block, execute_unknown, is_valid_block,
  get_tx_tree_root,
}
use blockchain_sharding.Chain.Growth.{Extends}

All-prefix {ℓ κ} :
    {A : Type ℓ} (P : A → Type κ) (xs ys zs : List A) → xs ++ ys ≡ zs → All P zs → All P xs
All-prefix P [] ys zs e h = tt
All-prefix P (x ∷ xs) ys zs e h =
    let h' = subst (All P) (sym e) h in (h'.0, All-prefix P xs ys (xs ++ ys) refl h'.1)

module _ (be : Backend) where
  open be use {tries, buckets, codec}
  open tries use {Trie, open_trie}

  -- The pool and the packed transactions, by number or by size.
  packs : ℕ → BlockChain be → TxPool × List Transaction
  packs size_of bc =
      if nat_beq bc.globals.use_blocksize_in_bytes 1
      then pack_txs_with_bytes size_of bc.txpool bc.globals.blocksize_in_bytes
      else pack_txs bc.txpool bc.chain_config.block_size

  packs_prefix :
      (size_of : ℕ) (bc : BlockChain be)
      → let (pool, txs) = packs size_of bc in txs ++ pool.tx_queue ≡ bc.txpool.tx_queue
  unfolding packs
  packs_prefix size_of bc = ground (
    arith,
    pack_txs_lem bc.txpool bc.chain_config.block_size,
    pack_txs_with_bytes_lem size_of bc.globals.blocksize_in_bytes bc.txpool,
  )

  -- A mined block of a root that can be opened is valid, and is added without an execution.
  mined_block_accepted :
      (bc : BlockChain be) (now miner : ℕ) (r : Bytes) (txs : List Transaction) (st : Trie)
      → open_trie bc.triedb r ≡ some st
      → let b = mined_block be bc now miner r txs in
        (is_valid_block be bc b ≡ none)
        × (add_block be bc b
            ≡ some (record bc {
              current_block = b;
              storage = Storage.add_block buckets codec bc.storage b;
            }))
  unfolding mined_block new_block is_valid_block add_block append_block execute_unknown
  mined_block_accepted bc now miner r txs st has = (
    rw (bytes_beq_refl bc.current_block.hash, bytes_beq_refl (get_tx_tree_root be txs)) refl,
    rw
        (
          nat_beq_refl (u64 (bc.current_block.header.number + 1)),
          bytes_beq_refl bc.current_block.hash,
          has,
          append_block,
          execute_unknown,
        )
        refl,
  )

  -- A leader whose current trie can be opened, and whose queued transactions all have shards, makes
  -- a block without a panic. The block takes the front of the queue, extends the leader's chain,
  -- passes the validity check and is added without executing its transactions again; the trie under
  -- its state root holds the balances of the abstract ledger after its transactions.
  pub generate_block_lem :
      (size_of now miner : ℕ) (bc : BlockChain be) (from_here to_here : Transaction → Bool)
      (st : Trie)
      → HasState be bc bc.current_block.header.state_root st
      → All (IsRouted be bc from_here to_here) bc.txpool.tx_queue
      → (bc' : BlockChain be) × (b : Block) × (st' : Trie) × (generate_block be size_of now bc miner
          ≡ some (bc', b))
        × (b.body ++ bc'.txpool.tx_queue ≡ bc.txpool.tx_queue)
        × Extends be bc' b
        × (is_valid_block be bc' b ≡ none)
        × (add_block be bc' b
            ≡ some (record bc' {
              current_block = b;
              storage = Storage.add_block buckets codec bc'.storage b;
            }))
        × HasState be bc' b.header.state_root st'
        × (balance_in be st' ≡ transfers from_here to_here b.body (balance_in be st))
  unfolding generate_block mined_block packs new_block sender_in recipient_in
  generate_block_lem size_of now miner bc from_here to_here st found routed =
      let (pool, txs) = packs size_of bc in
      let prefix = packs_prefix size_of bc in
      let (db, r, st', run, has, ledger) =
        get_update_status_trie-transfers be (record bc { txpool = pool }) from_here to_here txs st
          found
          (All-prefix (IsRouted be bc from_here to_here) txs pool.tx_queue bc.txpool.tx_queue prefix
            routed) in
      let accepted =
        mined_block_accepted (record bc { txpool = pool; triedb = db }) now miner r txs st' has in
      (
        record bc { txpool = pool; triedb = db },
        mined_block be bc now miner r txs,
        st',
        rw run refl,
        prefix,
        (refl, refl),
        accepted.0,
        accepted.1,
        has,
        ledger,
      )
