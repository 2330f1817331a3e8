-- ===== src/Tests/Chains.antt =====
-- A small shard: blocks, accounts and proofs.
use blockchain_sharding.Base.{
  map, ℕ, ◌≡◌, refl, Bool, true, not, none, some, List, [], ◌∷◌, ◌++◌, Bytes, All, arith, pos, ◌≤ℤ◌,
  bytes_beq, if◌then◌else◌,
}
use blockchain_sharding.Core.Transaction.{Transaction}
use blockchain_sharding.Core.Block.{Block}
use blockchain_sharding.Chain.Storage
use blockchain_sharding.Chain.State.{
  BlockChain, get_partition_map, sender_in, recipient_in, handle_txs, get_update_status_trie,
}
use blockchain_sharding.Chain.Ledger.{
  debits, credits, IsRouted, HasRoute, balance_in, transfers, handle_txs-transfers,
}
use blockchain_sharding.Chain.Conservation.{total}
use blockchain_sharding.Chain.Money.{handle_txs-total, handle_txs-nonneg}
use blockchain_sharding.Chain.Execution.{HasState, get_update_status_trie-transfers}
use blockchain_sharding.Chain.Blocks.{
  add_block, append_block, execute_unknown, generate_block, is_valid_block, new_block_chain,
  get_bloom_filter, get_tx_tree_root,
}
use blockchain_sharding.Chain.Growth.{
  IsStored, Extends, Adds, add_block-Adds, Reach, here, next, adds, restart_after_growth,
  add_block_unknown_root,
}
use blockchain_sharding.Chain.Leader.{generate_block_lem}
use blockchain_sharding.Chain.Merkle.{
  tx_proof_generate_on_the_block, tx_proof_batch_generate_on_block, tx_proof_verify, proof_accepted,
  proof_accepted_for_any, HasProof,
}
use blockchain_sharding.Tests.World.{
  world, map_buckets, list_codec, key_prover, map_root, shard, genesis, alice, bob, carol, pay,
}

abbrev txs : List Transaction
txs = pay alice carol (pos 3) ∷ pay alice bob (pos 4) ∷ []

abbrev keeps_sender : Transaction → Bool
keeps_sender tx = true

-- Shard 0 keeps alice and carol.
abbrev keeps_recipient : Transaction → Bool
keeps_recipient tx = not (bytes_beq tx.recipient bob)

routed : All (IsRouted world (shard 0) keeps_sender keeps_recipient) txs
unfolding sender_in recipient_in pay
routed = ((refl, refl), ((refl, refl), tt))

abbrev shard_of : Bytes → ℕ
shard_of a = if bytes_beq a bob then 1 else 0

txs-HasRoute : All (HasRoute world (shard 0) shard_of) txs
unfolding pay get_partition_map
txs-HasRoute = ((λ e. refl, refl), ((λ e. refl, refl), tt))

handle_txs-transfers_example :
    (st' : world.tries.Trie) × (cnt' : ℕ) × (handle_txs world (shard 0) 0 txs ([], 0)
      ≡ some (st', cnt'))
    × (balance_in world st'
        ≡ transfers (debits 0 shard_of) (credits 0 shard_of) txs (balance_in world []))
handle_txs-transfers_example = handle_txs-transfers world (shard 0) shard_of 0 txs [] 0 txs-HasRoute

abbrev inside : List Transaction
inside = pay alice carol (pos 3) ∷ pay carol alice (pos 4) ∷ []

inside-HasRoute : All (HasRoute world (shard 0) shard_of) inside
unfolding pay get_partition_map
inside-HasRoute = ((λ e. refl, refl), ((λ e. refl, refl), tt))

handle_txs-total_example :
    (st' : world.tries.Trie) × (cnt' : ℕ) × (handle_txs world (shard 0) 0 inside ([], 0)
      ≡ some (st', cnt'))
    × (total (balance_in world st') (alice ∷ carol ∷ [])
        ≡ total (balance_in world []) (alice ∷ carol ∷ []))
unfolding pay
handle_txs-total_example =
    handle_txs-total world (shard 0) shard_of 0 inside [] 0 (alice ∷ carol ∷ []) inside-HasRoute
      ((refl, refl), ((refl, refl), tt)) ((refl, refl), ((refl, refl), tt))

handle_txs-nonneg_example :
    (st' : world.tries.Trie) × (cnt' : ℕ) × (handle_txs world (shard 0) 0 txs ([], 0)
      ≡ some (st', cnt'))
    × (pos 0 ≤ℤ balance_in world st' bob)
unfolding pay balance_in
handle_txs-nonneg_example =
    handle_txs-nonneg world (shard 0) shard_of 0 txs [] 0 txs-HasRoute
      (omega arith, (omega arith, tt)) (λ x. omega arith) bob

get_update_status_trie-transfers_example :
    (db : world.tries.TrieDb) × (r : Bytes) × (st' : world.tries.Trie) × (get_update_status_trie
        world
        (shard 0)
        txs
      ≡ some (record (shard 0) { triedb = db }, r))
    × (world.tries.open_trie db r ≡ some st')
    × (balance_in world st' ≡ transfers keeps_sender keeps_recipient txs (balance_in world []))
get_update_status_trie-transfers_example =
    get_update_status_trie-transfers world (shard 0) keeps_sender keeps_recipient txs [] refl routed

-- The leader of shard 0 with the two transactions queued, and the block that it makes.
abbrev leader : BlockChain world
leader = record (shard 0) { txpool = record { tx_queue = txs; relay_pool = none } }

leader-IsRouted : All (IsRouted world leader keeps_sender keeps_recipient) txs
unfolding sender_in recipient_in pay
leader-IsRouted = ((refl, refl), ((refl, refl), tt))

generate_block_lem_example :
    (bc' : BlockChain world) × (b : Block) × (st' : world.tries.Trie) × (generate_block world 100 9
        leader 0
      ≡ some (bc', b))
    × (b.body ++ bc'.txpool.tx_queue ≡ txs)
    × Extends world bc' b
    × (is_valid_block world bc' b ≡ none)
    × (add_block world bc' b
        ≡ some (record bc' {
          current_block = b;
          storage = Storage.add_block map_buckets list_codec bc'.storage b;
        }))
    × HasState world bc' b.header.state_root st'
    × (balance_in world st' ≡ transfers keeps_sender keeps_recipient b.body (balance_in world []))
generate_block_lem_example =
    generate_block_lem world 100 9 0 leader keeps_sender keeps_recipient [] refl leader-IsRouted

-- An empty block on top of the genesis block, and one with a state root that nobody has.
abbrev empty_block : Bytes → Block
empty_block root = record {
  header = record {
    parent_block_hash = genesis.hash;
    state_root = root;
    tx_root = map_root [];
    bloom = [];
    number = 1;
    time = 9;
    miner = 0;
  };
  body = [];
  hash = 1 ∷ [];
}

abbrev grown : BlockChain world
grown = elim (add_block world (shard 0) (empty_block (map_root []))) [
  | none ↦ shard 0
  | some bc ↦ bc
]

add_block-Adds_example : Adds world (shard 0) (empty_block (map_root [])) grown
unfolding add_block append_block execute_unknown
add_block-Adds_example = add_block-Adds world (shard 0) (empty_block (map_root [])) grown refl

shard-IsStored : IsStored world (shard 0)
unfolding Storage.add_block Storage.get_newest_block_hash Storage.get_block
    Storage.update_newest_block Storage.add_block_header Storage.new_storage
shard-IsStored = record { newest = refl; held = refl }

growing : Reach world (shard 0) grown
unfolding add_block append_block execute_unknown
growing = next here (adds (empty_block (map_root [])) refl)

restart_after_growth_example :
    (r : BlockChain world) × (new_block_chain world grown.chain_config grown.globals grown.triedb
        grown.storage
      ≡ some r)
    × (r.current_block ≡ grown.current_block)
    × (r.storage ≡ grown.storage)
unfolding add_block append_block execute_unknown
restart_after_growth_example =
    restart_after_growth world (shard 0) grown {st = []} shard-IsStored growing refl

add_block_unknown_root_example :
    (bc' : BlockChain world) × (add_block world (shard 0) (empty_block (5 ∷ [])) ≡ some bc')
    × (bc'.current_block ≡ empty_block (5 ∷ []))
    × (get_update_status_trie world bc' txs ≡ none)
unfolding execute_unknown get_update_status_trie
add_block_unknown_root_example =
    add_block_unknown_root world (shard 0) (shard 0) (empty_block (5 ∷ []))
      (pay alice carol (pos 3)) (pay alice bob (pos 4) ∷ []) (refl, refl) refl refl

-- A block with the two transactions, sealed.
abbrev full_block : Block
full_block = record (empty_block []) {
  header = record ((empty_block []).header) {
    tx_root = get_tx_tree_root world txs;
    bloom = get_bloom_filter txs;
  };
  body = txs;
}

abbrev first_hash : Bytes
first_hash = (pay alice carol (pos 3)).tx_hash

abbrev both_hashes : List Bytes
both_hashes = (pay alice bob (pos 4)).tx_hash ∷ first_hash ∷ []

proof_accepted_example :
    (tx_proof_batch_generate_on_block world key_prover both_hashes full_block
      ≡ map (λ h. tx_proof_generate_on_the_block world key_prover h full_block) both_hashes)
    × All (HasProof world key_prover full_block) both_hashes
unfolding pay
proof_accepted_example =
    proof_accepted world key_prover both_hashes full_block
      (record { has_root = refl; has_bloom = refl }) (refl, (refl, tt))

proof_accepted_for_any_example :
    tx_proof_verify world key_prover
      (7 ∷ [])
      (tx_proof_generate_on_the_block world key_prover first_hash full_block)
    ≡ some true
unfolding pay
proof_accepted_for_any_example =
    proof_accepted_for_any world key_prover first_hash (7 ∷ []) full_block
      (record { has_root = refl; has_bloom = refl }) refl
