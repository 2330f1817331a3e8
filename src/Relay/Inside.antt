-- ===== src/Relay/Inside.antt =====
-- pbftInside_module.go, and `RelayMsgSend` and `RelayWithProofSend` of toolFuncs.go.
-- `none` is a panic. A block is decoded afresh, so marking its transactions as relayed changes the
-- stored block in no way, but it does change the current block in memory, which is the same object
-- where the chain has taken it. The CSV lines of the measurements are not modelled.
use blockchain_sharding.Base.{
  ℕ, zero, suc, ◌+◌, ◌-◌, ◌^◌, Bool, true, false, not, ◌&&◌, ◌||◌, Option, none, some, List, [],
  ◌∷◌, ◌++◌, Bytes, map, lookup, nat_beq, bytes_beq, bytes_eq, nat_eq, u64, if◌then◌else◌, length,
  ◌>>=◌,
}
use blockchain_sharding.Message.{codes}
use blockchain_sharding.Core.Transaction.{Transaction}
use blockchain_sharding.Core.Txpool.{TxPool, add_relay_tx, relays_of, clear_relay_pool}
use blockchain_sharding.Core.Block.{Block}
use blockchain_sharding.Chain.Backend.{Backend}
use blockchain_sharding.Chain.State.{BlockChain, get_partition_map}
use blockchain_sharding.Chain.Blocks.{generate_block, is_valid_block, add_block}
use blockchain_sharding.Chain.Proof.{Prover}
use blockchain_sharding.Chain.Merkle.{tx_proof_batch_generate_on_block}
use blockchain_sharding.Pbft.Messages.{
  Request, PrePrepare, Prepare, Commit, RequestOldMessage, SendOldMessage, RelayMsg, BlockInfoMsg,
  Out, Payload,
}
use blockchain_sharding.Pbft.Node.{PbftState}

abbrev pub block_request : Bytes
block_request = codes "Block"

-- The transactions of a block, sorted: within the shard, sent on, arrived; and the block's body as
-- it is afterwards.
pub record Sorted : Type 0 where
  pub pool : TxPool
  pub inner_shard_txs : List Transaction
  pub relay1_txs : List Transaction
  pub relay2_txs : List Transaction
  pub body : List Transaction

-- The time: `reads` counts how often it has been read.
pub record Clock : Type 0 where
  pub at : ℕ → ℕ
  pub reads : ℕ

abbrev pub read_time : Clock → ℕ × Clock
read_time c = (c.at c.reads, record c { reads = c.reads + 1 })

module _ (be : Backend) where
  open be use {codec}
  open codec use {encode_b, decode_b}

  -- The chain of a node, and its clock.
  pub record Chain : Type 0 where
    pub bc : BlockChain be
    pub clock : Clock

  abbrev pub mark_relayed : Transaction → Transaction
  mark_relayed tx = record tx { relayed = true }

  -- One round of the loop over `block.Body`, in the shard `shard_id`.
  unfoldable pub sort_tx : BlockChain be → ℕ → Transaction → Sorted → Option Sorted
  sort_tx bc shard_id tx s = do
    ssid ← get_partition_map be bc tx.sender
    rsid ← get_partition_map be bc tx.recipient
    if (not tx.relayed && not (nat_beq ssid shard_id))
          || (tx.relayed && not (nat_beq rsid shard_id))
        then none
        else if not (nat_beq rsid shard_id)
        then (elim (add_relay_tx s.pool (mark_relayed tx) rsid) [
          | none ↦ none
          | some pool ↦ some (record s {
            pool = pool;
            relay1_txs = s.relay1_txs ++ mark_relayed tx ∷ [];
            body = s.body ++ mark_relayed tx ∷ [];
          })
        ])
        else if tx.relayed
        then some (record s { relay2_txs = s.relay2_txs ++ tx ∷ []; body = s.body ++ tx ∷ [] })
        else some
            (record s { inner_shard_txs = s.inner_shard_txs ++ tx ∷ []; body = s.body ++ tx ∷ [] })

  unfoldable pub sort_txs : BlockChain be → ℕ → List Transaction → Sorted → Option Sorted
  sort_txs bc shard_id [] s = some s
  sort_txs bc shard_id (tx ∷ txs) s = elim (sort_tx bc shard_id tx s) [
    | none ↦ none
    | some s' ↦ sort_txs bc shard_id txs s'
  ]

  -- A new relay pool, and nothing sorted yet.
  abbrev pub unsorted : TxPool → Sorted
  unsorted pool = record {
    pool = record pool { relay_pool = some [] };
    inner_shard_txs = [];
    relay1_txs = [];
    relay2_txs = [];
    body = [];
  }

  -- The shards `sid`, ..., `sid + n - 1`, less the own one.
  unfoldable pub other_shards : ℕ → ℕ → ℕ → List ℕ
  other_shards shard_id zero sid = []
  other_shards shard_id (suc n) sid =
      let rest = other_shards shard_id n (sid + 1) in
      if nat_beq sid shard_id then rest else sid ∷ rest

  abbrev pub relay_msg_for : PbftState → TxPool → ℕ → RelayMsg
  relay_msg_for p pool sid = record {
    txs = relays_of pool sid;
    sender_shard_id = p.shard_id;
    sender_seq = p.sequence_id;
  }

  -- `RelayMsgSend`
  unfoldable pub relay_msg_send : PbftState → BlockChain be → Option (BlockChain be × List Out)
  unfolding other_shards
  relay_msg_send p bc =
      if not (nat_beq bc.globals.relay_with_merkle_proof 0)
      then none
      else some (
        record bc { txpool = clear_relay_pool bc.txpool },
        map (λ sid. Out.to_leader sid (Payload.relay (relay_msg_for p bc.txpool sid)))
            (other_shards p.shard_id bc.chain_config.shard_nums 0),
      )

  -- `RelayWithProofSend`
  unfoldable pub relay_with_proof_send :
      Prover be → PbftState → Block → BlockChain be → Option (BlockChain be × List Out)
  unfolding other_shards
  relay_with_proof_send prover p b bc =
      if not (nat_beq bc.globals.relay_with_merkle_proof 1)
      then none
      else some (
        record bc { txpool = clear_relay_pool bc.txpool },
        map
            (λ sid. Out.to_leader sid (
              Payload.relay_with_proof (relay_msg_for p bc.txpool sid) (
                tx_proof_batch_generate_on_block be prover
                  (map (λ tx. tx.tx_hash) (relays_of bc.txpool sid)) b)))
            (other_shards p.shard_id bc.chain_config.shard_nums 0),
      )

  unfoldable pub send_relays :
      Prover be → PbftState → Block → BlockChain be → Option (BlockChain be × List Out)
  unfolding relay_msg_send relay_with_proof_send
  send_relays prover p b bc =
      if nat_beq bc.globals.relay_with_merkle_proof 1
      then relay_with_proof_send prover p b bc
      else relay_msg_send p bc

  -- Whether `AddBlock` takes the block.
  abbrev pub takes_block : BlockChain be → Block → Bool
  takes_block bc b =
      nat_beq b.header.number (u64 (bc.current_block.header.number + 1))
      && bytes_beq b.header.parent_block_hash bc.current_block.hash

  abbrev pub block_info : PbftState → Request → Block → Sorted → ℕ → BlockInfoMsg
  block_info p r b s now = record {
    block_body_length = length b.body;
    inner_shard_txs = s.inner_shard_txs;
    epoch = 0;
    propose_time = r.req_time;
    commit_time = now;
    sender_shard_id = p.shard_id;
    relay1_txs = s.relay1_txs;
    relay2_txs = s.relay2_txs;
    broker1_txs = [];
    broker2_txs = [];
  }

  module _ (prover : Prover be) (size_of : ℕ) where
    unfoldable pub handle_in_propose : PbftState → Chain → Option (Chain × List Out × Request)
    handle_in_propose p c = do
      let (now, clock) = read_time c.clock
      (bc, b) ← generate_block be size_of now c.bc p.node_id
      let (req_time, clock') = read_time clock
      some (
        record { bc = bc; clock = clock' },
        [],
        record { request_type = block_request; content = encode_b b; req_time = req_time },
      )

    unfoldable pub handle_in_pre_prepare : PbftState → Chain → PrePrepare → Option (Chain × Bool)
    handle_in_pre_prepare p c msg =
        elim (is_valid_block be c.bc (decode_b msg.request_msg.content)) [
          | none ↦ some (c, true)
          | some _ ↦ some (c, false)
        ]

    unfoldable pub handle_in_prepare : PbftState → Chain → Prepare → Option Chain
    handle_in_prepare p c msg = some c

    -- The chain after the sorting.
    abbrev pub sorted_chain : Block → Sorted → Bool → BlockChain be → BlockChain be
    sorted_chain b s aliased bc = record bc {
      txpool = s.pool;
      current_block = if aliased then record b { body = s.body } else bc.current_block;
    }

    -- What the leader does with a block that it has just added; `aliased` says that the chain's
    -- current block is the object of this block.
    unfoldable pub relay_block :
        PbftState → Request → Block → Bool → Chain → Option (Chain × List Out)
    unfolding sort_txs send_relays
    relay_block p r b aliased c = do
      s ← sort_txs c.bc p.shard_id b.body (unsorted c.bc.txpool)
      (bc', outs) ←
          send_relays prover p (record b { body = s.body }) (sorted_chain b s aliased c.bc)
      let (now, clock) = read_time c.clock
      some (
        record { bc = bc'; clock = clock },
        outs ++ Out.to_supervisor (Payload.block_info (block_info p r b s now)) ∷ [],
      )

    unfoldable pub handle_in_commit : PbftState → Chain → Commit → Option (Chain × List Out)
    unfolding relay_block
    handle_in_commit p c msg = do
      r ← lookup msg.digest p.request_pool
      let b = decode_b r.content
      bc ← add_block be c.bc b
      if nat_beq p.node_id p.view
          then relay_block p r b (takes_block c.bc b) (record c { bc = bc })
          else some (record c { bc = bc }, [])

    unfoldable pub handle_request_for_old_seq : PbftState → Chain → RequestOldMessage → Option Chain
    handle_request_for_old_seq p c msg = some c

    -- The blocks among the requests are added in order.
    unfoldable pub add_old_blocks : List Request → BlockChain be → Option (BlockChain be)
    add_old_blocks [] bc = some bc
    add_old_blocks (r ∷ rs) bc =
        if bytes_beq r.request_type block_request
        then (elim (add_block be bc (decode_b r.content)) [
          | none ↦ none
          | some bc' ↦ add_old_blocks rs bc'
        ])
        else add_old_blocks rs bc

    -- `int(som.SeqEndHeight-som.SeqStartHeight+1) != len(som.OldRequest)`
    abbrev pub is_enough : SendOldMessage → Bool
    is_enough som =
        nat_beq (u64 (som.seq_end_height + 2 ^ 64 - som.seq_start_height + 1))
          (length som.old_request)

    unfoldable pub handle_for_sequential_request :
        PbftState → Chain → SendOldMessage → Option (Chain × ℕ)
    unfolding add_old_blocks
    handle_for_sequential_request p c som =
        if not (is_enough som) then some (c, p.sequence_id) else (do
          bc ← add_old_blocks som.old_request c.bc
          some (record c { bc = bc }, u64 (som.seq_end_height + 1)))
