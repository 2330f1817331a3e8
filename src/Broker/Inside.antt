-- ===== src/Broker/Inside.antt =====
-- pbftInside_moduleBroker.go: the message module of the Broker mode inside the consensus. `none` is
-- a panic. The CSV lines of the measurements are not modelled; an empty `raw_tx_hash` is nil.
use blockchain_sharding.Base.{
  ℕ, zero, suc, ◌+◌, ◌-◌, ◌^◌, leb, Bool, true, false, not, ◌&&◌, Option, none, some, List, [], ◌∷◌,
  ◌++◌, Bytes, map, lookup, nat_beq, bytes_beq, bytes_eq, nat_eq, u64, if◌then◌else◌, length, ◌>>=◌,
}
use blockchain_sharding.Core.Transaction.{Transaction}
use blockchain_sharding.Core.Block.{Block}
use blockchain_sharding.Chain.Backend.{Backend}
use blockchain_sharding.Chain.State.{BlockChain}
use blockchain_sharding.Chain.Blocks.{generate_block, is_valid_block, add_block}
use blockchain_sharding.Pbft.Messages.{
  Request, PrePrepare, Prepare, Commit, RequestOldMessage, SendOldMessage, BlockInfoMsg, Out,
  Payload,
}
use blockchain_sharding.Pbft.Node.{PbftState}
use blockchain_sharding.Pbft.Interface.{ExtraOpInConsensus}
use blockchain_sharding.Relay.Inside.{Chain, other_shards, read_time, block_request}

abbrev pub is_nil : Bytes → Bool
is_nil [] = true
is_nil (b ∷ bs) = false

-- The transactions of a block by their kinds.
pub record Dealt : Type 0 where
  pub inner_shard_txs : List Transaction
  pub broker1_txs : List Transaction
  pub broker2_txs : List Transaction

abbrev pub is_broker1_tx : Transaction → Bool
is_broker1_tx tx = not (is_nil tx.raw_tx_hash) && bytes_beq tx.sender tx.original_sender

abbrev pub is_broker2_tx : Transaction → Bool
is_broker2_tx tx = not (is_nil tx.raw_tx_hash) && bytes_beq tx.recipient tx.final_recipient

-- The loop over `block.Body`; the lists are in the order of the block.
unfoldable pub deal_txs : List Transaction → Dealt
deal_txs [] = record { inner_shard_txs = []; broker1_txs = []; broker2_txs = [] }
deal_txs (tx ∷ txs) =
    let rest = deal_txs txs in
    if is_broker2_tx tx
    then record rest { broker2_txs = tx ∷ rest.broker2_txs }
    else if is_broker1_tx tx
    then record rest { broker1_txs = tx ∷ rest.broker1_txs }
    else record rest { inner_shard_txs = tx ∷ rest.inner_shard_txs }

-- The progress of the shard, to the leader of another one.
abbrev pub seq_info_to : PbftState → ℕ → Out
seq_info_to p sid =
    Out.to_leader sid
      (Payload.seq_id_info (record { sender_shard_id = p.shard_id; sender_seq = p.sequence_id }))

abbrev pub dealt_info : PbftState → Request → Block → Dealt → ℕ → ℕ → BlockInfoMsg
dealt_info p r b s epoch now = record {
  block_body_length = length b.body;
  inner_shard_txs = s.inner_shard_txs;
  epoch = epoch;
  propose_time = r.req_time;
  commit_time = now;
  sender_shard_id = p.shard_id;
  relay1_txs = [];
  relay2_txs = [];
  broker1_txs = s.broker1_txs;
  broker2_txs = s.broker2_txs;
}

-- `int(som.SeqStartHeight-som.SeqEndHeight) != len(som.OldRequest)`
abbrev has_span : SendOldMessage → Bool
has_span som =
    nat_beq (u64 (som.seq_start_height + 2 ^ 64 - som.seq_end_height)) (length som.old_request)

-- How often the loop over the heights runs.
abbrev pub heights : SendOldMessage → ℕ
heights som =
    if leb som.seq_start_height som.seq_end_height
    then som.seq_end_height + 1 - som.seq_start_height
    else 0

module _ (be : Backend) (size_of : ℕ) where
  open be use {codec}
  open codec use {encode_b, decode_b}

  unfoldable pub broker_in_propose : PbftState → Chain be → Option (Chain be × List Out × Request)
  broker_in_propose p c = do
    let (now, clock) = read_time c.clock
    (bc, b) ← generate_block be size_of now c.bc p.node_id
    let (req_time, clock') = read_time clock
    some (
      record { bc = bc; clock = clock' },
      [],
      record { request_type = block_request; content = encode_b b; req_time = req_time },
    )

  unfoldable pub broker_in_pre_prepare :
      PbftState → Chain be → PrePrepare → Option (Chain be × Bool)
  broker_in_pre_prepare p c msg = elim (is_valid_block be c.bc (decode_b msg.request_msg.content)) [
    | none ↦ some (c, true)
    | some _ ↦ some (c, false)
  ]

  unfoldable pub broker_in_prepare : PbftState → Chain be → Prepare → Option (Chain be)
  broker_in_prepare p c msg = some c

  -- What the leader does with a block that it has just added.
  unfoldable pub report_block : PbftState → Request → Block → Chain be → Chain be × List Out
  unfolding deal_txs
  report_block p r b c =
      let (now, clock) = read_time c.clock in
      (
        record c { clock = clock },
        map (seq_info_to p) (other_shards be p.shard_id c.bc.chain_config.shard_nums 0)
            ++ Out.to_supervisor (Payload.block_info (dealt_info p r b (deal_txs b.body) 0 now))
              ∷ [],
      )

  unfoldable pub broker_in_commit : PbftState → Chain be → Commit → Option (Chain be × List Out)
  unfolding report_block
  broker_in_commit p c msg = do
    r ← lookup msg.digest p.request_pool
    let b = decode_b r.content
    bc ← add_block be c.bc b
    let c' : Chain be = record c { bc = bc }
    if nat_beq p.node_id p.view then some (report_block p r b c') else some (c', [])

  unfoldable pub broker_request_for_old_seq :
      PbftState → Chain be → RequestOldMessage → Option (Chain be)
  broker_request_for_old_seq p c msg = some c

  -- The first `n` requests, of which each must be there; the blocks among them are added.
  unfoldable pub add_old_heights : ℕ → List Request → BlockChain be → Option (BlockChain be)
  add_old_heights zero rs bc = some bc
  add_old_heights (suc n) [] bc = none
  add_old_heights (suc n) (r ∷ rs) bc =
      if bytes_beq r.request_type block_request
      then (elim (add_block be bc (decode_b r.content)) [
        | none ↦ none
        | some bc' ↦ add_old_heights n rs bc'
      ])
      else add_old_heights n rs bc

  unfoldable pub broker_sequential_request :
      PbftState → Chain be → SendOldMessage → Option (Chain be × ℕ)
  unfolding add_old_heights
  broker_sequential_request p c som = if not (has_span som) then some (c, p.sequence_id) else (do
    bc ← add_old_heights (heights som) som.old_request c.bc
    some (record c { bc = bc }, u64 (som.seq_end_height + 1)))

  unfoldable pub broker_module : ExtraOpInConsensus (Chain be)
  broker_module = record {
    handle_in_propose = broker_in_propose;
    handle_in_pre_prepare = broker_in_pre_prepare;
    handle_in_prepare = broker_in_prepare;
    handle_in_commit = broker_in_commit;
    handle_request_for_old_seq = broker_request_for_old_seq;
    handle_for_sequential_request = broker_sequential_request;
  }
