-- ===== src/Broker/Epoch.antt =====
-- pbftInside_modCLPABroker.go: the message module of the CLPA-Broker mode inside the consensus.
-- `none` is a panic. Proposing waits, twice, for messages that are handled in the meantime; here it
-- is a sequence of attempts. The CSV lines of the measurements are not modelled.
use blockchain_sharding.Base.{
  ℕ, ◌+◌, Bool, true, false, not, ◌&&◌, ◌||◌, Option, none, some, List, [], ◌∷◌, ◌++◌, map, lookup,
  nat_beq, bytes_beq, bytes_eq, nat_eq, u64, if◌then◌else◌, ◌>>=◌,
}
use blockchain_sharding.Core.Transaction.{Transaction}
use blockchain_sharding.Core.Block.{Block}
use blockchain_sharding.Chain.Backend.{Backend}
use blockchain_sharding.Chain.State.{BlockChain, get_partition_map}
use blockchain_sharding.Chain.Blocks.{is_valid_block, add_block}
use blockchain_sharding.Chain.Proof.{Prover}
use blockchain_sharding.Pbft.Messages.{
  Request, PrePrepare, Prepare, Commit, RequestOldMessage, SendOldMessage, Out, Payload,
}
use blockchain_sharding.Pbft.Node.{PbftState}
use blockchain_sharding.Relay.Inside.{is_enough, other_shards, read_time, block_request}
use blockchain_sharding.Clpa.State.{ClpaChain, TransferCodec, partition_req}
use blockchain_sharding.Broker.Inside.{Dealt, is_nil, seq_info_to, dealt_info, broker_in_propose}
use blockchain_sharding.Broker.Transfer.{
  transfer_accounts_and_txs, announce_ready, all_are_ready, broker_transfer_do, propose_transfer,
}

-- Where `HandleinPropose` stands: before it, in the loop over getPartitionReady, in the one over
-- getCollectOver.
pub data Phase : Type 0 where
  begins waits_ready waits_accounts : Phase

-- An attempt sends, and either has a request or is in a phase.
pub data Attempt : Type 0 where
  waits : Phase → Attempt
  proposes : Request → Attempt

module _ (be : Backend) where
  -- Why a transaction of a block is a panic: a party of it that should be in the shard is not.
  unfoldable pub is_misplaced : Bool → Bool → Transaction → Bool
  is_misplaced sender_in recipient_in tx =
      (bytes_beq tx.sender tx.original_sender && not sender_in)
      || (bytes_beq tx.recipient tx.final_recipient && not recipient_in)
      || (is_nil tx.raw_tx_hash
          && (if tx.has_broker
              then (if tx.sender_is_broker then not recipient_in else not sender_in)
              else not sender_in || not recipient_in))

  abbrev pub put_dealt : Transaction → Dealt → Dealt
  put_dealt tx s =
      if bytes_beq tx.recipient tx.final_recipient
      then record s { broker2_txs = tx ∷ s.broker2_txs }
      else if bytes_beq tx.sender tx.original_sender
      then record s { broker1_txs = tx ∷ s.broker1_txs }
      else record s { inner_shard_txs = tx ∷ s.inner_shard_txs }

  -- The loop over `block.Body`; the lists are in the order of the block.
  unfoldable pub deal_placed_txs : BlockChain be → ℕ → List Transaction → Option Dealt
  unfolding is_misplaced
  deal_placed_txs bc shard_id [] =
      some (record { inner_shard_txs = []; broker1_txs = []; broker2_txs = [] })
  deal_placed_txs bc shard_id (tx ∷ txs) =
      let rest = deal_placed_txs bc shard_id txs in
      (do
        ssid ← get_partition_map be bc tx.sender
        rsid ← get_partition_map be bc tx.recipient
        s ← rest
        if is_misplaced (nat_beq ssid shard_id) (nat_beq rsid shard_id) tx
            then none
            else some (put_dealt tx s))

  module _ (prover : Prover be) (size_of : ℕ) (tc : TransferCodec) where
    open be use {codec}
    open codec use {decode_b}
    open tc use {decode_atm}

    -- One attempt of `HandleinPropose`.
    unfoldable pub attempt_propose :
        PbftState → ClpaChain be → Phase → Option (ClpaChain be × List Out × Attempt)
    attempt_propose p c begins =
        if c.cdm.partition_on
        then (let (c', outs) = announce_ready be p c in some (c', outs, waits waits_ready))
        else (do
          (chain, outs, r) ← broker_in_propose be size_of p c.chain
          some (record c { chain = chain }, outs, proposes r))
    attempt_propose p c waits_ready =
        if all_are_ready be p c
        then (do
          (c', outs) ← transfer_accounts_and_txs be p c
          some (c', outs, waits waits_accounts))
        else some (c, [], waits waits_ready)
    attempt_propose p c waits_accounts =
        if c.cdm.collect_over
        then (do (c', r) ← propose_transfer be prover tc p c; some (c', [], proposes r))
        else some (c, [], waits waits_accounts)

    unfoldable epoch_in_pre_prepare :
        PbftState → ClpaChain be → PrePrepare → Option (ClpaChain be × Bool)
    epoch_in_pre_prepare p c msg =
        if bytes_beq msg.request_msg.request_type partition_req
        then some (c, true)
        else (elim (is_valid_block be c.chain.bc (decode_b msg.request_msg.content)) [
          | none ↦ some (c, true)
          | some _ ↦ some (c, false)
        ])

    unfoldable epoch_in_prepare : PbftState → ClpaChain be → Prepare → Option (ClpaChain be)
    epoch_in_prepare p c msg = some c

    -- What the leader does with a block that it has just added.
    unfoldable report_epoch_block :
        PbftState → Request → Block → ClpaChain be → Option (ClpaChain be × List Out)
    unfolding deal_placed_txs
    report_epoch_block p r b c = do
      s ← deal_placed_txs c.chain.bc p.shard_id b.body
      let (now, clock) = read_time c.chain.clock
      some (
        record c { chain = record (c.chain) { clock = clock } },
        map (seq_info_to p) (other_shards be p.shard_id c.chain.bc.chain_config.shard_nums 0)
            ++ Out.to_supervisor
                (Payload.block_info (dealt_info p r b s c.cdm.account_transfer_round now))
              ∷ [],
      )

    unfoldable epoch_in_commit :
        PbftState → ClpaChain be → Commit → Option (ClpaChain be × List Out)
    unfolding report_epoch_block
    epoch_in_commit p c msg = do
      r ← lookup msg.digest p.request_pool
      if bytes_beq r.request_type partition_req
          then (do c' ← broker_transfer_do be (decode_atm r.content) c; some (c', []))
          else (do
            let b = decode_b r.content
            bc ← add_block be c.chain.bc b
            let c' : ClpaChain be = record c { chain = record (c.chain) { bc = bc } }
            if nat_beq p.node_id p.view then report_epoch_block p r b c' else some (c', []))

    unfoldable epoch_request_for_old_seq :
        PbftState → ClpaChain be → RequestOldMessage → Option (ClpaChain be)
    epoch_request_for_old_seq p c msg = some c

    -- The old requests in order, blocks and re-partitionings.
    unfoldable redo_epoch_requests : List Request → ClpaChain be → Option (ClpaChain be)
    redo_epoch_requests [] c = some c
    redo_epoch_requests (r ∷ rs) c =
        elim (if bytes_beq r.request_type block_request
          then (do
            bc ← add_block be c.chain.bc (decode_b r.content)
            some (record c { chain = record (c.chain) { bc = bc } }))
          else broker_transfer_do be (decode_atm r.content) c) [
            | none ↦ none
            | some c' ↦ redo_epoch_requests rs c'
          ]

    unfoldable epoch_sequential_request :
        PbftState → ClpaChain be → SendOldMessage → Option (ClpaChain be × ℕ)
    unfolding redo_epoch_requests
    epoch_sequential_request p c som =
        if not (is_enough be prover size_of som) then some (c, p.sequence_id) else (do
          c' ← redo_epoch_requests som.old_request c
          some (c', u64 (som.seq_end_height + 1)))
