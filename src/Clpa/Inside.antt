-- ===== src/Clpa/Inside.antt =====
-- pbftInside_moduleCLPA.go: the message module of the CLPA mode inside the consensus. `none` is a
-- panic. The CSV lines of the measurements are not modelled. The sending of relayed transactions is
-- that of the Relay mode.
use blockchain_sharding.Base.{
  ℕ, ◌+◌, Bool, true, false, not, Option, none, some, List, [], ◌∷◌, ◌++◌, lookup, nat_beq,
  bytes_beq, bytes_eq, nat_eq, u64, if◌then◌else◌, ◌>>=◌,
}
use blockchain_sharding.Core.Transaction.{Transaction}
use blockchain_sharding.Core.Txpool.{add_relay_tx}
use blockchain_sharding.Core.Block.{Block}
use blockchain_sharding.Chain.Backend.{Backend}
use blockchain_sharding.Chain.State.{BlockChain, get_partition_map}
use blockchain_sharding.Chain.Blocks.{is_valid_block, add_block}
use blockchain_sharding.Chain.Proof.{Prover}
use blockchain_sharding.Pbft.Messages.{
  Request, PrePrepare, Prepare, Commit, RequestOldMessage, SendOldMessage, Out, Payload,
}
use blockchain_sharding.Pbft.Node.{PbftState}
use blockchain_sharding.Pbft.Interface.{ExtraOpInConsensus}
use blockchain_sharding.Relay.Inside.{
  Sorted, unsorted, mark_relayed, send_relays, takes_block, sorted_chain, block_info, block_request,
  is_enough, read_time, handle_in_propose,
}
use blockchain_sharding.Clpa.State.{ClpaChain, TransferCodec, partition_req}
use blockchain_sharding.Clpa.Send.{send_accounts_and_txs}
use blockchain_sharding.Clpa.Transfer.{propose_partition, account_transfer_do}

module _ (be : Backend) where
  -- One round of the loop over `block.Body`: an account that has moved on is no reason to panic.
  unfoldable pub sort_moved_tx : BlockChain be → ℕ → Transaction → Sorted → Option Sorted
  sort_moved_tx bc shard_id tx s = do
    ssid ← get_partition_map be bc tx.sender
    rsid ← get_partition_map be bc tx.recipient
    if not (nat_beq rsid shard_id)
        then (elim (add_relay_tx s.pool (mark_relayed be tx) rsid) [
          | none ↦ none
          | some pool ↦ some (record s {
            pool = pool;
            relay1_txs = s.relay1_txs ++ mark_relayed be tx ∷ [];
            body = s.body ++ mark_relayed be tx ∷ [];
          })
        ])
        else if tx.relayed
        then some (record s { relay2_txs = s.relay2_txs ++ tx ∷ []; body = s.body ++ tx ∷ [] })
        else some
            (record s { inner_shard_txs = s.inner_shard_txs ++ tx ∷ []; body = s.body ++ tx ∷ [] })

  unfoldable pub sort_moved_txs : BlockChain be → ℕ → List Transaction → Sorted → Option Sorted
  sort_moved_txs bc shard_id [] s = some s
  sort_moved_txs bc shard_id (tx ∷ txs) s = elim (sort_moved_tx bc shard_id tx s) [
    | none ↦ none
    | some s' ↦ sort_moved_txs bc shard_id txs s'
  ]

  module _ (prover : Prover be) (size_of : ℕ) (tc : TransferCodec) where
    open be use {codec}
    open codec use {decode_b}
    open tc use {decode_atm}

    unfoldable pub clpa_in_propose :
        PbftState → ClpaChain be → Option (ClpaChain be × List Out × Request)
    clpa_in_propose p c =
        if c.cdm.partition_on
        then (do
          (c', outs) ← send_accounts_and_txs be p c
          (c'', r) ← propose_partition be prover tc p c'
          some (c'', outs, r))
        else (do
          (chain, outs, r) ← handle_in_propose be prover size_of p c.chain
          some (record c { chain = chain }, outs, r))

    unfoldable pub clpa_in_pre_prepare :
        PbftState → ClpaChain be → PrePrepare → Option (ClpaChain be × Bool)
    clpa_in_pre_prepare p c msg =
        if bytes_beq msg.request_msg.request_type partition_req
        then some (c, c.cdm.partition_on)
        else (elim (is_valid_block be c.chain.bc (decode_b msg.request_msg.content)) [
          | none ↦ some (c, true)
          | some _ ↦ some (c, false)
        ])

    unfoldable pub clpa_in_prepare : PbftState → ClpaChain be → Prepare → Option (ClpaChain be)
    clpa_in_prepare p c msg = some c

    -- What the leader does with a block that it has just added.
    unfoldable pub clpa_relay_block :
        PbftState → Request → Block → Bool → ClpaChain be → Option (ClpaChain be × List Out)
    unfolding sort_moved_txs
    clpa_relay_block p r b aliased c = do
      s ← sort_moved_txs c.chain.bc p.shard_id b.body (unsorted be c.chain.bc.txpool)
      (bc, outs) ←
          send_relays be prover p (record b { body = s.body })
            (sorted_chain be prover size_of b s aliased c.chain.bc)
      let (now, clock) = read_time c.chain.clock
      let info = block_info be p r b s now
      some (
        record c { chain = record { bc = bc; clock = clock } },
        outs
            ++ Out.to_supervisor
                (Payload.block_info (record info { epoch = c.cdm.account_transfer_round }))
              ∷ [],
      )

    unfoldable pub clpa_in_commit :
        PbftState → ClpaChain be → Commit → Option (ClpaChain be × List Out)
    unfolding clpa_relay_block
    clpa_in_commit p c msg = do
      r ← lookup msg.digest p.request_pool
      if bytes_beq r.request_type partition_req
          then (elim (account_transfer_do be (decode_atm r.content) c) [
            | none ↦ none
            | some c' ↦ some (c', [])
          ])
          else (do
            let b = decode_b r.content
            bc ← add_block be c.chain.bc b
            let c' : ClpaChain be = record c { chain = record (c.chain) { bc = bc } }
            if nat_beq p.node_id p.view
                then clpa_relay_block p r b (takes_block be c.chain.bc b) c'
                else some (c', []))

    unfoldable pub clpa_request_for_old_seq :
        PbftState → ClpaChain be → RequestOldMessage → Option (ClpaChain be)
    clpa_request_for_old_seq p c msg = some c

    -- The old requests in order, blocks and re-partitionings.
    unfoldable pub redo_old_requests : List Request → ClpaChain be → Option (ClpaChain be)
    redo_old_requests [] c = some c
    redo_old_requests (r ∷ rs) c =
        elim (if bytes_beq r.request_type block_request
          then (do
            bc ← add_block be c.chain.bc (decode_b r.content)
            some (record c { chain = record (c.chain) { bc = bc } }))
          else account_transfer_do be (decode_atm r.content) c) [
            | none ↦ none
            | some c' ↦ redo_old_requests rs c'
          ]

    unfoldable pub clpa_sequential_request :
        PbftState → ClpaChain be → SendOldMessage → Option (ClpaChain be × ℕ)
    unfolding redo_old_requests
    clpa_sequential_request p c som =
        if not (is_enough be prover size_of som)
        then some (c, p.sequence_id)
        else (do c' ← redo_old_requests som.old_request c; some (c', u64 (som.seq_end_height + 1)))

    unfoldable pub clpa_module : ExtraOpInConsensus (ClpaChain be)
    clpa_module = record {
      handle_in_propose = clpa_in_propose;
      handle_in_pre_prepare = clpa_in_pre_prepare;
      handle_in_prepare = clpa_in_prepare;
      handle_in_commit = clpa_in_commit;
      handle_request_for_old_seq = clpa_request_for_old_seq;
      handle_for_sequential_request = clpa_sequential_request;
    }
