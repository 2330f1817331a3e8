-- ===== src/Clpa/Outside.antt =====
-- pbftOutside_moduleCLPA.go: relayed and injected transactions as in the Relay mode, and the
-- messages of the re-partitioning. `none` is a panic.
use blockchain_sharding.Base.{
  ℕ, ◌+◌, Bool, true, ◌||◌, Option, none, some, List, [], ◌∷◌, ◌++◌, Bytes, Dict, insert, nat_eq,
  nat_beq, leb, if◌then◌else◌, length,
}
use blockchain_sharding.Core.Transaction.{Transaction}
use blockchain_sharding.Chain.Backend.{Backend}
use blockchain_sharding.Chain.Proof.{Prover, TxProofResult}
use blockchain_sharding.Pbft.Messages.{
  RelayMsg, PartitionModifiedMap, PartitionReady, AccountStateAndTx,
}
use blockchain_sharding.Pbft.Node.{Node}
use blockchain_sharding.Relay.Inside.{Chain}
use blockchain_sharding.Relay.Outside.{handle_relay, handle_relay_with_proof, handle_inject_tx}
use blockchain_sharding.Clpa.State.{DataSupport, ClpaChain}

-- The types of messages that the module takes, and any other, which is ignored.
pub data ClpaOutsideMsg : Type 0 where
  relay : RelayMsg → ClpaOutsideMsg
  relay_with_proof : RelayMsg → List TxProofResult → ClpaOutsideMsg
  inject : List Transaction → ClpaOutsideMsg
  partition_msg : PartitionModifiedMap → ClpaOutsideMsg
  account_state_and_tx : AccountStateAndTx → ClpaOutsideMsg
  partition_ready : PartitionReady → ClpaOutsideMsg
  other : ClpaOutsideMsg

-- The log prints the first ten bytes of one key of the map, the first of its iteration; a shorter
-- key is a slice out of range.
abbrev pub loggable : Dict Bytes ℕ → Bool
loggable [] = true
loggable ((k, v) ∷ m) = leb 10 (length k)

unfoldable pub handle_partition_msg : PartitionModifiedMap → DataSupport → Option DataSupport
handle_partition_msg pm cdm =
    if loggable pm.partition_modified
    then some (record cdm {
      modified_map = cdm.modified_map ++ pm.partition_modified ∷ [];
      partition_on = true;
    })
    else none

unfoldable pub handle_partition_ready : PartitionReady → DataSupport → DataSupport
handle_partition_ready pr cdm = record cdm {
  partition_ready = insert pr.from_shard true cdm.partition_ready;
  ready_seq = insert pr.from_shard pr.now_seq_id cdm.ready_seq;
}

-- `len(AccountStateTx) == int(ShardNums)-1`; with no shard the right side is -1.
unfoldable pub handle_account_state_and_tx_msg : ℕ → AccountStateAndTx → DataSupport → DataSupport
handle_account_state_and_tx_msg shard_nums at cdm =
    let received = insert at.from_shard at cdm.account_state_tx in
    record cdm {
      account_state_tx = received;
      collect_over = nat_beq (length received + 1) shard_nums || cdm.collect_over;
    }

module _ (be : Backend) (prover : Prover be) where
  abbrev pub with_cdm : DataSupport → Node (ClpaChain be) → Node (ClpaChain be)
  with_cdm cdm n = record n { chain = record (n.chain) { cdm = cdm } }

  -- The node as one of the Relay mode, and back.
  abbrev pub relay_node : Node (ClpaChain be) → Node (Chain be)
  relay_node n = record { pbft = n.pbft; chain = n.chain.chain }

  abbrev pub from_relay_node : Node (ClpaChain be) → Node (Chain be) → Node (ClpaChain be)
  from_relay_node n r = record { pbft = r.pbft; chain = record (n.chain) { chain = r.chain } }

  unfoldable pub clpa_message_outside_pbft :
      ClpaOutsideMsg → Node (ClpaChain be) → Option (Node (ClpaChain be))
  unfolding handle_partition_msg handle_partition_ready handle_account_state_and_tx_msg
  clpa_message_outside_pbft (relay msg) n =
      some (from_relay_node n (handle_relay be prover msg (relay_node n)))
  clpa_message_outside_pbft (relay_with_proof msg proofs) n =
      elim (handle_relay_with_proof be prover msg proofs (relay_node n)) [
        | none ↦ none
        | some r ↦ some (from_relay_node n r)
      ]
  clpa_message_outside_pbft (inject txs) n =
      some (from_relay_node n (handle_inject_tx be prover txs (relay_node n)))
  clpa_message_outside_pbft (partition_msg pm) n = elim (handle_partition_msg pm n.chain.cdm) [
    | none ↦ none
    | some cdm ↦ some (with_cdm cdm n)
  ]
  clpa_message_outside_pbft (account_state_and_tx at) n = some (
      with_cdm
        (handle_account_state_and_tx_msg n.chain.chain.bc.chain_config.shard_nums at n.chain.cdm) n)
  clpa_message_outside_pbft (partition_ready pr) n =
      some (with_cdm (handle_partition_ready pr n.chain.cdm) n)
  clpa_message_outside_pbft other n = some n
