-- ===== src/Broker/Outside.antt =====
-- pbftOutside_moduleBroker.go and pbftOutside_modCLPABroker.go: the progress of the other shards,
-- injected transactions, and the messages of the re-partitioning. `none` is a panic; the messages
-- are decoded.
use blockchain_sharding.Base.{
  ℕ, ◌+◌, true, ◌||◌, List, [], ◌∷◌, ◌++◌, insert, nat_eq, nat_beq, length,
}
use blockchain_sharding.Core.Transaction.{Transaction}
use blockchain_sharding.Chain.Backend.{Backend}
use blockchain_sharding.Chain.Proof.{Prover}
use blockchain_sharding.Pbft.Messages.{
  SeqIdInfo, PartitionModifiedMap, PartitionReady, AccountStateAndTx,
}
use blockchain_sharding.Pbft.Node.{PbftState, Node}
use blockchain_sharding.Relay.Inside.{Chain}
use blockchain_sharding.Relay.Outside.{pool_txs}
use blockchain_sharding.Clpa.State.{DataSupport, ClpaChain}

-- `CSeqIDinfo`, `CInject`, and any other type, which is ignored.
pub data BrokerOutsideMsg : Type 0 where
  seq_id_info : SeqIdInfo → BrokerOutsideMsg
  inject : List Transaction → BrokerOutsideMsg
  other : BrokerOutsideMsg

pub data ClpaBrokerOutsideMsg : Type 0 where
  broker_msg : BrokerOutsideMsg → ClpaBrokerOutsideMsg
  partition_msg : PartitionModifiedMap → ClpaBrokerOutsideMsg
  account_transfer_msg : AccountStateAndTx → ClpaBrokerOutsideMsg
  partition_ready : PartitionReady → ClpaBrokerOutsideMsg

-- `handleSeqIDinfos`
abbrev handle_seq_id_infos : SeqIdInfo → PbftState → PbftState
handle_seq_id_infos sii p = record p {
  seq_id_map = insert sii.sender_shard_id sii.sender_seq p.seq_id_map;
}

unfoldable broker_partition_msg : PartitionModifiedMap → DataSupport → DataSupport
broker_partition_msg pm cdm = record cdm {
  modified_map = cdm.modified_map ++ pm.partition_modified ∷ [];
  partition_on = true;
}

unfoldable broker_partition_ready : PartitionReady → DataSupport → DataSupport
broker_partition_ready pr cdm = record cdm {
  partition_ready = insert pr.from_shard true cdm.partition_ready;
  ready_seq = insert pr.from_shard pr.now_seq_id cdm.ready_seq;
}

-- `len(AccountStateTx) == int(ShardNums)-1`; with no shard the right side is -1.
unfoldable broker_account_state_and_tx : ℕ → AccountStateAndTx → DataSupport → DataSupport
broker_account_state_and_tx shard_nums at cdm =
    let received = insert at.from_shard at cdm.account_state_tx in
    record cdm {
      account_state_tx = received;
      collect_over = nat_beq (length received + 1) shard_nums || cdm.collect_over;
    }

module _ (be : Backend) (prover : Prover be) where
  unfoldable broker_message_outside_pbft : BrokerOutsideMsg → Node (Chain be) → Node (Chain be)
  broker_message_outside_pbft (seq_id_info sii) n = record n {
    pbft = handle_seq_id_infos sii n.pbft;
  }
  broker_message_outside_pbft (inject txs) n = record n { chain = pool_txs be prover txs n.chain }
  broker_message_outside_pbft other n = n

  unfoldable clpa_broker_message_outside_pbft :
      ClpaBrokerOutsideMsg → Node (ClpaChain be) → Node (ClpaChain be)
  unfolding broker_message_outside_pbft broker_partition_msg broker_partition_ready
      broker_account_state_and_tx
  clpa_broker_message_outside_pbft (broker_msg msg) n =
      let plain =
        broker_message_outside_pbft msg (record { pbft = n.pbft; chain = n.chain.chain }) in
      record { pbft = plain.pbft; chain = record (n.chain) { chain = plain.chain } }
  clpa_broker_message_outside_pbft (partition_msg pm) n = record n {
    chain = record (n.chain) { cdm = broker_partition_msg pm n.chain.cdm };
  }
  clpa_broker_message_outside_pbft (account_transfer_msg at) n =
      let shard_nums = n.chain.chain.bc.chain_config.shard_nums in
      record n {
        chain = record (n.chain) { cdm = broker_account_state_and_tx shard_nums at n.chain.cdm };
      }
  clpa_broker_message_outside_pbft (partition_ready pr) n = record n {
    chain = record (n.chain) { cdm = broker_partition_ready pr n.chain.cdm };
  }
