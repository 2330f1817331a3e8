-- ===== src/Pbft/Messages.antt =====
-- The messages of the consensus (message/message.go, message/message_viewChange.go), decoded, and
-- the nodes that they name (shard/nodes.go).
use blockchain_sharding.Base.{ℕ, Bytes, Dict, List}
use blockchain_sharding.Core.Account.{AccountState}
use blockchain_sharding.Core.Transaction.{Transaction}
use blockchain_sharding.Chain.Proof.{TxProofResult}

pub record NodeInfo : Type 0 where
  pub node_id : ℕ
  pub shard_id : ℕ
  pub ip_addr : Bytes

pub record Request : Type 0 where
  pub request_type : Bytes
  pub content : Bytes
  pub req_time : ℕ

pub record PrePrepare : Type 0 where
  pub request_msg : Request
  pub digest : Bytes
  pub seq_id : ℕ

pub record Prepare : Type 0 where
  pub digest : Bytes
  pub seq_id : ℕ
  pub sender_node : NodeInfo

pub record Commit : Type 0 where
  pub digest : Bytes
  pub seq_id : ℕ
  pub sender_node : NodeInfo

pub record RequestOldMessage : Type 0 where
  pub seq_start_height : ℕ
  pub seq_end_height : ℕ
  pub server_node : NodeInfo
  pub sender_node : NodeInfo

pub record SendOldMessage : Type 0 where
  pub seq_start_height : ℕ
  pub seq_end_height : ℕ
  pub old_request : List Request
  pub sender_node : NodeInfo

pub record ViewChangeMsg : Type 0 where
  pub cur_view : ℕ
  pub next_view : ℕ
  pub seq_id : ℕ
  pub from_node : ℕ

pub record NewViewMsg : Type 0 where
  pub cur_view : ℕ
  pub next_view : ℕ
  pub new_seq_id : ℕ
  pub from_node : ℕ

pub record RelayMsg : Type 0 where
  pub txs : List Transaction
  pub sender_shard_id : ℕ
  pub sender_seq : ℕ

pub record BlockInfoMsg : Type 0 where
  pub block_body_length : ℕ
  pub inner_shard_txs : List Transaction
  pub epoch : ℕ
  pub propose_time : ℕ
  pub commit_time : ℕ
  pub sender_shard_id : ℕ
  pub relay1_txs : List Transaction
  pub relay2_txs : List Transaction
  pub broker1_txs : List Transaction
  pub broker2_txs : List Transaction

-- The progress of a shard, in the Broker modes.
pub record SeqIdInfo : Type 0 where
  pub sender_shard_id : ℕ
  pub sender_seq : ℕ

-- The messages of the re-partitioning (message/message_CLPA.go).
pub record PartitionModifiedMap : Type 0 where
  pub partition_modified : Dict Bytes ℕ

pub record AccountTransferMsg : Type 0 where
  pub modified_map : Dict Bytes ℕ
  pub addrs : List Bytes
  pub account_state : List AccountState
  pub at_id : ℕ

pub record PartitionReady : Type 0 where
  pub from_shard : ℕ
  pub now_seq_id : ℕ

pub record AccountStateAndTx : Type 0 where
  pub addrs : List Bytes
  pub account_state : List AccountState
  pub txs : List Transaction
  pub from_shard : ℕ

-- What a node sends. `to_shard` is a broadcast to the shard and a message to the node itself,
-- `to_neighbors` the broadcast alone, `to_node` goes to one address, `to_leader` to node 0 of a
-- shard, and `to_supervisor` to the supervisor.
pub data Payload : Type 0 where
  pre_prepare : PrePrepare → Payload
  prepare : Prepare → Payload
  commit : Commit → Payload
  request_old : RequestOldMessage → Payload
  send_old : SendOldMessage → Payload
  view_change : ViewChangeMsg → Payload
  new_view : NewViewMsg → Payload
  relay : RelayMsg → Payload
  relay_with_proof : RelayMsg → List TxProofResult → Payload
  block_info : BlockInfoMsg → Payload
  partition_ready : PartitionReady → Payload
  account_state_and_tx : AccountStateAndTx → Payload
  seq_id_info : SeqIdInfo → Payload
  inner_to_cross : List Transaction → Payload

pub data Out : Type 0 where
  to_shard to_neighbors to_supervisor : Payload → Out
  to_node : Bytes → Payload → Out
  to_leader : ℕ → Payload → Out
