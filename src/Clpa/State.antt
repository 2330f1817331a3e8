-- ===== src/Clpa/State.antt =====
-- dataSupport/dataSupport.go: what a node of the CLPA mode keeps besides its consensus state and
-- its chain, shared by the module inside and the one outside of the consensus. The locks of the
-- fields make each access one step. `AccountTransferMsg` is encoded by gob.
use blockchain_sharding.Base.{ℕ, ◌≡◌, Bool, false, List, [], Bytes, Dict}
use blockchain_sharding.Core.Account.{AccountState}
use blockchain_sharding.Core.Transaction.{Transaction}
use blockchain_sharding.Chain.Backend.{Backend}
use blockchain_sharding.Pbft.Messages.{AccountTransferMsg, AccountStateAndTx}
use blockchain_sharding.Message.{codes}
use blockchain_sharding.Relay.Inside.{Chain}

pub record DataSupport : Type 0 where
  pub modified_map : List (Dict Bytes ℕ)
  pub account_transfer_round : ℕ
  pub received_new_account_state : Dict Bytes AccountState
  pub received_new_tx : List Transaction
  pub account_state_tx : Dict ℕ AccountStateAndTx
  pub partition_on : Bool
  pub partition_ready : Dict ℕ Bool
  pub ready_seq : Dict ℕ ℕ
  pub collect_over : Bool

unfoldable pub new_clpa_data_support : DataSupport
new_clpa_data_support = record {
  modified_map = [];
  account_transfer_round = 0;
  received_new_account_state = [];
  received_new_tx = [];
  account_state_tx = [];
  partition_on = false;
  partition_ready = [];
  ready_seq = [];
  collect_over = false;
}

abbrev pub partition_req : Bytes
partition_req = codes "PartitionReq"

-- The encoding of the content of a partition request; decoding undoes it.
pub record TransferCodec : Type 0 where
  pub encode_atm : AccountTransferMsg → Bytes
  pub decode_atm : Bytes → AccountTransferMsg
  pub decode_atm-encode_atm : (m : AccountTransferMsg) → decode_atm (encode_atm m) ≡ m

-- The state of the module: the chain, its clock, and the shared data.
pub record ClpaChain (be : Backend) : Type 0 where
  pub chain : Chain be
  pub cdm : DataSupport
