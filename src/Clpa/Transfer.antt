-- ===== src/Clpa/Transfer.antt =====
-- accountTransfer_module.go: the request for a re-partitioning that the leader proposes, and what
-- every node of the shard does when it is committed. `none` is a panic.
use blockchain_sharding.Base.{
  ℕ, Bool, false, Option, none, some, List, [], ◌∷◌, ◌++◌, Bytes, Dict, map, lookup_or, insert,
  nat_beq, bytes_eq, nat_eq, if◌then◌else◌, length, get_elem?, keep, ◌>>=◌,
}
use blockchain_sharding.Core.Account.{AccountState}
use blockchain_sharding.Core.Transaction.{Transaction}
use blockchain_sharding.Chain.Backend.{Backend}
use blockchain_sharding.Chain.State.{BlockChain, update_partition_map}
use blockchain_sharding.Chain.Blocks.{add_accounts}
use blockchain_sharding.Chain.Proof.{Prover}
use blockchain_sharding.Pbft.Messages.{Request, AccountTransferMsg, AccountStateAndTx}
use blockchain_sharding.Pbft.Node.{PbftState}
use blockchain_sharding.Relay.Inside.{read_time}
use blockchain_sharding.Relay.Outside.{pool_txs}
use blockchain_sharding.Clpa.State.{DataSupport, ClpaChain, TransferCodec, partition_req}

-- Addresses with their states; `none` is an address without a state. Every message has as many of
-- the one as of the other.
unfoldable pub pair_accounts : List Bytes → List AccountState → Option (List (Bytes × AccountState))
pair_accounts [] states = some []
pair_accounts (a ∷ addrs) [] = none
pair_accounts (a ∷ addrs) (s ∷ states) = elim (pair_accounts addrs states) [
  | none ↦ none
  | some rest ↦ some ((a, s) ∷ rest)
]

unfoldable pub insert_all :
    List (Bytes × AccountState) → Dict Bytes AccountState → Dict Bytes AccountState
insert_all [] m = m
insert_all ((a, s) ∷ rest) m = insert_all rest (insert a s m)

-- The loop over the messages of the other leaders.
unfoldable pub collect :
    List (ℕ × AccountStateAndTx)
    → Dict Bytes AccountState × List Transaction
    → Option (Dict Bytes AccountState × List Transaction)
unfolding pair_accounts insert_all
collect [] (accounts, txs) = some (accounts, txs)
collect ((sid, at) ∷ rest) (accounts, txs) = elim (pair_accounts at.addrs at.account_state) [
  | none ↦ none
  | some new ↦ collect rest (insert_all new accounts, txs ++ at.txs)
]

-- A transaction that the map keeps away from this shard is left out.
abbrev pub is_valid_tx : Dict Bytes ℕ → ℕ → Transaction → Bool
is_valid_tx m shard_id tx =
    if tx.relayed
    then nat_beq (lookup_or tx.recipient 0 m) shard_id
    else nat_beq (lookup_or tx.sender 0 m) shard_id

module _ (be : Backend) (prover : Prover be) (tc : TransferCodec) where
  open tc use {encode_atm, decode_atm}

  unfoldable pub propose_partition : PbftState → ClpaChain be → Option (ClpaChain be × Request)
  unfolding collect
  propose_partition p c = do
    (accounts, txs) ←
        collect c.cdm.account_state_tx (c.cdm.received_new_account_state, c.cdm.received_new_tx)
    m ← get_elem? c.cdm.modified_map c.cdm.account_transfer_round
    let valid_txs = keep (is_valid_tx m p.shard_id) txs
    let chain = pool_txs be prover valid_txs c.chain
    let (now, clock) = read_time chain.clock
    some (
      record {
        chain = record chain { clock = clock };
        cdm = record (c.cdm) { received_new_account_state = accounts; received_new_tx = valid_txs };
      },
      record {
        request_type = partition_req;
        content = encode_atm (record {
          modified_map = m;
          addrs = map (λ a. a.0) accounts;
          account_state = map (λ a. a.1) accounts;
          at_id = length c.cdm.modified_map;
        });
        req_time = now;
      },
    )

-- `Update_PartitionMap` for every entry.
unfoldable pub update_partition_maps : (be : Backend) → Dict Bytes ℕ → BlockChain be → BlockChain be
update_partition_maps be [] bc = bc
update_partition_maps be ((key, val) ∷ m) bc =
    update_partition_maps be m (update_partition_map be bc key val)

-- The shared data after a transfer.
abbrev pub after_transfer : AccountTransferMsg → DataSupport → DataSupport
after_transfer atm cdm = record cdm {
  modified_map =
      if nat_beq (length cdm.modified_map) atm.at_id
      then cdm.modified_map
      else cdm.modified_map ++ atm.modified_map ∷ [];
  account_transfer_round = atm.at_id;
  account_state_tx = [];
  received_new_account_state = [];
  received_new_tx = [];
  partition_on = false;
  collect_over = false;
  partition_ready = [];
}

unfoldable pub account_transfer_do :
    (be : Backend) → AccountTransferMsg → ClpaChain be → Option (ClpaChain be)
unfolding update_partition_maps pair_accounts
account_transfer_do be atm c = do
  accounts ← pair_accounts atm.addrs atm.account_state
  bc ← add_accounts be (update_partition_maps be atm.modified_map c.chain.bc) accounts
  some (record { chain = record (c.chain) { bc = bc }; cdm = after_transfer atm c.cdm })
