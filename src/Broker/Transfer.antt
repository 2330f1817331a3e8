-- ===== src/Broker/Transfer.antt =====
-- accountTransfermod_Broker.go: what goes to the other shards when accounts move, and the request
-- for the re-partitioning. `none` is a panic. What is written as in accountTransfer_module.go is
-- taken from the model of that file.
use blockchain_sharding.Base.{
  ℕ, Bool, true, false, ◌||◌, Option, some, List, [], ◌∷◌, ◌++◌, Bytes, Dict, map, contains,
  bytes_beq, bytes_eq, nat_eq, if◌then◌else◌, length, get_elem?, keep, ◌>>=◌,
}
use blockchain_sharding.Core.Account.{AccountState}
use blockchain_sharding.Core.Transaction.{Transaction}
use blockchain_sharding.Chain.Backend.{Backend}
use blockchain_sharding.Chain.State.{fetch_accounts}
use blockchain_sharding.Chain.Proof.{Prover}
use blockchain_sharding.Pbft.Messages.{Request, AccountTransferMsg, Out, Payload}
use blockchain_sharding.Pbft.Node.{PbftState}
use blockchain_sharding.Relay.Inside.{read_time, other_shards}
use blockchain_sharding.Relay.Outside.{pool_txs}
use blockchain_sharding.Clpa.State.{ClpaChain, TransferCodec, partition_req}
use blockchain_sharding.Clpa.Send.{
  last_map, accounts_for, addr_set, side_by_side, accounts_to_fetch, send_partition_ready,
  get_partition_ready,
}
use blockchain_sharding.Clpa.Transfer.{collect, account_transfer_do}
use blockchain_sharding.Broker.Inside.{is_nil}

-- What becomes of a transaction: it stays, goes along to the other shard, or becomes one across
-- shards.
pub data Fate : Type 0 where
  stays goes_along becomes_cross : Fate

abbrev pub fate : Dict Bytes Bool → Transaction → Fate
fate set tx =
    let ok1 = contains tx.sender set in
    let ok2 = contains tx.recipient set in
    if is_nil tx.raw_tx_hash
    then (if tx.has_broker
        then (if tx.sender_is_broker
            then (if ok2 then goes_along else stays)
            else (if ok1 then goes_along else stays))
        else (if ok1 || ok2 then becomes_cross else stays))
    else if bytes_beq tx.final_recipient tx.recipient
    then (if ok2 then goes_along else stays)
    else if bytes_beq tx.original_sender tx.sender
    then (if ok1 then goes_along else stays)
    else stays

abbrev pub does_stay : Fate → Bool
does_stay stays = true
does_stay goes_along = false
does_stay becomes_cross = false

abbrev pub does_go : Fate → Bool
does_go stays = false
does_go goes_along = true
does_go becomes_cross = false

abbrev pub does_cross : Fate → Bool
does_cross stays = false
does_cross goes_along = false
does_cross becomes_cross = true

-- The addresses whose accounts go to a shard.
abbrev pub leaving_to : Dict Bytes ℕ → List (Bytes × AccountState) → ℕ → Dict Bytes Bool
leaving_to m accounts sid = addr_set (accounts_for m sid accounts)

abbrev transfer_for :
    PbftState → Dict Bytes ℕ → List (Bytes × AccountState) → List Transaction → ℕ → Out
transfer_for p m accounts queue sid =
    let sent = accounts_for m sid accounts in
    Out.to_leader sid (
      Payload.account_state_and_tx (record {
        addrs = map (λ a. a.0) sent;
        account_state = map (λ a. a.1) sent;
        txs = keep (λ tx. does_go (fate (leaving_to m accounts sid) tx)) queue;
        from_shard = p.shard_id;
      }))

-- What the loop over the other shards leaves in the queue, what becomes a transaction across
-- shards, and the messages.
unfoldable pub transfer_to_shards :
    PbftState
    → Dict Bytes ℕ
    → List (Bytes × AccountState)
    → List ℕ
    → List Transaction
    → List Transaction × List Transaction × List Out
transfer_to_shards p m accounts [] queue = (queue, [], [])
transfer_to_shards p m accounts (sid ∷ sids) queue =
    let kind = fate (leaving_to m accounts sid) in
    let (queue', cross, outs) =
      transfer_to_shards p m accounts sids (keep (λ tx. does_stay (kind tx)) queue) in
    (
      queue',
      keep (λ tx. does_cross (kind tx)) queue ++ cross,
      transfer_for p m accounts queue sid ∷ outs,
    )

module _ (be : Backend) where
  -- `sendAccounts_and_Txs`
  unfoldable pub transfer_accounts_and_txs :
      PbftState → ClpaChain be → Option (ClpaChain be × List Out)
  unfolding transfer_to_shards
  transfer_accounts_and_txs p c = do
    m ← last_map c.cdm.modified_map
    addrs ← accounts_to_fetch be c.chain.bc p.shard_id m
    states ← fetch_accounts be c.chain.bc addrs
    let bc = c.chain.bc
    let (queue, cross, outs) =
        transfer_to_shards p m (side_by_side addrs states)
          (other_shards be p.shard_id bc.chain_config.shard_nums 0) bc.txpool.tx_queue
    some (
      record c {
        chain = record (c.chain) {
          bc = record bc { txpool = record (bc.txpool) { tx_queue = queue } };
        };
      },
      outs ++ Out.to_supervisor (Payload.inner_to_cross cross) ∷ [],
    )

  -- `sendPartitionReady`, `getPartitionReady` and `accountTransfer_do`, which are written as in
  -- accountTransfer_module.go.
  unfoldable pub announce_ready : PbftState → ClpaChain be → ClpaChain be × List Out
  unfolding send_partition_ready
  announce_ready p c =
      let (cdm, outs) = send_partition_ready be p c.chain.bc.chain_config.shard_nums c.cdm in
      (record c { cdm = cdm }, outs)

  unfoldable pub all_are_ready : PbftState → ClpaChain be → Bool
  unfolding get_partition_ready
  all_are_ready p c = get_partition_ready p c.chain.bc.chain_config.shard_nums c.cdm

  unfoldable pub broker_transfer_do : AccountTransferMsg → ClpaChain be → Option (ClpaChain be)
  unfolding account_transfer_do
  broker_transfer_do atm c = account_transfer_do be atm c

  module _ (prover : Prover be) (tc : TransferCodec) where
    open tc use {encode_atm}

    -- `proposePartition`: every transaction received goes into the pool.
    unfoldable pub propose_transfer : PbftState → ClpaChain be → Option (ClpaChain be × Request)
    unfolding collect
    propose_transfer p c = do
      (accounts, txs) ←
          collect c.cdm.account_state_tx (c.cdm.received_new_account_state, c.cdm.received_new_tx)
      m ← get_elem? c.cdm.modified_map c.cdm.account_transfer_round
      let chain = pool_txs be prover txs c.chain
      let (now, clock) = read_time chain.clock
      some (
        record {
          chain = record chain { clock = clock };
          cdm = record (c.cdm) { received_new_account_state = accounts; received_new_tx = txs };
        },
        record {
          request_type = partition_req;
          content = encode_atm (record {
            modified_map = m;
            addrs = map (λ a. a.0) accounts;
            account_state = map (λ a. a.1) accounts;
            at_id = length c.cdm.modified_map;
          });
          req_time = now;
        },
      )
