-- ===== src/Broker/Committee.antt =====
-- committee_broker.go: the committee of the Broker mode. `parse` is `big.Int.SetString` in base ten,
-- and `at` the time at which each transaction is read from the file.
use blockchain_sharding.Base.{
  ℕ, ◌+◌, ◌||◌, Option, none, some, List, [], ◌∷◌, ◌++◌, Bytes, ℤ, nat_beq, if◌then◌else◌, length,
  ◌>>=◌,
}
use blockchain_sharding.Core.Transaction.{Transaction}
use blockchain_sharding.Utils.{addr_to_shard}
use blockchain_sharding.Pbft.Messages.{BlockInfoMsg}
use blockchain_sharding.Relay.Inside.{Clock}
use blockchain_sharding.Supervisor.Signal.{StopSignal, stop_gap_reset}
use blockchain_sharding.Supervisor.Committee.Sending.{InjectTxs}
use blockchain_sharding.Supervisor.Committee.Relay.{data2tx}
use blockchain_sharding.Broker.State.{BrokerRawMeg, Desk, new_desk}
use blockchain_sharding.Broker.Desk.{send_dealt, handle_broker_block_info}

pub record BrokerCommittee : Type 0 where
  pub desk : Desk
  pub data_total_num : ℕ
  pub now_data_num : ℕ
  pub batch_data_num : ℕ
  pub ss : StopSignal

unfoldable new_broker_committee : ℕ → List Bytes → Clock → StopSignal → ℕ → ℕ → BrokerCommittee
unfolding new_desk
new_broker_committee broker_num lines clock ss data_num batch_num = record {
  desk = new_desk broker_num lines clock;
  data_total_num = data_num;
  now_data_num = 0;
  batch_data_num = batch_num;
  ss = ss;
}

module _ (tx_digest : Transaction → Bytes) (raw_digest : BrokerRawMeg → Bytes) (shard_num : ℕ)
    (speed : ℕ) where
  -- `fetchModifiedMap`
  unfoldable broker_shard : Bytes → Option ℕ
  broker_shard key = addr_to_shard shard_num key

  unfoldable broker_block_info :
      BlockInfoMsg → BrokerCommittee → Option (BrokerCommittee × List InjectTxs)
  unfolding handle_broker_block_info
  broker_block_info b c = do
    (desk, sent) ←
        handle_broker_block_info tx_digest raw_digest shard_num speed broker_shard b c.desk
    some (record c { desk = desk }, sent)

  -- A batch that is complete, or the last one.
  unfoldable send_broker_batch :
      List Transaction × BrokerCommittee
      → Option (List Transaction × BrokerCommittee × List InjectTxs)
  unfolding send_dealt
  send_broker_batch (txlist, c) =
      if nat_beq (length txlist) c.batch_data_num || nat_beq c.now_data_num c.data_total_num
      then (do
        (desk, sent) ← send_dealt tx_digest raw_digest shard_num speed broker_shard txlist c.desk
        some ([], record c { desk = desk; ss = stop_gap_reset c.ss }, sent))
      else some (txlist, c, [])

  module _ (parse : Bytes → Option ℤ) (at : ℕ → ℕ) where
    -- The rows of the file, and the batch so far; after a row without a payment the loop goes on at
    -- once. What is left of a batch at the end of the file is not sent.
    unfoldable broker_sending_control :
        List (List Bytes)
        → List Transaction
        → BrokerCommittee
        → Option (BrokerCommittee × List InjectTxs)
    unfolding send_broker_batch
    broker_sending_control [] txlist c = some (c, [])
    broker_sending_control (row ∷ rows) txlist c =
        let on = broker_sending_control rows in
        elim (data2tx tx_digest parse row c.now_data_num (at c.now_data_num)) [
          | none ↦ none
          | some none ↦ on txlist c
          | some (some tx) ↦
              elim (send_broker_batch
                (txlist ++ tx ∷ [], record c { now_data_num = c.now_data_num + 1 })) [
                  | none ↦ none
                  | some (txlist', c', sent) ↦
                      let rest = on txlist' c' in
                      if nat_beq c'.now_data_num c'.data_total_num
                      then some (c', sent)
                      else elim rest [ none ↦ none | some (c'', more) ↦ some (c'', sent ++ more) ]
                ]
        ]
