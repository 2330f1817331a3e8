-- ===== src/Broker/Regraph.antt =====
-- committee_clpa_broker.go: the committee of the CLPA-Broker mode, which also re-partitions. An
-- operation is one step, and an epoch fits an `int32`. `order` is the order in which each round of
-- the algorithm meets the accounts.
use blockchain_sharding.Base.{
  ℕ, zero, suc, ◌+◌, Option, none, some, List, [], ◌∷◌, ◌++◌, Bytes, Dict, lookup, bytes_eq,
  nat_beq, if◌then◌else◌, map, ◌>>=◌,
}
use blockchain_sharding.Core.Transaction.{Transaction}
use blockchain_sharding.Utils.{addr_to_shard}
use blockchain_sharding.Pbft.Messages.{BlockInfoMsg, PartitionModifiedMap}
use blockchain_sharding.Partition.Graph.{Vertex, construct_vertex}
use blockchain_sharding.Partition.State.{Floats, ClpaState, add_state_edge}
use blockchain_sharding.Partition.Propagation.{clpa_partition}
use blockchain_sharding.Relay.Inside.{Clock}
use blockchain_sharding.Supervisor.Committee.Sending.{InjectTxs}
use blockchain_sharding.Supervisor.Committee.Clpa.{fresh_graph, put_shards, merge_map}
use blockchain_sharding.Broker.State.{BrokerRawMeg, Desk, new_desk}
use blockchain_sharding.Broker.Desk.{send_dealt, create_confirm}

-- `atomic.CompareAndSwapInt32(&ccm.curEpoch, int32(b.Epoch-1), int32(b.Epoch))`
abbrev swap_epoch : ℕ → ℕ → ℕ
swap_epoch epoch cur_epoch = if nat_beq epoch (cur_epoch + 1) then epoch else cur_epoch

-- The leaders of the shards before `n`.
abbrev all_leaders : ℕ → List ℕ
all_leaders zero = []
all_leaders (suc n) = all_leaders n ++ n ∷ []

module _ (fl : Floats) where
  pub record ClpaBrokerCommittee : Type 0 where
    pub desk : Desk
    pub cur_epoch : ℕ
    pub clpa_graph : ClpaState fl
    pub modified_map : Dict Bytes ℕ
    pub clpa_cnt : ℕ

  unfoldable new_clpa_broker_committee : ℕ → ℕ → List Bytes → Clock → ClpaBrokerCommittee
  unfolding new_desk fresh_graph
  new_clpa_broker_committee shard_num broker_num lines clock = record {
    desk = new_desk broker_num lines clock;
    cur_epoch = 0;
    clpa_graph = fresh_graph fl shard_num;
    modified_map = [];
    clpa_cnt = 0;
  }

  -- `fetchModifiedMap`
  unfoldable mapped_shard : ℕ → Dict Bytes ℕ → Bytes → Option ℕ
  mapped_shard shard_num m key = elim (lookup key m) [
    | none ↦ addr_to_shard shard_num key
    | some val ↦ some val
  ]

  -- `clpaMapSend`: the map goes to the leaders.
  unfoldable send_map : ℕ → Dict Bytes ℕ → List (ℕ × PartitionModifiedMap)
  send_map shard_num m =
      map (λ sid. (sid, record { partition_modified = m })) (all_leaders shard_num)

  -- `clpaReset`
  unfoldable reset_graph : ℕ → ClpaBrokerCommittee → ClpaBrokerCommittee
  unfolding fresh_graph
  reset_graph shard_num c = record c {
    clpa_graph = put_shards fl c.modified_map (fresh_graph fl shard_num);
  }

  -- The end of an epoch, under the lock.
  unfoldable broker_repartition :
      (ℕ → List Vertex)
      → ℕ
      → ClpaBrokerCommittee
      → Option (ClpaBrokerCommittee × List (ℕ × PartitionModifiedMap))
  unfolding send_map reset_graph
  broker_repartition order shard_num c = do
    (moved, mmap, cross) ← clpa_partition fl order c.clpa_graph
    some (
      reset_graph shard_num (record c {
        clpa_graph = moved;
        modified_map = merge_map fl mmap c.modified_map;
        clpa_cnt = c.clpa_cnt + 1;
      }),
      send_map shard_num mmap,
    )

  -- The transactions within a shard, without those of a broker.
  unfoldable add_inner_edges : ℕ → List Transaction → ClpaState fl → Option (ClpaState fl)
  add_inner_edges shard_num [] cs = some cs
  add_inner_edges shard_num (tx ∷ txs) cs =
      elim (if tx.has_broker
        then some cs
        else add_state_edge fl shard_num (construct_vertex tx.sender)
            (construct_vertex tx.recipient) cs) [
              | none ↦ none
              | some cs' ↦ add_inner_edges shard_num txs cs'
            ]

  -- The first parts, as what they are parts of.
  unfoldable add_broker1_edges : ℕ → List Transaction → ClpaState fl → Option (ClpaState fl)
  add_broker1_edges shard_num [] cs = some cs
  add_broker1_edges shard_num (tx ∷ txs) cs =
      elim (add_state_edge fl shard_num (construct_vertex tx.original_sender)
        (construct_vertex tx.final_recipient) cs) [
          | none ↦ none
          | some cs' ↦ add_broker1_edges shard_num txs cs'
        ]

  module _ (tx_digest : Transaction → Bytes) (raw_digest : BrokerRawMeg → Bytes) (shard_num : ℕ)
      (speed : ℕ) where
    -- `HandleOtherMessage` for CInner2CrossTx, and a batch of MsgSendingControl.
    unfoldable deal_and_send :
        List Transaction → ClpaBrokerCommittee → Option (ClpaBrokerCommittee × List InjectTxs)
    unfolding send_dealt mapped_shard
    deal_and_send txs c = do
      (desk, sent) ←
          send_dealt tx_digest raw_digest shard_num speed (mapped_shard shard_num c.modified_map)
            txs c.desk
      some (record c { desk = desk }, sent)

    unfoldable clpa_broker_block_info :
        BlockInfoMsg → ClpaBrokerCommittee → Option (ClpaBrokerCommittee × List InjectTxs)
    unfolding create_confirm add_inner_edges add_broker1_edges mapped_shard
    clpa_broker_block_info b c =
        let swapped = record c { cur_epoch = swap_epoch b.epoch c.cur_epoch } in
        if nat_beq b.block_body_length 0 then some (swapped, []) else (do
          (desk, sent) ←
              create_confirm tx_digest raw_digest shard_num speed
                (mapped_shard shard_num c.modified_map) (b.broker1_txs ++ b.broker2_txs) c.desk
          inner ← add_inner_edges shard_num b.inner_shard_txs c.clpa_graph
          graph ← add_broker1_edges shard_num b.broker1_txs inner
          some (record swapped { desk = desk; clpa_graph = graph }, sent))
