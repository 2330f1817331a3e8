-- ===== src/Supervisor/Committee/Clpa.antt =====
-- committee_clpa.go: the graph of the transactions that the shards report, and the re-partitioning
-- at the end of an epoch.
use blockchain_sharding.Base.{
  ℕ, ◌+◌, ◌*◌, ◌/◌, ◌%◌, Option, none, some, List, [], ◌∷◌, Bytes, Dict, pos, lookup, insert,
  nat_beq, ltb, u64, if◌then◌else◌, length, get_elem?, map, ◌>>=◌, ◌>>◌, guard, bytes_eq,
}
use blockchain_sharding.Core.Transaction.{Transaction}
use blockchain_sharding.Utils.{addr_to_shard}
use blockchain_sharding.Pbft.Messages.{BlockInfoMsg, PartitionModifiedMap}
use blockchain_sharding.Clpa.Outside.{loggable}
use blockchain_sharding.Partition.Graph.{vertex_eq, construct_vertex}
use blockchain_sharding.Partition.State.{Floats, ClpaState, add_state_edge, init_clpa_state}
use blockchain_sharding.Partition.Aero.{AeroStatePayload, Migration, aero_partition}
use blockchain_sharding.Supervisor.Handling.{stop_targets}
use blockchain_sharding.Supervisor.Committee.Epochs.{Epochs, start_epochs, record_epoch_ack}

-- The transaction that the endless loop sends after `sent` others; none is there to send when none
-- was read. The hash is that of the original.
unfoldable pub next_tx : List Transaction → ℕ → ℕ → Option Transaction
next_tx all sent now = do
  guard (ltb 0 (length all))
  tx ← get_elem? all (sent % length all)
  some (record tx { nonce = u64 (tx.nonce + sent / length all * 10000000); time = now })

module _ (fl : Floats) where
  open fl use {of_int, div}

  pub record ClpaCommittee : Type 0 where
    pub epochs : Epochs
    pub clpa_graph : ClpaState fl
    pub modified_map : Dict Bytes ℕ
    pub clpa_cnt : ℕ

  -- `new(partition.CLPAState)` after `Init_CLPAState(0.5, 100, ShardNum)`.
  unfoldable pub fresh_graph : ℕ → ClpaState fl
  unfolding init_clpa_state
  fresh_graph shard_num =
      init_clpa_state fl (div (of_int (pos 1)) (of_int (pos 2))) 100 shard_num (record {
        net_graph = record { vertex_set = []; edge_set = none };
        partition_map = [];
        edges2shard = [];
        vertexs_num_in_shard = [];
        weight_penalty = of_int (pos 0);
        min_edges2shard = pos 0;
        max_iterations = 0;
        cross_shard_edge_num = pos 0;
        shard_num = 0;
        graph_hash = [];
      })

  unfoldable pub new_clpa_committee : ℕ → ClpaCommittee
  new_clpa_committee shard_num = record {
    epochs = start_epochs;
    clpa_graph = fresh_graph shard_num;
    modified_map = [];
    clpa_cnt = 0;
  }

  unfoldable pub fetch_modified_map : ℕ → ClpaCommittee → Bytes → Option ℕ
  fetch_modified_map shard_num c key = elim (lookup key c.modified_map) [
    | none ↦ addr_to_shard shard_num key
    | some val ↦ some val
  ]

  -- The first key goes into the log, as at the nodes; the map goes to every node of every shard.
  unfoldable pub clpa_map_send :
      ℕ → ℕ → Dict Bytes ℕ → Option (List ((ℕ × ℕ) × PartitionModifiedMap))
  clpa_map_send shard_num nodes_per_shard m = do
    guard (loggable m)
    some (
        map (λ target. (target, record { partition_modified = m }))
          (stop_targets shard_num nodes_per_shard))

  abbrev pub put_shards : Dict Bytes ℕ → ClpaState fl → ClpaState fl
  put_shards [] cs = cs
  put_shards ((key, val) ∷ m) cs =
      put_shards m
        (record cs { partition_map = insert (construct_vertex key) val cs.partition_map })

  unfoldable pub clpa_reset : ℕ → ClpaCommittee → ClpaCommittee
  clpa_reset shard_num c = record c {
    clpa_graph = put_shards c.modified_map (fresh_graph shard_num);
  }

  abbrev pub merge_map : Dict Bytes ℕ → Dict Bytes ℕ → Dict Bytes ℕ
  merge_map [] m = m
  merge_map ((key, val) ∷ new) m = merge_map new (insert key val m)

  -- The end of an epoch, under the lock.
  unfoldable pub repartition :
      (AeroStatePayload fl → Option (List Migration))
      → ℕ
      → ℕ
      → ClpaCommittee
      → Option (ClpaCommittee × List ((ℕ × ℕ) × PartitionModifiedMap))
  unfolding clpa_map_send clpa_reset
  repartition agent shard_num nodes_per_shard c = do
    (moved, mmap) ← aero_partition fl agent (pos (c.clpa_cnt + 1)) c.clpa_graph
    sent ← clpa_map_send shard_num nodes_per_shard mmap
    some (
      clpa_reset shard_num (record c {
        clpa_graph = moved;
        modified_map = merge_map mmap c.modified_map;
        clpa_cnt = c.clpa_cnt + 1;
      }),
      sent,
    )

  unfoldable pub add_txs : ℕ → List Transaction → ClpaState fl → Option (ClpaState fl)
  add_txs shard_num [] cs = some cs
  add_txs shard_num (tx ∷ txs) cs =
      elim (add_state_edge fl shard_num (construct_vertex tx.sender) (construct_vertex tx.recipient)
        cs) [ none ↦ none | some cs' ↦ add_txs shard_num txs cs' ]

  unfoldable pub handle_block_info : ℕ → BlockInfoMsg → ClpaCommittee → Option ClpaCommittee
  unfolding add_txs
  handle_block_info shard_num b c =
      let acked = record c {
        epochs = record_epoch_ack shard_num b.sender_shard_id b.epoch c.epochs;
      } in
      if nat_beq b.block_body_length 0 then some acked else (do
        inner ← add_txs shard_num b.inner_shard_txs c.clpa_graph
        graph ← add_txs shard_num b.relay2_txs inner
        some (record acked { clpa_graph = graph }))
