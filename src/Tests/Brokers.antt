-- ===== src/Tests/Brokers.antt =====
-- A broker in shard 1 stands in for a transaction from shard 0 to shard 1, and a shard of the Broker
-- modes that accounts leave.
use blockchain_sharding.Base.{
  ℕ, ◌+◌, ◌≡◌, refl, Bool, true, some, List, [], ◌∷◌, Bytes, Dict, pos, count, keep, map, bytes_eq,
  bytes_beq, All, arith,
}
use blockchain_sharding.Message.{codes}
use blockchain_sharding.Utils.{addr_to_shard}
use blockchain_sharding.Core.Transaction.{Transaction}
use blockchain_sharding.Chain.State.{get_partition_map}
use blockchain_sharding.Pbft.Messages.{Out, Request, SendOldMessage}
use blockchain_sharding.Pbft.Node.{PbftState, Node, new_pbft_state}
use blockchain_sharding.Relay.Inside.{Chain, Clock, block_request}
use blockchain_sharding.Clpa.State.{new_clpa_data_support, ClpaChain}
use blockchain_sharding.Clpa.Queue.{sent_txs}
use blockchain_sharding.Clpa.Transfer.{update_partition_maps}
use blockchain_sharding.Supervisor.Committee.Sending.{InjectTxs}
use blockchain_sharding.Supervisor.Committee.Delivered.{got}
use blockchain_sharding.Broker.State.{
  is_broker, BrokerRawMeg, Desk, init_broker_addr, new_broker, new_desk,
}
use blockchain_sharding.Broker.Desk.{found, create_confirm, deal_tx_by_broker}
use blockchain_sharding.Broker.Parts.{terms, is_at, second_part}
use blockchain_sharding.Broker.Settled.{IsSettled}
use blockchain_sharding.Broker.Confirmed.{create_confirm-terms}
use blockchain_sharding.Broker.Protocol.{deal-create_confirm}
use blockchain_sharding.Broker.Inside.{Dealt, broker_module}
use blockchain_sharding.Broker.Behind.{handle_send_old_seq-loses}
use blockchain_sharding.Pbft.CatchUp.{handle_send_old_seq}
use blockchain_sharding.Pbft.Committed.{IsReplied}
use blockchain_sharding.Broker.Transfer.{transfer_accounts_and_txs}
use blockchain_sharding.Broker.Epoch.{is_misplaced, deal_placed_txs}
use blockchain_sharding.Broker.Moved.{cross_txs, transfer_accounts_and_txs-count}
use blockchain_sharding.Broker.Placed.{WellPlaced}
use blockchain_sharding.Broker.Repartitioned.{transfer_accounts_and_txs-WellPlaced}
use blockchain_sharding.Tests.Codec.{tx_ser}
use blockchain_sharding.Tests.World.{world, shard, config, alice, bob, carol, pay}

abbrev dora : Bytes
dora = codes "d1"

abbrev digest : Transaction → Bytes
digest tx = tx_ser.put tx []

abbrev raw_digest : BrokerRawMeg → Bytes
raw_digest m = tx_ser.put m.tx []

abbrev clock : Clock
clock = record { at = λ n. n; reads = 0 }

-- No transaction is known yet.
abbrev quiet : Desk
quiet = new_desk 1 (dora ∷ carol ∷ []) clock

abbrev payments : List Transaction
payments = pay alice bob (pos 3) ∷ pay alice carol (pos 4) ∷ []

abbrev raw : BrokerRawMeg
raw = record { tx = pay alice bob (pos 3); broker = dora }

abbrev first : Transaction
first = pay alice dora (pos 3)

-- The first part is under way.
abbrev waiting : Desk
waiting = record quiet {
  broker = record (quiet.broker) { broker_raw_megs = (raw_digest raw, raw) ∷ [] };
  broker_confirm1_pool = (first.tx_hash, record { tx1_hash = first.tx_hash; raw_meg = raw }) ∷ [];
}

create_confirm-terms_example :
    (d' : Desk) × (sent : List InjectTxs) × (create_confirm digest raw_digest 2 10
        (addr_to_shard 2)
        (first ∷ [])
        waiting
      ≡ some (d', sent))
    × IsSettled raw_digest d'
    × (map terms (got 1 sent)
        ≡ keep
            (λ t. is_at (addr_to_shard 2) 1 t.1)
            (map
              (λ c. second_part dora c.raw_meg)
              (found waiting.broker_confirm1_pool (first ∷ []))))
unfolding new_desk new_broker init_broker_addr addr_to_shard pay
create_confirm-terms_example =
    create_confirm-terms digest raw_digest 2 10 (addr_to_shard 2) 1 (first ∷ []) waiting dora
      (omega arith) (omega arith) (refl, tt) refl (1, refl) ((1, refl), tt)

deal-create_confirm_example :
    (d1 d2 : Desk) × (t1 t2 : Transaction) × (sent1 sent2 : List InjectTxs) × (deal_tx_by_broker
        digest raw_digest 2 10
        (addr_to_shard 2)
        (pay alice bob (pos 3) ∷ [])
        quiet
      ≡ some (d1, [], sent1))
    × (got 0 sent1 ≡ t1 ∷ [])
    × (terms t1 ≡ (alice, dora, pos 3, (pay alice bob (pos 3)).tx_hash))
    × (create_confirm digest raw_digest 2 10 (addr_to_shard 2) (t1 ∷ []) d1 ≡ some (d2, sent2))
    × (got 1 sent2 ≡ t2 ∷ [])
    × (terms t2 ≡ (dora, bob, pos 3, (pay alice bob (pos 3)).tx_hash))
    × IsSettled raw_digest d2
unfolding new_desk new_broker init_broker_addr addr_to_shard pay is_broker
deal-create_confirm_example =
    deal-create_confirm digest raw_digest 2 10 (addr_to_shard 2) (pay alice bob (pos 3)) quiet dora
      0 1 (omega arith) (omega arith) (omega arith) tt refl (1, refl) refl refl refl

abbrev chain : Chain world
chain = record { bc = shard 0; clock = clock }

abbrev leader : PbftState
leader =
    new_pbft_state (record { node_id = 0; shard_id = 0; ip_addr = 9 ∷ [] }) (λ v. v ∷ []) (config 0)
      0 0

-- A complete answer with two requests.
abbrev answer : SendOldMessage
answer = record {
  seq_start_height = 3;
  seq_end_height = 4;
  old_request =
      record { request_type = block_request; content = []; req_time = 0 }
      ∷ record { request_type = block_request; content = []; req_time = 1 }
      ∷ [];
  sender_node = record { node_id = 1; shard_id = 0; ip_addr = [] };
}

-- A node that waits for an answer.
abbrev behind : Node (Chain world)
behind = record { pbft = record leader { ask_for_lock = true }; chain = chain }

abbrev content_digest : Request → Bytes
content_digest r = r.content

handle_send_old_seq-loses_example :
    (n' : Node (Chain world)) × (handle_send_old_seq
        (Chain world)
        (broker_module world 10)
        content_digest
        answer
        behind
      ≡ some n')
    × (n'.chain ≡ chain)
    × (n'.pbft.sequence_id ≡ 5)
    × All (λ r. IsReplied (content_digest r) n'.pbft) answer.old_request
handle_send_old_seq-loses_example =
    handle_send_old_seq-loses world 10 content_digest answer behind (omega arith) (omega arith)
      (omega arith) refl refl

-- Alice moves to shard 1, and carol stays.
abbrev moves : Dict Bytes ℕ
moves = (alice, 1) ∷ (carol, 0) ∷ []

abbrev queue : List Transaction
queue = pay alice carol (pos 3) ∷ pay carol carol (pos 4) ∷ []

abbrev sender : ClpaChain world
sender = record {
  chain = record {
    bc = record (shard 0) { txpool = record ((shard 0).txpool) { tx_queue = queue } };
    clock = clock;
  };
  cdm = record new_clpa_data_support { modified_map = moves ∷ []; partition_on = true };
}

abbrev by_alice : Transaction → Bool
by_alice tx = bytes_beq tx.sender alice

transfer_accounts_and_txs-count_example :
    (c' : ClpaChain world) × (outs : List Out) × (transfer_accounts_and_txs world leader sender
      ≡ some (c', outs))
    × (count by_alice (sent_txs outs)
          + count by_alice (cross_txs outs)
          + count by_alice c'.chain.bc.txpool.tx_queue
        ≡ count by_alice queue)
unfolding new_clpa_data_support get_partition_map
transfer_accounts_and_txs-count_example =
    transfer_accounts_and_txs-count world by_alice leader sender moves [] refl
      ((0, refl), ((0, refl), tt)) refl

transfer_accounts_and_txs-WellPlaced_example :
    (c' : ClpaChain world) × (outs : List Out) × (transfer_accounts_and_txs world leader sender
      ≡ some (c', outs))
    × All
        (WellPlaced world (update_partition_maps world moves c'.chain.bc) 0)
        c'.chain.bc.txpool.tx_queue
    × (s : Dealt) × (deal_placed_txs world
          (update_partition_maps world moves c'.chain.bc)
          0
          c'.chain.bc.txpool.tx_queue
        ≡ some s)
unfolding new_clpa_data_support get_partition_map new_pbft_state is_misplaced pay
transfer_accounts_and_txs-WellPlaced_example =
    transfer_accounts_and_txs-WellPlaced world leader sender moves [] refl (refl, (refl, tt))
      (omega arith, (omega arith, tt)) ((0, refl), ((0, refl), tt)) refl
      ((refl, 0, 0, refl, refl, refl), ((refl, 0, 0, refl, refl, refl), tt))
