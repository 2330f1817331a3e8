-- ===== src/Tests/Relays.antt =====
-- Two shards that relay transactions to each other.
use blockchain_sharding.Base.{
  ◌+◌, ◌^◌, ◌≡◌, refl, true, some, List, [], ◌∷◌, ◌++◌, Bytes, length, All, arith, ℤ, pos, ◌+ℤ◌,
  map,
}
use blockchain_sharding.Core.Transaction.{Transaction}
use blockchain_sharding.Core.Block.{Block}
use blockchain_sharding.Core.Txpool.{relays_of}
use blockchain_sharding.Chain.State.{get_partition_map, handle_tx}
use blockchain_sharding.Chain.Ledger.{balance_in}
use blockchain_sharding.Pbft.Messages.{Request}
use blockchain_sharding.Pbft.Node.{PbftState, Node, new_pbft_state}
use blockchain_sharding.Relay.Inside.{Chain, Sorted, unsorted, mark_relayed, sort_tx, sort_txs}
use blockchain_sharding.Relay.Sorting.{is_placed, inner, arrived, leaving, leaving_to, sort_txs_lem}
use blockchain_sharding.Relay.Credit.{unfunded_transfer_credited}
use blockchain_sharding.Tests.World.{world, config, shard, genesis, alice, bob, carol, pay}

abbrev body : List Transaction
body =
    pay alice carol (pos 3)
    ∷ pay alice bob (pos 4)
    ∷ mark_relayed world (pay bob alice (pos 5))
    ∷ []

placed : All (λ tx. is_placed world (shard 0) 0 tx ≡ true) body
unfolding pay get_partition_map
placed = (refl, (refl, (refl, tt)))

sort_txs_lem_example :
    (s : Sorted) × (sort_txs world (shard 0) 0 body (unsorted world (shard 0).txpool) ≡ some s)
    × (s.inner_shard_txs ≡ inner world (shard 0) 0 body)
    × (s.relay2_txs ≡ arrived world (shard 0) 0 body)
    × (s.relay1_txs ≡ map (mark_relayed world) (leaving world (shard 0) 0 body))
    × (relays_of s.pool 1 ≡ map (mark_relayed world) (leaving_to world (shard 0) 0 1 body))
    × (s.pool.tx_queue ≡ (shard 0).txpool.tx_queue)
    × (length s.inner_shard_txs + length s.relay1_txs + length s.relay2_txs ≡ 3)
sort_txs_lem_example = sort_txs_lem world (shard 0) 0 1 body (shard 0).txpool placed

abbrev node_state : PbftState
node_state =
    new_pbft_state (record { node_id = 0; shard_id = 0; ip_addr = 9 ∷ [] }) (λ v. v ∷ []) (config 0)
      0 0

abbrev chain : Chain world
chain = record { bc = shard 0; clock = record { at = λ i. i + 20; reads = 0 } }

abbrev request : Request
request = record { request_type = 66 ∷ []; content = []; req_time = 3 }

abbrev block : Block
block = record genesis { body = body }

-- More than an account has at first.
abbrev too_much : ℤ
too_much = pos (10 ^ 45)

unfunded_transfer_credited_example :
    (s' : Sorted) × (st'' : world.tries.Trie) × (handle_tx world
        (shard 0)
        0
        (pay alice bob too_much)
        ([], 0)
      ≡ some ([], 0))
    × (sort_tx world (shard 0) 0 (pay alice bob too_much) (unsorted world (shard 0).txpool)
        ≡ some s')
    × (relays_of s'.pool 1 ≡ [] ++ mark_relayed world (pay alice bob too_much) ∷ [])
    × (handle_tx world (shard 1) 0 (mark_relayed world (pay alice bob too_much)) ([], 0)
        ≡ some (st'', 1))
    × (balance_in world st'' (pay alice bob too_much).recipient
        ≡ balance_in world [] (pay alice bob too_much).recipient +ℤ (pay alice bob too_much).value)
unfolding pay get_partition_map balance_in
unfunded_transfer_credited_example =
    unfunded_transfer_credited world (shard 0) (shard 1) 0 1 (pay alice bob too_much) 0 0 [] [] 0 0
      (unsorted world (shard 0).txpool) [] refl refl refl refl refl (λ e. omega (arith, e)) refl
      refl refl

-- A node that has asked for what it lacks, after height 0.
abbrev behind : Node (Chain world)
behind = record { pbft = record node_state { ask_for_lock = true }; chain = chain }

abbrev digest_of : Request → Bytes
digest_of r = r.content
