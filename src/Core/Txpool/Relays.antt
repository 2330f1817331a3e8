-- ===== src/Core/Txpool/Relays.antt =====
-- The relay pools: what `AddRelayTx` and `PackRelayTxs` do to the pool of each shard.
use blockchain_sharding.Base.{
  ℕ, ◌≤◌, ◌≡◌, refl, ◌⊎◌, Bool, false, Option, none, some, List, [], ◌∷◌, ◌++◌, Dict, lookup,
  lookup_or, insert, length, drop, ltb, if◌then◌else◌, arith, min, take-append-drop, length-take,
  lookup-insert, nat_eq, nat_beq, nat_beq_iff,
}
use blockchain_sharding.Core.Transaction.{Transaction}
use blockchain_sharding.Core.Txpool.{
  TxPool, pack_relay_txs, pack_found, add_relay_tx, append_at, relays_of,
}

pub lookup_or-append_at :
    (k j : ℕ) (tx : Transaction) (m : Dict ℕ (List Transaction))
    → lookup_or j [] (append_at k tx m)
      ≡ (if nat_beq k j then lookup_or j [] m ++ tx ∷ [] else lookup_or j [] m)
lookup_or-append_at k j tx m = ground (
  arith,
  lookup-insert k j (lookup_or k [] m ++ tx ∷ []) m,
  lookup-insert k j ([] ++ tx ∷ []) (insert k [] m),
  lookup-insert k k [] m,
  lookup-insert k j [] m,
  nat_beq_iff k j,
  nat_beq_iff k k,
)

-- On a map that is there, a relayed transaction joins the end of its shard's pool; the pools of all
-- other shards and the queue stay as they are.
add_relay_tx_lem :
    (pool : TxPool) (tx : Transaction) (shard_id other : ℕ) (relays : Dict ℕ (List Transaction))
    → pool.relay_pool ≡ some relays
    → (pool' : TxPool) × (add_relay_tx pool tx shard_id ≡ some pool')
      × (pool'.tx_queue ≡ pool.tx_queue)
      × (relays_of pool' other ≡ (
          if nat_beq shard_id other then relays_of pool other ++ tx ∷ [] else relays_of pool other))
unfolding add_relay_tx
add_relay_tx_lem pool tx shard_id other relays e = (
  record pool { relay_pool = some (append_at shard_id tx relays) },
  rw (e, add_relay_tx) refl,
  refl,
  rw (e, relays_of) (lookup_or-append_at shard_id other tx relays),
)

-- What a packing of relays promises, on a pool that becomes another.
abbrev PacksRelays : TxPool → ℕ → ℕ → ℕ → ℕ → TxPool × List Transaction × Bool → Type 0
PacksRelays pool shard_id min_size max_size other (pool', packed, done) =
    (packed ++ relays_of pool' shard_id ≡ relays_of pool shard_id)
    × (length packed ≡ (if done then min max_size (length (relays_of pool shard_id)) else 0))
    × (pool'.tx_queue ≡ pool.tx_queue)
    × ((done ≡ false) ⊎ (min_size ≤ length (relays_of pool shard_id)))
    × ((shard_id ≡ other) ⊎ (relays_of pool' other ≡ relays_of pool other))

pack_found-PacksRelays :
    (queue : List Transaction) (relays : Dict ℕ (List Transaction))
    (shard_id min_size max_size other : ℕ) (waiting : List Transaction)
    → lookup shard_id relays ≡ some waiting
    → let pool : TxPool = record { tx_queue = queue; relay_pool = some relays } in
      PacksRelays pool shard_id min_size max_size other
        (pack_found pool relays shard_id min_size max_size waiting)
unfolding pack_found
pack_found-PacksRelays queue relays shard_id min_size max_size other waiting e =
    let n : ℕ = if ltb (length waiting) max_size then length waiting else max_size in
    ground (
      arith,
      lookup-insert shard_id shard_id (drop n waiting) relays,
      lookup-insert shard_id other (drop n waiting) relays,
      take-append-drop n waiting,
      length-take n waiting,
      nat_beq_iff shard_id shard_id,
      nat_beq_iff shard_id other,
    )

pack_map-PacksRelays :
    (queue : List Transaction) (relays : Dict ℕ (List Transaction))
    (shard_id min_size max_size other : ℕ) (found : Option (List Transaction))
    → lookup shard_id relays ≡ found
    → let pool : TxPool = record { tx_queue = queue; relay_pool = some relays } in
      PacksRelays pool shard_id min_size max_size other
        (pack_relay_txs pool shard_id min_size max_size)
unfolding pack_relay_txs
pack_map-PacksRelays queue relays shard_id min_size max_size other none e = ground arith
pack_map-PacksRelays queue relays shard_id min_size max_size other (some waiting) e =
    rw (e, pack_relay_txs)
      (pack_found-PacksRelays queue relays shard_id min_size max_size other waiting e)

pack_pool-PacksRelays :
    (queue : List Transaction) (pools : Option (Dict ℕ (List Transaction)))
    (shard_id min_size max_size other : ℕ)
    → let pool : TxPool = record { tx_queue = queue; relay_pool = pools } in
      PacksRelays pool shard_id min_size max_size other
        (pack_relay_txs pool shard_id min_size max_size)
unfolding pack_relay_txs
pack_pool-PacksRelays queue none shard_id min_size max_size other = ground arith
pack_pool-PacksRelays queue (some relays) shard_id min_size max_size other =
    pack_map-PacksRelays queue relays shard_id min_size max_size other (lookup shard_id relays) refl

-- Packing relays either hands out nothing, or finds at least the minimum waiting and hands out the
-- first of them, as many as the maximum allows. What is handed out and what stays make up the pool
-- of the shard; the queue and the pools of other shards do not change.
pack_relay_txs-PacksRelays :
    (pool : TxPool) (shard_id min_size max_size other : ℕ)
    → PacksRelays pool shard_id min_size max_size other
        (pack_relay_txs pool shard_id min_size max_size)
pack_relay_txs-PacksRelays pool = pack_pool-PacksRelays pool.tx_queue pool.relay_pool
