-- ===== src/Core/Txpool.antt =====
-- core/txpool.go: the queue of transactions and the pools of transactions to relay, by shard.
-- The pool's lock makes each operation one step. A pool of relays is `none` where Go's map is
-- nil: reading it is fine, writing it panics. Lengths stay below 2^63, so `int` and `uint64`
-- are one number here.
pub mod Packing
pub mod Relays
pub mod Transfer
use blockchain_sharding.Base.{
  ℕ, zero, suc, ◌+◌, ◌≡◌, Bool, true, false, Option, none, some, List, [], ◌∷◌, ◌++◌, Bytes, Dict,
  lookup, lookup_or, insert, contains, length, take, drop, ltb, nat_beq, ◌==◌, if◌then◌else◌,
  nat_eq, bytes_eq,
}
use blockchain_sharding.Core.Transaction.{Transaction}

pub record TxPool : Type 0 where
  pub tx_queue : List Transaction
  pub relay_pool : Option (Dict ℕ (List Transaction))

unfoldable pub new_tx_pool : TxPool
new_tx_pool = record { tx_queue = []; relay_pool = some [] }

-- A transaction with the zero time is stamped with the clock.
abbrev pub stamp : ℕ → Transaction → Transaction
stamp now tx = if nat_beq tx.time 0 then record tx { time = now } else tx

unfoldable pub add_tx_to_pool : ℕ → TxPool → Transaction → TxPool
add_tx_to_pool now pool tx = record pool { tx_queue = pool.tx_queue ++ stamp now tx ∷ [] }

-- `now i` is what the clock shows at the i-th transaction.
pub append_stamped : (ℕ → ℕ) → ℕ → List Transaction → List Transaction → List Transaction
append_stamped now i queue [] = queue
append_stamped now i queue (tx ∷ txs) =
    append_stamped now (i + 1) (queue ++ stamp (now i) tx ∷ []) txs

unfoldable pub add_txs_to_pool : (ℕ → ℕ) → TxPool → List Transaction → TxPool
unfolding append_stamped
add_txs_to_pool now pool txs = record pool { tx_queue = append_stamped now 0 pool.tx_queue txs }

unfoldable pub add_txs_to_pool_head : TxPool → List Transaction → TxPool
add_txs_to_pool_head pool txs = record pool { tx_queue = txs ++ pool.tx_queue }

-- Takes `n` transactions off the front.
cut_queue : TxPool → ℕ → TxPool × List Transaction
cut_queue pool n = (record pool { tx_queue = drop n pool.tx_queue }, take n pool.tx_queue)

unfoldable pub pack_txs : TxPool → ℕ → TxPool × List Transaction
unfolding cut_queue
pack_txs pool max_txs =
    cut_queue pool (if ltb (length pool.tx_queue) max_txs then length pool.tx_queue else max_txs)

-- The loop that adds `size_of` for each transaction up to the one that exceeds the bound.
pub bytes_cut : ℕ → ℕ → ℕ → ℕ → ℕ → List Transaction → ℕ
bytes_cut size_of max_bytes tx_num idx current_size [] = tx_num
bytes_cut size_of max_bytes tx_num idx current_size (tx ∷ txs) =
    if ltb max_bytes (current_size + size_of)
    then idx
    else bytes_cut size_of max_bytes tx_num (idx + 1) (current_size + size_of) txs

-- `size_of` is `unsafe.Sizeof(*tx)`, one constant for every transaction.
unfoldable pub pack_txs_with_bytes : ℕ → TxPool → ℕ → TxPool × List Transaction
unfolding cut_queue bytes_cut
pack_txs_with_bytes size_of pool max_bytes =
    cut_queue pool (bytes_cut size_of max_bytes (length pool.tx_queue) 0 0 pool.tx_queue)

-- `RelayPool[shardID] = append(RelayPool[shardID], tx)` on a map that is not nil.
abbrev pub append_at : ℕ → Transaction → Dict ℕ (List Transaction) → Dict ℕ (List Transaction)
append_at shard_id tx relays =
    let relays' = if contains shard_id relays then relays else insert shard_id [] relays in
    insert shard_id (lookup_or shard_id [] relays' ++ tx ∷ []) relays'

unfoldable pub add_relay_tx : TxPool → Transaction → ℕ → Option TxPool
add_relay_tx pool tx shard_id = elim pool.relay_pool [
  | none ↦ none
  | some relays ↦ some (record pool { relay_pool = some (append_at shard_id tx relays) })
]

unfoldable pub get_tx_queue_len : TxPool → ℕ
get_tx_queue_len pool = length pool.tx_queue

unfoldable pub clear_relay_pool : TxPool → TxPool
clear_relay_pool pool = record pool { relay_pool = none }

-- The transactions that wait for one shard; a nil map reads as an empty one.
abbrev pub relays_of : TxPool → ℕ → List Transaction
relays_of pool shard_id = elim pool.relay_pool [
  | none ↦ []
  | some relays ↦ lookup_or shard_id [] relays
]

pack_found :
    TxPool
    → Dict ℕ (List Transaction)
    → ℕ
    → ℕ
    → ℕ
    → List Transaction
    → TxPool × List Transaction × Bool
pack_found pool relays shard_id min_relay_size max_relay_size waiting =
    if ltb (length waiting) min_relay_size
    then (pool, [], false)
    else (let tx_num =
          if ltb (length waiting) max_relay_size then length waiting else max_relay_size in
        (
          record pool { relay_pool = some (insert shard_id (drop tx_num waiting) relays) },
          take tx_num waiting,
          true,
        ))

unfoldable pub pack_relay_txs : TxPool → ℕ → ℕ → ℕ → TxPool × List Transaction × Bool
unfolding pack_found
pack_relay_txs pool shard_id min_relay_size max_relay_size = elim pool.relay_pool [
  | none ↦ (pool, [], false)
  | some relays ↦ elim (lookup shard_id relays) [
    | none ↦ (pool, [], false)
    | some waiting ↦ pack_found pool relays shard_id min_relay_size max_relay_size waiting
  ]
]

-- One pass over a list: the transactions of `addr` go to the first list, the others to the second.
pub split_sender :
    Bytes
    → List Transaction
    → List Transaction
    → List Transaction
    → List Transaction × List Transaction
split_sender addr transferred rest [] = (transferred, rest)
split_sender addr transferred rest (tx ∷ txs) =
    split_sender addr (if tx.sender == addr then transferred ++ tx ∷ [] else transferred)
      (if tx.sender == addr then rest else rest ++ tx ∷ []) txs

-- The same pass over the pool of one shard.
pub split_pool :
    Bytes
    → ℕ
    → List Transaction × Dict ℕ (List Transaction)
    → List Transaction
    → List Transaction × Dict ℕ (List Transaction)
split_pool addr shard_id (transferred, relays) [] = (transferred, relays)
split_pool addr shard_id (transferred, relays) (tx ∷ txs) =
    split_pool addr shard_id
      (
        if tx.sender == addr then transferred ++ tx ∷ [] else transferred,
        if tx.sender == addr then relays else append_at shard_id tx relays,
      )
      txs

pub split_pools :
    Bytes
    → List Transaction × Dict ℕ (List Transaction)
    → Dict ℕ (List Transaction)
    → List Transaction × Dict ℕ (List Transaction)
split_pools addr acc [] = acc
split_pools addr acc ((shard_id, shard_pool) ∷ pools) =
    split_pools addr (split_pool addr shard_id acc shard_pool) pools

-- The entries of a map that may be nil.
abbrev pub entries : {V : Type 0} → Option (Dict ℕ V) → Dict ℕ V
entries none = []
entries (some m) = m

unfoldable pub transfer_txs : TxPool → Bytes → TxPool × List Transaction
unfolding split_sender split_pools split_pool
transfer_txs pool addr =
    let (transferred, queue) = split_sender addr [] [] pool.tx_queue in
    let (transferred', relays) = split_pools addr (transferred, []) (entries pool.relay_pool) in
    (record { tx_queue = queue; relay_pool = some relays }, transferred')
