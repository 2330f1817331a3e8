-- ===== src/Clpa/Send.antt =====
-- accountTransfer_module.go: the leader sends the accounts that leave its shard, and the
-- transactions that go with them, to the leaders of the other shards. `none` is a panic.
use blockchain_sharding.Base.{
  ℕ, ◌+◌, ◌-◌, ◌^◌, leb, u64, Bool, true, false, not, ◌&&◌, ◌||◌, Option, none, some, List, [], ◌∷◌,
  Bytes, Dict, map, lookup, lookup_or, insert, contains, nat_beq, bytes_eq, nat_eq, if◌then◌else◌,
  length, get_elem?, keep, ◌>>=◌,
}
use blockchain_sharding.Core.Account.{AccountState}
use blockchain_sharding.Core.Transaction.{Transaction}
use blockchain_sharding.Chain.Backend.{Backend}
use blockchain_sharding.Chain.State.{BlockChain, get_partition_map, fetch_accounts}
use blockchain_sharding.Pbft.Messages.{Out, Payload}
use blockchain_sharding.Pbft.Node.{PbftState}
use blockchain_sharding.Relay.Inside.{other_shards}
use blockchain_sharding.Clpa.State.{DataSupport, ClpaChain}

-- `m[len(m) - 1]`
abbrev pub last_map : List (Dict Bytes ℕ) → Option (Dict Bytes ℕ)
last_map [] = none
last_map (m ∷ ms) = get_elem? (m ∷ ms) (length ms)

-- The entries of a shard among the fetched accounts.
abbrev pub accounts_for :
    Dict Bytes ℕ → ℕ → List (Bytes × AccountState) → List (Bytes × AccountState)
accounts_for m sid accounts = keep (λ a. nat_beq (lookup_or a.0 0 m) sid) accounts

abbrev pub addr_set : List (Bytes × AccountState) → Dict Bytes Bool
addr_set [] = []
addr_set ((addr, state) ∷ rest) = insert addr true (addr_set rest)

-- `condition1 || condition2`
abbrev pub goes_along : Dict Bytes Bool → Transaction → Bool
goes_along set tx =
    (contains tx.sender set && not tx.relayed) || (contains tx.recipient set && tx.relayed)

-- The addresses and the states side by side. Both lists are of one length where this is used.
abbrev pub side_by_side : List Bytes → List AccountState → List (Bytes × AccountState)
side_by_side [] states = []
side_by_side (a ∷ addrs) [] = []
side_by_side (a ∷ addrs) (s ∷ states) = (a, s) ∷ side_by_side addrs states

abbrev pub message_for :
    PbftState → Dict Bytes ℕ → List (Bytes × AccountState) → List Transaction → ℕ → Out
message_for p m accounts queue sid =
    let sent = accounts_for m sid accounts in
    Out.to_leader sid (
      Payload.account_state_and_tx (record {
        addrs = map (λ a. a.0) sent;
        account_state = map (λ a. a.1) sent;
        txs = keep (goes_along (addr_set sent)) queue;
        from_shard = p.shard_id;
      }))

-- The queue without what has gone to a shard.
abbrev pub left_after :
    Dict Bytes ℕ → List (Bytes × AccountState) → ℕ → List Transaction → List Transaction
left_after m accounts sid queue =
    keep (λ tx. not (goes_along (addr_set (accounts_for m sid accounts)) tx)) queue

-- The loop over the other shards: the queue that is left, and the messages.
unfoldable pub send_to_shards :
    PbftState
    → Dict Bytes ℕ
    → List (Bytes × AccountState)
    → List ℕ
    → List Transaction
    → List Transaction × List Out
send_to_shards p m accounts [] queue = (queue, [])
send_to_shards p m accounts (sid ∷ sids) queue =
    let (queue', outs) = send_to_shards p m accounts sids (left_after m accounts sid queue) in
    (queue', message_for p m accounts queue sid ∷ outs)

module _ (be : Backend) where
  -- `val != ShardID && Get_PartitionMap(key) == ShardID`
  unfoldable pub leaves : BlockChain be → ℕ → Bytes → ℕ → Option Bool
  leaves bc shard_id key val =
      if nat_beq val shard_id then some false else elim (get_partition_map be bc key) [
        | none ↦ none
        | some now ↦ some (nat_beq now shard_id)
      ]

  -- The addresses of this shard that the map gives to another one.
  unfoldable pub accounts_to_fetch : BlockChain be → ℕ → Dict Bytes ℕ → Option (List Bytes)
  unfolding leaves
  accounts_to_fetch bc shard_id [] = some []
  accounts_to_fetch bc shard_id ((key, val) ∷ m) = elim (leaves bc shard_id key val) [
    | none ↦ none
    | some go ↦ elim (accounts_to_fetch bc shard_id m) [
      | none ↦ none
      | some rest ↦ some (if go then key ∷ rest else rest)
    ]
  ]

  unfoldable pub send_accounts_and_txs : PbftState → ClpaChain be → Option (ClpaChain be × List Out)
  unfolding accounts_to_fetch send_to_shards
  send_accounts_and_txs p c = do
    m ← last_map c.cdm.modified_map
    addrs ← accounts_to_fetch c.chain.bc p.shard_id m
    states ← fetch_accounts be c.chain.bc addrs
    let bc = c.chain.bc
    let (queue, outs) =
        send_to_shards p m (side_by_side addrs states)
          (other_shards be p.shard_id bc.chain_config.shard_nums 0) bc.txpool.tx_queue
    some (
      record c {
        chain = record (c.chain) {
          bc = record bc { txpool = record (bc.txpool) { tx_queue = queue } };
        };
      },
      outs,
    )

-- `SendPartitionReady`, to the other nodes of the shard.
unfoldable pub send_partition_ready_to_neighbors : PbftState → List Out
send_partition_ready_to_neighbors p =
    Out.to_neighbors
      (Payload.partition_ready (record { from_shard = p.shard_id; now_seq_id = p.sequence_id }))
    ∷ []

-- `GetPartitionReady`: `currentReady >= ShardNums - 1`
unfoldable pub other_shards_ready : ℕ → DataSupport → Bool
other_shards_ready shard_nums cdm = leb shard_nums (length cdm.partition_ready + 1)

-- `sendPartitionReady`, to the leaders of the other shards.
unfoldable pub send_partition_ready : Backend → PbftState → ℕ → DataSupport → DataSupport × List Out
send_partition_ready be p shard_nums cdm = (
  record cdm { partition_ready = insert p.shard_id true cdm.partition_ready },
  map
      (λ sid.
        Out.to_leader sid (
          Payload.partition_ready (record { from_shard = p.shard_id; now_seq_id = p.sequence_id })))
      (other_shards be p.shard_id shard_nums 0),
)

-- Whether the relayed transactions of every shard up to the round before it was ready have come.
unfoldable pub seqs_caught_up : Dict ℕ ℕ → Dict ℕ ℕ → Bool
seqs_caught_up ready_seq [] = true
seqs_caught_up ready_seq ((sid, val) ∷ seq_id_map) =
    let rest = seqs_caught_up ready_seq seq_id_map in
    elim (lookup sid ready_seq) [
      | none ↦ false
      | some rval ↦ nat_beq (u64 (rval + 2 ^ 64 - 1)) val && rest
    ]

-- `getPartitionReady`
unfoldable pub get_partition_ready : PbftState → ℕ → DataSupport → Bool
unfolding seqs_caught_up
get_partition_ready p shard_nums cdm =
    nat_beq (length cdm.partition_ready) shard_nums && seqs_caught_up cdm.ready_seq p.seq_id_map
