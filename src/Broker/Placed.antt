-- ===== src/Broker/Placed.antt =====
-- Which transactions a shard of the CLPA-Broker mode can have in a block without a panic
-- (pbftInside_modCLPABroker.go, HandleinCommit), and which of them stay when accounts leave
-- (accountTransfermod_Broker.go).
use blockchain_sharding.Base.{
  ℕ, ◌≡◌, refl, nat_beq, Bool, true, false, not, ◌||◌, ◌&&◌, some, List, [], ◌∷◌, Bytes, Dict,
  contains, bytes_beq, bytes_beq_iff, bytes_eq, All, arith, if◌then◌else◌,
}
use blockchain_sharding.Core.Transaction.{Transaction}
use blockchain_sharding.Chain.Backend.{Backend}
use blockchain_sharding.Chain.State.{BlockChain, get_partition_map}
use blockchain_sharding.Broker.Inside.{Dealt, is_nil}
use blockchain_sharding.Broker.Transfer.{fate, does_stay}
use blockchain_sharding.Broker.Epoch.{is_misplaced, deal_placed_txs, put_dealt}

-- Within a shard, a transaction is no part of another one; a part is either the first or the
-- second.
abbrev is_regular : Transaction → Bool
is_regular tx =
    let first = bytes_beq tx.sender tx.original_sender in
    let second = bytes_beq tx.recipient tx.final_recipient in
    if is_nil tx.raw_tx_hash
    then not first && not second
    else (if first then not second else second)

-- The parties that have to be in the shard.
abbrev pub needs_sender : Transaction → Bool
needs_sender tx =
    if is_nil tx.raw_tx_hash
    then not (tx.has_broker && tx.sender_is_broker)
    else bytes_beq tx.sender tx.original_sender

abbrev pub needs_recipient : Transaction → Bool
needs_recipient tx =
    if is_nil tx.raw_tx_hash
    then not (tx.has_broker && not tx.sender_is_broker)
    else bytes_beq tx.recipient tx.final_recipient

bytes_beq_comm : (a b : Bytes) → bytes_beq a b ≡ bytes_beq b a
bytes_beq_comm a b = ground (arith, bytes_beq_iff a b, bytes_beq_iff b a)

pub fate-needs :
    (set : Dict Bytes Bool) (tx : Transaction)
    → is_regular tx ≡ true
    → does_stay (fate set tx) ≡ (
        not (needs_sender tx && contains tx.sender set)
        && not (needs_recipient tx && contains tx.recipient set))
fate-needs set tx h = ground (
  arith,
  h,
  bytes_beq_comm tx.final_recipient tx.recipient,
  bytes_beq_comm tx.original_sender tx.sender,
)

module _ (be : Backend) where
  pub is_misplaced-needs :
      (s r : Bool) (tx : Transaction)
      → is_regular tx ≡ true
      → is_misplaced be s r tx ≡ ((needs_sender tx && not s) || (needs_recipient tx && not r))
  unfolding is_misplaced
  is_misplaced-needs s r tx h = ground (arith, h)

  pub is_misplaced-false :
      (s r : Bool) (tx : Transaction)
      → is_regular tx ≡ true
      → (needs_sender tx && not s) ≡ false
      → (needs_recipient tx && not r) ≡ false
      → is_misplaced be s r tx ≡ false
  is_misplaced-false s r tx regular hs hr =
      ground (arith, is_misplaced-needs s r tx regular, hs, hr)

  -- A transaction whose parties have shards, and those that have to be in `shard_id` are.
  abbrev pub WellPlaced : BlockChain be → ℕ → Transaction → Type 0
  WellPlaced bc shard_id tx =
      (is_regular tx ≡ true)
      × (ssid : ℕ) × (rsid : ℕ) × (get_partition_map be bc tx.sender ≡ some ssid)
      × (get_partition_map be bc tx.recipient ≡ some rsid)
      × (is_misplaced be (nat_beq ssid shard_id) (nat_beq rsid shard_id) tx ≡ false)

  pub deal_placed_txs-total :
      (bc : BlockChain be) (shard_id : ℕ) (txs : List Transaction)
      → All (WellPlaced bc shard_id) txs
      → (s : Dealt) × (deal_placed_txs be bc shard_id txs ≡ some s)
  unfolding deal_placed_txs
  deal_placed_txs-total bc shard_id [] h =
      (record { inner_shard_txs = []; broker1_txs = []; broker2_txs = [] }, refl)
  deal_placed_txs-total bc shard_id (tx ∷ txs) ((regular, ssid, rsid, es, er, placed), h) =
      let (s, run) = deal_placed_txs-total bc shard_id txs h in
      (put_dealt be tx s, rw (es, er) (rw run (rw placed refl)))
