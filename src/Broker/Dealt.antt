-- ===== src/Broker/Dealt.antt =====
-- How a committee deals with new transactions (dealTxByBroker of committee_broker.go and
-- committee_clpa_broker.go).
use blockchain_sharding.Base.{
  ℕ, Bool, true, false, not, ◌&&◌, Option, none, some, List, [], ◌∷◌, Bytes, nat_beq, keep, All,
  map, get_elem?, ◌≡◌, refl, ap, ◌∙◌, arith, Bool-cases, inl, inr, bytes_eq,
}
use blockchain_sharding.Core.Transaction.{Transaction}
use blockchain_sharding.Broker.State.{BrokerRawMeg, Broker, is_broker, Desk}
use blockchain_sharding.Broker.Parts.{HasShard}
use blockchain_sharding.Broker.Desk.{mark_broker, needs_broker, split_txs}

-- Whether a broker has to stand in.
abbrev pub across : (Bytes → Option ℕ) → Broker → Transaction → Bool
across shard_of b tx = elim (shard_of tx.recipient) [
  | none ↦ false
  | some r ↦ elim (shard_of tx.sender) [
    | none ↦ false
    | some s ↦ not (nat_beq r s) && not (is_broker b tx.recipient) && not (is_broker b tx.sender)
  ]
]

pub across-sender :
    (shard_of : Bytes → Option ℕ) (b : Broker) (tx : Transaction)
    → across shard_of b tx ≡ true
    → HasShard shard_of tx.sender × (is_broker b tx.sender ≡ false)
across-sender shard_of b tx h = go (shard_of tx.recipient) (shard_of tx.sender) refl h
  where
    go :
        (r s : Option ℕ)
        → shard_of tx.sender ≡ s
        → elim r [
          | none ↦ false
          | some r ↦ elim s [
            | none ↦ false
            | some s ↦
                not (nat_beq r s) && not (is_broker b tx.recipient) && not (is_broker b tx.sender)
          ]
        ]
          ≡ true
        → HasShard shard_of tx.sender × (is_broker b tx.sender ≡ false)
    go none s e h = absurd (ground (arith, h))
    go (some r) none e h = absurd (ground (arith, h))
    go (some r) (some s) e h = ((s, e), ground (arith, h))

module _ (tx_digest : Transaction → Bytes) (raw_digest : BrokerRawMeg → Bytes) where
  module _ (shard_num : ℕ) (speed : ℕ) (shard_of : Bytes → Option ℕ) where
    needs_broker-across :
        (b : Broker) (tx : Transaction)
        → HasShard shard_of tx.recipient
        → HasShard shard_of tx.sender
        → needs_broker tx_digest raw_digest shard_num speed shard_of b tx
          ≡ some (across shard_of b tx)
    unfolding needs_broker
    needs_broker-across b tx (r, er) (s, es) = rw (er, es, across) refl

    pub split_txs-split :
        (b : Broker) (addr : Bytes) (txs : List Transaction)
        → get_elem? b.broker_address 0 ≡ some addr
        → All (λ tx. HasShard shard_of tx.recipient × HasShard shard_of tx.sender) txs
        → split_txs tx_digest raw_digest shard_num speed shard_of b txs
          ≡ some (
            map (mark_broker b) (keep (λ tx. not (across shard_of b tx)) txs),
            map (λ tx. record { tx = tx; broker = addr }) (keep (across shard_of b) txs),
          )
    unfolding split_txs
    split_txs-split b addr [] first h = refl
    split_txs-split b addr (tx ∷ txs) first (h, hs) =
        let rest = split_txs-split b addr txs first hs in
        let needs = needs_broker-across b tx h.0 h.1 in
        elim (Bool-cases (across shard_of b tx)) [
          | inl e ↦ rw (needs ∙ ap some e) (rw (first, rest) (rw e refl))
          | inr e ↦ rw (needs ∙ ap some e) (rw rest (rw e refl))
        ]
