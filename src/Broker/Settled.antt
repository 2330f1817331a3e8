-- ===== src/Broker/Settled.antt =====
-- What a committee owes for the transactions that its brokers stand in for (committee_broker.go and
-- committee_clpa_broker.go).
use blockchain_sharding.Base.{
  true, Option, none, some, List, [], ◌∷◌, ◌++◌, Bytes, Dict, lookup, lookup_or, insert, contains,
  All, map, get_elem?, ◌≡◌, refl, sym, ap, subst, arith, Bool-cases, inl, inr, bytes_beq,
  bytes_beq_refl, bytes_eq,
}
use blockchain_sharding.Core.Transaction.{Transaction, new_transaction}
use blockchain_sharding.Relay.Inside.{read_time}
use blockchain_sharding.Broker.State.{
  BrokerRawMeg, BrokerType2Meg, Mag1Confirm, Mag2Confirm, Broker, is_among, is_broker, Desk,
}
use blockchain_sharding.Broker.Desk.{found, part_of, make_tx2s, handle_tx2_confirm_mag, make_type2s}
use blockchain_sharding.Broker.Parts.{terms, second_part}

-- Every confirmation that is waited for is about a message that is known.
abbrev pub IsSettled : (BrokerRawMeg → Bytes) → Desk → Type 0
IsSettled raw_digest d =
    All (λ e. contains (raw_digest e.1.raw_meg) d.broker.broker_raw_megs ≡ true)
      d.broker_confirm1_pool

pub All-lookup :
    {V : Type 0} (P : V → Type 0) (k : Bytes) (v : V) (m : Dict Bytes V)
    → lookup k m ≡ some v
    → All (λ e. P e.1) m
    → P v
All-lookup P k v [] e h = absurd (ground (arith, e))
All-lookup P k v ((j, w) ∷ m) e (p, h) = elim (Bool-cases (bytes_beq j k)) [
  | inl same ↦ subst P (ground (arith, e, same)) p
  | inr other ↦ All-lookup P k v m (ground (arith, e, other)) h
]

All-cons :
    {C : Type 0} (P : C → Type 0) (pool : Dict Bytes C) (tx : Transaction) (txs : List Transaction)
    → All (λ e. P e.1) pool
    → All P (found pool txs)
    → All P (found pool (tx ∷ txs))
All-cons {C} P pool tx txs h rest = go (lookup tx.tx_hash pool) refl
  where
    go :
        (r : Option C)
        → lookup tx.tx_hash pool ≡ r
        → All P (elim r [ none ↦ found pool txs | some c ↦ c ∷ found pool txs ])
    go none e = rest
    go (some c) e = (All-lookup P tx.tx_hash c pool e h, rest)

pub All-found :
    {C : Type 0} (P : C → Type 0) (pool : Dict Bytes C) (txs : List Transaction)
    → All (λ e. P e.1) pool
    → All P (found pool txs)
All-found P pool [] h = tt
All-found P pool (tx ∷ txs) h = All-cons P pool tx txs h (All-found P pool txs h)

pub first-IsBroker :
    (b : Broker) (addr : Bytes) → get_elem? b.broker_address 0 ≡ some addr → is_broker b addr ≡ true
unfolding is_broker
first-IsBroker b addr first = go b.broker_address first
  where
    go : (l : List Bytes) → get_elem? l 0 ≡ some addr → is_among l addr ≡ true
    go [] e = absurd (ground (arith, e))
    go (x ∷ l) e = ground (arith, e, bytes_beq_refl addr)

pub IsSettled-same :
    (raw_digest : BrokerRawMeg → Bytes) (d d' : Desk)
    → d'.broker.broker_raw_megs ≡ d.broker.broker_raw_megs
    → d'.broker_confirm1_pool ≡ d.broker_confirm1_pool
    → IsSettled raw_digest d
    → IsSettled raw_digest d'
IsSettled-same raw_digest d d' megs pool settled =
    subst (All (λ e. contains (raw_digest e.1.raw_meg) d'.broker.broker_raw_megs ≡ true)) (sym pool)
      (subst (λ r. All (λ e. contains (raw_digest e.1.raw_meg) r ≡ true) d.broker_confirm1_pool)
        (sym megs) settled)

module _ (tx_digest : Transaction → Bytes) (raw_digest : BrokerRawMeg → Bytes) where
  pub make_tx2s-terms :
      (ms : List BrokerType2Meg) (d : Desk)
      → let (d', tx2s) = make_tx2s tx_digest raw_digest ms d in
        (map terms tx2s ≡ map (λ m. second_part m.broker m.raw_meg) ms)
        × (d'.broker ≡ d.broker)
        × (d'.broker_confirm1_pool ≡ d.broker_confirm1_pool)
  unfolding make_tx2s new_transaction
  make_tx2s-terms [] d = (refl, refl, refl)
  make_tx2s-terms (m ∷ ms) d =
      let (now, clock) = read_time d.clock in
      let tx2 = part_of tx_digest raw_digest m.raw_meg.tx m.broker m.raw_meg.tx.recipient now in
      let (parts, same, pool) = make_tx2s-terms ms (record d {
        clock = clock;
        broker_confirm2_pool =
            insert tx2.tx_hash (record { tx2_hash = tx2.tx_hash; raw_meg = m.raw_meg })
              d.broker_confirm2_pool;
      }) in
      (ap (λ l. second_part m.broker m.raw_meg ∷ l) parts, same, pool)

  pub make_type2s-known :
      (cs : List Mag1Confirm) (b : Broker) (addr : Bytes)
      → get_elem? b.broker_address 0 ≡ some addr
      → All (λ c. contains (raw_digest c.raw_meg) b.broker_raw_megs ≡ true) cs
      → (b' : Broker) × (make_type2s tx_digest raw_digest cs b
          ≡ some (b', map (λ c. record { raw_meg = c.raw_meg; broker = addr }) cs))
        × (b'.broker_raw_megs ≡ b.broker_raw_megs)
        × (b'.broker_address ≡ b.broker_address)
  unfolding make_type2s
  make_type2s-known [] b addr first known = (b, refl, refl, refl)
  make_type2s-known (c ∷ cs) b addr first (e, known) =
      let raw = c.raw_meg.tx.tx_hash in
      let txs = lookup_or raw [] b.raw_tx2broker_tx in
      let (b', run, megs, addrs) =
        make_type2s-known cs
          (record b { raw_tx2broker_tx = insert raw (txs ++ c.tx1_hash ∷ []) b.raw_tx2broker_tx })
          addr first known in
      (b', rw e (rw first (rw run refl)), megs, addrs)

  pub handle_tx2_confirm_mag-same :
      (cs : List Mag2Confirm) (d : Desk)
      → ((handle_tx2_confirm_mag tx_digest raw_digest cs d).broker.broker_raw_megs
          ≡ d.broker.broker_raw_megs)
        × ((handle_tx2_confirm_mag tx_digest raw_digest cs d).broker_confirm1_pool
            ≡ d.broker_confirm1_pool)
  unfolding handle_tx2_confirm_mag
  handle_tx2_confirm_mag-same [] d = (refl, refl)
  handle_tx2_confirm_mag-same (c ∷ cs) d =
      let raw = c.raw_meg.tx.tx_hash in
      let txs = lookup_or raw [] d.broker.raw_tx2broker_tx in
      handle_tx2_confirm_mag-same cs (record d {
        broker = record (d.broker) {
          raw_tx2broker_tx = insert raw (txs ++ c.tx2_hash ∷ []) d.broker.raw_tx2broker_tx;
        };
      })
