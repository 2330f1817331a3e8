-- ===== src/Broker/Remembered.antt =====
-- What a broker remembers of the transactions that it stands in for (handleBrokerRawMag and
-- handleBrokerType1Mes).
use blockchain_sharding.Base.{
  true, List, [], ◌∷◌, Bytes, Dict, insert, contains, All, map, ◌≡◌, refl, ap, arith, Bool-cases,
  inl, inr, bytes_beq, bytes_beq_refl, bytes_eq, lookup-insert,
}
use blockchain_sharding.Core.Transaction.{Transaction, new_transaction}
use blockchain_sharding.Relay.Inside.{read_time}
use blockchain_sharding.Broker.State.{BrokerRawMeg, BrokerType1Meg, Mag1Confirm, Broker, Desk}
use blockchain_sharding.Broker.Desk.{part_of, make_tx1s, register}
use blockchain_sharding.Broker.Parts.{Terms, terms}
use blockchain_sharding.Broker.Settled.{IsSettled}

All-insert :
    {V : Type 0} (P : Bytes × V → Type 0) (k : Bytes) (v : V) (m : Dict Bytes V)
    → ((j : Bytes) → P (j, v))
    → All P m
    → All P (insert k v m)
All-insert P k v [] new h = (new k, tt)
All-insert P k v ((j, w) ∷ m) new (p, h) = elim (Bool-cases (bytes_beq j k)) [
  | inl e ↦ rw e (new j, h)
  | inr e ↦ rw e (p, All-insert P k v m new h)
]

contains-insert :
    {V : Type 0} (k j : Bytes) (v : V) (m : Dict Bytes V)
    → contains j m ≡ true
    → contains j (insert k v m) ≡ true
contains-insert k j v m h = ground (arith, lookup-insert k j v m, h)

-- The terms of the first part of a transaction, with the broker `addr`.
abbrev pub first_of : Bytes → Transaction → Terms
first_of addr tx = (tx.sender, addr, tx.value, tx.tx_hash)

contains-insert_self :
    {V : Type 0} (k : Bytes) (v : V) (m : Dict Bytes V) → contains k (insert k v m) ≡ true
contains-insert_self k v m = ground (arith, lookup-insert k k v m, bytes_beq_refl k)

module _ (tx_digest : Transaction → Bytes) (raw_digest : BrokerRawMeg → Bytes) where
  pub register-kept :
      (ms : List BrokerRawMeg) (b : Broker) (k : Bytes)
      → contains k b.broker_raw_megs ≡ true
      → contains k (register tx_digest raw_digest ms b).broker_raw_megs ≡ true
  unfolding register
  register-kept [] b k h = h
  register-kept (m ∷ ms) b k h =
      register-kept ms (record b { broker_raw_megs = insert (raw_digest m) m b.broker_raw_megs }) k
        (contains-insert (raw_digest m) k m b.broker_raw_megs h)

  pub register-adds :
      (ms : List BrokerRawMeg) (b : Broker)
      → All
          (λ m. contains (raw_digest m) (register tx_digest raw_digest ms b).broker_raw_megs ≡ true)
          ms
  unfolding register
  register-adds [] b = tt
  register-adds (m ∷ ms) b =
      let b1 = record b { broker_raw_megs = insert (raw_digest m) m b.broker_raw_megs } in
      (
        register-kept ms b1 (raw_digest m)
            (contains-insert_self (raw_digest m) m b.broker_raw_megs),
        register-adds ms b1,
      )

  pub register-address :
      (ms : List BrokerRawMeg) (b : Broker)
      → (register tx_digest raw_digest ms b).broker_address ≡ b.broker_address
  unfolding register
  register-address [] b = refl
  register-address (m ∷ ms) b =
      register-address ms (record b { broker_raw_megs = insert (raw_digest m) m b.broker_raw_megs })

  pub make_tx1s-terms :
      (ms : List BrokerType1Meg) (d : Desk)
      → All (λ m. contains (raw_digest m.raw_meg) d.broker.broker_raw_megs ≡ true) ms
      → IsSettled raw_digest d
      → let (d', tx1s) = make_tx1s tx_digest raw_digest ms d in
        (map terms tx1s ≡ map (λ m. first_of m.broker m.raw_meg.tx) ms)
        × (d'.broker ≡ d.broker)
        × IsSettled raw_digest d'
  unfolding make_tx1s new_transaction
  make_tx1s-terms [] d known settled = (refl, refl, settled)
  make_tx1s-terms (m ∷ ms) d (e, known) settled =
      let (now, clock) = read_time d.clock in
      let tx1 = part_of tx_digest raw_digest m.raw_meg.tx m.raw_meg.tx.sender m.broker now in
      let confirm1 : Mag1Confirm = record { tx1_hash = tx1.tx_hash; raw_meg = m.raw_meg } in
      let (parts, same, settled1) =
        make_tx1s-terms ms
          (record d {
            clock = clock;
            broker_confirm1_pool = insert tx1.tx_hash confirm1 d.broker_confirm1_pool;
          })
          known
          (All-insert (λ e. contains (raw_digest e.1.raw_meg) d.broker.broker_raw_megs ≡ true)
            tx1.tx_hash confirm1 d.broker_confirm1_pool (λ j. e) settled) in
      (ap (λ l. first_of m.broker m.raw_meg.tx ∷ l) parts, same, settled1)
