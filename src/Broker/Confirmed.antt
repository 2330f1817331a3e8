-- ===== src/Broker/Confirmed.antt =====
-- What follows from the confirmation of a transaction with a broker (createConfirm of
-- committee_broker.go and committee_clpa_broker.go).
use blockchain_sharding.Base.{
  ℕ, ◌<◌, true, false, Option, none, some, List, [], ◌∷◌, Bytes, contains, nat_beq, keep, All, map,
  get_elem?, ◌≡◌, refl, ap, ◌∙◌, bytes_eq,
}
use blockchain_sharding.Core.Transaction.{Transaction}
use blockchain_sharding.Supervisor.Committee.Sending.{InjectTxs}
use blockchain_sharding.Supervisor.Committee.Delivered.{got}
use blockchain_sharding.Broker.State.{BrokerRawMeg, BrokerType2Meg, Mag1Confirm, Broker, Desk}
use blockchain_sharding.Broker.Desk.{
  found, make_tx2s, handle_tx2_confirm_mag, handle_broker_type2_mes, handle_tx1_confirm_mag,
  handle_confirm1s, create_confirm,
}
use blockchain_sharding.Broker.Parts.{
  Terms, terms, second_part, is_at, HasShard, terms_route, terms_at, HasRoute, map-map, All-imp,
  everywhere, tx_sending-terms, keep-cong, All-map,
}
use blockchain_sharding.Broker.Settled.{
  IsSettled, IsSettled-same, first-IsBroker, All-found, make_tx2s-terms, make_type2s-known,
  handle_tx2_confirm_mag-same,
}

module _ (tx_digest : Transaction → Bytes) (raw_digest : BrokerRawMeg → Bytes) where
  module _ (shard_num : ℕ) (speed : ℕ) (shard_of : Bytes → Option ℕ) where
    second_route :
        (b : Broker) (addr : Bytes) (m : BrokerRawMeg)
        → get_elem? b.broker_address 0 ≡ some addr
        → HasShard shard_of addr
        → terms_route shard_of b (second_part addr m) ≡ shard_of m.tx.recipient
    second_route b addr m first (s, at) = rw at (rw (first-IsBroker b addr first) refl)

    handle_broker_type2_mes-terms :
        (sid : ℕ) (ms : List BrokerType2Meg) (d : Desk)
        → sid < shard_num
        → 0 < speed
        → All (λ m. HasRoute shard_of d.broker (second_part m.broker m.raw_meg)) ms
        → (d' : Desk) × (sent : List InjectTxs) × (handle_broker_type2_mes tx_digest raw_digest
              shard_num speed shard_of ms d
            ≡ some (d', sent))
          × (d'.broker ≡ d.broker)
          × (d'.broker_confirm1_pool ≡ d.broker_confirm1_pool)
          × (map terms (got sid sent)
              ≡ keep
                  (terms_at shard_of d.broker sid)
                  (map (λ m. second_part m.broker m.raw_meg) ms))
    unfolding handle_broker_type2_mes
    handle_broker_type2_mes-terms sid ms d small positive h =
        let (d', tx2s) = make_tx2s tx_digest raw_digest ms d in
        let (parts, same, pool) = make_tx2s-terms tx_digest raw_digest ms d in
        let (sent, run, gets) =
          tx_sending-terms tx_digest raw_digest shard_num speed shard_of sid d.broker tx2s
            (map (λ m. second_part m.broker m.raw_meg) ms) small positive parts
            (All-map (HasRoute shard_of d.broker) (λ m. second_part m.broker m.raw_meg) ms h) in
        (d', sent, rw run refl, same, pool, gets)

    handle_confirm1s-terms :
        (sid : ℕ) (cs : List Mag1Confirm) (d : Desk) (addr : Bytes)
        → sid < shard_num
        → 0 < speed
        → IsSettled raw_digest d
        → get_elem? d.broker.broker_address 0 ≡ some addr
        → HasShard shard_of addr
        → All (λ c. contains (raw_digest c.raw_meg) d.broker.broker_raw_megs ≡ true) cs
        → All (λ c. HasShard shard_of c.raw_meg.tx.recipient) cs
        → (d' : Desk) × (sent : List InjectTxs) × (handle_confirm1s tx_digest raw_digest shard_num
              speed shard_of cs d
            ≡ some (d', sent))
          × IsSettled raw_digest d'
          × (map terms (got sid sent)
              ≡ keep (λ t. is_at shard_of sid t.1) (map (λ c. second_part addr c.raw_meg) cs))
    unfolding handle_confirm1s handle_tx1_confirm_mag
    handle_confirm1s-terms sid [] d addr small positive settled first at known h =
        (d, [], refl, settled, refl)
    handle_confirm1s-terms sid (c ∷ cs) d addr small positive settled first at known h =
        let (b, run, megs, addrs) =
          make_type2s-known tx_digest raw_digest (c ∷ cs) d.broker addr first known in
        let first1 : get_elem? b.broker_address 0 ≡ some addr =
          ap (λ l. get_elem? l 0) addrs ∙ first in
        let to_type2 : Mag1Confirm → BrokerType2Meg =
          λ c. record { raw_meg = c.raw_meg; broker = addr } in
        let second : BrokerType2Meg → Terms = λ m. second_part m.broker m.raw_meg in
        let (d', sent, sends, same, pool, gets) =
          handle_broker_type2_mes-terms sid (map to_type2 (c ∷ cs)) (record d { broker = b }) small
            positive
            (All-map (λ m. HasRoute shard_of b (second m)) to_type2 (c ∷ cs)
              (All-imp (λ c. HasShard shard_of c.raw_meg.tx.recipient)
                (λ c. HasRoute shard_of b (second_part addr c.raw_meg)) (c ∷ cs)
                (λ c h. (h.0, second_route b addr c.raw_meg first1 at ∙ h.1)) h)) in
        (
          d',
          sent,
          rw (handle_tx1_confirm_mag, run) sends,
          IsSettled-same raw_digest d d' (ap (λ b. b.broker_raw_megs) same ∙ megs) pool settled,
          gets
              ∙ ap (keep (terms_at shard_of b sid)) (map-map second to_type2 (c ∷ cs))
              ∙ keep-cong (terms_at shard_of b sid) (λ t. is_at shard_of sid t.1)
                  (map (λ c. second_part addr c.raw_meg) (c ∷ cs))
                  (All-map (λ t. terms_at shard_of b sid t ≡ is_at shard_of sid t.1)
                    (λ c. second_part addr c.raw_meg) (c ∷ cs)
                    (everywhere
                      (λ c.
                        terms_at shard_of b sid (second_part addr c.raw_meg)
                        ≡ is_at shard_of sid c.raw_meg.tx.recipient)
                      (c ∷ cs)
                      (λ c.
                        ap (λ o. elim o [ none ↦ false | some s ↦ nat_beq s sid ])
                          (second_route b addr c.raw_meg first1 at)))),
        )

    -- At a desk of which every confirmation that is waited for is about a known message, with a
    -- first broker whose account has a shard, a speed that is not zero, and shards for the
    -- recipients of the messages confirmed: confirming a list of transactions does not panic, the
    -- desk stays such a desk, and what a shard that exists gets is, in order, one transaction for
    -- each confirmation found whose final recipient is in that shard: from the broker to that
    -- recipient, with the value and the hash of the transaction that the broker stands in for.
    pub create_confirm-terms :
        (sid : ℕ) (txs : List Transaction) (d : Desk) (addr : Bytes)
        → sid < shard_num
        → 0 < speed
        → IsSettled raw_digest d
        → get_elem? d.broker.broker_address 0 ≡ some addr
        → HasShard shard_of addr
        → All (λ c. HasShard shard_of c.raw_meg.tx.recipient) (found d.broker_confirm1_pool txs)
        → (d' : Desk) × (sent : List InjectTxs) × (create_confirm tx_digest raw_digest shard_num
              speed shard_of txs d
            ≡ some (d', sent))
          × IsSettled raw_digest d'
          × (map terms (got sid sent)
              ≡ keep
                  (λ t. is_at shard_of sid t.1)
                  (map (λ c. second_part addr c.raw_meg) (found d.broker_confirm1_pool txs)))
    unfolding create_confirm
    create_confirm-terms sid txs d addr small positive settled first at h =
        let (d1, sent, run, settled1, gets) =
          handle_confirm1s-terms sid (found d.broker_confirm1_pool txs) d addr small positive
            settled first at
            (All-found (λ c. contains (raw_digest c.raw_meg) d.broker.broker_raw_megs ≡ true)
              d.broker_confirm1_pool txs settled)
            h in
        let confirm2s = found d.broker_confirm2_pool txs in
        let (megs, pool) = handle_tx2_confirm_mag-same tx_digest raw_digest confirm2s d1 in
        let d' = handle_tx2_confirm_mag tx_digest raw_digest confirm2s d1 in
        (d', sent, rw run refl, IsSettled-same raw_digest d1 d' megs pool settled1, gets)
